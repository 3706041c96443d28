-- ===== src/Server/Admin.antt =====
-- AdminPacketHandler of LibNetworks/AdminPacketHandler.ixx and AdminPacketHandler.cpp: the requests of the
-- administrator, answered from the collector's snapshots.
pub mod Answers
pub mod Range
use Prim.Native.Nat.{bit_and}
use fast_port.Prelude.{ℕ, Bool, true, false, Option, none, some, List, [], ◌∷◌, ◌==◌, if◌then◌else◌}
use fast_port.Packets.Packet.{Packet}
use fast_port.Stats.Collector.{
  ServerMode, SessionStats, Snapshot, Provided, SummaryData, SessionListData, snapshot_summary,
  snapshot_sessions,
}
use fast_port.Server.Messages.{
  Header, ok, AdminStatusSummaryRequest, AdminSessionListRequest, Message, summary_response,
  session_list_response, Wire,
}

abbrev pub summary_request_id : ℕ
summary_request_id = 32769

abbrev pub summary_response_id : ℕ
summary_response_id = 32770

abbrev pub session_list_request_id : ℕ
session_list_request_id = 32771

abbrev pub session_list_response_id : ℕ
session_list_response_id = 32772

-- The range from 0x8000 to 0x8fff.
unfoldable pub is_admin_packet_id : ℕ → Bool
is_admin_packet_id id = bit_and id 61440 == 32768

-- The collector at the time of a call: what its providers, its clocks and its sampler give, and whether the
-- handler that asks it ends by a `std::exception`, before it has sent anything.
pub record CollectorView : Type 0 where
  pub server_mode : ServerMode
  pub start_ms : ℕ
  pub steady_ms : ℕ
  pub wall_ms : ℕ
  pub sessions : Provided Snapshot
  pub idle : Provided ℕ
  pub sampler : Option (ℕ × ℕ)
  pub handler_throws : Bool

abbrev pub summary : CollectorView → SummaryData
summary v =
    snapshot_summary v.server_mode v.start_ms v.steady_ms v.wall_ms v.sessions v.idle v.sampler

module _ (wire : Wire) where
  -- What a call sends, oldest first.
  abbrev pub Sent : Type 0
  Sent = List (ℕ × Message)

  unfoldable pub handle_summary_request : CollectorView → Packet → Sent
  handle_summary_request v p = elim (wire.parse_summary p.payload) [
    | none ↦ []
    | some request ↦
        let s = summary v in
        (
          summary_response_id,
          summary_response (record {
            header = record {
              request_id = request.header.request_id;
              timestamp_ms = request.header.timestamp_ms;
            };
            result = ok;
            server_uptime_ms = s.uptime_ms;
            active_session_count = s.active_session_count;
            total_rx_bytes = s.total_rx_bytes;
            total_tx_bytes = s.total_tx_bytes;
            idle_disconnect_count = s.idle_disconnect_count;
            server_mode = s.server_mode;
            process_memory_bytes = s.process_memory_bytes;
            process_cpu_percent = s.process_cpu_percent;
            server_timestamp_ms = s.server_timestamp_ms;
          }),
        )
        ∷ []
  ]

  unfoldable pub handle_session_list_request : CollectorView → Packet → Sent
  handle_session_list_request v p = elim (wire.parse_session_list p.payload) [
    | none ↦ []
    | some request ↦
        let list = snapshot_sessions v.sessions request.offset request.limit in
        (
          session_list_response_id,
          session_list_response (record {
            header = record {
              request_id = request.header.request_id;
              timestamp_ms = request.header.timestamp_ms;
            };
            result = ok;
            total = list.total;
            offset = list.offset;
            sessions = list.sessions;
          }),
        )
        ∷ []
  ]

  -- What a handler under the `try` of HandlePacket sends; an exception is caught, and logged.
  abbrev pub caught : CollectorView → Sent → Sent
  caught v sent = if v.handler_throws then [] else sent

  -- Whether the packet is consumed, and what is sent.
  unfoldable pub handle_packet : CollectorView → Packet → Bool × Sent
  handle_packet v p =
      if is_admin_packet_id p.packet_id
      then (
        true,
        if p.packet_id == summary_request_id
            then caught v (handle_summary_request v p)
            else if p.packet_id == session_list_request_id
            then caught v (handle_session_list_request v p)
            else [],
      )
      else (false, [])
