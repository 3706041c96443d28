-- ===== src/Server/Inbound.antt =====
-- The sessions of the servers' clients, IOCPInboundSession of FastPortServer/IOCPInboundSession.cpp and
-- RIOInboundSession of FastPortServerRIO/RIOInboundSession.cpp: the packets that they answer.
pub mod Replies
use fast_port.Prelude.{
  ℕ, Bool, true, false, Option, none, some, List, [], ◌∷◌, ◌==◌, if◌then◌else◌, add64,
}
use fast_port.Packets.Packet.{Packet}
use fast_port.Server.Messages.{Message, ok, benchmark_response, echo_response, Wire}
use fast_port.Server.Admin.{CollectorView, Sent, is_admin_packet_id, handle_packet}

abbrev pub echo_request_id : ℕ
echo_request_id = 1

abbrev pub benchmark_request_id : ℕ
benchmark_request_id = 4097

abbrev pub benchmark_response_id : ℕ
benchmark_response_id = 4098

-- What a handler reads from outside: the nanosecond clock twice, the clock of seconds, and the collector
-- behind the global administration handler, if there is one.
pub record Moment : Type 0 where
  pub recv_ns : ℕ
  pub send_ns : ℕ
  pub now_s : ℕ
  pub admin : Option CollectorView

module _ (wire : Wire) where
  unfoldable pub handle_benchmark_request : Moment → Packet → Sent wire
  handle_benchmark_request m p = elim (wire.parse_benchmark p.payload) [
    | none ↦ []
    | some request ↦
        (
          benchmark_response_id,
          benchmark_response (record {
            header = record {
              request_id = request.header.request_id;
              timestamp_ms = request.header.timestamp_ms;
            };
            result = ok;
            client_timestamp_ns = request.client_timestamp_ns;
            server_recv_timestamp_ns = m.recv_ns;
            server_send_timestamp_ns = m.send_ns;
            sequence = request.sequence;
            payload = request.payload;
          }),
        )
        ∷ []
  ]

  unfoldable pub handle_echo_request : Moment → Packet → Sent wire
  handle_echo_request m p = elim (wire.parse_echo p.payload) [
    | none ↦ []
    | some request ↦
        (
          p.packet_id,
          echo_response (record {
            header = record {
              request_id = add64 request.header.request_id 1;
              timestamp_ms = m.now_s;
            };
            result = ok;
            data_str = request.data_str;
          }),
        )
        ∷ []
  ]

  abbrev pub dispatch_admin : Option CollectorView → Packet → Sent wire
  dispatch_admin none p = []
  dispatch_admin (some v) p = (handle_packet wire v p).1

  unfoldable pub on_packet_received : Moment → Packet → Sent wire
  on_packet_received m p =
      if is_admin_packet_id p.packet_id
      then dispatch_admin m.admin p
      else if p.packet_id == benchmark_request_id
      then handle_benchmark_request m p
      else if p.packet_id == echo_request_id
      then handle_echo_request m p
      else []
