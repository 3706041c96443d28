-- ===== src/Server/Tests.antt =====
-- Servers on concrete packets.
use fast_port.Prelude.{
  zero, suc, length, ltb, leb, ◌&&◌, ℕ, ◌≡◌, refl, true, false, Option, none, some, List, [], ◌∷◌,
  ◌++◌, arith,
}
use fast_port.Buffers.Interface.Instances.{external}
use fast_port.Buffers.External.{ExternalCircleBufferQueue}
use fast_port.Buffers.Circle.Refine
use fast_port.Packets.Packet.{
  Packet, from_buffers, get_header_from_buffer, get_packet_id_from_buffer, from_network,
}
use fast_port.Packets.Stream.{packet, next}
use fast_port.Rio.Slices.{RioBufferSlice}
use fast_port.Rio.Session.State.{RioSession, RioEnv, new_session}
use fast_port.Rio.Session.Receiving.{read_round}
use fast_port.Stats.Collector.{iocp, absent}
use fast_port.Server.Messages.{Header, AdminStatusSummaryRequest, EchoRequest, Wire}
use fast_port.Server.Admin.{CollectorView, handle_packet, summary_request_id}
use fast_port.Server.Admin.Answers.{headers, answer, requested, handle_packet-answers}
use fast_port.Server.RioMode.{create_session, connections, started_pool}
use fast_port.Server.RioMode.Exhaustion.{pool_exhausted}
use fast_port.Server.Registry.{Change, accepted, ended}
use fast_port.Server.Inbound.{Moment}
use fast_port.Server.Inbound.Replies.{frames, reply, serving, read_round-replies}
use fast_port.Rio.Session.Messages.{to_send}

-- A wire format of one byte: the request's id.
abbrev read_header : List ℕ → Option Header
read_header [] = none
read_header (id ∷ bytes) = some (record { request_id = id; timestamp_ms = 0 })

abbrev read_summary : List ℕ → Option AdminStatusSummaryRequest
read_summary bytes = elim (read_header bytes) [
  | none ↦ none
  | some h ↦ some (record { header = h })
]

abbrev read_echo : List ℕ → Option EchoRequest
read_echo bytes = elim (read_header bytes) [
  | none ↦ none
  | some h ↦ some (record { header = h; data_str = bytes })
]

abbrev wire : Wire
wire = record {
  parse_summary = read_summary;
  parse_session_list = λ bytes. none;
  parse_benchmark = λ bytes. none;
  parse_echo = read_echo;
  serialize = λ m. 9 ∷ [];
}

abbrev view : CollectorView
view = record {
  server_mode = iocp;
  start_ms = 0;
  steady_ms = 5;
  wall_ms = 7;
  sessions = absent;
  idle = absent;
  sampler = none;
  handler_throws = false;
}

abbrev asked : Packet
asked = record { packet_id = summary_request_id; payload = 3 ∷ []; raw_binaries = [] }

handle_packet-answers_example :
    let (consumed, sent) = handle_packet wire view asked in
    (consumed ≡ (leb 0x8000 asked.packet_id && ltb asked.packet_id 0x9000))
    × (headers sent ≡ answer wire asked (requested wire asked))
handle_packet-answers_example = handle_packet-answers wire view asked (omega arith)

-- An echo request of five bytes in a buffer of eight.
abbrev holding : ExternalCircleBufferQueue
holding = record {
  buffer = 0 ∷ 5 ∷ 0 ∷ 1 ∷ 7 ∷ 0 ∷ 0 ∷ 0 ∷ [];
  head = 5;
  tail = 0;
  size = 5;
  capacity = 8;
}

abbrev slice : RioBufferSlice
slice = record { buffer_id = 7; offset = 0; len = 8; address = 4096 }

abbrev session : RioSession ExternalCircleBufferQueue
session = new_session true slice slice holding holding

abbrev now : Moment
now = record { recv_ns = 1; send_ns = 2; now_s = 3; admin = some view }

holding-IsValid : external.IsValid holding
holding-IsValid = omega arith

echo_in_front : next (external.contents holding) ≡ packet (0 ∷ 5 ∷ 0 ∷ 1 ∷ 7 ∷ []) []
unfolding next Refine.contents get_header_from_buffer from_network
echo_in_front = refl

id_in_front : (from_buffers (0 ∷ 5 ∷ 0 ∷ 1 ∷ 7 ∷ [])).packet_id ≡ 1
unfolding from_buffers from_network get_packet_id_from_buffer
id_in_front = refl

read_round-replies_example :
    let (again, t) =
      read_round external (serving wire external (λ buf s. true) (λ buf s. true) now) session in
    (again ≡ true)
    × (to_send external t
        ≡ to_send external session
          ++ frames wire (reply wire now (from_buffers (0 ∷ 5 ∷ 0 ∷ 1 ∷ 7 ∷ []))))
    × (t.sent_bytes ≡ session.sent_bytes)
read_round-replies_example =
    read_round-replies wire external (λ buf s. true) (λ buf s. true) now session
      (0 ∷ 5 ∷ 0 ∷ 1 ∷ 7 ∷ []) [] holding-IsValid holding-IsValid echo_in_front
      (omega (arith, id_in_front)) refl refl

-- The session behind 2048 others.
abbrev zeros : ℕ → List ℕ
zeros zero = []
zeros (suc n) = 0 ∷ zeros n

length-zeros : (n : ℕ) → length (zeros n) ≡ n
length-zeros zero = refl
length-zeros (suc n) = omega (arith, length-zeros n)

abbrev memory_at : RioBufferSlice → List ℕ
memory_at s = zeros s.len

abbrev idle : RioEnv ExternalCircleBufferQueue
idle = record {
  rio_receive = λ buf s. true;
  rio_send = λ buf s. true;
  on_packet_received = λ p. [];
}

pool_exhausted_example :
    let t =
      (create_session idle memory_at true
        (connections idle memory_at 2048 (started_pool 4096 7))).0 in
    (t.recv_slice.len ≡ 0) × (t.send_slice.len ≡ 0) × (t.recvs ≡ 0)
pool_exhausted_example =
    pool_exhausted idle memory_at 2048 4096 7 true (λ s. length-zeros s.len) (omega arith)

-- Two sessions come, one ends.
abbrev day : List (Change ℕ)
day = accepted 4 40 ∷ accepted 5 50 ∷ ended 4 ∷ []
