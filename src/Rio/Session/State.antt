-- ===== src/Rio/Session/State.antt =====
-- The state of RIOSession, and what it takes from its surroundings.
use fast_port.Prelude.{ℕ, ◌*◌, Bool, false, List, [], to_u32, add32}
use fast_port.Buffers.Span.{Span}
use fast_port.Packets.Packet.{Packet}
use fast_port.Rio.Slices.{RioBufferSlice}
use fast_port.Sessions.IoSession.State.{Event}

-- A serialised packet that waits, and how much of it is in the send buffer.
pub record PendingPacket : Type 0 where
  pub bytes : List ℕ
  pub offset : ℕ

pub record RioSession (B : Type 0) : Type 0 where
  -- Whether RIOCreateRequestQueue gave a queue.
  pub has_request_queue : Bool
  pub recv_slice : RioBufferSlice
  pub send_slice : RioBufferSlice
  pub send_in_progress : Bool
  pub receive_loop_started : Bool
  pub is_disconnected : Bool
  pub pending_send_queue : List PendingPacket
  pub pending_total_bytes : ℕ
  pub total_rx_bytes : ℕ
  pub total_tx_bytes : ℕ
  pub receive_buffer : B
  pub send_buffer : B
  -- What the system holds: operations in flight, the span that it fills and the bytes that it sends.
  pub recvs : ℕ
  pub sends : ℕ
  pub recv_span : List Span
  pub in_flight : List ℕ
  -- What was reported, the bytes that the system has sent, and the bytes of all messages taken.
  pub events : List Event
  pub sent_bytes : List ℕ
  pub taken_bytes : List ℕ

-- RIO_BUF.
pub record RioBuf : Type 0 where
  pub buffer_id : ℕ
  pub offset : ℕ
  pub len : ℕ

-- The part of a slice that a span of its memory is.
abbrev pub rio_buf : RioBufferSlice → Span → RioBuf
rio_buf slice span = record {
  buffer_id = slice.buffer_id;
  offset = add32 slice.offset (to_u32 span.start);
  len = to_u32 span.len;
}

-- 10 MB.
abbrev pub max_pending_bytes : ℕ
max_pending_bytes = 10 * 1024 * 1024

-- `RIOReceive` and `RIOSend` answer whether they took the operation; a subclass answers a packet with
-- messages that it sends.
pub record RioEnv (B : Type 0) : Type 0 where
  pub rio_receive : RioBuf → RioSession B → Bool
  pub rio_send : RioBuf → RioSession B → Bool
  pub on_packet_received : Packet → List (ℕ × List ℕ)

-- The constructor.
abbrev pub new_session :
    {B : Type 0} → Bool → RioBufferSlice → RioBufferSlice → B → B → RioSession B
new_session has_queue recv_slice send_slice receive_buffer send_buffer = record {
  has_request_queue = has_queue;
  recv_slice = recv_slice;
  send_slice = send_slice;
  send_in_progress = false;
  receive_loop_started = false;
  is_disconnected = false;
  pending_send_queue = [];
  pending_total_bytes = 0;
  total_rx_bytes = 0;
  total_tx_bytes = 0;
  receive_buffer = receive_buffer;
  send_buffer = send_buffer;
  recvs = 0;
  sends = 0;
  recv_span = [];
  in_flight = [];
  events = [];
  sent_bytes = [];
  taken_bytes = [];
}
