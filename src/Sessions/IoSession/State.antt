-- ===== src/Sessions/IoSession/State.antt =====
-- The state of IOSession, and what it takes from its surroundings.
use fast_port.Prelude.{ℕ, ◌+◌, ◌-◌, ◌^◌, ◌%◌, Bool, List}
use fast_port.Buffers.Span.{Span}
use fast_port.Packets.Packet.{Packet}

-- `m_pSocket`: no socket, an open one, or one that was shut down and closed.
pub data SocketState : Type 0 where
  null opened closed : SocketState

pub data DisconnectReason : Type 0 where
  normal idle_timeout backpressure protocol server : DisconnectReason

-- The virtual callbacks, in the order in which they ran.
pub data Event : Type 0 where
  packet_received : Packet → Event
  sent : ℕ → Event
  disconnected : Event

pub record Session (B : Type 0) : Type 0 where
  pub receive_loop_started : Bool
  pub recv_in_progress : Bool
  pub send_in_progress : Bool
  pub disconnect_requested : Bool
  pub on_disconnected_fired : Bool
  -- An `int`, as its 32-bit pattern.
  pub outstanding_io_count : ℕ
  pub last_recv_time_ms : ℕ
  pub total_rx_bytes : ℕ
  pub total_tx_bytes : ℕ
  pub socket : SocketState
  -- The receive and the send overlapped.
  pub is_zero_byte : Bool
  pub recv_wsabufs : List Span
  pub send_wsabufs : List Span
  pub requested_bytes : ℕ
  pub receive_buffer : B
  pub send_buffer : B
  -- What the system holds, and what was reported.
  pub recvs : ℕ
  pub sends : ℕ
  pub events : List Event

-- What a subclass does in a callback: messages that it sends and disconnects that it asks for.
pub data Call : Type 0 where
  send_message_call : ℕ → List ℕ → Call
  disconnect_call : DisconnectReason → Call

-- `WSARecv` and `WSASend` answer whether they took the operation (no error, or WSA_IO_PENDING); the
-- clock is read; the callbacks are the subclass's.
pub record Env (B : Type 0) : Type 0 where
  pub wsa_recv : Session B → Bool
  pub wsa_send : Session B → Bool
  pub now_ms : Session B → ℕ
  pub on_packet_received : Packet → List Call
  pub on_sent : ℕ → List Call

-- `fetch_add(1)` and `fetch_sub(1)` on the pattern of an `int`.
abbrev pub increment : ℕ → ℕ
increment n = (n + 1) % 2 ^ 32

abbrev pub decrement : ℕ → ℕ
decrement n = (n + 2 ^ 32 - 1) % 2 ^ 32
