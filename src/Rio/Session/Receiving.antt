-- ===== src/Rio/Session/Receiving.antt =====
-- Receiving of RIOSession and its completions.
use fast_port.Prelude.{
  ℕ, zero, suc, ◌+◌, Bool, true, false, none, some, [], ◌∷◌, ◌++◌, take, ◌==◌, if◌then◌else◌, add64,
}
use fast_port.Buffers.Interface.{IBuffer}
use fast_port.Buffers.Span.{Span}
use fast_port.Packets.Framer.{ok, need_more, invalid, try_frame_from_buffer}
use fast_port.Sessions.IoSession.State.{packet_received, disconnected}
use fast_port.Rio.Session.State.{RioSession, RioEnv, rio_buf}
use fast_port.Rio.Session.Sending.{flush_pending_send_queue, send_messages}

pub data RioOperationType : Type 0 where
  receive send : RioOperationType

module _ (I : IBuffer) (env : RioEnv I.Buf) where
  open I use {Buf, can_read_size, consume, commit_write, get_writeable_buffers}

  -- The first contiguous part of the free space is given to the system.
  unfoldable pub post_recv : Span → RioSession Buf → RioSession Buf
  post_recv span s =
      if env.rio_receive (rio_buf s.recv_slice span) s
      then record s { recvs = s.recvs + 1; recv_span = span ∷ [] }
      else s

  unfoldable pub request_recv : RioSession Buf → RioSession Buf
  request_recv s =
      let (free_space, writeable_buffers) = get_writeable_buffers s.receive_buffer in
      if s.is_disconnected
      then s
      else if free_space == 0
      then s
      else elim writeable_buffers [ [] ↦ s | span ∷ _ ↦ post_recv span s ]

  unfoldable pub start_receive_loop : RioSession Buf → RioSession Buf
  start_receive_loop s =
      if s.receive_loop_started then s else request_recv (record s { receive_loop_started = true })

  unfoldable pub initialize_session : RioSession Buf → Bool × RioSession Buf
  initialize_session s = if s.has_request_queue then (true, start_receive_loop s) else (false, s)

  unfoldable pub on_accepted : RioSession Buf → RioSession Buf
  on_accepted s = start_receive_loop s

  unfoldable pub on_connected : RioSession Buf → RioSession Buf
  on_connected s = start_receive_loop s

  -- OnDisconnected of the base only logs; the event is a subclass's.
  unfoldable pub on_disconnected : RioSession Buf → RioSession Buf
  on_disconnected s = record s { events = disconnected ∷ s.events }

  -- One round of the loop of ReadReceivedBuffers: whether it goes on, and the session.
  unfoldable pub read_round : RioSession Buf → Bool × RioSession Buf
  read_round s =
      let (frame, buffer') = try_frame_from_buffer I s.receive_buffer in
      let s' = record s { receive_buffer = buffer' } in
      elim frame.result [
        | need_more ↦ (false, s')
        | invalid ↦ (false, s')
        | ok ↦ elim frame.packet_opt [
          | none ↦ (true, s')
          | some p ↦ (
            true,
            send_messages I env (env.on_packet_received p)
                (record s' { events = packet_received p ∷ s'.events }),
          )
        ]
      ]

  unfoldable pub read_rounds : ℕ → RioSession Buf → RioSession Buf
  read_rounds zero s = s
  read_rounds (suc f) s =
      let (again, s') = read_round s in elim again [ true ↦ read_rounds f s' | false ↦ s' ]

  -- A round that goes on takes a packet off, so one round more than there are bytes is enough.
  unfoldable pub read_received_buffers : RioSession Buf → RioSession Buf
  read_received_buffers s = read_rounds (suc (can_read_size s.receive_buffer)) s

  unfoldable pub on_received : ℕ → RioSession Buf → RioSession Buf
  on_received n s =
      let s' = record s {
        receive_buffer = (commit_write s.receive_buffer n).1;
        total_rx_bytes = add64 s.total_rx_bytes n;
      } in
      request_recv (read_received_buffers s')

  unfoldable pub on_sent : ℕ → RioSession Buf → RioSession Buf
  on_sent n s = flush_pending_send_queue I env (record s {
    send_buffer = (consume s.send_buffer n).1;
    send_in_progress = false;
    total_tx_bytes = add64 s.total_tx_bytes n;
    sent_bytes = s.sent_bytes ++ take n s.in_flight;
  })

  -- Whether a completion means the end of the connection.
  abbrev pub is_lost : Bool → ℕ → RioOperationType → Bool
  is_lost success n receive = if success then n == 0 else true
  is_lost success n send = if success then false else true

  unfoldable pub on_rio_io_completed : Bool → ℕ → RioOperationType → RioSession Buf → RioSession Buf
  on_rio_io_completed success n op s =
      if is_lost success n op
      then on_disconnected (record s { is_disconnected = true })
      else elim op [ receive ↦ on_received n s | send ↦ on_sent n s ]
