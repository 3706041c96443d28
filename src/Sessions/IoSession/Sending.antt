-- ===== src/Sessions/IoSession/Sending.antt =====
-- Sending: the queue, the one send in flight, and messages written in place.
pub mod Appends
use fast_port.Prelude.{
  ℕ, ◌+◌, ◌-◌, ◌≤◌, Bool, true, false, List, [], ◌∷◌, length, blit, ltb, leb, ◌==◌, if◌then◌else◌,
  to_u16, to_u32,
}
use fast_port.Buffers.Interface.{IBuffer}
use fast_port.Buffers.Span.{Span}
use fast_port.Packets.Packet.{header_size, packet_id_size, to_network}
use fast_port.Sessions.Gather.{Cursor, write_to_buffers}
use fast_port.Sessions.IoSession.State.{
  Session, null, opened, closed, Env, increment, Call, send_message_call, disconnect_call,
}
use fast_port.Sessions.IoSession.Disconnect.{
  request_disconnect, request_disconnect_with, undo_outstanding_on_failure,
}

-- The body: serialised in place where the current span has room for it, through the spans otherwise.
unfoldable pub write_body : Cursor → List ℕ → List ℕ
write_body c body = elim c.spans [
  | [] ↦ (write_to_buffers c.memory c.spans c.offset body).memory
  | s ∷ ss ↦
      if leb (length body) (s.len - c.offset)
      then blit c.memory (s.start + c.offset) body
      else (write_to_buffers c.memory c.spans c.offset body).memory
]

-- Size, id and body, from the first reserved span on.
unfoldable pub write_message : List ℕ → List Span → ℕ → ℕ → List ℕ → List ℕ
write_message memory buffers total_size packet_id body =
    let c = write_to_buffers memory buffers 0 (to_network (to_u16 total_size)) in
    let d = write_to_buffers c.memory c.spans c.offset (to_network packet_id) in
    if length body == 0 then d.memory else write_body d body

-- A span as a WSABUF, whose size has 32 bits.
abbrev pub wsa_buf : Span → Span
wsa_buf span = record span { len = to_u32 span.len }

abbrev pub wsa_bufs : List Span → List Span
wsa_bufs [] = []
wsa_bufs (span ∷ spans) = wsa_buf span ∷ wsa_bufs spans

module _ (I : IBuffer) (env : Env I.Buf) where
  open I use {Buf, memory, with_memory, write, allocate_write, get_read_buffers}

  unfoldable pub prepare_send_buffers : List Span → ℕ → Session Buf → Session Buf
  prepare_send_buffers buffers bytes_to_send s = record s {
    requested_bytes = bytes_to_send;
    send_wsabufs = wsa_bufs buffers;
  }

  unfoldable pub wsa_send_call : Session Buf → Bool × Session Buf
  wsa_send_call s =
      let s' = record s { outstanding_io_count = increment s.outstanding_io_count } in
      if env.wsa_send s'
      then (true, record s' { sends = s'.sends + 1 })
      else (false, record (undo_outstanding_on_failure I s') { send_in_progress = false })

  -- The part of `TryPostSendFromQueue` that has taken the flag.
  unfoldable pub post_send : Session Buf → Bool × Session Buf
  post_send s =
      let (bytes_to_send, buffers) = get_read_buffers s.send_buffer in
      if bytes_to_send == 0
      then (true, record s { send_in_progress = false })
      else (let s' = prepare_send_buffers buffers bytes_to_send s in
          elim s'.socket [
            | null ↦ (false, record s' { send_in_progress = false })
            | opened ↦ wsa_send_call s'
            | closed ↦ wsa_send_call s'
          ])

  unfoldable pub try_post_send_from_queue : Session Buf → Bool × Session Buf
  try_post_send_from_queue s =
      if s.disconnect_requested
      then (false, s)
      else if s.send_in_progress
      then (true, s)
      else post_send (record s { send_in_progress = true })

  -- `SendBuffer`.
  unfoldable pub send_bytes : List ℕ → Session Buf → Session Buf
  send_bytes bytes s =
      if length bytes == 0
      then s
      else if s.disconnect_requested
      then s
      else (let (ok, buffer') = write s.send_buffer bytes in
          if ok
          then (try_post_send_from_queue (record s { send_buffer = buffer' })).1
          else record s { send_buffer = buffer' })

  unfoldable pub send_message : ℕ → List ℕ → Session Buf → Session Buf
  send_message packet_id body s =
      let total_size = header_size + packet_id_size + length body in
      if s.disconnect_requested
      then s
      else (let (ok, buffers, buffer') = allocate_write s.send_buffer total_size in
          if ok
          then (let filled = write_message (memory buffer') buffers total_size packet_id body in
              (try_post_send_from_queue (record s { send_buffer = with_memory buffer' filled })).1)
          else request_disconnect I (record s { send_buffer = buffer' }))

  -- What a callback asks for.
  unfoldable pub run_call : Call → Session Buf → Session Buf
  run_call (send_message_call packet_id body) s = send_message packet_id body s
  run_call (disconnect_call reason) s = request_disconnect_with I reason s

  unfoldable pub run_calls : List Call → Session Buf → Session Buf
  run_calls [] s = s
  run_calls (c ∷ cs) s = run_calls cs (run_call c s)
