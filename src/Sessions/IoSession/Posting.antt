-- ===== src/Sessions/IoSession/Posting.antt =====
-- Posting a receive: the zero-byte receive that waits for data, and the real one.
use fast_port.Prelude.{◌+◌, Bool, true, false, [], ◌∷◌, ◌==◌, if◌then◌else◌}
use fast_port.Buffers.Interface.{IBuffer}
use fast_port.Sessions.IoSession.State.{Session, null, opened, closed, Env, increment}
use fast_port.Sessions.IoSession.Disconnect.{request_disconnect, undo_outstanding_on_failure}

module _ (I : IBuffer) (env : Env I.Buf) where
  open I use {Buf, get_writeable_buffers}

  unfoldable pub prepare_recv_buffers : Bool → Session Buf → Bool × Session Buf
  prepare_recv_buffers zero_byte s =
      let s' = record s { is_zero_byte = zero_byte; recv_wsabufs = [] } in
      if zero_byte
      then (true, record s' { recv_wsabufs = record { start = 0; len = 0 } ∷ [] })
      else (let (writable_size, buffers) = get_writeable_buffers s'.receive_buffer in
          if writable_size == 0
          then (false, request_disconnect I s')
          else (true, record s' { recv_wsabufs = buffers }))

  -- The counter goes up before the call, and is put back when the call fails.
  unfoldable pub wsa_recv_call : Session Buf → Bool × Session Buf
  wsa_recv_call s =
      let s' = record s { outstanding_io_count = increment s.outstanding_io_count } in
      if env.wsa_recv s'
      then (true, record s' { recvs = s'.recvs + 1 })
      else (false, undo_outstanding_on_failure I s')

  unfoldable pub request_recv : Bool → Session Buf → Bool × Session Buf
  request_recv zero_byte s =
      let (ok, s') = prepare_recv_buffers zero_byte s in
      if ok
      then elim s'.socket [
        | null ↦ (false, s')
        | opened ↦ wsa_recv_call s'
        | closed ↦ wsa_recv_call s'
      ]
      else (false, s')

  unfoldable pub request_received : Session Buf → Session Buf
  request_received s =
      if s.disconnect_requested
      then s
      else if s.recv_in_progress
      then s
      else (let (ok, s') = request_recv true (record s { recv_in_progress = true }) in
          if ok then s' else request_disconnect I (record s' { recv_in_progress = false }))

  unfoldable pub start_receive_loop : Session Buf → Session Buf
  start_receive_loop s =
      if s.disconnect_requested
      then s
      else if s.receive_loop_started
      then s
      else request_received (record s { receive_loop_started = true })
