-- ===== src/Sessions/IoSession/Receiving.antt =====
-- The completion handlers of IOSession.
use fast_port.Prelude.{
  ℕ, zero, suc, Bool, true, false, none, some, ◌∷◌, ltb, ◌==◌, if◌then◌else◌, add64,
}
use fast_port.Buffers.Interface.{IBuffer}
use fast_port.Packets.Framer.{PacketFrame, ok, need_more, invalid, try_frame_from_buffer}
use fast_port.Sessions.IoSession.State.{Session, Env, packet_received, sent}
use fast_port.Sessions.IoSession.Disconnect.{request_disconnect, leave_completion}
use fast_port.Sessions.IoSession.Posting.{request_recv, request_received}
use fast_port.Sessions.IoSession.Sending.{try_post_send_from_queue, run_calls}

module _ (I : IBuffer) (env : Env I.Buf) where
  open I use {Buf, can_read_size, consume, commit_write}

  -- A frame, answered: the session, and whether the loop goes on.
  unfoldable pub dispatch_frame : PacketFrame → Session Buf → Bool × Session Buf
  dispatch_frame frame s = elim frame.result [
    | need_more ↦ (false, s)
    | invalid ↦ (false, request_disconnect I s)
    | ok ↦ elim frame.packet_opt [
      | none ↦ (false, request_disconnect I s)
      | some p ↦ if s.disconnect_requested then (false, s) else (
        true,
        run_calls I env (env.on_packet_received p)
            (record s { events = packet_received p ∷ s.events }),
      )
    ]
  ]

  -- One round of the loop of `ReadReceivedBuffers`.
  unfoldable pub read_round : Session Buf → Bool × Session Buf
  read_round s =
      if s.disconnect_requested
      then (false, s)
      else (let (frame, buffer') = try_frame_from_buffer I s.receive_buffer in
          dispatch_frame frame (record s { receive_buffer = buffer' }))

  -- The loop, with a number of rounds; each round that goes on takes a packet off the buffer.
  unfoldable pub read_rounds : ℕ → Session Buf → Session Buf
  read_rounds zero s = s
  read_rounds (suc f) s =
      let (again, s') = read_round s in elim again [ true ↦ read_rounds f s' | false ↦ s' ]

  unfoldable pub read_received_buffers : Session Buf → Session Buf
  read_received_buffers s = read_rounds (suc (can_read_size s.receive_buffer)) s

  unfoldable pub handle_zero_byte_recv_completion : ℕ → Session Buf → Session Buf
  handle_zero_byte_recv_completion bytes_transferred s =
      if bytes_transferred == 0
      then (let (done, s') = request_recv I env false s in
          if done then s' else request_disconnect I (record s' { recv_in_progress = false }))
      else record s { recv_in_progress = false }

  -- Behind the commit: the bytes are counted and the packets delivered.
  unfoldable pub after_commit : ℕ → Session Buf → Session Buf
  after_commit bytes_transferred s =
      let s' = record s {
        last_recv_time_ms = env.now_ms s;
        total_rx_bytes = add64 s.total_rx_bytes bytes_transferred;
      } in
      if s'.disconnect_requested
      then record s' { recv_in_progress = false }
      else (let t = read_received_buffers s' in
          request_received I env (record t { recv_in_progress = false }))

  unfoldable pub handle_real_recv_completion : ℕ → Session Buf → Session Buf
  handle_real_recv_completion bytes_transferred s =
      if bytes_transferred == 0
      then request_disconnect I (record s { recv_in_progress = false })
      else (let (done, buffer') = commit_write s.receive_buffer bytes_transferred in
          if done
          then after_commit bytes_transferred (record s { receive_buffer = buffer' })
          else request_disconnect I
              (record s { receive_buffer = buffer'; recv_in_progress = false }))

  unfoldable pub handle_recv_completion : Bool → ℕ → Session Buf → Session Buf
  handle_recv_completion success bytes_transferred s =
      if success
      then (if s.is_zero_byte
          then handle_zero_byte_recv_completion bytes_transferred s
          else handle_real_recv_completion bytes_transferred s)
      else request_disconnect I (record s { recv_in_progress = false })

  unfoldable pub handle_send_completion : Bool → ℕ → Session Buf → Session Buf
  handle_send_completion success bytes_transferred s =
      let s1 = record s { send_in_progress = false } in
      if success
      then (let (_, buffer') = consume s1.send_buffer bytes_transferred in
          let s2 = record s1 {
            send_buffer = buffer';
            total_tx_bytes = add64 s1.total_tx_bytes bytes_transferred;
          } in
          if s2.disconnect_requested
          then s2
          else (let s3 =
                run_calls I env (env.on_sent bytes_transferred)
                  (record s2 { events = sent bytes_transferred ∷ s2.events }) in
              if ltb 0 (can_read_size s3.send_buffer)
              then (if s3.disconnect_requested then s3 else (try_post_send_from_queue I env s3).1)
              else s3))
      else request_disconnect I s1

  -- `OnIOCompleted` with the address of the receive or of the send overlapped, between the two ends of
  -- the guard.
  unfoldable pub on_recv_completed : Bool → ℕ → Session Buf → Session Buf
  on_recv_completed success bytes_transferred s =
      leave_completion I (handle_recv_completion success bytes_transferred s)

  unfoldable pub on_send_completed : Bool → ℕ → Session Buf → Session Buf
  on_send_completed success bytes_transferred s =
      leave_completion I (handle_send_completion success bytes_transferred s)
