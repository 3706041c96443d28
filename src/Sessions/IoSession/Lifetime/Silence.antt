-- ===== src/Sessions/IoSession/Lifetime/Silence.antt =====
-- After a session was asked to end its subclass hears of nothing but the end.
use fast_port.Prelude.{ℕ, ◌-◌, ◌≡◌, Bool, true, false, List, [], ◌∷◌, length, arith}
use fast_port.Buffers.Interface.{IBuffer}
use fast_port.Sessions.IoSession.State.{
  Session, Env, Event, packet_received, sent, disconnected, DisconnectReason, normal,
}
use fast_port.Sessions.IoSession.Disconnect.{
  request_disconnect, request_disconnect_with, first_pass, try_fire_on_disconnected,
  undo_outstanding_on_failure, leave_completion,
}
use fast_port.Sessions.IoSession.Posting.{
  prepare_recv_buffers, wsa_recv_call, request_recv, start_receive_loop,
}
use fast_port.Sessions.IoSession.Sending.{send_bytes, send_message}
use fast_port.Sessions.IoSession.Receiving.{
  handle_zero_byte_recv_completion, after_commit, handle_real_recv_completion,
  handle_recv_completion, handle_send_completion, on_recv_completed, on_send_completed,
}
use fast_port.Sessions.IoSession.Lifetime.Reach.{
  received, Step, starts, sends_message, sends_bytes, disconnects_with, recv_completes,
  send_completes,
}

-- The packets and send completions that the subclass was told of.
abbrev pub callbacks : List Event → List Event
callbacks [] = []
callbacks (packet_received p ∷ es) = packet_received p ∷ callbacks es
callbacks (sent n ∷ es) = sent n ∷ callbacks es
callbacks (disconnected ∷ es) = callbacks es

abbrev pub Silent : {B : Type 0} → Session B → Session B → Type 0
Silent s t = (t.disconnect_requested ≡ true) × (callbacks t.events ≡ callbacks s.events)

module _ (I : IBuffer) (env : Env I.Buf) where
  open I use {Buf}

  request_disconnect_with-Silent :
      (reason : DisconnectReason) (s : Session Buf)
      → s.disconnect_requested ≡ true
      → Silent s (request_disconnect_with I reason s)
  unfolding request_disconnect_with first_pass try_fire_on_disconnected
  request_disconnect_with-Silent reason s h = ground arith

  request_disconnect-Silent :
      (s : Session Buf) → s.disconnect_requested ≡ true → Silent s (request_disconnect I s)
  unfolding request_disconnect
  request_disconnect-Silent s h = request_disconnect_with-Silent normal s h

  request_recv-Silent :
      (zero_byte : Bool) (s : Session Buf)
      → s.disconnect_requested ≡ true
      → Silent s (request_recv I env zero_byte s).1
  unfolding request_recv prepare_recv_buffers wsa_recv_call undo_outstanding_on_failure
  request_recv-Silent zero_byte s h =
      ground (
        arith,
        request_disconnect-Silent (record s { is_zero_byte = zero_byte; recv_wsabufs = [] }),
      )

  handle_zero_byte-Silent :
      (n : ℕ) (s : Session Buf)
      → s.disconnect_requested ≡ true
      → Silent s (handle_zero_byte_recv_completion I env n s)
  unfolding handle_zero_byte_recv_completion
  handle_zero_byte-Silent n s h =
      let s' : Session Buf = (request_recv I env false s).1 in
      ground (
        arith,
        request_recv-Silent false s h,
        request_disconnect-Silent (record s' { recv_in_progress = false }),
      )

  handle_real-Silent :
      (n : ℕ) (s : Session Buf)
      → s.disconnect_requested ≡ true
      → Silent s (handle_real_recv_completion I env n s)
  unfolding handle_real_recv_completion after_commit
  handle_real-Silent n s h =
      let buffer' = (I.commit_write s.receive_buffer n).1 in
      ground (
        arith,
        request_disconnect-Silent (record s { recv_in_progress = false }),
        request_disconnect-Silent (record s { receive_buffer = buffer'; recv_in_progress = false }),
      )

  handle_recv-Silent :
      (success : Bool) (n : ℕ) (s : Session Buf)
      → s.disconnect_requested ≡ true
      → Silent s (handle_recv_completion I env success n s)
  unfolding handle_recv_completion
  handle_recv-Silent success n s h = ground (
    arith,
    handle_zero_byte-Silent n s h,
    handle_real-Silent n s h,
    request_disconnect-Silent (record s { recv_in_progress = false }),
  )

  handle_send-Silent :
      (success : Bool) (n : ℕ) (s : Session Buf)
      → s.disconnect_requested ≡ true
      → Silent s (handle_send_completion I env success n s)
  unfolding handle_send_completion
  handle_send-Silent success n s h =
      ground (arith, request_disconnect-Silent (record s { send_in_progress = false }))

  leave-Silent : (s : Session Buf) → s.disconnect_requested ≡ true → Silent s (leave_completion I s)
  unfolding leave_completion try_fire_on_disconnected
  leave-Silent s h = ground arith

  -- Once the end was asked for, no call and no completion tells the subclass of a packet or of a send,
  -- and the request stands.
  pub Step-Silent :
      {s t : Session Buf} → s.disconnect_requested ≡ true → Step I env s t → Silent s t
  unfolding start_receive_loop send_message send_bytes on_recv_completed on_send_completed received
  Step-Silent {s} h starts = ground arith
  Step-Silent {s} h (sends_message id body) = ground arith
  Step-Silent {s} h (sends_bytes bytes) = ground arith
  Step-Silent {s} h (disconnects_with reason) = request_disconnect_with-Silent reason s h
  Step-Silent {s} h (recv_completes success bytes ne) =
      let t : Session Buf = received I env bytes (record s { recvs = s.recvs - 1 }) in
      ground (
        arith,
        handle_recv-Silent success (length bytes) t,
        leave-Silent (handle_recv_completion I env success (length bytes) t),
      )
  Step-Silent {s} h (send_completes success n ne) =
      let t : Session Buf = record s { sends = s.sends - 1 } in
      ground (
        arith,
        handle_send-Silent success n t,
        leave-Silent (handle_send_completion I env success n t),
      )
