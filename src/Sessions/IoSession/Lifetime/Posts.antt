-- ===== src/Sessions/IoSession/Lifetime/Posts.antt =====
-- Posting keeps the invariant: at most one receive and one send are in flight, and all are counted.
use fast_port.Prelude.{
  ℕ, ◌+◌, ◌≡◌, refl, Bool, true, false, not, List, [], ◌∷◌, length, arith, ◌==◌, Bool-cases, inl,
  inr,
}
use fast_port.Buffers.Interface.{IBuffer}
use fast_port.Sessions.IoSession.State.{Session, Env, Call, send_message_call, disconnect_call}
use fast_port.Sessions.IoSession.Disconnect.{undo_outstanding_on_failure}
use fast_port.Sessions.IoSession.Posting.{
  prepare_recv_buffers, wsa_recv_call, request_recv, request_received, start_receive_loop,
}
use fast_port.Sessions.IoSession.Sending.{
  wsa_bufs, prepare_send_buffers, wsa_send_call, post_send, try_post_send_from_queue, send_bytes,
  send_message, write_message, run_call, run_calls,
}
use fast_port.Sessions.IoSession.Lifetime.Invariant.{
  bit, Inv, request_disconnect-Inv, request_disconnect_with-Inv,
}

module _ (I : IBuffer) (env : Env I.Buf) where
  open I use {Buf}

  wsa_recv_call-Inv :
      (q k : ℕ) (s : Session Buf)
      → s.on_disconnected_fired ≡ false
      → Inv 1 q k s
      → let (ok, s') = wsa_recv_call I env s in Inv (bit (not ok)) q k s'
  unfolding wsa_recv_call undo_outstanding_on_failure
  wsa_recv_call-Inv q k s e v = ground arith

  prepare_recv_buffers-Inv :
      (q k : ℕ) (s : Session Buf) (zero_byte : Bool)
      → Inv 1 q k s
      → let (ok, s') = prepare_recv_buffers I env zero_byte s in
        Inv 1 q k s' × (ok ≡ true → s'.on_disconnected_fired ≡ s.on_disconnected_fired)
  unfolding prepare_recv_buffers
  prepare_recv_buffers-Inv q k s true v = (v, λ _. refl)
  prepare_recv_buffers-Inv q k s false v =
      elim (Bool-cases ((I.get_writeable_buffers s.receive_buffer).0 == 0)) [
        | inl full ↦ rw full (request_disconnect-Inv I 1 q k _ v, λ h. cc)
        | inr free ↦ rw free (v, λ _. refl)
      ]

  -- A receive is posted only by whoever has taken the flag.
  pub request_recv-Inv :
      (q k : ℕ) (s : Session Buf) (zero_byte : Bool)
      → s.on_disconnected_fired ≡ false
      → Inv 1 q k s
      → let (ok, s') = request_recv I env zero_byte s in Inv (bit (not ok)) q k s'
  unfolding request_recv
  request_recv-Inv q k s zero_byte e v =
      let s' : Session Buf = (prepare_recv_buffers I env zero_byte s).1 in
      ground (arith, prepare_recv_buffers-Inv q k s zero_byte v, wsa_recv_call-Inv q k s')

  pub request_received-Inv :
      (q k : ℕ) (s : Session Buf) → Inv 0 q k s → Inv 0 q k (request_received I env s)
  unfolding request_received
  request_received-Inv q k s v =
      let taken : Session Buf = record s { recv_in_progress = true } in
      let s' : Session Buf = (request_recv I env true taken).1 in
      ground (
        arith,
        request_recv-Inv q k taken true,
        request_disconnect-Inv I 0 q k (record s' { recv_in_progress = false }),
      )

  wsa_send_call-Inv :
      (r k : ℕ) (s : Session Buf)
      → s.disconnect_requested ≡ false
      → Inv r 1 k s
      → Inv r 0 k (wsa_send_call I env s).1
  unfolding wsa_send_call undo_outstanding_on_failure
  wsa_send_call-Inv r k s e v = ground arith

  post_send-Inv :
      (r k : ℕ) (s : Session Buf)
      → s.disconnect_requested ≡ false
      → Inv r 1 k s
      → Inv r 0 k (post_send I env s).1
  unfolding post_send prepare_send_buffers
  post_send-Inv r k s e v =
      let (n, buffers) = I.get_read_buffers s.send_buffer in
      ground (
        arith,
        wsa_send_call-Inv r k (record s { requested_bytes = n; send_wsabufs = wsa_bufs buffers }),
      )

  -- A send is posted only where none is in flight.
  pub try_post_send_from_queue-Inv :
      (r q k : ℕ) (s : Session Buf) → Inv r q k s → Inv r q k (try_post_send_from_queue I env s).1
  unfolding try_post_send_from_queue
  try_post_send_from_queue-Inv r q k s v =
      ground (arith, post_send-Inv r k (record s { send_in_progress = true }))

  pub send_bytes-Inv :
      (r q k : ℕ) (bytes : List ℕ) (s : Session Buf)
      → Inv r q k s
      → Inv r q k (send_bytes I env bytes s)
  unfolding send_bytes
  send_bytes-Inv r q k bytes s v = ground (
    arith,
    try_post_send_from_queue-Inv r q k (record s { send_buffer = (I.write s.send_buffer bytes).1 }),
  )

  pub send_message-Inv :
      (r q k : ℕ) (id : ℕ) (body : List ℕ) (s : Session Buf)
      → Inv r q k s
      → Inv r q k (send_message I env id body s)
  unfolding send_message
  send_message-Inv r q k id body s v =
      let (done, buffers, buffer') = I.allocate_write s.send_buffer (4 + length body) in
      let filled = write_message (I.memory buffer') buffers (4 + length body) id body in
      ground (
        arith,
        try_post_send_from_queue-Inv r q k
            (record s { send_buffer = I.with_memory buffer' filled }),
        request_disconnect-Inv I r q k (record s { send_buffer = buffer' }),
      )

  run_call-Inv :
      (r q k : ℕ) (c : Call) (s : Session Buf) → Inv r q k s → Inv r q k (run_call I env c s)
  unfolding run_call
  run_call-Inv r q k (send_message_call id body) s v = send_message-Inv r q k id body s v
  run_call-Inv r q k (disconnect_call reason) s v = request_disconnect_with-Inv I r q k reason s v

  pub run_calls-Inv :
      (r q k : ℕ) (cs : List Call) (s : Session Buf)
      → Inv r q k s
      → Inv r q k (run_calls I env cs s)
  unfolding run_calls
  run_calls-Inv r q k [] s v = v
  run_calls-Inv r q k (c ∷ cs) s v =
      run_calls-Inv r q k cs (run_call I env c s) (run_call-Inv r q k c s v)

  pub start_receive_loop-Inv :
      (q k : ℕ) (s : Session Buf) → Inv 0 q k s → Inv 0 q k (start_receive_loop I env s)
  unfolding start_receive_loop
  start_receive_loop-Inv q k s v =
      ground (arith, request_received-Inv q k (record s { receive_loop_started = true }))
