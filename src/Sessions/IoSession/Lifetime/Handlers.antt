-- ===== src/Sessions/IoSession/Lifetime/Handlers.antt =====
-- The completion handlers keep the invariant of a session's life.
use fast_port.Prelude.{ℕ, zero, suc, Bool, false, none, some, ◌∷◌, arith, add64}
use fast_port.Buffers.Interface.{IBuffer}
use fast_port.Packets.Framer.{PacketFrame, ok, need_more, invalid, try_frame_from_buffer}
use fast_port.Sessions.IoSession.State.{Session, Env, packet_received, sent}
use fast_port.Sessions.IoSession.Posting.{request_recv}
use fast_port.Sessions.IoSession.Sending.{run_calls}
use fast_port.Sessions.IoSession.Receiving.{
  dispatch_frame, read_round, read_rounds, read_received_buffers, handle_zero_byte_recv_completion,
  after_commit, handle_real_recv_completion, handle_recv_completion, handle_send_completion,
  on_recv_completed, on_send_completed,
}
use fast_port.Sessions.IoSession.Lifetime.Invariant.{
  Inv, request_disconnect-Inv, leave_completion-Inv,
}
use fast_port.Sessions.IoSession.Lifetime.Posts.{
  request_recv-Inv, request_received-Inv, try_post_send_from_queue-Inv, run_calls-Inv,
}

module _ (I : IBuffer) (env : Env I.Buf) where
  open I use {Buf}

  dispatch_frame-Inv :
      (r q k : ℕ) (f : PacketFrame) (s : Session Buf)
      → Inv r q k s
      → Inv r q k (dispatch_frame I env f s).1
  unfolding dispatch_frame
  dispatch_frame-Inv r q k f s v = go f.result f.packet_opt
    where
      go :
          (res : _) (p : _)
          → Inv r q k (dispatch_frame I env (record { result = res; packet_opt = p }) s).1
      go need_more p = v
      go invalid p = request_disconnect-Inv I r q k s v
      go ok none = request_disconnect-Inv I r q k s v
      go ok (some p) = ground (
        arith,
        run_calls-Inv I env r q k (env.on_packet_received p)
            (record s { events = packet_received p ∷ s.events }),
      )

  read_round-Inv : (r q k : ℕ) (s : Session Buf) → Inv r q k s → Inv r q k (read_round I env s).1
  unfolding read_round
  read_round-Inv r q k s v =
      let (f, buffer') = try_frame_from_buffer I s.receive_buffer in
      ground (arith, dispatch_frame-Inv r q k f (record s { receive_buffer = buffer' }))

  read_rounds-Inv :
      (r q k n : ℕ) (s : Session Buf) → Inv r q k s → Inv r q k (read_rounds I env n s)
  unfolding read_rounds
  read_rounds-Inv r q k zero s v = v
  read_rounds-Inv r q k (suc n) s v =
      ground (arith, read_round-Inv r q k s v, read_rounds-Inv r q k n (read_round I env s).1)

  handle_zero_byte-Inv :
      (n : ℕ) (s : Session Buf)
      → Inv 1 0 1 s
      → Inv 0 0 1 (handle_zero_byte_recv_completion I env n s)
  unfolding handle_zero_byte_recv_completion
  handle_zero_byte-Inv n s v =
      let s' : Session Buf = (request_recv I env false s).1 in
      ground (
        arith,
        request_recv-Inv I env 0 1 s false,
        request_disconnect-Inv I 0 0 1 (record s' { recv_in_progress = false }),
      )

  after_commit-Inv : (n : ℕ) (s : Session Buf) → Inv 1 0 1 s → Inv 0 0 1 (after_commit I env n s)
  unfolding after_commit read_received_buffers
  after_commit-Inv n s v =
      let s' : Session Buf = record s {
        last_recv_time_ms = env.now_ms s;
        total_rx_bytes = add64 s.total_rx_bytes n;
      } in
      let t : Session Buf = read_rounds I env (suc (I.can_read_size s'.receive_buffer)) s' in
      ground (
        arith,
        read_rounds-Inv 1 0 1 (suc (I.can_read_size s'.receive_buffer)) s',
        request_received-Inv I env 0 1 (record t { recv_in_progress = false }),
      )

  handle_real-Inv :
      (n : ℕ) (s : Session Buf) → Inv 1 0 1 s → Inv 0 0 1 (handle_real_recv_completion I env n s)
  unfolding handle_real_recv_completion
  handle_real-Inv n s v =
      let (done, buffer') = I.commit_write s.receive_buffer n in
      ground (
        arith,
        request_disconnect-Inv I 0 0 1 (record s { recv_in_progress = false }),
        request_disconnect-Inv I 0 0 1
            (record s { receive_buffer = buffer'; recv_in_progress = false }),
        after_commit-Inv n (record s { receive_buffer = buffer' }),
      )

  -- The receive handler gives back the flag that its receive held, or posts the next receive under it.
  handle_recv_completion-Inv :
      (success : Bool) (n : ℕ) (s : Session Buf)
      → Inv 1 0 1 s
      → Inv 0 0 1 (handle_recv_completion I env success n s)
  unfolding handle_recv_completion
  handle_recv_completion-Inv success n s v = ground (
    arith,
    handle_zero_byte-Inv n s v,
    handle_real-Inv n s v,
    request_disconnect-Inv I 0 0 1 (record s { recv_in_progress = false }),
  )

  handle_send_completion-Inv :
      (success : Bool) (n : ℕ) (s : Session Buf)
      → Inv 0 1 1 s
      → Inv 0 0 1 (handle_send_completion I env success n s)
  unfolding handle_send_completion
  handle_send_completion-Inv success n s v =
      let s1 : Session Buf = record s { send_in_progress = false } in
      let s2 : Session Buf = record s1 {
        send_buffer = (I.consume s1.send_buffer n).1;
        total_tx_bytes = add64 s1.total_tx_bytes n;
      } in
      let s3 : Session Buf =
        run_calls I env (env.on_sent n) (record s2 { events = sent n ∷ s2.events }) in
      ground (
        arith,
        request_disconnect-Inv I 0 0 1 s1,
        run_calls-Inv I env 0 0 1 (env.on_sent n) (record s2 { events = sent n ∷ s2.events }),
        try_post_send_from_queue-Inv I env 0 0 1 s3,
      )

  pub on_recv_completed-Inv :
      (success : Bool) (n : ℕ) (s : Session Buf)
      → Inv 1 0 1 s
      → Inv 0 0 0 (on_recv_completed I env success n s)
  unfolding on_recv_completed
  on_recv_completed-Inv success n s v =
      leave_completion-Inv I _ (handle_recv_completion-Inv success n s v)

  pub on_send_completed-Inv :
      (success : Bool) (n : ℕ) (s : Session Buf)
      → Inv 0 1 1 s
      → Inv 0 0 0 (on_send_completed I env success n s)
  unfolding on_send_completed
  on_send_completed-Inv success n s v =
      leave_completion-Inv I _ (handle_send_completion-Inv success n s v)
