-- ===== src/Rio/Session/Liveness.antt =====
-- While a RIO session runs and has something to send, a send is in flight, in every history in which the
-- system accepts the sends.
use fast_port.Prelude.{
  ℕ, ◌+◌, ◌≡◌, ◌≢◌, ◌∙◌, refl, sym, Bool, true, false, List, [], ◌∷◌, ◌++◌, length, take, add64,
  arith, Bool_cases, eq_cases,
}
use fast_port.Buffers.Interface.{IBuffer}
use fast_port.Buffers.Span.{Span}
use fast_port.Rio.Slices.{RioBufferSlice}
use fast_port.Sessions.IoSession.State.{disconnected}
use fast_port.Rio.Session.State.{RioSession, RioEnv, RioBuf, rio_buf, new_session}
use fast_port.Rio.Session.Receiving.{
  initialize_session, on_accepted, on_connected, on_disconnected, post_recv, request_recv,
  start_receive_loop, read_received_buffers, on_received, on_sent, on_rio_io_completed,
}
use fast_port.Rio.Session.Outgoing.{outgoing}
use fast_port.Rio.Session.Progress.{Busy, receiving-Busy, lost-Busy, flush-Busy, send_message-Busy}
use fast_port.Rio.Session.Histories.{Step-Inv, new_session-Inv, Inv-handler}
use fast_port.Rio.Session.Invariant.{Inv, seen-Inv}
use fast_port.Rio.Session.Sends.{send_message-Inv}
use fast_port.Rio.Session.Rounds.{read_received_buffers-keeps}
use fast_port.Rio.Session.Histories.{
  arrived, Reach, here, next, Step, initializes, accepts, connects, sends_message, receives,
  receive_fails, sent, send_fails,
}

module _ (I : IBuffer) (env : RioEnv I.Buf)
    (accepts_all : (buf : RioBuf) (s : RioSession I.Buf) → env.rio_send buf s ≡ true) where
  open I use {Buf, memory, IsValid, contents, capacity}

  request_recv-Busy : (s : RioSession Buf) → Busy I s → Busy I (request_recv I env s)
  unfolding request_recv post_recv
  request_recv-Busy s v =
      Bool_cases (Busy I) s.is_disconnected (λ over. v)
        (λ up.
          eq_cases (Busy I) (I.get_writeable_buffers s.receive_buffer).0 0 (λ full. v)
            (λ room. spans (I.get_writeable_buffers s.receive_buffer).1))
    where
      spans : (ss : List Span) → Busy I (elim ss [ [] ↦ s | span ∷ _ ↦ post_recv I env span s ])
      spans [] = v
      spans (span ∷ ss) =
          Bool_cases (Busy I) (env.rio_receive (rio_buf s.recv_slice span) s)
            (λ took.
              receiving-Busy I s.total_rx_bytes (s.recvs + 1) s.receive_buffer s.events (span ∷ [])
                s.receive_loop_started s v)
            (λ refused. v)

  start_receive_loop-Busy : (s : RioSession Buf) → Busy I s → Busy I (start_receive_loop I env s)
  unfolding start_receive_loop
  start_receive_loop-Busy s v =
      Bool_cases (Busy I) s.receive_loop_started (λ done. v)
        (λ fresh.
          request_recv-Busy (record s { receive_loop_started = true })
            (receiving-Busy I s.total_rx_bytes s.recvs s.receive_buffer s.events s.recv_span true s
              v))

  on_received-Busy :
      (n : ℕ) (s : RioSession Buf) → Inv I 1 s → Busy I s → Busy I (on_received I env n s)
  unfolding on_received
  on_received-Busy n s v w =
      let s' = record s {
        receive_buffer = (I.commit_write s.receive_buffer n).1;
        total_rx_bytes = add64 s.total_rx_bytes n;
      } in
      request_recv-Busy (read_received_buffers I env s')
        (read_received_buffers-keeps I env (λ t. Inv I 1 t × Busy I t)
          (λ m b told t k. (
            seen-Inv I 1 m b told t.is_disconnected t k.0,
            receiving-Busy I m t.recvs b told t.recv_span t.receive_loop_started t k.1,
          ))
          (λ id body t k. (
            send_message-Inv I env 1 id body t k.0,
            send_message-Busy I env accepts_all id body t k.0.valid k.1,
          ))
          s'
          (
            seen-Inv I 1 s'.total_rx_bytes s'.receive_buffer s.events s.is_disconnected s v,
            receiving-Busy I s'.total_rx_bytes s.recvs s'.receive_buffer s.events s.recv_span
                s.receive_loop_started s w,
          )).1

  on_sent-Busy :
      (n : ℕ) (s : RioSession Buf)
      → IsValid s.send_buffer
      → capacity s.send_buffer ≢ 0
      → Busy I (on_sent I env n s)
  unfolding on_sent
  on_sent-Busy n s v c =
      let law = I.consume_law s.send_buffer n v in
      flush-Busy I env accepts_all
        (record s {
          send_buffer = (I.consume s.send_buffer n).1;
          send_in_progress = false;
          total_tx_bytes = add64 s.total_tx_bytes n;
          sent_bytes = s.sent_bytes ++ take n s.in_flight;
        })
        law.1 (λ z. c (sym law.2 ∙ z)) (λ up h. absurd (ground (arith, h)))

  Step-Busy : {s t : RioSession Buf} → Step I env s t → Inv I 0 s → Busy I s → Busy I t
  unfolding on_rio_io_completed initialize_session on_accepted on_connected on_disconnected
  Step-Busy {s} initializes v w =
      Bool_cases (λ (r : Bool × RioSession Buf). Busy I r.1) s.has_request_queue
        (λ yes. start_receive_loop-Busy s w) (λ no. w)
  Step-Busy {s} accepts v w = start_receive_loop-Busy s w
  Step-Busy {s} connects v w = start_receive_loop-Busy s w
  Step-Busy {s} (sends_message id body) v w =
      send_message-Busy I env accepts_all id body s v.valid w
  Step-Busy {s} (receives k bytes e) v w =
      let b = arrived I env bytes s in
      let t = record s { recvs = k; receive_buffer = b } in
      eq_cases (Busy I) (length bytes) 0 (λ none. lost-Busy I (disconnected ∷ s.events) t w.roomy)
        (λ some.
          on_received-Busy (length bytes) t (Inv-handler I env k b s e v)
            (receiving-Busy I s.total_rx_bytes k b s.events s.recv_span s.receive_loop_started s w))
  Step-Busy {s} (receive_fails k n e) v w =
      lost-Busy I (disconnected ∷ s.events) (record s { recvs = k }) w.roomy
  Step-Busy {s} (sent k n e h) v w = on_sent-Busy n (record s { sends = k }) v.valid w.roomy
  Step-Busy {s} (send_fails k n e) v w =
      lost-Busy I (disconnected ∷ s.events) (record s { sends = k }) w.roomy

  Reach-Busy :
      {s t : RioSession Buf} → Reach I env s t → Inv I 0 s → Busy I s → Inv I 0 t × Busy I t
  Reach-Busy here v w = (v, w)
  Reach-Busy (next r st) v w =
      let before = Reach-Busy r v w in (Step-Inv I env st before.0, Step-Busy st before.0 before.1)

  -- In every history of a RIO session that starts with an empty, valid send buffer of some size, in which
  -- the system accepts every send: while the session is connected and has bytes to send, in the buffer
  -- or in waiting packets, exactly one send is in flight, so no message is left behind.
  pub Reach-sends :
      (has_queue : Bool) (recv_slice send_slice : RioBufferSlice) (rb sb : Buf) (s : RioSession Buf)
      → IsValid sb
      → contents sb ≡ []
      → capacity sb ≢ 0
      → Reach I env (new_session has_queue recv_slice send_slice rb sb) s
      → s.is_disconnected ≡ false
      → outgoing I s.send_buffer s.pending_send_queue ≢ []
      → s.sends ≡ 1
  Reach-sends has_queue recv_slice send_slice rb sb s v e c r up some =
      let (inv, busy) =
        Reach-Busy r (new_session-Inv I env has_queue recv_slice send_slice rb sb v e) (record {
          roomy = c;
          going = λ k h. absurd (ground (arith, h));
          drained = λ k h. rw e refl;
        }) in
      let busy_flag : s.send_in_progress ≢ false = λ off. some (busy.drained up off) in
      let flag : s.send_in_progress ≡ true = ground (arith, busy_flag) in
      omega (arith, inv.one_send, busy.going up flag)
