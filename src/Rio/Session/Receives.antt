-- ===== src/Rio/Session/Receives.antt =====
-- The invariant of a RIO session through its receiving and its completions.
use fast_port.Prelude.{
  ℕ, ◌≤◌, ◌≡◌, ◌∙◌, refl, sym, ap, ap₂, true, false, List, [], ◌∷◌, ◌++◌, append_assoc, length,
  take, drop, length-append, take-append-drop, take_of_append, add64, arith, Bool_cases, eq_cases,
}
use fast_port.Buffers.Interface.{IBuffer}
use fast_port.Buffers.Fifo
use fast_port.Buffers.Span.{Span}
use fast_port.Rio.Session.State.{RioSession, RioEnv, rio_buf}
use fast_port.Rio.Session.Receiving.{
  post_recv, request_recv, start_receive_loop, read_received_buffers, on_received, on_sent,
}
use fast_port.Rio.Session.Outgoing.{waiting}
use fast_port.Rio.Session.Invariant.{Front, Inv, seen-Inv}
use fast_port.Rio.Session.Sends.{flush-Inv, send_message-Inv}
use fast_port.Rio.Session.Rounds.{read_received_buffers-keeps}

module _ (I : IBuffer) where
  open I use {Buf, memory, IsValid, contents}

  module _ (env : RioEnv I.Buf) where
    post_recv-Inv :
        (span : Span) (s : RioSession Buf)
        → s.recvs ≡ 0
        → s.receive_loop_started ≡ true
        → Inv I 0 s
        → Inv I 0 (post_recv I env span s)
    unfolding post_recv
    post_recv-Inv span s z b v =
        Bool_cases (Inv I 0) (env.rio_receive (rio_buf s.recv_slice span) s)
          (λ took. record {
            valid = v.valid;
            conserved = v.conserved;
            posted = v.posted;
            one_send = v.one_send;
            free_flag = v.free_flag;
            one_recv = omega (arith, z);
            unstarted = λ h. absurd (ground (arith, b, h));
          })
          (λ refused. v)

    request_recv-Inv :
        (s : RioSession Buf)
        → s.recvs ≡ 0
        → s.receive_loop_started ≡ true
        → Inv I 0 s
        → Inv I 0 (request_recv I env s)
    unfolding request_recv
    request_recv-Inv s z b v =
        Bool_cases (Inv I 0) s.is_disconnected (λ over. v)
          (λ up.
            eq_cases (Inv I 0) (I.get_writeable_buffers s.receive_buffer).0 0 (λ full. v)
              (λ room. spans (I.get_writeable_buffers s.receive_buffer).1))
      where
        spans : (ss : List Span) → Inv I 0 (elim ss [ [] ↦ s | span ∷ _ ↦ post_recv I env span s ])
        spans [] = v
        spans (span ∷ ss) = post_recv-Inv span s z b v

    pub start_receive_loop-Inv :
        (s : RioSession Buf) → Inv I 0 s → Inv I 0 (start_receive_loop I env s)
    unfolding start_receive_loop
    start_receive_loop-Inv s v =
        Bool_cases (Inv I 0) s.receive_loop_started (λ done. v)
          (λ fresh.
            let z : s.recvs ≡ 0 = omega (arith, v.unstarted fresh) in
            request_recv-Inv (record s { receive_loop_started = true }) z refl
              (record {
                valid = v.valid;
                conserved = v.conserved;
                posted = v.posted;
                one_send = v.one_send;
                free_flag = v.free_flag;
                one_recv = v.one_recv;
                unstarted = λ h. omega (arith, z);
              }))

    pub handled-Inv : (s : RioSession Buf) → Inv I 1 s → Inv I 0 s
    handled-Inv s v =
        let z : s.recvs ≡ 0 = omega (arith, v.one_recv) in
        record {
          valid = v.valid;
          conserved = v.conserved;
          posted = v.posted;
          one_send = v.one_send;
          free_flag = v.free_flag;
          one_recv = omega (arith, z);
          unstarted = λ h. omega (arith, z);
        }

    -- The handler that runs is the receive that has completed.
    answered-Inv : (s : RioSession Buf) → Inv I 1 s → Inv I 0 (request_recv I env s)
    answered-Inv s v =
        let z : s.recvs ≡ 0 = omega (arith, v.one_recv) in
        request_recv-Inv s z (ground (arith, v.unstarted, z)) (handled-Inv s v)

    pub on_received-Inv : (n : ℕ) (s : RioSession Buf) → Inv I 1 s → Inv I 0 (on_received I env n s)
    unfolding on_received
    on_received-Inv n s v =
        let s' = record s {
          receive_buffer = (I.commit_write s.receive_buffer n).1;
          total_rx_bytes = add64 s.total_rx_bytes n;
        } in
        answered-Inv (read_received_buffers I env s') (
          read_received_buffers-keeps I env (Inv I 1)
            (λ n b told s. seen-Inv I 1 n b told s.is_disconnected s)
            (λ id body s. send_message-Inv I env 1 id body s) s'
            (seen-Inv I 1 s'.total_rx_bytes s'.receive_buffer s.events s.is_disconnected s v))

    -- What stands in front is what the send took off.
    pub on_sent-Inv :
        (n : ℕ) (s : RioSession Buf)
        → s.sends ≡ 0
        → n ≤ length s.in_flight
        → Front s.in_flight (contents s.send_buffer)
        → Inv I 0 s
        → Inv I 0 (on_sent I env n s)
    unfolding on_sent Fifo.remove
    on_sent-Inv n s z h (more, e) v =
        let law = I.consume_law s.send_buffer n v.valid in
        let b = (I.consume s.send_buffer n).1 in
        let out = s.in_flight in
        let size = ap length e ∙ length-append out more in
        let left : contents b ≡ drop n (contents s.send_buffer) = ground (arith, law, size) in
        let front : take n out ≡ take n (contents s.send_buffer) =
          sym (ap (take n) e ∙ take_of_append n out more h) in
        flush-Inv I env 0
          (record s {
            send_buffer = b;
            send_in_progress = false;
            total_tx_bytes = add64 s.total_tx_bytes n;
            sent_bytes = s.sent_bytes ++ take n out;
          })
          (record {
            valid = law.1;
            conserved =
                append_assoc s.sent_bytes (take n out) (contents b ++ waiting s.pending_send_queue)
                ∙ ap (λ xs. s.sent_bytes ++ xs)
                    (sym (append_assoc (take n out) (contents b) (waiting s.pending_send_queue))
                      ∙ ap (λ xs. xs ++ waiting s.pending_send_queue)
                          (ap₂ (λ xs ys. xs ++ ys) front left
                            ∙ take-append-drop n (contents s.send_buffer)))
                ∙ v.conserved;
            posted = λ ne. absurd (ne z);
            one_send = v.one_send;
            free_flag = λ k. z;
            one_recv = v.one_recv;
            unstarted = v.unstarted;
          })
