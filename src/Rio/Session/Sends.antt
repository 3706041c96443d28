-- ===== src/Rio/Session/Sends.antt =====
-- The invariant of a RIO session through its sending.
use fast_port.Prelude.{
  ℕ, ◌≡◌, ◌∙◌, refl, sym, ap, true, false, List, [], ◌∷◌, ◌++◌, append-nil, take, drop, ltb, arith,
  Bool_cases, eq_cases,
}
use fast_port.Buffers.Interface.{IBuffer}
use fast_port.Buffers.Span.{Span, gather}
use fast_port.Sessions.IoSession.State.{disconnected}
use fast_port.Rio.Session.State.{RioSession, RioEnv, rio_buf, max_pending_bytes}
use fast_port.Rio.Session.Sending.{
  packet_data, flush_packets, enqueue, post_span, post_send, try_post_send_from_queue,
  flush_pending_send_queue, send_message,
}
use fast_port.Rio.Session.Outgoing.{outgoing, flush_packets-outgoing, flush_packets-Extends}
use fast_port.Rio.Session.Invariant.{Inv, moved-Inv, enqueue-Inv, flag-Inv, seen-Inv}

module _ (I : IBuffer) where
  open I use {Buf, memory, IsValid, contents}

  module _ (env : RioEnv I.Buf) where
    -- The first of the spans that show what the buffer holds is given to the system.
    post_span-Inv :
        (r : ℕ) (spans : List Span) (s : RioSession Buf)
        → gather (memory s.send_buffer) spans ≡ contents s.send_buffer
        → s.send_in_progress ≡ true
        → s.sends ≡ 0
        → Inv I r s
        → Inv I r (post_span I env s spans)
    unfolding post_span
    post_span-Inv r [] s e f z v = v
    post_span-Inv r (span ∷ ss) s e f z v =
        let mem = memory s.send_buffer in
        Bool_cases (Inv I r) (env.rio_send (rio_buf s.send_slice span) s)
          (λ took. record {
            valid = v.valid;
            conserved = v.conserved;
            posted = λ h. (
              gather mem ss,
              sym e
                  ∙ ap (λ xs. xs ++ gather mem ss)
                      (sym (append-nil (take span.len (drop span.start mem)))),
            );
            one_send = omega (arith, z);
            free_flag = λ h. absurd (ground (arith, f, h));
            one_recv = v.one_recv;
            unstarted = v.unstarted;
          })
          (λ refused. flag-Inv I r false s z v)

    post_send-Inv :
        (r : ℕ) (s : RioSession Buf)
        → s.send_in_progress ≡ true
        → s.sends ≡ 0
        → Inv I r s
        → Inv I r (post_send I env s)
    unfolding post_send
    post_send-Inv r s f z v =
        eq_cases (Inv I r) (I.get_read_buffers s.send_buffer).0 0 (λ e. flag-Inv I r false s z v)
          (λ ne.
            post_span-Inv r (I.get_read_buffers s.send_buffer).1 s
              (I.read_law s.send_buffer v.valid).0 f z v)

    try_post-Inv :
        (r : ℕ) (s : RioSession Buf) → Inv I r s → Inv I r (try_post_send_from_queue I env s)
    unfolding try_post_send_from_queue
    try_post-Inv r s v =
        Bool_cases (Inv I r) s.send_in_progress (λ busy. v)
          (λ free.
            post_send-Inv r (record s { send_in_progress = true }) refl (v.free_flag free)
              (flag-Inv I r true s (v.free_flag free) v))

    pub flush-Inv :
        (r : ℕ) (s : RioSession Buf) → Inv I r s → Inv I r (flush_pending_send_queue I env s)
    unfolding flush_pending_send_queue
    flush-Inv r s v =
        let (ps, b, n) = flush_packets I s.pending_send_queue s.send_buffer s.pending_total_bytes in
        let law =
          flush_packets-outgoing I s.pending_send_queue s.send_buffer s.pending_total_bytes
            v.valid in
        try_post-Inv r
          (record s { send_buffer = b; pending_send_queue = ps; pending_total_bytes = n })
          (moved-Inv I r n [] s.taken_bytes b ps s v law.1
            (law.0 ∙ sym (append-nil (outgoing I s.send_buffer s.pending_send_queue)))
            (sym (append-nil s.taken_bytes))
            (flush_packets-Extends I s.pending_send_queue s.send_buffer s.pending_total_bytes
              v.valid))

    pub send_message-Inv :
        (r id : ℕ) (body : List ℕ) (s : RioSession Buf)
        → Inv I r s
        → Inv I r (send_message I env id body s)
    unfolding send_message
    send_message-Inv r id body s v =
        Bool_cases (Inv I r) s.is_disconnected (λ over. v)
          (λ up.
            Bool_cases (Inv I r) (ltb max_pending_bytes s.pending_total_bytes)
              (λ full.
                seen-Inv I r s.total_rx_bytes s.receive_buffer (disconnected ∷ s.events) true s v)
              (λ room.
                flush-Inv r (enqueue I (packet_data id body) s)
                  (enqueue-Inv I r (packet_data id body) s v)))
