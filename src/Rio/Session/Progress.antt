-- ===== src/Rio/Session/Progress.antt =====
-- A RIO session whose sends the system accepts never leaves bytes behind: while there is something to
-- send, a send is in flight.
use fast_port.Prelude.{
  ℕ, ◌+◌, ◌≡◌, ◌≢◌, ◌∙◌, refl, sym, ap, Bool, true, false, List, [], ◌∷◌, ◌++◌, length, take, drop,
  length-append, leb, leb_false→lt, ltb, sub64, arith, Bool_cases, eq_cases,
}
use fast_port.Buffers.Interface.{IBuffer}
use fast_port.Buffers.Span.{Span, gather}
use fast_port.Sessions.IoSession.State.{Event, disconnected}
use fast_port.Rio.Session.State.{
  PendingPacket, RioSession, RioEnv, RioBuf, rio_buf, max_pending_bytes,
}
use fast_port.Rio.Session.Sending.{
  packet_data, written, flush_packets, enqueue, post_span, post_send, try_post_send_from_queue,
  flush_pending_send_queue, send_message,
}
use fast_port.Rio.Session.Chunks.{chunk, flushed, written-chunk, length-chunk, flushed-write}
use fast_port.Rio.Session.Outgoing.{outgoing, flush_packets-outgoing, enqueue-outgoing}
use fast_port.Rio.Session.Invariant.{enqueue_shape}

-- A flush that leaves an empty buffer leaves no packet behind.
module _ (I : IBuffer) where
  open I use {Buf, memory, IsValid, contents, capacity, get_writeable_buffers}

  flush_packets-empties :
      (ps : List PendingPacket) (b : Buf) (n : ℕ)
      → IsValid b
      → capacity b ≢ 0
      → let (qs, b', m) = flush_packets I ps b n in contents b' ≡ [] → qs ≡ []
  unfolding flush_packets
  flush_packets-empties [] b n v c = λ e. refl
  flush_packets-empties (p ∷ ps) b n v c =
      let later =
        flush_packets-empties ps (flushed I b p) (sub64 n (length p.bytes))
          (flushed-write I b p v).1 (λ z. c (sym (flushed-write I b p v).2 ∙ z)) in
      eq_cases (λ (r : List PendingPacket × Buf × ℕ). contents r.1 ≡ [] → r.0 ≡ [])
        (get_writeable_buffers b).0 0
        (λ full e. absurd (c (omega (arith, full, (I.writeable_law b v).0, ap length e))))
        (λ room.
          Bool_cases (λ (r : List PendingPacket × Buf × ℕ). contents r.1 ≡ [] → r.0 ≡ [])
            (leb (length p.bytes) (p.offset + written (get_writeable_buffers b).1 (chunk I b p)))
            (λ whole. later)
            (λ part e.
              absurd (more_room room part (ap length (sym (flushed-write I b p v).0 ∙ e)))))
    where
      more_room :
          (get_writeable_buffers b).0 ≢ 0
          → leb (length p.bytes) (p.offset + written (get_writeable_buffers b).1 (chunk I b p))
            ≡ false
          → length (contents b ++ take (chunk I b p) (drop p.offset p.bytes)) ≢ 0
      more_room room part z = omega (
        arith,
        room,
        z,
        written-chunk I b p v,
        length-append (contents b) (take (chunk I b p) (drop p.offset p.bytes)),
        length-chunk I b p,
        leb_false→lt (length p.bytes) (p.offset + written (get_writeable_buffers b).1 (chunk I b p))
            part,
      )

  -- While the session runs: a send is in flight behind the flag, and without the flag there is nothing to
  -- send.
  pub record Busy (s : RioSession Buf) : Type 0 where
    pub roomy : capacity s.send_buffer ≢ 0
    pub going : s.is_disconnected ≡ false → s.send_in_progress ≡ true → s.sends ≢ 0
    pub drained :
        s.is_disconnected ≡ false
        → s.send_in_progress ≡ false
        → outgoing I s.send_buffer s.pending_send_queue ≡ []

  pub receiving-Busy :
      (n k : ℕ) (b : Buf) (told : List Event) (ss : List Span) (started : Bool) (s : RioSession Buf)
      → Busy s
      → Busy (record s {
        receive_buffer = b;
        total_rx_bytes = n;
        events = told;
        recvs = k;
        recv_span = ss;
        receive_loop_started = started;
      })
  receiving-Busy n k b told ss started s v = record {
    roomy = v.roomy;
    going = v.going;
    drained = v.drained;
  }

  pub lost-Busy :
      (told : List Event) (s : RioSession Buf)
      → capacity s.send_buffer ≢ 0
      → Busy (record s { is_disconnected = true; events = told })
  lost-Busy told s c = record {
    roomy = c;
    going = λ h. absurd (ground (arith, h));
    drained = λ h. absurd (ground (arith, h));
  }

  module _ (env : RioEnv I.Buf)
      (accepts_all : (buf : RioBuf) (s : RioSession I.Buf) → env.rio_send buf s ≡ true) where
    post_span-Busy :
        (spans : List Span) (s : RioSession Buf)
        → capacity s.send_buffer ≢ 0
        → s.send_in_progress ≡ true
        → spans ≢ []
        → Busy (post_span I env s spans)
    unfolding post_span
    post_span-Busy [] s c f ne = absurd (ne refl)
    post_span-Busy (span ∷ ss) s c f ne = rw (accepts_all (rio_buf s.send_slice span) s) (record {
      roomy = c;
      going = λ up h. omega arith;
      drained = λ up h. absurd (ground (arith, f, h));
    })

    post_send-Busy :
        (s : RioSession Buf)
        → IsValid s.send_buffer
        → capacity s.send_buffer ≢ 0
        → (contents s.send_buffer ≡ [] → s.pending_send_queue ≡ [])
        → s.send_in_progress ≡ true
        → Busy (post_send I env s)
    unfolding post_send
    post_send-Busy s v c e f =
        let law = I.read_law s.send_buffer v in
        eq_cases Busy (I.get_read_buffers s.send_buffer).0 0
          (λ z.
            let none : contents s.send_buffer ≡ [] = ground (arith, law.1, z) in
            record {
              roomy = c;
              going = λ up h. absurd (ground (arith, h));
              drained = λ up h. rw (none, e none) refl;
            })
          (λ ne.
            post_span-Busy (I.get_read_buffers s.send_buffer).1 s c f
              (λ z. ne (law.1 ∙ ap length (sym law.0 ∙ ap (gather (memory s.send_buffer)) z))))

    pub flush-Busy :
        (s : RioSession Buf)
        → IsValid s.send_buffer
        → capacity s.send_buffer ≢ 0
        → (s.is_disconnected ≡ false → s.send_in_progress ≡ true → s.sends ≢ 0)
        → Busy (flush_pending_send_queue I env s)
    unfolding flush_pending_send_queue try_post_send_from_queue
    flush-Busy s v c going =
        let (ps, b, n) = flush_packets I s.pending_send_queue s.send_buffer s.pending_total_bytes in
        let law =
          flush_packets-outgoing I s.pending_send_queue s.send_buffer s.pending_total_bytes v in
        let roomy : capacity b ≢ 0 = λ z. c (sym law.2 ∙ z) in
        Bool_cases Busy s.send_in_progress
          (λ busy. record {
            roomy = roomy;
            going = going;
            drained = λ up h. absurd (ground (arith, busy, h));
          })
          (λ free.
            post_send-Busy
              (record s {
                send_buffer = b;
                pending_send_queue = ps;
                pending_total_bytes = n;
                send_in_progress = true;
              })
              law.1 roomy
              (flush_packets-empties s.pending_send_queue s.send_buffer s.pending_total_bytes v c)
              refl)

    pub send_message-Busy :
        (id : ℕ) (body : List ℕ) (s : RioSession Buf)
        → IsValid s.send_buffer
        → Busy s
        → Busy (send_message I env id body s)
    unfolding send_message
    send_message-Busy id body s v w =
        let law = enqueue-outgoing I (packet_data id body) s v in
        Bool_cases Busy s.is_disconnected (λ over. w)
          (λ up.
            Bool_cases Busy (ltb max_pending_bytes s.pending_total_bytes)
              (λ full. lost-Busy (disconnected ∷ s.events) s w.roomy)
              (λ room.
                flush-Busy (enqueue I (packet_data id body) s) law.1 (λ z. w.roomy (sym law.2 ∙ z))
                  (rw (enqueue_shape I (packet_data id body) s) w.going)))
