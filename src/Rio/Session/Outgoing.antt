-- ===== src/Rio/Session/Outgoing.antt =====
-- What a session has still to send: the bytes of its send buffer, then those of the waiting packets.
use fast_port.Prelude.{
  ℕ, ◌+◌, ◌≤◌, ◌≡◌, ◌∙◌, refl, sym, ap, ap₂, true, List, [], ◌∷◌, ◌++◌, append_assoc, append-nil,
  length, take, drop, take-append-drop, drop-drop, drop_all, leb, leb→le, sub64, arith, Bool_cases,
  eq_cases, ◌⊎◌, inl, inr,
}
use fast_port.Buffers.Interface.{IBuffer}
use fast_port.Buffers.Fifo
use fast_port.Rio.Session.State.{PendingPacket, RioSession}
use fast_port.Rio.Session.Chunks.{chunk, flushed, written-chunk, flushed-write}
use fast_port.Rio.Session.Sending.{written, flush_packets, is_empty, enqueue}

-- The bytes of a queue that are not in the buffer yet.
abbrev pub waiting : List PendingPacket → List ℕ
waiting [] = []
waiting (p ∷ ps) = drop p.offset p.bytes ++ waiting ps

waiting-append : (ps qs : List PendingPacket) → waiting (ps ++ qs) ≡ waiting ps ++ waiting qs
waiting-append [] qs = refl
waiting-append (p ∷ ps) qs =
    ap (λ xs. drop p.offset p.bytes ++ xs) (waiting-append ps qs)
    ∙ sym (append_assoc (drop p.offset p.bytes) (waiting ps) (waiting qs))

module _ (I : IBuffer) where
  open I use {
    Buf, memory, with_memory, write, can_write_size, get_writeable_buffers, commit_write, IsValid,
    contents, capacity,
  }

  abbrev pub outgoing : Buf → List PendingPacket → List ℕ
  outgoing b ps = contents b ++ waiting ps

  -- The packet of the round, as far as it is in the buffer.
  abbrev advanced : Buf → PendingPacket → PendingPacket
  advanced b p = record p { offset = p.offset + chunk I b p }

  flushed-outgoing :
      (b : Buf) (p : PendingPacket) (ps : List PendingPacket)
      → IsValid b
      → outgoing (flushed I b p) (advanced b p ∷ ps) ≡ outgoing b (p ∷ ps)
  flushed-outgoing b p ps v =
      let c = chunk I b p in
      let d = drop p.offset p.bytes in
      rw
        (
          (flushed-write I b p v).0,
          ← drop-drop c p.offset p.bytes,
          append_assoc (contents b) (take c d) (drop c d ++ waiting ps),
          ← append_assoc (take c d) (drop c d) (waiting ps),
          take-append-drop c d,
        )
        refl

  abbrev Kept : Buf → List PendingPacket → List PendingPacket × Buf × ℕ → Type 0
  Kept b ps (qs, b', m) = (outgoing b' qs ≡ outgoing b ps) × IsValid b' × (capacity b' ≡ capacity b)

  -- The flush moves bytes from the queue into the buffer: what has still to be sent stays the same.
  pub flush_packets-outgoing :
      (ps : List PendingPacket) (b : Buf) (n : ℕ)
      → IsValid b
      → let (qs, b', m) = flush_packets I ps b n in
        (outgoing b' qs ≡ outgoing b ps) × IsValid b' × (capacity b' ≡ capacity b)
  unfolding flush_packets
  flush_packets-outgoing [] b n v = (refl, v, refl)
  flush_packets-outgoing (p ∷ ps) b n v =
      let moved = flushed-write I b p v in
      let later = flush_packets-outgoing ps (flushed I b p) (sub64 n (length p.bytes)) moved.1 in
      eq_cases (λ (r : List PendingPacket × Buf × ℕ). Kept b (p ∷ ps) r) (get_writeable_buffers b).0
        0 (λ full. (refl, v, refl))
        (λ room.
          Bool_cases (λ (r : List PendingPacket × Buf × ℕ). Kept b (p ∷ ps) r)
            (leb (length p.bytes) (p.offset + written (get_writeable_buffers b).1 (chunk I b p)))
            (λ whole. (
              later.0
                  ∙ ap (λ xs. contents (flushed I b p) ++ (xs ++ waiting ps))
                      (sym (drop_all p.bytes (p.offset + chunk I b p) (past whole)))
                  ∙ flushed-outgoing b p ps v,
              later.1,
              later.2 ∙ moved.2,
            ))
            (λ part. (
              ap (λ k. outgoing (flushed I b p) (record p { offset = p.offset + k } ∷ ps))
                    (written-chunk I b p v)
                  ∙ flushed-outgoing b p ps v,
              moved.1,
              moved.2,
            )))
    where
      past :
          leb (length p.bytes) (p.offset + written (get_writeable_buffers b).1 (chunk I b p)) ≡ true
          → length p.bytes ≤ p.offset + chunk I b p
      past whole =
          let size = written-chunk I b p v in
          omega (
            arith,
            size,
            leb→le (length p.bytes) (p.offset + written (get_writeable_buffers b).1 (chunk I b p))
                whole,
          )

  none_waits : (ps : List PendingPacket) → is_empty ps ≡ true → ps ≡ []
  none_waits [] h = refl
  none_waits (p ∷ ps) h = absurd (ground arith)

  -- What `enqueue` does, by whether the bytes went into the buffer.
  queued :
      (bytes : List ℕ) (s : RioSession Buf)
      → IsValid s.send_buffer
      → let t = enqueue I bytes s in
        ((t.send_buffer ≡ s.send_buffer)
          × (t.pending_send_queue
              ≡ s.pending_send_queue ++ (record { bytes = bytes; offset = 0 } ∷ [])))
        ⊎ ((is_empty s.pending_send_queue ≡ true)
            × (t.pending_send_queue ≡ s.pending_send_queue)
            × (contents t.send_buffer ≡ contents s.send_buffer ++ bytes)
            × IsValid t.send_buffer
            × (capacity t.send_buffer ≡ capacity s.send_buffer))
  unfolding enqueue Fifo.append
  queued bytes s v =
      let law = I.write_law s.send_buffer bytes v in
      let room = I.can_write_law s.send_buffer v in ground (arith, law, room)

  -- A message is queued behind all that has still to be sent.
  pub enqueue-outgoing :
      (bytes : List ℕ) (s : RioSession Buf)
      → IsValid s.send_buffer
      → let t = enqueue I bytes s in
        (outgoing t.send_buffer t.pending_send_queue
          ≡ outgoing s.send_buffer s.pending_send_queue ++ bytes)
        × IsValid t.send_buffer
        × (capacity t.send_buffer ≡ capacity s.send_buffer)
  enqueue-outgoing bytes s v = elim (queued bytes s v) [
    | inl (b, q) ↦ (
      rw (b, q, waiting-append s.pending_send_queue (record { bytes = bytes; offset = 0 } ∷ []))
          waits,
      rw b v,
      ap capacity b,
    )
    | inr (e, q, c, w, k) ↦
        let none = none_waits s.pending_send_queue e in
        (
          ap₂ (λ xs ys. xs ++ waiting ys) c (q ∙ none)
              ∙ append-nil (contents s.send_buffer ++ bytes)
              ∙ sym (
                  ap (λ ys. (contents s.send_buffer ++ waiting ys) ++ bytes) none
                  ∙ ap (λ xs. xs ++ bytes) (append-nil (contents s.send_buffer))),
          w,
          k,
        )
  ]
    where
      waits :
          contents s.send_buffer ++ (waiting s.pending_send_queue ++ (bytes ++ []))
          ≡ outgoing s.send_buffer s.pending_send_queue ++ bytes
      waits =
          ap (λ xs. contents s.send_buffer ++ (waiting s.pending_send_queue ++ xs))
            (append-nil bytes)
          ∙ sym (append_assoc (contents s.send_buffer) (waiting s.pending_send_queue) bytes)

  -- Neither takes anything out of the buffer.
  abbrev pub Extends : Buf → Buf → Type 0
  Extends b b' = (extra : List ℕ) × (contents b' ≡ contents b ++ extra)

  pub flush_packets-Extends :
      (ps : List PendingPacket) (b : Buf) (n : ℕ) → IsValid b → Extends b (flush_packets I ps b n).1
  unfolding flush_packets
  flush_packets-Extends [] b n v = ([], sym (append-nil (contents b)))
  flush_packets-Extends (p ∷ ps) b n v =
      let moved = flushed-write I b p v in
      let bytes = take (chunk I b p) (drop p.offset p.bytes) in
      let (extra, later) =
        flush_packets-Extends ps (flushed I b p) (sub64 n (length p.bytes)) moved.1 in
      eq_cases (λ (r : List PendingPacket × Buf × ℕ). Extends b r.1) (get_writeable_buffers b).0 0
        (λ full. ([], sym (append-nil (contents b))))
        (λ room.
          Bool_cases (λ (r : List PendingPacket × Buf × ℕ). Extends b r.1)
            (leb (length p.bytes) (p.offset + written (get_writeable_buffers b).1 (chunk I b p)))
            (λ whole. (
              bytes ++ extra,
              later ∙ ap (λ xs. xs ++ extra) moved.0 ∙ append_assoc (contents b) bytes extra,
            ))
            (λ part. (bytes, moved.0)))

  pub enqueue-Extends :
      (bytes : List ℕ) (s : RioSession Buf)
      → IsValid s.send_buffer
      → Extends s.send_buffer (enqueue I bytes s).send_buffer
  enqueue-Extends bytes s v = elim (queued bytes s v) [
    | inl (b, q) ↦ ([], ap contents b ∙ sym (append-nil (contents s.send_buffer)))
    | inr (e, q, c, w, k) ↦ (bytes, c)
  ]
