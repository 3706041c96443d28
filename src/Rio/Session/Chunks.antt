-- ===== src/Rio/Session/Chunks.antt =====
-- One round of the flush: the part of a packet that goes into the send buffer.
use fast_port.Prelude.{
  ℕ, ◌-◌, ◌≤◌, ◌≡◌, ◌∙◌, sym, ap, Bool, List, [], ◌∷◌, ◌++◌, length, take, drop, length-take,
  length-drop, min, arith,
}
use fast_port.Buffers.Interface.{IBuffer}
use fast_port.Buffers.Fifo
use fast_port.Buffers.Span.{Span, scatter, total}
use fast_port.Rio.Session.State.{PendingPacket}
use fast_port.Rio.Session.Sending.{written}

-- The copying loop writes all that fits the spans.
written_all : (ss : List Span) (n : ℕ) → n ≤ total ss → written ss n ≡ n
unfolding written
written_all [] n h = omega arith
written_all (s ∷ ss) n h =
    let rest = written_all ss (n - min n s.len) (omega arith) in ground (arith, rest)

module _ (I : IBuffer) where
  open I use {
    Buf, memory, with_memory, write, get_writeable_buffers, commit_write, IsValid, contents,
    capacity,
  }

  -- The buffer behind one round of the flush.
  abbrev pub flushed : Buf → PendingPacket → Buf
  flushed b p =
      let (available, spans) = get_writeable_buffers b in
      let to_write = min (length p.bytes - p.offset) available in
      let filled =
        with_memory b (scatter (memory b) spans (take to_write (drop p.offset p.bytes))) in
      (commit_write filled (written spans to_write)).1

  abbrev pub chunk : Buf → PendingPacket → ℕ
  chunk b p = min (length p.bytes - p.offset) (get_writeable_buffers b).0

  pub length-chunk :
      (b : Buf) (p : PendingPacket) → length (take (chunk b p) (drop p.offset p.bytes)) ≡ chunk b p
  length-chunk b p =
      length-take (chunk b p) (drop p.offset p.bytes) (omega (arith, length-drop p.offset p.bytes))

  pub written-chunk :
      (b : Buf) (p : PendingPacket)
      → IsValid b
      → written (get_writeable_buffers b).1 (chunk b p) ≡ chunk b p
  written-chunk b p v =
      written_all (get_writeable_buffers b).1 (chunk b p) (omega (arith, I.writeable_law b v))

  pub flushed-write :
      (b : Buf) (p : PendingPacket)
      → IsValid b
      → (contents (flushed b p) ≡ contents b ++ take (chunk b p) (drop p.offset p.bytes))
        × IsValid (flushed b p)
        × (capacity (flushed b p) ≡ capacity b)
  unfolding Fifo.append
  flushed-write b p v =
      let bs = take (chunk b p) (drop p.offset p.bytes) in
      let size = length-chunk b p in
      let room = I.writeable_law b v in
      let received = I.receive_law b bs v in
      let law = I.write_law b bs v in
      let filled = with_memory b (scatter (memory b) (get_writeable_buffers b).1 bs) in
      let committed : commit_write filled (length bs) ≡ write b bs =
        ground (arith, received, size) in
      let wrote : flushed b p ≡ (write b bs).1 =
        ap (λ n. (commit_write filled n).1) (written-chunk b p v ∙ sym size)
        ∙ ap (λ (r : Bool × Buf). r.1) committed in
      rw wrote (ground (arith, law, size, room))
