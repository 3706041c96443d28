-- ===== src/Buffers/Circle/ZeroCopy.antt =====
-- The zero-copy ways in and out of CircleBufferQueue against its copying ones.
use fast_port.Prelude.{
  ℕ, ◌+◌, ◌<◌, ◌≡◌, refl, List, [], ◌∷◌, length, arith, sub64, ltb, Bool-cases, inl, inr, take_all,
  nil_of_length,
}
use native.Mathlib.Nat.{mod-lt}
use fast_port.Buffers.Span.{copy_in, scatter, gather}
use fast_port.Buffers.Span.Bounds.{scatter-spans_from, gather-spans_from, copy_in-nil}
use fast_port.Buffers.Circle.{
  CircleBufferQueue, write, allocate_write, commit_write, fill_reserved, get_read_buffers,
  get_writeable_buffers, receive_into,
}
use fast_port.Buffers.Circle.Bounds.{IsValid}
use fast_port.Buffers.Circle.Refine.{contents, copy_out-contents, length-contents}

pub copy_in_empty :
    (buf : List ℕ) (cap w : ℕ) (bs : List ℕ) → length bs ≡ 0 → copy_in buf cap w bs ≡ buf
copy_in_empty buf cap w [] h = copy_in-nil buf cap w
copy_in_empty buf cap w (b ∷ bs) h = absurd (omega arith)

module _ {q : CircleBufferQueue} (v : IsValid q) where
  head_in : q.head < q.capacity
  head_in = rw v.head_at (mod-lt (q.tail + q.size) v.positive)

  -- On a valid queue, reserving space and filling the reserved spans leaves exactly the state that
  -- `Write` leaves, and succeeds when `Write` does.
  pub fill_reserved-eq-write : (bs : List ℕ) → fill_reserved q bs ≡ write q bs
  unfolding fill_reserved allocate_write write
  fill_reserved-eq-write bs = elim (Bool-cases (ltb (sub64 q.capacity q.size) (length bs))) [
    | inl full ↦ rw full refl
    | inr fits ↦
        rw
          (
            fits,
            scatter-spans_from q.buffer q.capacity q.head (length bs) bs v.small head_in
                (omega arith),
          )
          refl
  ]

  -- On a valid queue, filling the free spans with received bytes and committing their number leaves
  -- exactly the state that `Write` leaves, and succeeds when `Write` does.
  pub receive_into-eq-write : (bs : List ℕ) → receive_into q bs ≡ write q bs
  unfolding receive_into get_writeable_buffers commit_write write scatter
  receive_into-eq-write bs = ground (
    arith,
    scatter-spans_from q.buffer q.capacity q.head (sub64 q.capacity q.size) bs v.small head_in,
    copy_in_empty q.buffer q.capacity q.head bs,
  )

  -- The spans of `GetReadBuffers` show all that a valid queue holds, in order, and its result is their
  -- length.
  pub get_read_buffers-contents :
      let (n, spans) = get_read_buffers q in
      (gather q.buffer spans ≡ contents q) × (n ≡ length (contents q))
  unfolding get_read_buffers
  get_read_buffers-contents = ground (
    arith,
    gather-spans_from q.buffer q.capacity q.tail q.size,
    copy_out-contents v q.size (omega arith),
    take_all (contents q) q.size,
    length-contents q,
    nil_of_length (contents q),
  )
