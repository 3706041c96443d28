-- ===== src/Buffers/Circle/Refine.antt =====
-- A valid CircleBufferQueue behaves as the bounded byte queue of its contents.
use fast_port.Prelude.{
  ℕ, ◌+◌, ◌-◌, ◌%◌, ◌≤◌, ◌<◌, ◌^◌, ◌≡◌, ◌∙◌, refl, sym, ap, Bool, true, some, List, ◌++◌, length,
  take, drop, get_or, tabulate, tabulate_ext, append-tabulate, list_ext, length-tabulate,
  get_or-tabulate, take-tabulate, drop-tabulate, arith, add64, ltb, le→ltb, lt→ltb, Bool-cases, inl,
  inr, ltb_false→le,
}
use native.Mathlib.Decide.{dec_lt}
use native.Mathlib.Nat.{mod-lt, mod-add-mod, add_assoc, add-mod_right}
use fast_port.Buffers.Span.{copy_in, copy_out, advance}
use fast_port.Buffers.Span.Bounds.{length-copy_out, get_or-copy_out, get_or-copy_in}
use fast_port.Buffers.Fifo
use fast_port.Buffers.Circle.{CircleBufferQueue, write, pop, peek, consume}
use fast_port.Buffers.Circle.Bounds.{IsValid, free_space}

-- The bytes held, oldest first.
unfoldable pub contents : CircleBufferQueue → List ℕ
contents q = tabulate q.size (λ i. get_or q.buffer ((q.tail + i) % q.capacity) 0)

pub length-contents : (q : CircleBufferQueue) → length (contents q) ≡ q.size
unfolding contents
length-contents q = length-tabulate q.size _

module _ {q : CircleBufferQueue} (v : IsValid q) where
  pub copy_out-contents :
      (n : ℕ) → n ≤ q.size → copy_out q.buffer q.capacity q.tail n ≡ take n (contents q)
  unfolding contents
  copy_out-contents n h =
      rw (take-tabulate n q.size (λ i. get_or q.buffer ((q.tail + i) % q.capacity) 0) h) (
        list_ext _ _ 0
          (length-copy_out q.buffer q.capacity v.positive v.small v.storage q.tail n v.tail_in
              (omega arith)
            ∙ sym (length-tabulate n _))
          λ i l.
            let l' : i < n = omega (
              arith,
              length-copy_out q.buffer q.capacity v.positive v.small v.storage q.tail n v.tail_in
                  (omega arith),
            ) in
            rw (get_or-tabulate n (λ i. get_or q.buffer ((q.tail + i) % q.capacity) 0) i 0 l') (
              get_or-copy_out q.buffer q.capacity v.positive v.small v.storage q.tail n i v.tail_in
                (omega arith) l'))

  pub contents-shrunk :
      (n : ℕ)
      → n ≤ q.size
      → contents (record q { tail = advance q.capacity q.tail n; size = q.size - n })
        ≡ drop n (contents q)
  unfolding contents
  contents-shrunk n h =
      rw (drop-tabulate n q.size (λ i. get_or q.buffer ((q.tail + i) % q.capacity) 0)) (
        tabulate_ext (q.size - n) _ _ λ i l.
          ap (λ k. get_or q.buffer k 0)
            (let inside : (q.tail + n) % 2 ^ 64 ≡ q.tail + n = omega arith in
              rw (inside, mod-add-mod, add_assoc) refl))

  -- Index `i` of a queue that holds `size` bytes is index `i - size` behind its head.
  behind_head :
      (i : ℕ)
      → q.size ≤ i
      → i < q.capacity
      → (q.tail + i) % q.capacity ≡ (q.head + (i - q.size)) % q.capacity
  behind_head i h l = rw (v.head_at, mod-add-mod) (ap (λ k. k % q.capacity) (omega arith))

  before_head :
      (i : ℕ)
      → i < q.size
      → (q.tail + i) % q.capacity ≡ (q.head + (i + (q.capacity - q.size))) % q.capacity
  before_head i l =
      rw (v.head_at, mod-add-mod)
        (sym (add-mod_right (q.tail + i) q.capacity) ∙ ap (λ k. k % q.capacity) (omega arith))

  pub contents-grown :
      (bs : List ℕ)
      → length bs ≤ q.capacity - q.size
      → contents (record q {
        buffer = copy_in q.buffer q.capacity q.head bs;
        head = advance q.capacity q.head (length bs);
        size = add64 q.size (length bs);
      })
        ≡ contents q ++ bs
  unfolding contents
  contents-grown bs h =
      let total : add64 q.size (length bs) ≡ q.size + length bs = omega arith in
      rw (total, append-tabulate q.size (λ i. get_or q.buffer ((q.tail + i) % q.capacity) 0) bs 0)
        (tabulate_ext (q.size + length bs) _ _ λ i l. elim (dec_lt i q.size) [
          | yes old ↦
              rw
                (
                  lt→ltb i q.size old,
                  before_head i old,
                  get_or-copy_in q.buffer q.capacity v.positive v.small v.storage q.head
                      (i + (q.capacity - q.size)) bs (head_in) (omega arith) (omega arith),
                  le→ltb (i + (q.capacity - q.size)) (length bs) (omega arith),
                )
                refl
          | no new ↦
              rw
                (
                  le→ltb i q.size (omega arith),
                  behind_head i (omega arith) (omega arith),
                  get_or-copy_in q.buffer q.capacity v.positive v.small v.storage q.head
                      (i - q.size) bs (head_in) (omega arith) (omega arith),
                  lt→ltb (i - q.size) (length bs) (omega arith),
                )
                refl
        ])
    where
      head_in : q.head < q.capacity
      head_in = rw v.head_at (mod-lt (q.tail + q.size) v.positive)

  -- `Write` refuses what does not fit and otherwise appends it.
  pub write_refines :
      (bs : List ℕ)
      → let (ok, q') = write q bs in (ok, contents q') ≡ Fifo.append q.capacity (contents q) bs
  unfolding write Fifo.append
  write_refines bs =
      rw (length-contents q, free_space v)
        (elim (Bool-cases (ltb (q.capacity - q.size) (length bs))) [
          | inl full ↦ rw full refl
          | inr fits ↦ rw fits (
              ap (λ (c : List ℕ). let r : Bool × List ℕ = (true, c) in r)
                (contents-grown bs (ltb_false→le _ _ fits)))
        ])

  -- `Pop` gives the oldest bytes and takes them off, or fails with too few and changes nothing.
  pub pop_refines :
      (n : ℕ)
      → let (out, q') = pop q n in
        (out ≡ Fifo.front (contents q) n) × (contents q' ≡ (Fifo.remove (contents q) n).1)
  unfolding pop Fifo.front Fifo.remove
  pop_refines n = rw (length-contents q) (elim (Bool-cases (ltb q.size n)) [
    | inl short ↦ rw short (refl, refl)
    | inr enough ↦ rw enough (
      ap some (copy_out-contents n (ltb_false→le _ _ enough)),
      contents-shrunk n (ltb_false→le _ _ enough),
    )
  ])

  -- `Peek` gives the same bytes.
  pub peek_refines : (n : ℕ) → peek q n ≡ Fifo.front (contents q) n
  unfolding peek Fifo.front
  peek_refines n = rw (length-contents q) (elim (Bool-cases (ltb q.size n)) [
    | inl short ↦ rw short refl
    | inr enough ↦ rw enough (cc (copy_out-contents n (ltb_false→le _ _ enough)))
  ])

  pub consume_refines :
      (n : ℕ) → let (ok, q') = consume q n in (ok, contents q') ≡ Fifo.remove (contents q) n
  unfolding consume Fifo.remove
  consume_refines n = rw (length-contents q) (elim (Bool-cases (ltb q.size n)) [
    | inl short ↦ rw short refl
    | inr enough ↦ rw enough (cc (contents-shrunk n (ltb_false→le _ _ enough)))
  ])
