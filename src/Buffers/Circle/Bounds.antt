-- ===== src/Buffers/Circle/Bounds.antt =====
-- The representation invariant of CircleBufferQueue.
use fast_port.Prelude.{
  Bool, Option, ℕ, ◌+◌, ◌-◌, ◌%◌, ◌≤◌, ◌<◌, ◌^◌, ◌≡◌, ◌∙◌, sym, ltb_cases, List, length,
  length-replicate, arith, sub64, add64,
}
use fast_port.Buffers.Span.{Span, advance}
use native.Mathlib.Nat.{mod-lt, mod-eq_of_lt}
use fast_port.Buffers.Span.Bounds.{length-copy_in, advance_at, advance_back}
use fast_port.Buffers.Circle.{
  CircleBufferQueue, make, write, pop, consume, clear, allocate_write, commit_write,
}

pub record IsValid (q : CircleBufferQueue) : Type 0 where
  pub positive : 0 < q.capacity
  pub small : q.capacity ≤ 2 ^ 63
  pub storage : length q.buffer ≡ q.capacity
  pub tail_in : q.tail < q.capacity
  pub size_in : q.size ≤ q.capacity
  pub head_at : q.head ≡ (q.tail + q.size) % q.capacity

-- Under the invariant the free space does not wrap.
pub free_space : {q : CircleBufferQueue} → IsValid q → sub64 q.capacity q.size ≡ q.capacity - q.size
free_space v = omega arith

-- A fresh queue of a positive capacity is valid.
pub make-IsValid : (capacity : ℕ) → 0 < capacity → capacity ≤ 2 ^ 63 → IsValid (make capacity)
unfolding make
make-IsValid c p s = record {
  positive = p;
  small = s;
  storage = length-replicate {A = ℕ} c 0;
  tail_in = p;
  size_in = omega arith;
  head_at = sym (mod-eq_of_lt p);
}

module _ {q : CircleBufferQueue} (v : IsValid q) where
  -- The head moves on, with the size.
  abbrev grown : List ℕ → ℕ → CircleBufferQueue
  grown buf n = record q { buffer = buf; head = advance q.capacity q.head n; size = add64 q.size n }

  grown-IsValid :
      (buf : List ℕ) (n : ℕ)
      → length buf ≡ q.capacity
      → n ≤ q.capacity - q.size
      → IsValid (grown buf n)
  grown-IsValid buf n e h = record {
    positive = v.positive;
    small = v.small;
    storage = e;
    tail_in = v.tail_in;
    size_in = omega arith;
    head_at =
        let total : add64 q.size n ≡ q.size + n = omega arith in
        rw (v.head_at, total)
          (advance_at q.capacity q.tail q.size n v.positive v.small (omega arith));
  }

  shrunk-IsValid :
      (n : ℕ)
      → n ≤ q.size
      → IsValid (record q { tail = advance q.capacity q.tail n; size = q.size - n })
  shrunk-IsValid n h = record {
    positive = v.positive;
    small = v.small;
    storage = v.storage;
    tail_in = mod-lt _ v.positive;
    size_in = omega arith;
    head_at =
        v.head_at
        ∙ sym (advance_back q.capacity q.tail q.size n v.positive v.small v.tail_in h v.size_in);
  }

  pub write-IsValid : (bs : List ℕ) → IsValid (write q bs).1
  unfolding write
  write-IsValid bs =
      ltb_cases (λ (r : Bool × CircleBufferQueue). IsValid r.1) (sub64 q.capacity q.size)
        (length bs) (λ _. v)
        λ h.
          grown-IsValid _ (length bs)
            (length-copy_in q.buffer q.capacity v.positive v.small v.storage q.head bs)
            (omega arith)

  pub pop-IsValid : (n : ℕ) → IsValid (pop q n).1
  unfolding pop
  pop-IsValid n =
      ltb_cases (λ (r : Option (List ℕ) × CircleBufferQueue). IsValid r.1) q.size n (λ _. v)
        (shrunk-IsValid n)

  pub consume-IsValid : (n : ℕ) → IsValid (consume q n).1
  unfolding consume
  consume-IsValid n =
      ltb_cases (λ (r : Bool × CircleBufferQueue). IsValid r.1) q.size n (λ _. v) (shrunk-IsValid n)

  pub clear-IsValid : IsValid (clear q)
  unfolding clear
  clear-IsValid = record {
    positive = v.positive;
    small = v.small;
    storage = v.storage;
    tail_in = v.positive;
    size_in = omega arith;
    head_at = sym (mod-eq_of_lt v.positive);
  }

  pub allocate_write-IsValid : (n : ℕ) → IsValid (allocate_write q n).2
  unfolding allocate_write
  allocate_write-IsValid n =
      ltb_cases (λ (r : Bool × List Span × CircleBufferQueue). IsValid r.2)
        (sub64 q.capacity q.size) n (λ _. v) λ h. grown-IsValid q.buffer n v.storage (omega arith)

  pub commit_write-IsValid : (n : ℕ) → IsValid (commit_write q n).1
  unfolding commit_write
  commit_write-IsValid n =
      ltb_cases (λ (r : Bool × CircleBufferQueue). IsValid r.1) (sub64 q.capacity q.size) n (λ _. v)
        λ h. grown-IsValid q.buffer n v.storage (omega arith)
