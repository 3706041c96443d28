-- ===== src/Rio/Slices/Reuse.antt =====
-- When slices are used again, and what a request past the end of 32 bits or behind a Finalize gets.
use fast_port.Prelude.{
  ℕ, ◌+◌, ◌^◌, ◌≤◌, ◌<◌, ◌≡◌, refl, none, some, Option-cases, inl, inr, List, [], ◌∷◌, ◌++◌, arith,
}
use fast_port.Rio.Slices.{
  RioBufferSlice, RioBufferManager, initialize, take_free, or_0, allocate_slice, deallocate_slice,
  finalize,
}

take_free-append :
    (size : ℕ) (ss : List RioBufferSlice) (s : RioBufferSlice)
    → take_free size ss ≡ none
    → s.len ≡ size
    → take_free size (ss ++ (s ∷ [])) ≡ some (s, ss)
unfolding take_free
take_free-append size [] s e l = ground arith
take_free-append size (t ∷ ts) s e l = elim (Option-cases (take_free size ts)) [
  | inl n ↦ ground (arith, n, take_free-append size ts s n l)
  | inr ((u, us), f) ↦ ground (arith, f)
]

-- A slice that is given back while no other of its size is free is what the next request of its size
-- gets, and the free list is as before.
pub allocate_slice-deallocate_slice :
    (s : RioBufferSlice) (m : RioBufferManager)
    → take_free s.len m.free_list ≡ none
    → let (out, n) = allocate_slice s.len (deallocate_slice s m) in
      (out ≡ some s) × (n.free_list ≡ m.free_list)
unfolding allocate_slice deallocate_slice
allocate_slice-deallocate_slice s m e =
    let found = take_free-append s.len m.free_list s e refl in ground (arith, found)

-- A request that takes the 32-bit offset past its end, with no slice of its size free and the offset
-- inside the block, is granted a slice that starts at the offset and has the whole size, so that it
-- ends past the block.
pub allocate_slice-past_end :
    (size : ℕ) (m : RioBufferManager)
    → take_free size m.free_list ≡ none
    → m.current_offset ≤ m.total_size
    → m.total_size < 2 ^ 32
    → size < 2 ^ 32
    → 2 ^ 32 ≤ m.current_offset + size
    → let granted : RioBufferSlice = record {
      buffer_id = or_0 m.buffer_id;
      offset = m.current_offset;
      len = size;
      address = or_0 m.buffer + m.current_offset;
    } in
      ((allocate_slice size m).0 ≡ some granted) × (m.total_size < granted.offset + granted.len)
unfolding allocate_slice
allocate_slice-past_end size m e i t s h = ground (arith, e)

-- A slice on the free list of a manager that is finalized and initialized again, with any memory and
-- registration, is handed out as it was, with the registration that is gone.
pub allocate_slice-finalize :
    (size address id total : ℕ) (m : RioBufferManager) (s : RioBufferSlice)
    (rest : List RioBufferSlice)
    → take_free size m.free_list ≡ some (s, rest)
    → (allocate_slice size (initialize (some address) (some id) total (finalize m)).1).0 ≡ some s
unfolding allocate_slice initialize finalize
allocate_slice-finalize size address id total m s rest e = ground (arith, e)
