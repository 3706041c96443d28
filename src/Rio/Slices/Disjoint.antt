-- ===== src/Rio/Slices/Disjoint.antt =====
-- No byte of the registered block is in two slices.
use fast_port.Prelude.{
  ℕ, ◌+◌, ◌^◌, ◌≤◌, ◌<◌, ◌≡◌, ap, ◌∙◌, Option, none, some, Option-cases, inl, inr, List, [], ◌∷◌,
  ◌++◌, ltb, if◌then◌else◌, arith,
}
use fast_port.Rio.Slices.{
  RioBufferSlice, RioBufferManager, make, initialize, take_free, allocate_slice, deallocate_slice,
}

-- How many slices of a list hold a byte of the block.
abbrev pub holds : ℕ → RioBufferSlice → ℕ
holds b s = if ltb b s.offset then 0 else if ltb b (s.offset + s.len) then 1 else 0

abbrev pub cover : ℕ → List RioBufferSlice → ℕ
cover b [] = 0
cover b (s ∷ ss) = holds b s + cover b ss

cover-append : (b : ℕ) (ss ts : List RioBufferSlice) → cover b (ss ++ ts) ≡ cover b ss + cover b ts
cover-append b [] ts = omega arith
cover-append b (s ∷ ss) ts = omega (arith, cover-append b ss ts)

-- What `take_free` finds, it takes off the list.
cover-take_free :
    (b size : ℕ) (ss : List RioBufferSlice) (s : RioBufferSlice) (rest : List RioBufferSlice)
    → take_free size ss ≡ some (s, rest)
    → cover b ss ≡ holds b s + cover b rest
unfolding take_free
cover-take_free b size [] s rest e = ground arith
cover-take_free b size (t ∷ ts) s rest e = elim (Option-cases (take_free size ts)) [
  | inl n ↦ ground (arith, n)
  | inr ((u, us), f) ↦ ground (arith, f, cover-take_free b size ts u us f)
]

-- The slices that clients hold stand beside the manager.
pub data Step (m : RioBufferManager) (held : List RioBufferSlice)
    : RioBufferManager → List RioBufferSlice → Type 0 where
  initializes :
      (memory registered : Option ℕ) (total_size : ℕ)
      → total_size < 2 ^ 32
      → Step m held (initialize memory registered total_size m).1 held
  allocates :
      (size : ℕ) (s : RioBufferSlice)
      → m.current_offset + size < 2 ^ 32
      → (allocate_slice size m).0 ≡ some s
      → Step m held (allocate_slice size m).1 (s ∷ held)
  fails : (size : ℕ) → (allocate_slice size m).0 ≡ none → Step m held (allocate_slice size m).1 held
  deallocates :
      (before after : List RioBufferSlice) (s : RioBufferSlice)
      → held ≡ before ++ (s ∷ after)
      → Step m held (deallocate_slice s m) (before ++ after)

pub data Reach : RioBufferManager → List RioBufferSlice → Type 0 where
  here : Reach make []
  next :
      {m n : RioBufferManager} {held still : List RioBufferSlice}
      → Reach m held
      → Step m held n still
      → Reach n still

-- A byte is in as many slices as were cut over it, and no slice reaches past the offset.
pub record Inv (b : ℕ) (m : RioBufferManager) (held : List RioBufferSlice) : Type 0 where
  pub once : cover b held + cover b m.free_list ≤ 1
  pub above : m.current_offset ≤ b → cover b held + cover b m.free_list ≡ 0
  pub inside : m.current_offset ≤ m.total_size
  pub unused : m.buffer ≡ none → (m.current_offset ≡ 0) × (m.total_size ≡ 0)

Step-Inv :
    (b : ℕ) {m n : RioBufferManager} {held still : List RioBufferSlice}
    → Step m held n still
    → Inv b m held
    → Inv b n still
unfolding initialize allocate_slice deallocate_slice
Step-Inv b {m} (initializes memory registered total_size h) v = ground arith
Step-Inv b {m} (allocates size s h e) v = elim (Option-cases (take_free size m.free_list)) [
  | inl f ↦ ground (arith, f)
  | inr ((t, rest), f) ↦ ground (arith, f, cover-take_free b size m.free_list t rest f)
]
Step-Inv b {m} (fails size e) v = elim (Option-cases (take_free size m.free_list)) [
  | inl f ↦ ground (arith, f)
  | inr ((t, rest), f) ↦ ground (arith, f)
]
Step-Inv b {m} {held} (deallocates before after s e) v =
    let moved = cover-append b m.free_list (s ∷ []) in
    let whole = ap (cover b) e ∙ cover-append b before (s ∷ after) in
    let left = cover-append b before after in
    record {
      once = omega (arith, v.once);
      above = λ a. omega (arith, v.above a);
      inside = v.inside;
      unused = v.unused;
    }

Reach-Inv :
    (b : ℕ) {m : RioBufferManager} {held : List RioBufferSlice} → Reach m held → Inv b m held
Reach-Inv b here = ground arith
Reach-Inv b (next r st) = Step-Inv b st (Reach-Inv b r)

-- As long as the manager is not finalized, no request takes the offset past 32 bits, and clients give
-- back what they hold, no byte is in two slices, held or free.
pub slices_disjoint :
    (b : ℕ) {m : RioBufferManager} {held : List RioBufferSlice}
    → Reach m held
    → cover b held + cover b m.free_list ≤ 1
slices_disjoint b r = (Reach-Inv b r).once

-- As long as the manager is not finalized, no request takes the offset past 32 bits, and clients give
-- back what they hold, no slice, held or free, reaches past the registered block.
pub slices_inside :
    (b : ℕ) {m : RioBufferManager} {held : List RioBufferSlice}
    → Reach m held
    → m.total_size ≤ b
    → cover b held + cover b m.free_list ≡ 0
slices_inside b r h = let v = Reach-Inv b r in v.above (omega (arith, v.inside))
