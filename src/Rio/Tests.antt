-- ===== src/Rio/Tests.antt =====
-- The slices of a block of 100 bytes.
use fast_port.Prelude.{◌+◌, ◌≤◌, ◌<◌, ◌≡◌, refl, none, some, [], ◌∷◌, arith}
use fast_port.Rio.Slices.{
  RioBufferSlice, RioBufferManager, make, initialize, take_free, or_0, allocate_slice,
  deallocate_slice,
}
use fast_port.Rio.Slices.Disjoint.{
  cover, Reach, here, next, initializes, allocates, deallocates, slices_disjoint,
}
use fast_port.Rio.Slices.Reuse.{allocate_slice-past_end}

abbrev started : RioBufferManager
started = (initialize (some 4096) (some 7) 100 make).1

abbrev first : RioBufferSlice
first = record { buffer_id = 7; offset = 0; len = 64; address = 4096 }

abbrev second : RioBufferSlice
second = record { buffer_id = 7; offset = 64; len = 32; address = 4160 }

abbrev both : RioBufferManager
both = (allocate_slice 32 (allocate_slice 64 started).1).1

abbrev returned : RioBufferManager
returned = deallocate_slice first both

returned-Reach : Reach returned (second ∷ [])
unfolding initialize allocate_slice take_free
returned-Reach =
    next
      (next
        (next (next here (initializes (some 4096) (some 7) 100 (omega arith)))
          (allocates 64 first (omega arith) refl))
        (allocates 32 second (omega arith) refl))
      (deallocates (second ∷ []) [] first refl)

slices_disjoint_example : cover 70 (second ∷ []) + cover 70 returned.free_list ≤ 1
slices_disjoint_example = slices_disjoint 70 returned-Reach

returned-size : returned.total_size ≡ 100
unfolding deallocate_slice initialize allocate_slice take_free
returned-size = refl

both-free : take_free 64 both.free_list ≡ none
unfolding initialize allocate_slice take_free
both-free = refl

abbrev cut : RioBufferManager
cut = record {
  buffer_id = some 7;
  buffer = some 4096;
  total_size = 100;
  current_offset = 96;
  allocated_count = 2;
  free_list = [];
}

cut-free : take_free 0xFFFFFFC0 cut.free_list ≡ none
unfolding take_free
cut-free = refl

allocate_slice-past_end_example :
    let granted : RioBufferSlice = record {
      buffer_id = or_0 cut.buffer_id;
      offset = 96;
      len = 0xFFFFFFC0;
      address = or_0 cut.buffer + 96;
    } in
    ((allocate_slice 0xFFFFFFC0 cut).0 ≡ some granted) × (100 < granted.offset + granted.len)
allocate_slice-past_end_example =
    allocate_slice-past_end 0xFFFFFFC0 cut cut-free (omega arith) (omega arith) (omega arith)
      (omega arith)

returned-free : take_free 64 returned.free_list ≡ some (first, [])
unfolding initialize allocate_slice take_free deallocate_slice
returned-free = refl
