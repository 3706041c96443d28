-- ===== src/Rio/Slices.antt =====
-- RioBufferManager of LibNetworksRIO/RioBufferManager.cpp: slices are cut off one registered block, one
-- behind the other, and slices that were given back are used again for requests of the same size. Sizes
-- and offsets are 32-bit numbers; each method runs under the manager's lock.
pub mod Disjoint
pub mod Reuse
use fast_port.Prelude.{
  ℕ, ◌+◌, ◌-◌, Bool, true, false, Option, none, some, List, [], ◌∷◌, ◌++◌, length, ltb, ◌==◌,
  if◌then◌else◌, add32, to_u32,
}

pub record RioBufferSlice : Type 0 where
  pub buffer_id : ℕ
  pub offset : ℕ
  pub len : ℕ
  pub address : ℕ

-- No id and no buffer are RIO_INVALID_BUFFERID and a null pointer.
pub record RioBufferManager : Type 0 where
  pub buffer_id : Option ℕ
  pub buffer : Option ℕ
  pub total_size : ℕ
  pub current_offset : ℕ
  pub allocated_count : ℕ
  pub free_list : List RioBufferSlice

abbrev pub make : RioBufferManager
make = record {
  buffer_id = none;
  buffer = none;
  total_size = 0;
  current_offset = 0;
  allocated_count = 0;
  free_list = [];
}

-- `memory` and `registered` are what VirtualAlloc and RIORegisterBuffer answer.
unfoldable pub initialize : Option ℕ → Option ℕ → ℕ → RioBufferManager → Bool × RioBufferManager
initialize memory registered total_size m = elim m.buffer [
  | some address ↦ (true, m)
  | none ↦ elim memory [
    | none ↦ (false, m)
    | some address ↦ elim registered [
      | none ↦ (false, record m { buffer_id = none; buffer = none })
      | some id ↦ (
        true,
        record m {
          buffer_id = some id;
          buffer = some address;
          total_size = total_size;
          current_offset = 0;
        },
      )
    ]
  ]
]

-- The first slice of a size on the free list, and the list without it.
unfoldable pub take_free : ℕ → List RioBufferSlice → Option (RioBufferSlice × List RioBufferSlice)
take_free size [] = none
take_free size (s ∷ ss) =
    if s.len == size
    then some (s, ss)
    else elim (take_free size ss) [ none ↦ none | some (t, ts) ↦ some (t, s ∷ ts) ]

abbrev pub or_0 : Option ℕ → ℕ
or_0 none = 0
or_0 (some n) = n

abbrev pub cut_slice : ℕ → RioBufferManager → Option RioBufferSlice × RioBufferManager
cut_slice size m = if ltb m.total_size (add32 m.current_offset size) then (none, m) else (
  some (record {
    buffer_id = or_0 m.buffer_id;
    offset = m.current_offset;
    len = size;
    address = or_0 m.buffer + m.current_offset;
  }),
  record m {
    current_offset = add32 m.current_offset size;
    allocated_count = add32 m.allocated_count 1;
  },
)

unfoldable pub allocate_slice : ℕ → RioBufferManager → Option RioBufferSlice × RioBufferManager
allocate_slice size m = elim (take_free size m.free_list) [
  | some (s, rest) ↦
      (some s, record m { free_list = rest; allocated_count = add32 m.allocated_count 1 })
  | none ↦ cut_slice size m
]

unfoldable pub deallocate_slice : RioBufferSlice → RioBufferManager → RioBufferManager
deallocate_slice s m = record m {
  free_list = m.free_list ++ (s ∷ []);
  allocated_count = if ltb 0 m.allocated_count then m.allocated_count - 1 else m.allocated_count;
}

unfoldable pub get_free_count : RioBufferManager → ℕ
get_free_count m = to_u32 (length m.free_list)

unfoldable pub finalize : RioBufferManager → RioBufferManager
finalize m = record m { buffer_id = none; buffer = none; total_size = 0; current_offset = 0 }
