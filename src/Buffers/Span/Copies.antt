-- ===== src/Buffers/Span/Copies.antt =====
-- Definitions: a span is a start and a length in the storage.
use fast_port.Prelude.{
  ℕ, ◌+◌, ◌-◌, ◌%◌, List, [], ◌∷◌, ◌++◌, length, take, drop, blit, ltb, if◌then◌else◌, add64, sub64,
  min,
}

pub record Span : Type 0 where
  pub start : ℕ
  pub len : ℕ

-- What stands in the memory of some spans, in order.
abbrev pub gather : List ℕ → List Span → List ℕ
gather buf [] = []
gather buf (s ∷ ss) = take s.len (drop s.start buf) ++ gather buf ss

-- How many bytes some spans hold.
abbrev pub total : List Span → ℕ
total [] = 0
total (s ∷ ss) = s.len + total ss

-- `std::min(size, m_Capacity - index)`.
unfoldable pub first_part : ℕ → ℕ → ℕ → ℕ
first_part capacity index n = min n (sub64 capacity index)

-- The two `memcpy` of `Write`: up to the end of the storage, and the rest from its start.
unfoldable pub copy_in : List ℕ → ℕ → ℕ → List ℕ → List ℕ
copy_in buf capacity index bytes =
    let first = first_part capacity index (length bytes) in
    let buf' = blit buf index (take first bytes) in
    if ltb first (length bytes) then blit buf' 0 (drop first bytes) else buf'

-- The two `memcpy` of `Pop` and `Peek`.
unfoldable pub copy_out : List ℕ → ℕ → ℕ → ℕ → List ℕ
copy_out buf capacity index n =
    let first = first_part capacity index n in
    let part = take first (drop index buf) in
    if ltb first n then part ++ take (n - first) buf else part

-- The one or two spans of `n` bytes from an index on.
unfoldable pub spans_from : ℕ → ℕ → ℕ → List Span
spans_from capacity index n =
    let first = first_part capacity index n in
    record { start = index; len = first }
    ∷ (if ltb first n then record { start = 0; len = n - first } ∷ [] else [])

-- `(index + size) % m_Capacity`.
abbrev pub advance : ℕ → ℕ → ℕ → ℕ
advance capacity index n = add64 index n % capacity

-- Writing bytes through spans in order, as the system does when it completes a receive.
unfoldable pub scatter : List ℕ → List Span → List ℕ → List ℕ
scatter buf [] bytes = buf
scatter buf (s ∷ ss) bytes = scatter (blit buf s.start (take s.len bytes)) ss (drop s.len bytes)
