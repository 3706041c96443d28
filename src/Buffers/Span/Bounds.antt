-- ===== src/Buffers/Span/Bounds.antt =====
-- What the copies round the end of the storage do, index by index.
use fast_port.Prelude.{
  ℕ, ◌+◌, ◌-◌, ◌%◌, ◌≤◌, ◌<◌, ◌^◌, ◌≡◌, refl, List, [], ◌∷◌, ◌++◌, length, take, drop, blit, ltb,
  if◌then◌else◌, get_or, get_or-blit, get_or-take, get_or-drop, get_or-append, length-blit,
  length-take, length-drop, length-append, mod_below_twice, arith, le→ltb, lt→ltb, min, sub64,
  append-nil, take_all, drop_all, blit-nil, take-nil, ◌∙◌, ap,
}
use fast_port.Buffers.Span.Copies.{
  Span, first_part, copy_in, copy_out, spans_from, gather, scatter, advance,
}
use native.Mathlib.Nat.{mod-add-mod}
use native.Mathlib.Decide.{dec_le}

module _ (cap : ℕ) (small : cap ≤ 2 ^ 63) where
  first_part_fits : (t n : ℕ) → t < cap → n ≤ cap - t → first_part cap t n ≡ n
  unfolding first_part
  first_part_fits t n ht h = omega arith

  first_part_wraps : (t n : ℕ) → t < cap → cap - t < n → first_part cap t n ≡ cap - t
  unfolding first_part
  first_part_wraps t n ht h = omega arith

  copy_out_fits :
      (buf : List ℕ) (t n : ℕ) → t < cap → n ≤ cap - t → copy_out buf cap t n ≡ take n (drop t buf)
  unfolding copy_out
  copy_out_fits buf t n ht h = rw (first_part_fits t n ht h, le→ltb n n (omega arith)) refl

  copy_out_wraps :
      (buf : List ℕ) (t n : ℕ)
      → t < cap
      → cap - t < n
      → copy_out buf cap t n ≡ take (cap - t) (drop t buf) ++ take (n - (cap - t)) buf
  unfolding copy_out
  copy_out_wraps buf t n ht h = rw (first_part_wraps t n ht h, lt→ltb (cap - t) n h) refl

  copy_in_fits :
      (buf : List ℕ) (w : ℕ) (bytes : List ℕ)
      → w < cap
      → length bytes ≤ cap - w
      → copy_in buf cap w bytes ≡ blit buf w (take (length bytes) bytes)
  unfolding copy_in
  copy_in_fits buf w bytes ht h =
      rw (first_part_fits w (length bytes) ht h, le→ltb (length bytes) (length bytes) (omega arith))
        refl

  copy_in_wraps :
      (buf : List ℕ) (w : ℕ) (bytes : List ℕ)
      → w < cap
      → cap - w < length bytes
      → copy_in buf cap w bytes ≡ blit (blit buf w (take (cap - w) bytes)) 0 (drop (cap - w) bytes)
  unfolding copy_in
  copy_in_wraps buf w bytes ht h =
      rw (first_part_wraps w (length bytes) ht h, lt→ltb (cap - w) (length bytes) h) refl

module _ (buf : List ℕ) (cap : ℕ) (pos : 0 < cap) (small : cap ≤ 2 ^ 63)
    (fits : length buf ≡ cap) where
  pub length-copy_in : (w : ℕ) (bytes : List ℕ) → length (copy_in buf cap w bytes) ≡ cap
  unfolding copy_in
  length-copy_in w bytes =
      let first = first_part cap w (length bytes) in
      ground (
        arith,
        length-blit buf w (take first bytes),
        length-blit (blit buf w (take first bytes)) 0 (drop first bytes),
      )

  pub length-copy_out : (t n : ℕ) → t < cap → n ≤ cap → length (copy_out buf cap t n) ≡ n
  length-copy_out t n ht hn = elim (dec_le n (cap - t)) [
    | yes h ↦
        rw (copy_out_fits cap small buf t n ht h)
          (length-take n (drop t buf) (omega (arith, length-drop t buf)))
    | no h ↦
        rw (copy_out_wraps cap small buf t n ht (omega arith), length-append)
          (omega (
            arith,
            length-take (cap - t) (drop t buf),
            length-take (n - (cap - t)) buf,
            length-drop t buf,
          ))
  ]

  pub get_or-copy_out :
      (t n i : ℕ)
      → t < cap
      → n ≤ cap
      → i < n
      → get_or (copy_out buf cap t n) i 0 ≡ get_or buf ((t + i) % cap) 0
  get_or-copy_out t n i ht hn hi = elim (dec_le n (cap - t)) [
    | yes h ↦
        rw
          (
            copy_out_fits cap small buf t n ht h,
            (mod_below_twice (t + i) cap pos (omega arith)).0 (omega arith),
            get_or-take n (drop t buf) i 0 hi,
          )
          (get_or-drop t buf i 0)
    | no h ↦
        rw (copy_out_wraps cap small buf t n ht (omega arith), get_or-append)
          (ground (
            arith,
            length-take (cap - t) (drop t buf),
            length-drop t buf,
            get_or-take (cap - t) (drop t buf) i 0,
            get_or-drop t buf i 0,
            get_or-take (n - (cap - t)) buf (i - (cap - t)) 0,
            mod_below_twice (t + i) cap,
          ))
  ]

  pub get_or-copy_in :
      (w k : ℕ) (bytes : List ℕ)
      → w < cap
      → length bytes ≤ cap
      → k < cap
      → get_or (copy_in buf cap w bytes) ((w + k) % cap) 0
        ≡ (if ltb k (length bytes) then get_or bytes k 0 else get_or buf ((w + k) % cap) 0)
  get_or-copy_in w k bytes hw hb hk = elim (dec_le (length bytes) (cap - w)) [
    | yes h ↦
        rw
          (
            copy_in_fits cap small buf w bytes hw h,
            get_or-blit buf w (take (length bytes) bytes) ((w + k) % cap) 0 (omega arith),
          )
          (ground (
            arith,
            length-take (length bytes) bytes,
            get_or-take (length bytes) bytes k 0,
            mod_below_twice (w + k) cap,
          ))
    | no h ↦
        rw
          (
            copy_in_wraps cap small buf w bytes hw (omega arith),
            get_or-blit (blit buf w (take (cap - w) bytes)) 0 (drop (cap - w) bytes) ((w + k) % cap)
                0 (omega (arith, length-blit buf w (take (cap - w) bytes))),
            get_or-blit buf w (take (cap - w) bytes) ((w + k) % cap) 0 (omega arith),
          )
          (ground (
            arith,
            length-take (cap - w) bytes,
            length-drop (cap - w) bytes,
            get_or-take (cap - w) bytes k 0,
            get_or-drop (cap - w) bytes (k - (cap - w)) 0,
            mod_below_twice (w + k) cap,
          ))
  ]

pub length-scatter :
    (buf : List ℕ) (ss : List Span) (bs : List ℕ) → length (scatter buf ss bs) ≡ length buf
unfolding scatter
length-scatter buf [] bs = refl
length-scatter buf (s ∷ ss) bs =
    length-scatter (blit buf s.start (take s.len bs)) ss (drop s.len bs)
    ∙ length-blit buf s.start (take s.len bs)

-- The spans show what `Pop` and `Peek` would copy.
pub gather-spans_from :
    (buf : List ℕ) (cap t n : ℕ) → gather buf (spans_from cap t n) ≡ copy_out buf cap t n
unfolding spans_from copy_out
gather-spans_from buf cap t n = ground (
  arith,
  append-nil (take (first_part cap t n) (drop t buf)),
  append-nil (take (n - first_part cap t n) buf),
)

-- Filling the spans of a free stretch is what `Write` does, also where the bytes fill only a part.
pub scatter-spans_from :
    (buf : List ℕ) (cap w n : ℕ) (bs : List ℕ)
    → cap ≤ 2 ^ 63
    → w < cap
    → length bs ≤ n
    → scatter buf (spans_from cap w n) bs ≡ copy_in buf cap w bs
unfolding spans_from copy_in scatter first_part
scatter-spans_from buf cap w n bs small hw h = ground (
  arith,
  take_all bs (length bs),
  take_all bs n,
  take_all bs (cap - w),
  drop_all bs n,
  drop_all bs (cap - w),
  take_all (drop (cap - w) bs) (n - (cap - w)),
  length-drop (cap - w) bs,
  blit-nil (blit buf w bs) 0,
  take-nil ℕ (n - (cap - w)),
)

-- Moving an index on twice is moving it on once.
pub advance_at :
    (cap t s n : ℕ)
    → 0 < cap
    → cap ≤ 2 ^ 63
    → s + n ≤ cap
    → advance cap ((t + s) % cap) n ≡ (t + (s + n)) % cap
advance_at cap t s n p small h =
    let inside : ((t + s) % cap + n) % 2 ^ 64 ≡ (t + s) % cap + n = omega arith in
    rw (inside, mod-add-mod) (ap (λ k. k % cap) (omega arith))

pub advance_back :
    (cap t s n : ℕ)
    → 0 < cap
    → cap ≤ 2 ^ 63
    → t < cap
    → n ≤ s
    → s ≤ cap
    → (advance cap t n + (s - n)) % cap ≡ (t + s) % cap
advance_back cap t s n p small ht h hs =
    let inside : (t + n) % 2 ^ 64 ≡ t + n = omega arith in
    rw (inside, mod-add-mod) (ap (λ k. k % cap) (omega arith))

pub copy_in-nil : (buf : List ℕ) (cap w : ℕ) → copy_in buf cap w [] ≡ buf
unfolding copy_in first_part
copy_in-nil buf cap w = ground (arith, blit-nil buf w, take-nil ℕ (min 0 (sub64 cap w)))
