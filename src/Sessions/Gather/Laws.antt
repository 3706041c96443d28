-- ===== src/Sessions/Gather/Laws.antt =====
-- Writing in several goes is writing at once, and is filling the spans in order.
use fast_port.Prelude.{
  eq→==, ne→==, le→ltb, take_past, drop_past, blit-blit, nil_of_length, ℕ, ◌+◌, ◌-◌, ◌≤◌, ◌<◌, ◌≡◌,
  ◌≢◌, refl, ap, sym, ◌∙◌, List, [], ◌∷◌, ◌++◌, length, take, drop, blit, arith, length-append,
  take_of_append, drop_of_append, take_all, drop_all, blit-nil, take-nil,
}
use native.Mathlib.Decide.{dec_lt}
use native.Mathlib.Nat.{add_assoc, sub-add-eq, sub-zero, add-zero}
use fast_port.Buffers.Span.{Span, scatter}
use fast_port.Sessions.Gather.{Cursor, write_to_buffers}

pub write-nil :
    (m : List ℕ) (ss : List Span) (off : ℕ)
    → write_to_buffers m ss off [] ≡ record { memory = m; spans = ss; offset = off }
unfolding write_to_buffers
write-nil m [] off = refl
write-nil m (s ∷ ss) off = refl

-- The three cases of the loop: the bytes end in the span, or they fill it.
write-within :
    (m : List ℕ) (s : Span) (ss : List Span) (off : ℕ) (bs : List ℕ)
    → off + length bs < s.len
    → write_to_buffers m (s ∷ ss) off bs
      ≡ record { memory = blit m (s.start + off) bs; spans = s ∷ ss; offset = off + length bs }
unfolding write_to_buffers
write-within m s ss off bs h =
    ground (arith, take_all bs (length bs), nil_of_length bs, blit-nil m (s.start + off))

write-fills :
    (m : List ℕ) (s : Span) (ss : List Span) (off : ℕ) (bs : List ℕ)
    → length bs ≢ 0
    → off ≤ s.len
    → s.len ≤ off + length bs
    → write_to_buffers m (s ∷ ss) off bs
      ≡ write_to_buffers
          (blit m (s.start + off) (take (s.len - off) bs))
          ss
          0
          (drop (s.len - off) bs)
unfolding write_to_buffers
write-fills m s ss off bs ne h k =
    let e : off + (s.len - off) ≡ s.len = omega arith in
    rw
      (
        write_to_buffers,
        ne→== (length bs) 0 ne,
        le→ltb (length bs) (s.len - off) (omega arith),
        eq→== (off + (s.len - off)) s.len e,
      )
      refl

abbrev pub resume : Cursor → List ℕ → Cursor
resume c bs = write_to_buffers c.memory c.spans c.offset bs

abbrev pub InFirst : List Span → ℕ → Type 0
InFirst [] off = Unit {0}
InFirst (s ∷ ss) off = off ≤ s.len

pub InFirst-zero : (ss : List Span) → InFirst ss 0
InFirst-zero [] = tt
InFirst-zero (s ∷ ss) = omega arith

pub write-append :
    (m : List ℕ) (ss : List Span) (off : ℕ) (xs ys : List ℕ)
    → InFirst ss off
    → write_to_buffers m ss off (xs ++ ys) ≡ resume (write_to_buffers m ss off xs) ys
write-append m [] off xs ys h = unfold write_to_buffers in refl
write-append m (s ∷ ss) off [] ys h = rw (write-nil m (s ∷ ss) off) refl
write-append m (s ∷ ss) off (x ∷ xs') ys h = elim (dec_lt (off + length xs) s.len) [
  | yes inside ↦
      rw (write-within m s ss off xs inside) (elim (dec_lt (off + length xs + length ys) s.len) [
        | yes both ↦
            rw
              (
                write-within m s ss off (xs ++ ys) (omega (arith, length-append xs ys)),
                write-within (blit m (s.start + off) xs) s ss (off + length xs) ys both,
              )
              (cc (
                blit-blit m (s.start + off) (s.start + (off + length xs)) xs ys (omega arith),
                add_assoc off (length xs) (length ys),
                length-append xs ys,
              ))
        | no past ↦
            rw
              (
                write-fills m s ss off (xs ++ ys) (omega arith) h
                    (omega (arith, length-append xs ys)),
                write-fills (blit m (s.start + off) xs) s ss (off + length xs) ys (omega arith)
                    (omega arith) (omega arith),
                take_past (s.len - off) xs ys (omega arith),
                drop_past (s.len - off) xs ys (omega arith),
                blit-blit m (s.start + off) (s.start + (off + length xs)) xs
                    (take (s.len - (off + length xs)) ys) (omega arith),
                sub-add-eq s.len off (length xs),
              )
              refl
      ])
  | no outside ↦
      rw
        (
          write-fills m s ss off (xs ++ ys) (omega arith) h (omega (arith, length-append xs ys)),
          write-fills m s ss off xs (omega arith) h (omega arith),
          take_of_append (s.len - off) xs ys (omega arith),
          drop_of_append (s.len - off) xs ys (omega arith),
        )
        (write-append (blit m (s.start + off) (take (s.len - off) xs)) ss 0 (drop (s.len - off) xs)
          ys (InFirst-zero ss))
]
  where
    xs : List ℕ
    xs = x ∷ xs'

-- The cursor stays within its span.
pub InFirst-resume :
    (m : List ℕ) (ss : List Span) (off : ℕ) (bs : List ℕ)
    → InFirst ss off
    → let c = write_to_buffers m ss off bs in InFirst c.spans c.offset
InFirst-resume m [] off bs h = unfold write_to_buffers in tt
InFirst-resume m (s ∷ ss) off [] h = rw (write-nil m (s ∷ ss) off) h
InFirst-resume m (s ∷ ss) off (b ∷ bs) h = elim (dec_lt (off + length (b ∷ bs)) s.len) [
  | yes inside ↦ rw (write-within m s ss off (b ∷ bs) inside) (omega arith)
  | no outside ↦ rw (write-fills m s ss off (b ∷ bs) (omega arith) h (omega arith)) (
      InFirst-resume (blit m (s.start + off) (take (s.len - off) (b ∷ bs))) ss 0
        (drop (s.len - off) (b ∷ bs)) (InFirst-zero ss))
]

-- Where the bytes have room in the current span, they are written in place.
pub write_in_first :
    (m : List ℕ) (s : Span) (ss : List Span) (off : ℕ) (bs : List ℕ)
    → off ≤ s.len
    → off + length bs ≤ s.len
    → (write_to_buffers m (s ∷ ss) off bs).memory ≡ blit m (s.start + off) bs
write_in_first m s ss off [] h k = rw (write-nil m (s ∷ ss) off) (sym (blit-nil m (s.start + off)))
write_in_first m s ss off (b ∷ bs) h k = elim (dec_lt (off + length (b ∷ bs)) s.len) [
  | yes inside ↦ rw (write-within m s ss off (b ∷ bs) inside) refl
  | no outside ↦
      rw
        (
          write-fills m s ss off (b ∷ bs) (omega arith) h (omega arith),
          drop_all (b ∷ bs) (s.len - off) (omega arith),
          take_all (b ∷ bs) (s.len - off) (omega arith),
          write-nil (blit m (s.start + off) (b ∷ bs)) ss 0,
        )
        refl
]

scatter-nil : (m : List ℕ) (ss : List Span) → scatter m ss [] ≡ m
unfolding scatter
scatter-nil m [] = refl
scatter-nil m (s ∷ ss) =
    rw (take-nil ℕ s.len, blit-nil m s.start, drop_all {A = ℕ} [] s.len (omega arith))
      (scatter-nil m ss)

-- From the first span on, the bytes are written as by filling the spans in order.
pub scatter-write :
    (m : List ℕ) (ss : List Span) (bs : List ℕ)
    → (write_to_buffers m ss 0 bs).memory ≡ scatter m ss bs
unfolding scatter
scatter-write m [] bs = unfold write_to_buffers in refl
scatter-write m (s ∷ ss) [] = rw (write-nil m (s ∷ ss) 0) (sym (scatter-nil m (s ∷ ss)))
scatter-write m (s ∷ ss) (b ∷ bs) = elim (dec_lt (0 + length (b ∷ bs)) s.len) [
  | yes inside ↦
      rw
        (
          write-within m s ss 0 (b ∷ bs) inside,
          scatter,
          take_all (b ∷ bs) s.len (omega arith),
          drop_all (b ∷ bs) s.len (omega arith),
          scatter-nil,
        )
        (ap (λ k. blit m k (b ∷ bs)) (let e : s.start + 0 ≡ s.start = omega arith in e))
  | no outside ↦
      rw
        (
          write-fills m s ss 0 (b ∷ bs) (omega arith) (omega arith) (omega arith),
          sub-zero,
          add-zero,
        )
        (scatter-write (blit m s.start (take s.len (b ∷ bs))) ss (drop s.len (b ∷ bs)) ∙ refl)
]
