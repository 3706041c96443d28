-- ===== src/Packets/Stream/Chunks.antt =====
-- The packets of a stream do not depend on how the stream is cut into pieces.
use fast_port.Prelude.{
  ℕ, zero, suc, ◌≤◌, ◌<◌, ◌≡◌, refl, ap, true, false, List, [], ◌++◌, length, take, drop, arith,
  length-drop, length-append, get_or-append, take_of_append, drop_of_append, inl, inr, ◌⊎◌,
}
use fast_port.Packets.Packet.{get_header_from_buffer, from_network}
use fast_port.Packets.Stream.{
  more, bad, packet, next, Decoded, front, decode_rounds, decode, continue,
}

-- The three answers, with what each says of the bytes.
pub next-cases :
    (xs : List ℕ)
    → let n = get_header_from_buffer xs in
      (next xs ≡ more)
      ⊎ ((next xs ≡ bad) × (2 ≤ length xs) × (n < 4))
      ⊎ ((next xs ≡ packet (take n xs) (drop n xs)) × (2 ≤ length xs) × (4 ≤ n) × (n ≤ length xs))
unfolding next
next-cases xs = ground arith

pub next-bad : (xs : List ℕ) → 2 ≤ length xs → get_header_from_buffer xs < 4 → next xs ≡ bad
unfolding next
next-bad xs h k = ground arith

pub next-packet :
    (xs : List ℕ) (n : ℕ)
    → get_header_from_buffer xs ≡ n
    → 2 ≤ length xs
    → 4 ≤ n
    → n ≤ length xs
    → next xs ≡ packet (take n xs) (drop n xs)
unfolding next
next-packet xs n e h k l = ground arith

-- More bytes do not change the size field.
header-append :
    (xs ys : List ℕ) → 2 ≤ length xs → get_header_from_buffer (xs ++ ys) ≡ get_header_from_buffer xs
unfolding get_header_from_buffer from_network
header-append xs ys h =
    ground (arith, length-append xs ys, get_or-append xs ys 0 0, get_or-append xs ys 1 0)

-- More rounds than bytes make no difference.
pub rounds :
    (f g : ℕ) (xs : List ℕ)
    → length xs < f
    → length xs < g
    → decode_rounds f xs ≡ decode_rounds g xs
unfolding decode_rounds
rounds zero g xs h k = absurd (omega arith)
rounds (suc f) zero xs h k = absurd (omega arith)
rounds (suc f) (suc g) xs h k = elim (next-cases xs) [
  | inl e ↦ rw (e, decode_rounds) refl
  | inr (inl (e, _, _)) ↦ rw (e, decode_rounds) refl
  | inr (inr (e, _, l, m)) ↦
      rw (e, decode_rounds)
        (ap (front (take (get_header_from_buffer xs) xs)) (
          rounds f g (drop (get_header_from_buffer xs) xs)
            (omega (arith, length-drop (get_header_from_buffer xs) xs))
            (omega (arith, length-drop (get_header_from_buffer xs) xs))))
]

-- A packet at the front is taken off, and decoding goes on behind it.
pub decode-packet :
    (xs raw rest : List ℕ)
    → next xs ≡ packet raw rest
    → length rest < length xs
    → decode xs ≡ front raw (decode rest)
unfolding decode decode_rounds
decode-packet xs raw rest e h =
    rw (e, decode_rounds)
      (ap (front raw) (rounds (length xs) (suc (length rest)) rest h (omega arith)))

decode-more :
    (xs : List ℕ) → next xs ≡ more → decode xs ≡ record { packets = []; rest = xs; valid = true }
unfolding decode decode_rounds
decode-more xs e = rw (e, decode_rounds) refl

decode-bad :
    (xs : List ℕ) → next xs ≡ bad → decode xs ≡ record { packets = []; rest = xs; valid = false }
unfolding decode decode_rounds
decode-bad xs e = rw (e, decode_rounds) refl

chunks_rounds :
    (f : ℕ) (xs ys : List ℕ) → length xs < f → decode (xs ++ ys) ≡ continue (decode xs) ys
unfolding continue
chunks_rounds zero xs ys h = absurd (omega arith)
chunks_rounds (suc f) xs ys h = elim (next-cases xs) [
  | inl e ↦ rw (decode-more xs e) refl
  | inr (inl (e, l, k)) ↦
      rw
        (
          decode-bad xs e,
          decode-bad (xs ++ ys) (
              next-bad (xs ++ ys) (omega (arith, length-append xs ys))
                (rw (header-append xs ys l) k)),
        )
        refl
  | inr (inr (e, l, k, m)) ↦
      let n = get_header_from_buffer xs in
      let shorter : length (drop n xs) < length xs = omega (arith, length-drop n xs) in
      let whole : next (xs ++ ys) ≡ packet (take n xs) (drop n xs ++ ys) =
        rw (← take_of_append n xs ys m, ← drop_of_append n xs ys m)
          (next-packet (xs ++ ys) n (header-append xs ys l) (omega (arith, length-append xs ys)) k
            (omega (arith, length-append xs ys))) in
      rw
        (
          decode-packet xs (take n xs) (drop n xs) e shorter,
          decode-packet (xs ++ ys) (take n xs) (drop n xs ++ ys) whole
              (omega (arith, length-append xs ys, length-append (drop n xs) ys)),
          chunks_rounds f (drop n xs) ys (omega arith),
        )
        (front-continue (take n xs) (decode (drop n xs)) ys)
]
  where
    front-continue :
        (raw : List ℕ) (d : Decoded) (ys : List ℕ)
        → front raw (continue d ys) ≡ continue (front raw d) ys
    front-continue raw d ys = ground arith

-- Decoding two pieces of a stream one after the other, the second behind what the first left over,
-- gives the packets of the whole stream; a bad size in the first piece ends the stream.
pub decode-append : (xs ys : List ℕ) → decode (xs ++ ys) ≡ continue (decode xs) ys
decode-append xs ys = chunks_rounds (suc (length xs)) xs ys (omega arith)

decode_rounds-exhausts :
    (f : ℕ) (xs : List ℕ)
    → length xs < f
    → (decode_rounds f xs).valid ≡ true
    → next (decode_rounds f xs).rest ≡ more
unfolding decode_rounds
decode_rounds-exhausts zero xs h v = absurd (omega arith)
decode_rounds-exhausts (suc f) xs h v = elim (next-cases xs) [
  | inl m ↦ ground (arith, m)
  | inr (inl (b, _, _)) ↦ absurd (ground (arith, b))
  | inr (inr (p, _, four, whole)) ↦
      let n = get_header_from_buffer xs in
      let later = decode_rounds-exhausts f (drop n xs) (omega (arith, length-drop n xs)) in
      ground (arith, p, later)
]

-- The rounds are enough: a decoding that meets no bad size stops where no whole packet stands in front.
pub decode-exhausts : (xs : List ℕ) → (decode xs).valid ≡ true → next (decode xs).rest ≡ more
unfolding decode
decode-exhausts xs v = decode_rounds-exhausts (suc (length xs)) xs (omega arith) v
