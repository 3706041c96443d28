-- ===== src/Server/Admin/Range.antt =====
-- The range of ids that the mask of `IsAdminPacketId` tells.
use Prim.Native.Nat.{bit_and, digits, bit_and-bitwise}
use fast_port.Prelude.{
  ℕ, zero, suc, ◌+◌, ◌*◌, ◌/◌, ◌%◌, ◌^◌, ◌≤◌, ◌<◌, ◌≡◌, refl, ◌&&◌, leb, ltb, min, arith, ap,
}
use fast_port.Server.Admin.{is_admin_packet_id}

-- The digits of the first number are gone before the count of digits is.
enough_digits :
    (n m a b : ℕ) → a ≤ n → a ≤ m → digits (λ y. 0) min n a b ≡ digits (λ y. 0) min m a b
enough_digits zero zero zero b h k = refl
enough_digits zero (suc m) zero b h k = refl
enough_digits (suc n) zero zero b h k = refl
enough_digits (suc n) (suc m) zero b h k = refl
enough_digits zero m (suc a) b h k = absurd (omega (arith, h))
enough_digits (suc n) zero (suc a) b h k = absurd (omega (arith, k))
enough_digits (suc n) (suc m) (suc a) b h k =
    ap (λ d. d * 2 + min (suc a % 2) (b % 2))
      (enough_digits n m (suc a / 2) (b / 2) (omega (arith, h)) (omega (arith, k)))

-- The lowest digit, and the others.
bit_and-digit : (a b : ℕ) → bit_and a b ≡ bit_and (a / 2) (b / 2) * 2 + min (a % 2) (b % 2)
bit_and-digit zero b = simp bit_and-bitwise (omega arith)
bit_and-digit (suc a) b = simp bit_and-bitwise (
    ap (λ d. d * 2 + min (suc a % 2) (b % 2))
      (enough_digits a (suc a / 2) (suc a / 2) (b / 2) (omega arith) (omega arith)))

bit_and-double : (a b c : ℕ) → c ≡ b * 2 → bit_and a c ≡ bit_and (a / 2) b * 2
bit_and-double a b c e =
    let half : c / 2 ≡ b = omega (arith, e) in
    let none : min (a % 2) (c % 2) ≡ 0 = omega (arith, e) in
    rw (bit_and-digit a c, half, none) (omega arith)

bit_and-eight : (a b c : ℕ) → c ≡ b * 8 → bit_and a c ≡ bit_and (a / 8) b * 8
bit_and-eight a b c e =
    let same : a / 2 / 2 / 2 ≡ a / 8 = omega arith in
    let third : bit_and (a / 2 / 2) (b * 2) ≡ bit_and (a / 8) b * 2 =
      rw (← same) (bit_and-double (a / 2 / 2) b (b * 2) refl) in
    omega (
      arith,
      bit_and-double a (b * 4) c (omega (arith, e)),
      bit_and-double (a / 2) (b * 2) (b * 4) (omega arith),
      third,
    )

bit_and-nibble : (a : ℕ) → a < 16 → bit_and a 15 ≡ a
bit_and-nibble a h =
    let d0 : bit_and a 15 ≡ bit_and (a / 2) 7 * 2 + min (a % 2) 1 = bit_and-digit a 15 in
    let d1 : bit_and (a / 2) 7 ≡ bit_and (a / 2 / 2) 3 * 2 + min (a / 2 % 2) 1 =
      bit_and-digit (a / 2) 7 in
    let d2 : bit_and (a / 2 / 2) 3 ≡ bit_and (a / 2 / 2 / 2) 1 * 2 + min (a / 2 / 2 % 2) 1 =
      bit_and-digit (a / 2 / 2) 3 in
    let d3 : bit_and (a / 2 / 2 / 2) 1
        ≡ bit_and (a / 2 / 2 / 2 / 2) 0 * 2 + min (a / 2 / 2 / 2 % 2) 1 =
      bit_and-digit (a / 2 / 2 / 2) 1 in
    let end : a / 2 / 2 / 2 / 2 ≡ 0 = omega (arith, h) in
    let d4 : bit_and (a / 2 / 2 / 2 / 2) 0 ≡ 0 = rw end refl in omega (arith, d0, d1, d2, d3, d4)

-- The mask keeps the four highest of sixteen digits.
bit_and-mask : (id : ℕ) → id < 2 ^ 16 → bit_and id 61440 ≡ id / 4096 * 4096
bit_and-mask id h =
    let same : id / 8 / 8 / 8 / 8 ≡ id / 4096 = omega arith in
    let last : bit_and (id / 8 / 8 / 8 / 8) 15 ≡ id / 4096 =
      rw same (bit_and-nibble (id / 4096) (omega (arith, h))) in
    omega (
      arith,
      bit_and-eight id 7680 61440 refl,
      bit_and-eight (id / 8) 960 7680 refl,
      bit_and-eight (id / 8 / 8) 120 960 refl,
      bit_and-eight (id / 8 / 8 / 8) 15 120 refl,
      last,
    )

-- Of the ids of 16 bits, those from 0x8000 up to 0x8FFF are the administrator's.
pub is_admin_packet_id-range :
    (id : ℕ) → id < 2 ^ 16 → is_admin_packet_id id ≡ (leb 32768 id && ltb id 36864)
unfolding is_admin_packet_id
is_admin_packet_id-range id h = let kept = bit_and-mask id h in ground (arith, kept)
