-- ===== src/Prelude/Words.antt =====
-- Machine words: unsigned arithmetic with its wrap-around, and 16-bit numbers in network order.
use Prim.Native.Nat.{ℕ, ◌+◌, ◌-◌, ◌%◌, ◌^◌, ◌≤◌, ◌<◌}
use mathlib.Core.Path.{◌≡◌, ◌∙◌}
use native.Mathlib.Nat.{mod-eq_of_lt, mod-eq-sub-mod}
use native.Mathlib.Omega.{arith}

-- `size_t` and `uint64_t` arithmetic.
abbrev pub add64 : ℕ → ℕ → ℕ
add64 a b = (a + b) % 2 ^ 64

abbrev pub sub64 : ℕ → ℕ → ℕ
sub64 a b = (a + 2 ^ 64 - b) % 2 ^ 64

-- `uint32_t` arithmetic.
abbrev pub add32 : ℕ → ℕ → ℕ
add32 a b = (a + b) % 2 ^ 32

-- A conversion to `uint16_t` and to `uint32_t`.
abbrev pub to_u16 : ℕ → ℕ
to_u16 a = a % 2 ^ 16

abbrev pub to_u32 : ℕ → ℕ
to_u32 a = a % 2 ^ 32

-- Below twice the modulus a remainder takes at most one subtraction.
pub mod_below_twice : (x c : ℕ) → 0 < c → x < c + c → (x < c → x % c ≡ x) × (c ≤ x → x % c ≡ x - c)
mod_below_twice x c p h = (
  λ q. mod-eq_of_lt q,
  λ q. mod-eq-sub-mod {n = x} {m = c} q ∙ mod-eq_of_lt {n = x - c} {m = c} (omega arith),
)
