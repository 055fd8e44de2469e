-- ===== src/Base/Bits.antt =====
-- Facts about `bit_and` at variables: a mask of ones takes a remainder.
use Prim.Native.Nat.{
  ℕ, zero, suc, ◌+◌, ◌-◌, ◌*◌, ◌/◌, ◌%◌, ◌^◌, ◌≤◌, ◌<◌, min, bit_and, digits, bit_and-bitwise,
}
use mathlib.Core.Path.{◌≡◌, refl, ap, ◌∙◌}
use native.Mathlib.Omega.{arith}
use native.Mathlib.Nat.{
  pow-suc, one-le-pow, mod-eq_of_lt, mod-lt, mod-add-div', add-mul-mod_self_right,
}

-- What `bit_and` stands for: the digit recursion on fuel.
abbrev both : ℕ → ℕ → ℕ → ℕ
both = digits (λ b. 0) min

both_enough : (n k a b : ℕ) → a ≤ n → a ≤ k → both n a b ≡ both k a b
both_enough n k zero b h l = none_left n k
  where
    none_left : (n k : ℕ) → both n 0 b ≡ both k 0 b
    none_left zero zero = refl
    none_left zero (suc k) = refl
    none_left (suc n) zero = refl
    none_left (suc n) (suc k) = refl
both_enough zero k (suc a) b h l = absurd (omega arith)
both_enough (suc n) zero (suc a) b h l = absurd (omega arith)
both_enough (suc n) (suc k) (suc a) b h l =
    omega (arith, both_enough n k (suc a / 2) (b / 2) (omega arith) (omega arith))

pub bit_and_low : (a b : ℕ) → bit_and a b ≡ bit_and (a / 2) (b / 2) * 2 + min (a % 2) (b % 2)
bit_and_low zero b = omega (arith, bit_and-bitwise 0 b, bit_and-bitwise 0 (b / 2))
bit_and_low (suc a) b = omega (
  arith,
  bit_and-bitwise (suc a) b,
  bit_and-bitwise (suc a / 2) (b / 2),
  both_enough a (suc a / 2) (suc a / 2) (b / 2) (omega arith) (omega arith),
)

mod-double : (x m : ℕ) → 0 < m → x % (m * 2) ≡ x / 2 % m * 2 + x % 2
mod-double x m h =
    omega
      (arith, split, mod-eq_of_lt (small (x / 2 % m) (x % 2) m (mod-lt (x / 2) h) (omega arith)))
  where
    small : (r b n : ℕ) → r < n → b < 2 → r * 2 + b < n * 2
    small r b n p q = omega arith

    whole : x ≡ x / 2 % m * 2 + x % 2 + x / 2 / m * (m * 2)
    whole = grind (arith, mod-add-div' (x / 2) m)

    split : x % (m * 2) ≡ (x / 2 % m * 2 + x % 2) % (m * 2)
    split =
        ap (λ y. y % (m * 2)) whole
        ∙ add-mul-mod_self_right (x / 2 % m * 2 + x % 2) (x / 2 / m) (m * 2)

bit_and-nothing : (x bound : ℕ) → x ≤ bound → bit_and x 0 ≡ 0
bit_and-nothing zero bound h = refl
bit_and-nothing (suc x) zero h = absurd (omega arith)
bit_and-nothing (suc x) (suc bound) h =
    let half = bit_and-nothing (suc x / 2) bound (omega arith) in
    omega (arith, half, bit_and_low (suc x) 0)

bit_and-double :
    (m x : ℕ) → 0 < m → bit_and (x / 2) (m - 1) ≡ x / 2 % m → bit_and x (m * 2 - 1) ≡ x % (m * 2)
bit_and-double m x h ih =
    omega (arith, bit_and_low x (m * 2 - 1), ap (bit_and (x / 2)) half_mask, ih, mod-double x m h)
  where
    half_mask : (m * 2 - 1) / 2 ≡ m - 1
    half_mask = omega arith

-- `x & (2 ^ p - 1)` is the remainder by `2 ^ p`.
pub bit_and-mask : (p x : ℕ) → bit_and x (2 ^ p - 1) ≡ x % 2 ^ p
bit_and-mask zero x = omega (arith, bit_and-nothing x x (omega arith))
bit_and-mask (suc p) x =
    rw (pow-suc 2 p)
      (bit_and-double (2 ^ p) x (one-le-pow p 2 (omega arith)) (bit_and-mask p (x / 2)))
