-- ===== src/HashMap/Create.antt =====
-- The four constructors of HashMap: the power they choose, and the empty map they build.
use native.Mathlib.Nat.{pow-suc, pow-le-pow_right}
use gnu_my_server_gso_c.Base.{
  ℕ, zero, suc, ◌+◌, ◌*◌, ◌/◌, ◌^◌, ◌≤◌, ◌<◌, max, ltb→lt, none, ◌≡◌, inl, inr, arith, ltb,
  Bool-cases,
}
use gnu_my_server_gso_c.Base.Int.{ℤ, pos, negsuc}
use gnu_my_server_gso_c.HashMap.Types.{Key, Float}
use gnu_my_server_gso_c.HashMap.Methods.{
  count_power, power_for, factor_for, new, new_capacity, new_factor, new_capacity_factor,
}
use gnu_my_server_gso_c.HashMap.Models.{Models}
use gnu_my_server_gso_c.HashMap.Laws.{with_power-Models}

-- The loop adds the number of binary digits: the least `k` with `h < 2 ^ k`.
Digits : ℕ → ℕ → ℕ → Type 0
Digits h p r = (k : ℕ) × (r ≡ k + p) × (h < 2 ^ k) × (2 ^ k ≤ max 1 (h * 2))

count_power-Digits : (fuel h p : ℕ) → h ≤ fuel → Digits h p (count_power fuel h p)
unfolding count_power Digits
count_power-Digits zero h p l = (0, omega arith, omega arith, omega arith)
count_power-Digits (suc fuel) h p l = elim (Bool-cases (ltb 0 h)) [
  | inl more ↦
      let (k, e, below, least) = count_power-Digits fuel (h / 2) (p + 1) (ground arith) in
      rw (count_power, more)
        (
          suc k,
          omega (arith, e),
          omega (arith, pow-suc 2 k, below),
          omega (arith, pow-suc 2 k, least, ltb→lt 0 h more),
        )
  | inr done ↦
      let z : h ≡ 0 = ground arith in
      rw (count_power, done) (0, omega arith, omega (arith, z), omega arith)
]

-- The capacity that an argument asks for.
abbrev pub asked : ℤ → ℕ
asked (pos n) = n
asked (negsuc n) = 0

-- The power is at least 4 and gives room for what is asked, at most twice as much.
Fits : ℕ → ℕ → Type 0
Fits n p = (4 ≤ p) × (p ≤ 30) × (n ≤ 2 ^ p) × (2 ^ p ≤ max 16 (n * 2))

shift_five : (k : ℕ) → 2 ^ (k + 5) ≡ 2 ^ k * 2 ^ 5
shift_five k =
    let e : k + 5 ≡ suc (suc (suc (suc (suc k)))) = omega arith in
    rw e (
      omega (
        arith,
        pow-suc 2 k,
        pow-suc 2 (suc k),
        pow-suc 2 (suc (suc k)),
        pow-suc 2 (suc (suc (suc k))),
        pow-suc 2 (suc (suc (suc (suc k)))),
      ))

few : (k : ℕ) → 2 ^ k < 2 ^ 26 → k ≤ 25
few k h = elim (Bool-cases (ltb k 26)) [
  | inl less ↦ ground arith
  | inr more ↦
      let up : 26 ≤ k = ground arith in
      let large : 2 ^ 26 ≤ 2 ^ k = pow-le-pow_right (omega arith) up in
      absurd (omega (arith, large))
]

power_for-Fits : (c : ℤ) → asked c < 2 ^ 30 → Fits (asked c) (power_for c)
unfolding power_for Fits Digits
power_for-Fits (negsuc n) h = (omega arith, omega arith, omega arith, omega arith)
power_for-Fits (pos n) h = elim (Bool-cases (ltb 16 n)) [
  | inl large ↦
      rw large (digits (ltb→lt 16 n large) (count_power-Digits n (n / 32) 5 (omega arith)))
  | inr small ↦ rw small (omega arith, omega arith, ground arith, omega arith)
]
  where
    digits :
        16 < n → Digits (n / 32) 5 (count_power n (n / 32) 5) → Fits n (count_power n (n / 32) 5)
    digits large (k, e, below, least) =
        let split : 2 ^ (k + 5) ≡ 2 ^ k * 2 ^ 5 = shift_five k in
        let short : k ≤ 25 = few k (omega (arith, least)) in
        rw e (
          omega arith,
          omega (arith, short),
          omega (arith, split, below),
          omega (arith, split, least, large),
        )

module _ {ℓ} {fl : Float} {K V : Type ℓ} ⦃key : Key K⦄ where
  -- If the capacity asked for is below 2 ^ 30, every constructor builds the empty map, and the
  -- constructor from a capacity makes at least as many lists as asked for, and at most 16 or twice
  -- as many.
  pub new_lem :
      (c : ℤ) (x : fl.F)
      → asked c < 2 ^ 30
      → Models {fl = fl} {K = K} {V = V} (λ q. none) new
        × Models {fl = fl} {K = K} {V = V} (λ q. none) (new_capacity c)
        × Models {fl = fl} {K = K} {V = V} (λ q. none) (new_factor x)
        × Models {fl = fl} {K = K} {V = V} (λ q. none) (new_capacity_factor c x)
        × (asked c ≤ (new_capacity {fl = fl} {K = K} {V = V} c).capacity)
        × ((new_capacity {fl = fl} {K = K} {V = V} c).capacity ≤ max 16 (asked c * 2))
  unfolding new new_capacity new_factor new_capacity_factor Fits
  new_lem c x h =
      let (four, thirty, room, tight) = power_for-Fits c h in
      (
        with_power-Models 4 fl.three_quarters (omega arith) (omega arith),
        with_power-Models (power_for c) fl.three_quarters four thirty,
        with_power-Models 4 (factor_for fl x) (omega arith) (omega arith),
        with_power-Models (power_for c) (factor_for fl x) four thirty,
        room,
        tight,
      )
