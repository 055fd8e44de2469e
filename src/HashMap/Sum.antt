-- ===== src/HashMap/Sum.antt =====
-- Families of lists over the indices of a vector: update at one index, and the number of entries.
use gnu_my_server_gso_c.Base.{
  ℕ, zero, suc, ◌+◌, ◌≤◌, ◌<◌, List, [], ◌≡◌, refl, ap, arith, ◌==◌, if◌then◌else◌, length,
}

module _ {ℓ} {A : Type ℓ} where
  abbrev pub update : (ℕ → List A) → ℕ → List A → ℕ → List A
  update f i c j = if i == j then c else f j

  -- The number of entries of the lists below `n`.
  unfoldable pub sum : ℕ → (ℕ → List A) → ℕ
  sum zero f = 0
  sum (suc n) f = sum n f + length (f n)

  pub sum_ext : (n : ℕ) (f g : ℕ → List A) → ((j : ℕ) → j < n → f j ≡ g j) → sum n f ≡ sum n g
  unfolding sum
  sum_ext zero f g h = refl
  sum_ext (suc n) f g h =
      let ih = sum_ext n f g (λ j l. h j (omega arith)) in
      let top = h n (omega arith) in ground (arith, ih, top)

  sum-update_above :
      (n i : ℕ) (f : ℕ → List A) (c : List A) → n ≤ i → sum n (update f i c) ≡ sum n f
  sum-update_above n i f c h = sum_ext n (update f i c) f (λ j l. ground arith)

  pub sum-update :
      (n i : ℕ) (f : ℕ → List A) (c : List A)
      → i < n
      → sum n (update f i c) + length (f i) ≡ sum n f + length c
  unfolding sum
  sum-update zero i f c h = absurd (omega arith)
  sum-update (suc n) i f c h = ground (arith, sum-update n i f c, sum-update_above n i f c)

  pub sum_none : (n : ℕ) (f : ℕ → List A) → ((j : ℕ) → f j ≡ []) → sum n f ≡ 0
  unfolding sum
  sum_none zero f h = refl
  sum_none (suc n) f h = ground (arith, sum_none n f h, h n)

  pub sum_tail : (d k : ℕ) (f : ℕ → List A) → ((j : ℕ) → k ≤ j → f j ≡ []) → sum (d + k) f ≡ sum k f
  unfolding sum
  sum_tail zero k f h = let e : 0 + k ≡ k = omega arith in rw e
  sum_tail (suc d) k f h =
      let e : suc d + k ≡ suc (d + k) = omega arith in
      rw e (omega (arith, sum_tail d k f h, ap length (h (d + k) (omega arith))))

  pub le-sum : (n i : ℕ) (f : ℕ → List A) → i < n → length (f i) ≤ sum n f
  le-sum n i f h = omega (arith, sum-update n i f [] h)
