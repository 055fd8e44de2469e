-- ===== src/HashMap/Spread.antt =====
-- What becomes of a list whose entries are sent to their slots: those that stay and those that move.
use gnu_my_server_gso_c.Base.{
  ℕ, ◌+◌, ◌≤◌, ◌<◌, List, [], ◌∷◌, ◌≡◌, ◌≢◌, refl, subst, inl, inr, arith, if◌then◌else◌, length,
  ◌==◌, ==_iff, ==_refl, ==_symm, Bool-cases, false,
}
use native.Mathlib.Decide.{ℕ_discrete}
use gnu_my_server_gso_c.HashMap.Types.{Key, Shkv}
use gnu_my_server_gso_c.HashMap.Table.{hash}
use gnu_my_server_gso_c.HashMap.Chain.{find}
use gnu_my_server_gso_c.HashMap.Resize.{stays}
use gnu_my_server_gso_c.HashMap.Sum.{update, sum, sum_ext, sum-update}
use gnu_my_server_gso_c.HashMap.Entries.{count, Hashed, arrivals, spread, Below, find-eq-none}

module _ {ℓ} {K V : Type ℓ} ⦃key : Key K⦄ (σ : ℕ → ℕ) where
  pub count-stays :
      (q : K) (i : ℕ) (c : List (Shkv K V))
      → Hashed c
      → count q (stays σ i c) ≡ (if σ (hash q) == i then count q c else 0)
  unfolding count stays
  count-stays q i [] h = ground arith
  count-stays q i (e ∷ c) h = ground (arith, count-stays q i c h.1, key.eq_iff e.key q)

  pub count-arrivals :
      (q : K) (j : ℕ) (c acc : List (Shkv K V))
      → Hashed c
      → count q (arrivals σ j c acc) ≡ (if σ (hash q) == j then count q c else 0) + count q acc
  unfolding count arrivals
  count-arrivals q j [] acc h = ground arith
  count-arrivals q j (e ∷ c) acc h =
      ground (
        arith,
        count-arrivals q j c (e ∷ acc) h.1,
        count-arrivals q j c acc h.1,
        key.eq_iff e.key q,
      )

  pub find-stays :
      (q : K) (i : ℕ) (c : List (Shkv K V))
      → Hashed c
      → σ (hash q) ≡ i
      → find q (stays σ i c) ≡ find q c
  unfolding find stays
  find-stays q i [] h s = refl
  find-stays q i (e ∷ c) h s = ground (arith, find-stays q i c h.1 s, key.eq_iff e.key q)

  pub find-arrivals_other :
      (q : K) (j : ℕ) (c acc : List (Shkv K V))
      → count q c ≡ 0
      → find q (arrivals σ j c acc) ≡ find q acc
  unfolding find count arrivals
  find-arrivals_other q j [] acc h = refl
  find-arrivals_other q j (e ∷ c) acc h =
      ground (arith, find-arrivals_other q j c (e ∷ acc), find-arrivals_other q j c acc)

  pub find-arrivals :
      (q : K) (j : ℕ) (c acc : List (Shkv K V))
      → Hashed c
      → σ (hash q) ≡ j
      → count q c ≤ 1
      → count q acc ≡ 0
      → find q (arrivals σ j c acc) ≡ find q c
  unfolding find count arrivals
  find-arrivals q j [] acc h s one none_yet = find-eq-none q acc none_yet
  find-arrivals q j (e ∷ c) acc h s one none_yet = ground (
    arith,
    find-arrivals q j c (e ∷ acc) h.1 s,
    find-arrivals q j c acc h.1 s,
    find-arrivals_other q j c (e ∷ acc),
    key.eq_iff e.key q,
  )

  pub stays-Hashed : (i : ℕ) (c : List (Shkv K V)) → Hashed c → Hashed (stays σ i c)
  unfolding stays
  stays-Hashed i [] h = tt
  stays-Hashed i (e ∷ c) h = ground (arith, stays-Hashed i c h.1)

  pub arrivals-Hashed :
      (j : ℕ) (c acc : List (Shkv K V)) → Hashed c → Hashed acc → Hashed (arrivals σ j c acc)
  unfolding arrivals
  arrivals-Hashed j [] acc h g = g
  arrivals-Hashed j (e ∷ c) acc h g =
      ground (arith, arrivals-Hashed j c (e ∷ acc) h.1, arrivals-Hashed j c acc h.1 g)

  -- One more entry at the front of the list: it stays, or it is pushed to its slot first.
  spread_stay :
      (i : ℕ) (e : Shkv K V) (c : List (Shkv K V)) (f : ℕ → List (Shkv K V)) (j : ℕ)
      → σ e.hash ≡ i
      → spread σ i (e ∷ c) f j ≡ update (spread σ i c f) i (e ∷ stays σ i c) j
  unfolding stays arrivals
  spread_stay i e c f j s = ground arith

  arrivals_cons :
      (j : ℕ) (e : Shkv K V) (c acc : List (Shkv K V))
      → arrivals σ j (e ∷ c) acc ≡ arrivals σ j c (if σ e.hash == j then e ∷ acc else acc)
  unfolding arrivals
  arrivals_cons j e c acc = refl

  stays_skip :
      (i : ℕ) (e : Shkv K V) (c : List (Shkv K V))
      → (σ e.hash == i) ≡ false
      → stays σ i (e ∷ c) ≡ stays σ i c
  unfolding stays
  stays_skip i e c s = rw s

  spread_move :
      (i : ℕ) (e : Shkv K V) (c : List (Shkv K V)) (f : ℕ → List (Shkv K V)) (j : ℕ)
      → (σ e.hash == i) ≡ false
      → spread σ i (e ∷ c) f j ≡ spread σ i c (update f (σ e.hash) (e ∷ f (σ e.hash))) j
  spread_move i e c f j s = elim (Bool-cases (σ e.hash == j)) [
    | inl here ↦
        subst (λ k. spread σ i (e ∷ c) f k ≡ spread σ i c (update f d (e ∷ f d)) k)
          ((==_iff d j).0 here) (rw (arrivals_cons, ==_symm i d, s, ==_refl d))
    | inr away ↦ rw (arrivals_cons, stays_skip i e c s, away)
  ]
    where
      d : ℕ
      d = σ e.hash

  sum-spread_stay :
      (n i : ℕ) (e : Shkv K V) (c : List (Shkv K V)) (f : ℕ → List (Shkv K V))
      → i < n
      → σ e.hash ≡ i
      → sum n (spread σ i (e ∷ c) f) ≡ sum n (spread σ i c f) + 1
  sum-spread_stay n i e c f l s = ground (
    arith,
    sum_ext n (spread σ i (e ∷ c) f) (update (spread σ i c f) i (e ∷ stays σ i c))
        (λ j h. spread_stay i e c f j s),
    sum-update n i (spread σ i c f) (e ∷ stays σ i c) l,
  )

  sum-spread_move :
      (n i : ℕ) (e : Shkv K V) (c : List (Shkv K V)) (f : ℕ → List (Shkv K V))
      → σ e.hash < n
      → σ e.hash ≢ i
      → sum n (update (update f (σ e.hash) (e ∷ f (σ e.hash))) i []) ≡ sum n (update f i []) + 1
  sum-spread_move n i e c f l s =
      let d = σ e.hash in
      ground (
        arith,
        sum_ext n (update (update f d (e ∷ f d)) i []) (update (update f i []) d (e ∷ f d))
            (λ j h. ground arith),
        sum-update n d (update f i []) (e ∷ f d) l,
      )

  sum-spread_parts :
      (n i : ℕ) (c : List (Shkv K V)) (f : ℕ → List (Shkv K V))
      → i < n
      → Below σ n c
      → sum n (spread σ i c f) ≡ sum n (update f i []) + length c
  unfolding stays arrivals
  sum-spread_parts n i [] f l b =
      omega (arith, sum_ext n (spread σ i [] f) (update f i []) (λ j h. ground arith))
  sum-spread_parts n i (e ∷ c) f l b = elim (ℕ_discrete (σ e.hash) i) [
    | yes s ↦ omega (arith, sum-spread_stay n i e c f l s, sum-spread_parts n i c f l b.1)
    | no s ↦
        let g = update f (σ e.hash) (e ∷ f (σ e.hash)) in
        omega (
          arith,
          sum_ext n (spread σ i (e ∷ c) f) (spread σ i c g)
              (λ j h. spread_move i e c f j (ground arith)),
          sum-spread_parts n i c g l b.1,
          sum-spread_move n i e c f b.0 s,
        )
  ]

  pub sum-spread :
      (n i : ℕ) (f : ℕ → List (Shkv K V))
      → i < n
      → Below σ n (f i)
      → sum n (spread σ i (f i) f) ≡ sum n f
  sum-spread n i f l b = omega (arith, sum-spread_parts n i (f i) f l b, sum-update n i f [] l)
