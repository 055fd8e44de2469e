-- ===== src/HashMap/Entries.antt =====
-- Laws of the lists of Shkv: how often a key occurs, and what a search finds.
use gnu_my_server_gso_c.Base.{
  ℕ, ◌+◌, ◌≤◌, ◌<◌, List, [], ◌∷◌, true, false, Bool-cases, ◌↔◌, none, some, ◌≡◌, refl, ap, suc,
  ◌⊎◌, inl, inr, arith, if◌then◌else◌, length, ◌==◌,
}
use gnu_my_server_gso_c.HashMap.Types.{Key, Shkv}
use gnu_my_server_gso_c.HashMap.Table.{hash}
use gnu_my_server_gso_c.HashMap.Chain.{find, assign, erase}
use gnu_my_server_gso_c.HashMap.Resize.{stays}

module _ {ℓ} {K V : Type ℓ} (σ : ℕ → ℕ) where
  -- The entries that go to list `j` are pushed to its front one after the other.
  unfoldable pub arrivals : ℕ → List (Shkv K V) → List (Shkv K V) → List (Shkv K V)
  arrivals j [] acc = acc
  arrivals j (e ∷ es) acc = arrivals j es (if σ e.hash == j then e ∷ acc else acc)

  pub arrivals_nil : (j : ℕ) (acc : List (Shkv K V)) → arrivals j [] acc ≡ acc
  unfolding arrivals
  arrivals_nil j acc = refl

  pub stays_nil : (i : ℕ) → stays {K = K} {V = V} σ i [] ≡ []
  unfolding stays
  stays_nil i = refl

  pub arrivals_one :
      (j : ℕ) (e : Shkv K V) (c acc : List (Shkv K V))
      → arrivals j (e ∷ c) acc ≡ arrivals j c (arrivals j (e ∷ []) acc)
  unfolding arrivals
  arrivals_one j e c acc = refl

  pub arrivals_hit :
      (j : ℕ) (e : Shkv K V) (acc : List (Shkv K V))
      → arrivals j (e ∷ []) acc ≡ (if σ e.hash == j then e ∷ acc else acc)
  unfolding arrivals
  arrivals_hit j e acc = refl

  -- No entry stays in a list, or comes to it, that is no slot.
  pub stays_none : (i : ℕ) (c : List (Shkv K V)) → ((h : ℕ) → (σ h == i) ≡ false) → stays σ i c ≡ []
  unfolding stays
  stays_none i [] no_slot = refl
  stays_none i (e ∷ c) no_slot = rw (no_slot e.hash) (stays_none i c no_slot)

  pub arrivals_none :
      (j : ℕ) (c acc : List (Shkv K V)) → ((h : ℕ) → (σ h == j) ≡ false) → arrivals j c acc ≡ acc
  unfolding arrivals
  arrivals_none j [] acc no_slot = refl
  arrivals_none j (e ∷ c) acc no_slot = rw (no_slot e.hash) (arrivals_none j c acc no_slot)

  -- The family after list `i` has been sent to its slots.
  abbrev pub spread : ℕ → List (Shkv K V) → (ℕ → List (Shkv K V)) → ℕ → List (Shkv K V)
  spread i c f j = if i == j then stays σ i c else arrivals j c (f j)

  -- Every entry of the list goes to a slot below `n`.
  abbrev pub Below : ℕ → List (Shkv K V) → Type 0
  Below n [] = Unit
  Below n (e ∷ c) = (σ e.hash < n) × Below n c

  -- Every entry stays in list `i`, or its slot is a new one, from `old` on.
  abbrev pub Goes : ℕ → ℕ → ℕ → List (Shkv K V) → Type 0
  Goes old n i [] = Unit
  Goes old n i (e ∷ c) = ((σ e.hash ≡ i) ⊎ ((old ≤ σ e.hash) × (σ e.hash < n))) × Goes old n i c

  pub Goes-Below : (old n i : ℕ) (c : List (Shkv K V)) → i < n → Goes old n i c → Below n c
  Goes-Below old n i [] l g = tt
  Goes-Below old n i (e ∷ c) l (inl h, g) = (omega arith, Goes-Below old n i c l g)
  Goes-Below old n i (e ∷ c) l (inr h, g) = (h.1, Goes-Below old n i c l g)

module _ {ℓ} {K V : Type ℓ} ⦃key : Key K⦄ where
  unfoldable pub count : K → List (Shkv K V) → ℕ
  count q [] = 0
  count q (e ∷ es) = (if key.eq e.key q then 1 else 0) + count q es

  -- Every entry carries the hash of its key.
  abbrev pub Hashed : List (Shkv K V) → Type 0
  Hashed [] = Unit
  Hashed (e ∷ es) = (e.hash ≡ hash e.key) × Hashed es

  pub Goes-of :
      (σ : ℕ → ℕ) (old n i : ℕ) (c : List (Shkv K V))
      → Hashed c
      → ((q : K) → 1 ≤ count q c → (σ (hash q) ≡ i) ⊎ ((old ≤ σ (hash q)) × (σ (hash q) < n)))
      → Goes σ old n i c
  unfolding count
  Goes-of σ old n i [] h f = tt
  Goes-of σ old n i (e ∷ c) h f =
      let self : key.eq e.key e.key ≡ true = (key.eq_iff e.key e.key).1 refl in
      (
        rw h.0 (f e.key (rw self (omega arith))),
        Goes-of σ old n i c h.1 (λ q one. f q (omega arith)),
      )

  -- A key that does not occur is the one that the search does not find.
  absent_iff : (c : List (Shkv K V)) (q : K) → (count q c ≡ 0) ↔ (find q c ≡ none)
  unfolding find count
  absent_iff [] q = ((λ h. refl), λ h. refl)
  absent_iff (e ∷ c) q = elim (Bool-cases (key.eq e.key q)) [
    | inl same ↦ rw same ((λ h. absurd (omega (arith, h))), λ h. absurd (cc h))
    | inr other ↦
        let rest = absent_iff c q in
        rw other ((λ h. rest.0 (omega (arith, h))), λ h. omega (arith, rest.1 h))
  ]

  pub find-eq-none : (q : K) (c : List (Shkv K V)) → count q c ≡ 0 → find q c ≡ none
  find-eq-none q c = (absent_iff c q).0

  pub count-eq-zero : (q : K) (c : List (Shkv K V)) → find q c ≡ none → count q c ≡ 0
  count-eq-zero q c = (absent_iff c q).1

  module _ (k q : K) where
    pub find-assign :
        (v : V) (c : List (Shkv K V)) (old : V)
        → find k c ≡ some old
        → find q (assign k v c) ≡ (if key.eq k q then some v else find q c)
    unfolding find assign
    find-assign v [] old h = ground arith
    find-assign v (e ∷ c) old h =
        ground (arith, find-assign v c old, key.eq_iff e.key k, key.eq_iff e.key q, key.eq_iff k q)

    pub count-assign : (v : V) (c : List (Shkv K V)) → count q (assign k v c) ≡ count q c
    unfolding count assign
    count-assign v [] = refl
    count-assign v (e ∷ c) = ground (arith, count-assign v c)

    pub find-erase :
        (c : List (Shkv K V))
        → count q c ≤ 1
        → find q (erase k c) ≡ (if key.eq k q then none else find q c)
    unfolding find erase count
    find-erase [] h = ground arith
    find-erase (e ∷ c) h = ground (
      arith,
      find-erase c,
      find-eq-none q c,
      key.eq_iff e.key k,
      key.eq_iff e.key q,
      key.eq_iff k q,
    )

  -- A written list is as long, and a list without one entry is shorter by one.
  pub length-assign : (c : List (Shkv K V)) (k : K) (v : V) → length (assign k v c) ≡ length c
  unfolding assign
  length-assign [] k v = refl
  length-assign (e ∷ c) k v = elim (Bool-cases (key.eq e.key k)) [
    | inl same ↦ rw same refl
    | inr other ↦ rw other (ap suc (length-assign c k v))
  ]

  pub length-erase :
      (c : List (Shkv K V)) (old : V) (k : K)
      → find k c ≡ some old
      → length (erase k c) + 1 ≡ length c
  unfolding erase find
  length-erase [] old k h = ground arith
  length-erase (e ∷ c) old k h = let shorter = length-erase c old k in ground arith

  -- Without one entry of the key `k`, no key occurs more often.
  pub count-erase-le : (c : List (Shkv K V)) (k q : K) → count q (erase k c) ≤ count q c
  unfolding erase count
  count-erase-le [] k q = omega arith
  count-erase-le (e ∷ c) k q = let rest = count-erase-le c k q in ground arith

  pub assign-Hashed : (k : K) (v : V) (c : List (Shkv K V)) → Hashed c → Hashed (assign k v c)
  unfolding assign
  assign-Hashed k v [] h = tt
  assign-Hashed k v (e ∷ c) h = ground (arith, assign-Hashed k v c h.1)

  pub erase-Hashed : (k : K) (c : List (Shkv K V)) → Hashed c → Hashed (erase k c)
  unfolding erase
  erase-Hashed k [] h = tt
  erase-Hashed k (e ∷ c) h = ground (arith, erase-Hashed k c h.1)
