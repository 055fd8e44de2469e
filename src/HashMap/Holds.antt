-- ===== src/HashMap/Holds.antt =====
-- The abstract state of the table: each key has one list that may hold it, and the lists hold a
-- finite map. Sending a list to its slots and writing one list keep this.
use native.Mathlib.Decide.{ℕ_discrete}
use mathlib.Core.Path.{fun_ext}
use gnu_my_server_gso_c.Base.{
  ℕ, ◌+◌, ◌≤◌, ◌<◌, List, Option, ◌≡◌, refl, sym, ◌∙◌, ap, subst, arith, if◌then◌else◌, length,
  ◌==◌, ==_iff, ==_symm, Bool-cases, inl, inr, false,
}
use gnu_my_server_gso_c.HashMap.Types.{Key, Shkv}
use gnu_my_server_gso_c.HashMap.Table.{hash}
use gnu_my_server_gso_c.HashMap.Chain.{find}
use gnu_my_server_gso_c.HashMap.Sum.{update, sum, sum-update}
use gnu_my_server_gso_c.HashMap.Entries.{count, Hashed, spread, Below}
use gnu_my_server_gso_c.HashMap.Spread.{
  count-stays, count-arrivals, find-stays, find-arrivals, find-arrivals_other, stays-Hashed,
  arrivals-Hashed, sum-spread,
}

-- The list of a key after list `i` has been sent to its slots.
abbrev pub sent {ℓ} : {K : Type ℓ} ⦃key : Key K⦄ → (ℕ → ℕ) → ℕ → (K → ℕ) → K → ℕ
sent σ i at q = if at q == i then σ (hash q) else at q

module _ {ℓ} {K V : Type ℓ} ⦃key : Key K⦄ where
  pub record Holds (at : K → ℕ) (n load : ℕ) (f : K → Option V) (lists : ℕ → List (Shkv K V))
      : Type ℓ where
    pub hashed : (i : ℕ) → Hashed (lists i)
    pub unique : (q : K) (i : ℕ) → count q (lists i) ≤ (if i == at q then 1 else 0)
    pub counted : sum n lists ≡ load
    pub reads : (q : K) → find q (lists (at q)) ≡ f q

  pub Holds-ext :
      {at : K → ℕ} {n load : ℕ} {f : K → Option V} {xs ys : ℕ → List (Shkv K V)}
      → ((i : ℕ) → ys i ≡ xs i)
      → Holds at n load f xs
      → Holds at n load f ys
  Holds-ext {at} {n} {load} {f} h v = subst (Holds at n load f) (fun_ext (λ i. sym (h i))) v

  pub Holds-at :
      {at bt : K → ℕ} {n load : ℕ} {f : K → Option V} {xs : ℕ → List (Shkv K V)}
      → ((q : K) → bt q ≡ at q)
      → Holds at n load f xs
      → Holds bt n load f xs
  Holds-at {n = n} {load = load} {f = f} {xs = xs} h v =
      subst (λ at. Holds at n load f xs) (fun_ext (λ q. sym (h q))) v

  module _ (σ : ℕ → ℕ) (i : ℕ) {at : K → ℕ} {n load : ℕ} {f : K → Option V}
      {lists : ℕ → List (Shkv K V)} (v : Holds at n load f lists) where
    spread_unique :
        (q : K) (j : ℕ)
        → count q (spread σ i (lists i) lists j) ≤ (if j == sent σ i at q then 1 else 0)
    spread_unique q j = ground (
      arith,
      count-stays σ q i (lists i) (v.hashed i),
      count-arrivals σ q j (lists i) (lists j) (v.hashed i),
      v.unique q i,
      v.unique q j,
    )

    one_in : (q : K) → count q (lists i) ≤ 1
    one_in q = ground (arith, v.unique q i)

    none_in : (q : K) (j : ℕ) → (j == at q) ≡ false → count q (lists j) ≡ 0
    none_in q j h = ground (arith, v.unique q j)

    reads_sent :
        (q : K) → at q ≡ i → find q (spread σ i (lists i) lists (σ (hash q))) ≡ find q (lists i)
    reads_sent q here = elim (Bool-cases (i == σ (hash q))) [
      | inl same ↦ rw same (find-stays σ q i (lists i) (v.hashed i) (ground arith))
      | inr other ↦ rw other (
          find-arrivals σ q (σ (hash q)) (lists i) (lists (σ (hash q))) (v.hashed i) refl (one_in q)
            (none_in q (σ (hash q)) (ground arith)))
    ]

    spread_reads : (q : K) → find q (spread σ i (lists i) lists (sent σ i at q)) ≡ f q
    spread_reads q = elim (Bool-cases (at q == i)) [
      | inl here ↦
          let same : at q ≡ i = (==_iff (at q) i).0 here in
          rw here (reads_sent q same ∙ ap (λ j. find q (lists j)) (sym same) ∙ v.reads q)
      | inr away ↦
          rw (away, ==_symm i (at q), away)
            (find-arrivals_other σ q (at q) (lists i) (lists (at q))
                (none_in q i (==_symm i (at q) ∙ away))
              ∙ v.reads q)
    ]

    pub spread-Holds :
        i < n → Below σ n (lists i) → Holds (sent σ i at) n load f (spread σ i (lists i) lists)
    spread-Holds l b = record {
      hashed = λ j. ground (
        arith,
        stays-Hashed σ i (lists i) (v.hashed i),
        arrivals-Hashed σ j (lists i) (lists j) (v.hashed i) (v.hashed j),
      );
      unique = spread_unique;
      counted = sum-spread σ n i lists l b ∙ v.counted;
      reads = spread_reads;
    }

  -- Writing list `i`, which may hold the keys `q` with `at q = i`.
  pub update-Holds :
      (i : ℕ) (c : List (Shkv K V)) {at : K → ℕ} {n load load' : ℕ} {f g : K → Option V}
      {lists : ℕ → List (Shkv K V)}
      → Holds at n load f lists
      → i < n
      → Hashed c
      → ((q : K) → count q c ≤ (if i == at q then 1 else 0))
      → load' + length (lists i) ≡ load + length c
      → ((q : K) → g q ≡ (if at q == i then find q c else f q))
      → Holds at n load' g (update lists i c)
  update-Holds i c {at} {n} {lists = lists} v l h u e r = record {
    hashed = λ j. ground (arith, v.hashed j, h);
    unique = λ q j. elim (ℕ_discrete i j) [
      | yes same ↦ rw ((==_iff i j).1 same, ← same) (u q)
      | no other ↦ ground (arith, v.unique q j)
    ];
    counted = omega (arith, sum-update n i lists c l, v.counted);
    reads = λ q. ground (arith, v.reads q, r q, ==_symm i (at q));
  }
