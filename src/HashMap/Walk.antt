-- ===== src/HashMap/Walk.antt =====
-- The loop from begin to end over a HashMap: what it visits.
use gnu_my_server_gso_c.Base.{
  ℕ, zero, suc, ◌+◌, ◌-◌, ◌^◌, ◌≤◌, ◌<◌, List, [], ◌∷◌, ◌++◌, Option, ◌≡◌, refl, sym, ◌∙◌, ap,
  subst, inl, inr, ◌&&◌, arith, if◌then◌else◌, length, leb, ltb, ◌==◌, ==_iff, Bool-cases,
}
use native.Mathlib.Nat.{le_trans, mod-lt, one-le-pow}
use gnu_my_server_gso_c.HashMap.Types.{Key, Float, Shkv, HashMap}
use gnu_my_server_gso_c.HashMap.Table.{hash, size}
use gnu_my_server_gso_c.HashMap.Chain.{find}
use gnu_my_server_gso_c.HashMap.Entries.{count, find-eq-none}
use gnu_my_server_gso_c.HashMap.Holds.{Holds}
use gnu_my_server_gso_c.HashMap.Shape.{alive}
use gnu_my_server_gso_c.HashMap.Iterator.{first_live, begin, walk}
use gnu_my_server_gso_c.HashMap.Models.{Models}
use gnu_my_server_gso_c.HashMap.Steps.{
  joined, at, rest, Reach, at_end, walk-rest, walk_from, first_live-Reach, joined-sum,
}

module _ {ℓ} {K V : Type ℓ} ⦃key : Key K⦄ (q : K) where
  count-append : (xs ys : List (Shkv K V)) → count q (xs ++ ys) ≡ count q xs + count q ys
  unfolding count
  count-append [] ys = omega arith
  count-append (e ∷ xs) ys = omega (arith, count-append xs ys)

  find-append_left : (xs ys : List (Shkv K V)) → count q ys ≡ 0 → find q (xs ++ ys) ≡ find q xs
  unfolding find
  find-append_left [] ys h = find-eq-none q ys h
  find-append_left (e ∷ xs) ys h = ground (arith, find-append_left xs ys h)

  find-append_right : (xs ys : List (Shkv K V)) → count q xs ≡ 0 → find q (xs ++ ys) ≡ find q ys
  unfolding find count
  find-append_right [] ys h = refl
  find-append_right (e ∷ xs) ys h = ground (arith, find-append_right xs ys)

  module _ {at : K → ℕ} {n load : ℕ} {f : K → Option V} {lists : ℕ → List (Shkv K V)}
      (v : Holds at n load f lists) where
    count-joined :
        (d i : ℕ)
        → count q (joined lists d i) ≤ (if leb i (at q) && ltb (at q) (d + i) then 1 else 0)
    unfolding joined count
    count-joined zero i = ground arith
    count-joined (suc d) i = ground (
      arith,
      count-append (lists i) (joined lists d (i + 1)),
      v.unique q i,
      count-joined d (i + 1),
    )

    find-joined : (d i : ℕ) → i ≤ at q → at q < d + i → find q (joined lists d i) ≡ f q
    unfolding joined
    find-joined zero i l h = absurd (omega arith)
    find-joined (suc d) i l h = elim (Bool-cases (i == at q)) [
      | inl here ↦
          let e : i ≡ at q = (==_iff i (at q)).0 here in
          let none_after : count q (joined lists d (i + 1)) ≡ 0 =
            ground (arith, count-joined d (i + 1)) in
          find-append_left (lists i) (joined lists d (i + 1)) none_after ∙ rw e (v.reads q)
      | inr away ↦
          let none_here : count q (lists i) ≡ 0 = ground (arith, v.unique q i) in
          find-append_right (lists i) (joined lists d (i + 1)) none_here
          ∙ find-joined d (i + 1) (ground arith) (omega arith)
    ]

module _ {ℓ} {fl : Float} {K V : Type ℓ} ⦃key : Key K⦄ {f : K → Option V} {m : HashMap fl K V}
    (v : Models f m) where
  abbrev all_lists : List (Shkv K V)
  all_lists = joined (alive m) (2 ^ m.power) 0

  all-size : length all_lists ≡ size m
  unfolding size
  all-size = joined-sum v.shape (2 ^ m.power) ∙ v.holds.counted

  rest_all : rest v.shape 0 ≡ all_lists
  rest_all = let e : 2 ^ m.power - 0 ≡ 2 ^ m.power = omega arith in rw e refl

  begin-Reach : Reach v.shape 0 (begin m)
  unfolding begin at size
  begin-Reach = elim (Bool-cases (m.load == 0)) [
    | inl nothing ↦
        let no_entry : length all_lists ≡ 0 = ground (arith, all-size) in
        rw (nothing, v.shape.stamps_len, v.shape.buckets_len)
          (at_end refl (rest_all ∙ no_entry-nil all_lists no_entry))
    | inr something ↦ rw something (
        subst (λ c. Reach v.shape 0 (at v.shape (first_live m c 0) 0)) (sym v.capacity)
          (first_live-Reach v.shape (2 ^ m.power) 0 (omega arith)))
  ]
    where
      no_entry-nil : (c : List (Shkv K V)) → length c ≡ 0 → c ≡ []
      no_entry-nil [] h = refl
      no_entry-nil (x ∷ c) h = absurd (omega arith)

  walk-begin : (fuel : ℕ) → size m ≤ fuel → walk fuel m (begin m) ≡ all_lists
  walk-begin fuel h =
      walk-rest v.shape (walk_from v.shape fuel) begin-Reach
        (omega (arith, all-size, ap length rest_all))
      ∙ rest_all

  -- With fuel for `size` elements, the loop from `begin` to `end` visits as many elements as `size`
  -- says, each key at most once, and under each key the value of the finite map.
  pub walk_lem :
      (fuel : ℕ)
      → size m ≤ fuel
      → (length (walk fuel m (begin m)) ≡ size m)
        × ((q : K) → count q (walk fuel m (begin m)) ≤ 1)
        × ((q : K) → find q (walk fuel m (begin m)) ≡ f q)
  walk_lem fuel h = rw (walk-begin fuel h) (
    all-size,
    (λ q. le_trans (count-joined q v.holds (2 ^ m.power) 0) (ground arith)),
    λ q.
        find-joined q v.holds (2 ^ m.power) 0 (omega arith)
          (omega (arith, mod-lt (hash q) (one-le-pow m.power 2 (omega arith)))),
  )
