-- ===== src/HashMap/Increase.antt =====
-- increaseSize keeps the finite map: a loop invariant in which the lists below the counter stand
-- under the new mask and the others under the old one.
use mathlib.Core.Path.{fun_ext}
use native.Mathlib.Decide.{dec_le}
use native.Mathlib.Nat.{mod-lt, mod-eq_of_lt}
use gnu_my_server_gso_c.Base.{
  ℕ, zero, suc, ◌+◌, ◌%◌, ◌≤◌, ◌<◌, Option, ◌≡◌, sym, ◌∙◌, subst, ◌⊎◌, inl, inr, arith,
  if◌then◌else◌, ◌==◌, ltb,
}
use gnu_my_server_gso_c.HashMap.Types.{Key, Float, HashMap}
use gnu_my_server_gso_c.HashMap.Table.{slot, hash}
use gnu_my_server_gso_c.HashMap.Resize.{rehash_bucket, rehash_from}
use gnu_my_server_gso_c.HashMap.Entries.{count, Goes, Goes-of, Goes-Below}
use gnu_my_server_gso_c.HashMap.Holds.{Holds, Holds-ext, Holds-at, spread-Holds}
use gnu_my_server_gso_c.HashMap.Shape.{alive, Shape, Frame, Frame-trans}
use gnu_my_server_gso_c.HashMap.Grow.{Fresh, slot-Frame, rehash_bucket-Rehashed}

-- The list of a hash when the lists below `i` have been sent to their slots.
abbrev pub stage : ℕ → ℕ → ℕ → ℕ → ℕ
stage old n i h = if ltb (h % old) i then h % n else h % old

-- The new number of lists is a multiple of the old one.
pub record Nested (old n : ℕ) : Type 0 where
  pub some_list : 0 < old
  pub larger : old ≤ n
  pub nested : (h : ℕ) → h % n % old ≡ h % old

module _ {old n : ℕ} (x : Nested old n) where
  pub stage_zero : (h : ℕ) → stage old n 0 h ≡ h % old
  stage_zero h = ground arith

  pub stage_last : (h : ℕ) → stage old n old h ≡ h % n
  stage_last h = ground (arith, mod-lt h x.some_list)

  stage_step :
      (i h : ℕ) → (if stage old n i h == i then h % n else stage old n i h) ≡ stage old n (i + 1) h
  stage_step i h = ground arith

  stage_Goes :
      (i h : ℕ) → i < old → stage old n i h ≡ i → (h % n ≡ i) ⊎ ((old ≤ h % n) × (h % n < n))
  stage_Goes i h l e = elim (dec_le old (h % n)) [
    | yes new ↦ inr (new, mod-lt h (omega (arith, x.some_list, x.larger)))
    | no small ↦
        let same : h % n ≡ h % old = sym (mod-eq_of_lt (omega arith)) ∙ x.nested h in
        inl (ground arith)
  ]

module _ {ℓ} {fl : Float} {K V : Type ℓ} ⦃key : Key K⦄ {old n : ℕ} (x : Nested old n) where
  -- The state of the loop at list `i`, begun with the table `m`.
  pub record Loop (load i : ℕ) (f : K → Option V) (m r : HashMap fl K V) : Type ℓ where
    pub shape : Shape n r
    pub fresh : Fresh old r
    pub frame : Frame m r
    pub holds : Holds (λ q. stage old n i (hash q)) n load f (alive r)

  round :
      {load i : ℕ} {f : K → Option V} {m r : HashMap fl K V}
      → ((h : ℕ) → slot m h ≡ h % n)
      → i < old
      → Loop load i f m r
      → Loop load (i + 1) f m (rehash_bucket i r)
  round {load} {i} {f} {m} {r} slots l v =
      let slots' : slot r ≡ (λ h. h % n) = fun_ext (λ h. slot-Frame v.frame h ∙ slots h) in
      let g : Goes (slot r) old n i (alive r i) = rw slots' (
        Goes-of (λ h. h % n) old n i (alive r i) (v.holds.hashed i)
          (λ q one. stage_Goes x i (hash q) l (placed q one))) in
      let done = rehash_bucket-Rehashed i l x.larger v.shape v.fresh g in
      record {
        shape = done.shape;
        fresh = done.fresh;
        frame = Frame-trans v.frame done.frame;
        holds =
            Holds-at (λ q. sym (stage_step x i (hash q)))
              (Holds-ext (λ j. done.lists j ∙ rw slots')
                (spread-Holds (λ h. h % n) i v.holds (omega (arith, x.larger))
                  (Goes-Below (λ h. h % n) old n i (alive r i) (omega (arith, x.larger))
                    (rw slots' at g))));
      }
    where
      placed : (q : K) → 1 ≤ count q (alive r i) → stage old n i (hash q) ≡ i
      placed q one = ground (arith, v.holds.unique q i)

  pub rehash_from-Loop :
      {load : ℕ} {f : K → Option V} {m : HashMap fl K V} (k i : ℕ) (r : HashMap fl K V)
      → ((h : ℕ) → slot m h ≡ h % n)
      → k + i ≡ old
      → Loop load i f m r
      → Loop load old f m (rehash_from k i r)
  unfolding rehash_from
  rehash_from-Loop {load} {f} {m} zero i r slots e v =
      let same : i ≡ old = omega arith in subst (λ i. Loop load i f m r) same v
  rehash_from-Loop (suc k) i r slots e v =
      rehash_from-Loop k (i + 1) (rehash_bucket i r) slots (omega arith)
        (round slots (omega arith) v)
