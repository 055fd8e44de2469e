-- ===== src/HashMap/Decrease.antt =====
-- decreaseSize keeps the finite map: a loop invariant in which the lists from the counter on are
-- gone and their entries stand under the new mask.
use mathlib.Core.Path.{fun_ext}
use native.Mathlib.Decide.{dec_lt, ℕ_discrete}
use native.Mathlib.Nat.{le_trans, mod-lt, mod-eq_of_lt}
use gnu_my_server_gso_c.Base.{
  ℕ, zero, suc, ◌+◌, ◌%◌, ◌≤◌, ◌<◌, List, [], ◌∷◌, Option, ◌≡◌, sym, ◌∙◌, subst, inl, inr, true,
  false, arith, if◌then◌else◌, ◌==◌, ltb, leb, Bool-cases,
}
use gnu_my_server_gso_c.HashMap.Types.{Key, Float, Shkv, HashMap}
use gnu_my_server_gso_c.HashMap.Table.{slot, hash}
use gnu_my_server_gso_c.HashMap.Resize.{merge_bucket, merge_down}
use gnu_my_server_gso_c.HashMap.Entries.{spread, arrivals, Below, stays_none, arrivals_none}
use gnu_my_server_gso_c.HashMap.Holds.{Holds, Holds-ext, Holds-at, spread-Holds}
use gnu_my_server_gso_c.HashMap.Shape.{alive, Shape, Frame, Frame-trans}
use gnu_my_server_gso_c.HashMap.Grow.{slot-Frame}
use gnu_my_server_gso_c.HashMap.Increase.{Nested}
use gnu_my_server_gso_c.HashMap.Shrink.{merge_bucket-Pulled}

-- The list of a hash when the lists from `i` on are gone.
abbrev pub down_stage : ℕ → ℕ → ℕ → ℕ → ℕ
down_stage low old i h = if leb i (h % old) then h % low else h % old

-- The lists below `i`.
abbrev pub cut {ℓ} : {A : Type ℓ} → ℕ → (ℕ → List A) → ℕ → List A
cut i f j = if ltb j i then f j else []

module _ {low old : ℕ} (x : Nested low old) where
  pub down_stage_first : (h : ℕ) → down_stage low old old h ≡ h % old
  down_stage_first h = ground (arith, mod-lt h (le_trans x.some_list x.larger))

  pub down_stage_last : (h : ℕ) → down_stage low old low h ≡ h % low
  down_stage_last h = elim (Bool-cases (leb low (h % old))) [
    | inl gone ↦ rw gone
    | inr kept ↦ rw kept (sym (mod-eq_of_lt (ground arith)) ∙ x.nested h)
  ]

  down_stage_step :
      (i h : ℕ)
      → low ≤ i
      → (if down_stage low old (i + 1) h == i then h % low else down_stage low old (i + 1) h)
        ≡ down_stage low old i h
  down_stage_step i h l = ground (arith, mod-lt h x.some_list)

  no_slot : (i h : ℕ) → low ≤ i → (h % low == i) ≡ false
  no_slot i h l = ground (arith, mod-lt h x.some_list)

  Below-low {ℓ} : {K V : Type ℓ} (c : List (Shkv K V)) → Below (λ h. h % low) old c
  Below-low [] = tt
  Below-low (e ∷ c) = (omega (arith, mod-lt e.hash x.some_list, x.larger), Below-low c)

module _ {ℓ} {fl : Float} {K V : Type ℓ} ⦃key : Key K⦄ {low old : ℕ} (x : Nested low old) where
  pub record Down (load i : ℕ) (f : K → Option V) (m r : HashMap fl K V) : Type ℓ where
    pub shape : Shape old r
    pub frame : Frame m r
    pub holds : Holds (λ q. down_stage low old i (hash q)) old load f (cut i (alive r))

  -- Seen below the counter, a round sends list `i` to its slots.
  cut-spread :
      (i : ℕ) (r s : HashMap fl K V)
      → low ≤ i
      → ((j : ℕ) → alive s j ≡ arrivals (λ h. h % low) j (alive r i) (alive r j))
      → (j : ℕ)
      → cut i (alive s) j
        ≡ spread (λ h. h % low) i (cut (i + 1) (alive r) i) (cut (i + 1) (alive r)) j
  cut-spread i r s l lists j =
      let now : ltb i (i + 1) ≡ true = ground arith in
      elim (dec_lt j i) [
        | yes kept ↦
            let a : ltb j i ≡ true = ground arith in
            let b : (i == j) ≡ false = ground arith in
            let c : ltb j (i + 1) ≡ true = ground arith in rw (a, b, c, now) (lists j)
        | no gone ↦
            let a : ltb j i ≡ false = ground arith in
            rw a (elim (ℕ_discrete i j) [
              | yes this ↦
                  let b : (i == j) ≡ true = ground arith in
                  rw b (sym (stays_none (λ h. h % low) i _ (λ h. no_slot x i h l)))
              | no other ↦
                  let b : (i == j) ≡ false = ground arith in
                  let c : ltb j (i + 1) ≡ false = ground arith in
                  rw (b, c)
                    (sym (arrivals_none (λ h. h % low) j _ [] (λ h. no_slot x j h (omega arith))))
            ])
      ]

  Down-round :
      {load : ℕ} {f : K → Option V} {m : HashMap fl K V} (i : ℕ) (r : HashMap fl K V)
      → ((h : ℕ) → slot m h ≡ h % low)
      → low ≤ i
      → i < old
      → Down load (i + 1) f m r
      → Down load i f m (merge_bucket i r)
  Down-round {load} {f} i r slots l u v =
      let slots' : slot r ≡ (λ h. h % low) = fun_ext (λ h. slot-Frame v.frame h ∙ slots h) in
      let done =
        merge_bucket-Pulled i r v.shape
          (λ h. rw slots' (omega (arith, mod-lt h x.some_list, x.larger))) in
      record {
        shape = done.shape;
        frame = Frame-trans v.frame done.frame;
        holds =
            Holds-at (λ q. sym (down_stage_step x i (hash q) l))
              (Holds-ext (cut-spread i r (merge_bucket i r) l (λ j. done.lists j ∙ rw slots'))
                (spread-Holds (λ h. h % low) i v.holds u (Below-low x (cut (i + 1) (alive r) i))));
      }

  pub merge_down-Down :
      {load : ℕ} {f : K → Option V} {m : HashMap fl K V} (k : ℕ) (r : HashMap fl K V)
      → ((h : ℕ) → slot m h ≡ h % low)
      → low + k ≤ old
      → Down load (low + k) f m r
      → Down load low f m (merge_down k low r)
  unfolding merge_down
  merge_down-Down {load} {f} {m} zero r slots u v =
      let e : low + 0 ≡ low = omega arith in subst (λ i. Down load i f m r) e v
  merge_down-Down {load} {f} {m} (suc k) r slots u v =
      let e : low + suc k ≡ low + k + 1 = omega arith in
      merge_down-Down k (merge_bucket (low + k) r) slots (omega arith) (
        Down-round (low + k) r slots (omega arith) (omega arith)
          (subst (λ i. Down load i f m r) e v))
