-- ===== src/HashMap/Steps.antt =====
-- The steps of the loop from begin to end over a HashMap.
use gnu_my_server_gso_c.Base.{
  ℕ, zero, suc, ◌+◌, ◌-◌, ◌≤◌, ◌<◌, List, [], ◌∷◌, ◌++◌, some, ◌≡◌, refl, ◌∙◌, ap, subst, inl, inr,
  true, false, ◌&&◌, arith, length, ltb, ◌==◌, ==_refl, get_elem?, drop, Bool-cases, length-append,
}
use gnu_my_server_gso_c.HashMap.Types.{Float, Shkv, HashMap}
use gnu_my_server_gso_c.HashMap.Table.{bucket, live}
use gnu_my_server_gso_c.HashMap.Sum.{sum}
use gnu_my_server_gso_c.HashMap.Shape.{alive, Shape}
use gnu_my_server_gso_c.HashMap.Iterator.{
  Iterator, same, first_live, end, skip, next, entry_at, walk,
}

module _ {ℓ} {A : Type ℓ} where
  -- The lists `i`, `i + 1`, … one after the other.
  unfoldable pub joined : (ℕ → List A) → ℕ → ℕ → List A
  joined f zero i = []
  joined f (suc n) i = f i ++ joined f n (i + 1)

  get_elem?-drop :
      (xs : List A) (l : ℕ)
      → l < length xs
      → (e : A) × (get_elem? xs l ≡ some e) × (drop l xs ≡ e ∷ drop (suc l) xs)
  get_elem?-drop [] l h = absurd (omega arith)
  get_elem?-drop (x ∷ xs) zero h = (x, refl, refl)
  get_elem?-drop (x ∷ xs) (suc l) h = get_elem?-drop xs l (omega arith)

  drop_all : (xs : List A) (l : ℕ) → length xs ≤ l → drop l xs ≡ []
  drop_all [] zero h = refl
  drop_all [] (suc l) h = refl
  drop_all (x ∷ xs) zero h = absurd (omega arith)
  drop_all (x ∷ xs) (suc l) h = drop_all xs l (omega arith)

module _ {ℓ} {fl : Float} {K V : Type ℓ} {n : ℕ} {m : HashMap fl K V} (v : Shape n m) where
  unfoldable pub at : ℕ → ℕ → Iterator
  at i l = record { offset = m.offset; map_pos = i; vec = i; list = l }

  abbrev pub rest : ℕ → List (Shkv K V)
  rest i = joined (alive m) (n - i) i

  -- From list `i` the loops come to the next live list, or to the end.
  pub data Reach (i : ℕ) (it : Iterator) : Type ℓ where
    at_end : it ≡ at n 0 → rest i ≡ [] → Reach i it
    at_list : (j : ℕ) → it ≡ at j 0 → j < n → live m j ≡ true → rest i ≡ rest j → Reach i it

  unfold_rest : (i : ℕ) → i < n → rest i ≡ alive m i ++ rest (i + 1)
  unfolding joined
  unfold_rest i h = let e : n - i ≡ suc (n - (i + 1)) = omega arith in rw e refl

  rest_off : (i : ℕ) → i < n → live m i ≡ false → rest i ≡ rest (i + 1)
  rest_off i h off = unfold_rest i h ∙ rw off refl

  Reach-off : {i : ℕ} {it : Iterator} → rest i ≡ rest (i + 1) → Reach (i + 1) it → Reach i it
  Reach-off e (at_end p q) = at_end p (e ∙ q)
  Reach-off e (at_list j p l on q) = at_list j p l on (e ∙ q)

  skip-Reach : (d i l : ℕ) → d + i ≡ n → Reach i (skip d m (at i l))
  unfolding skip at joined
  skip-Reach zero i l h =
      let e : i ≡ n = omega (arith, h) in
      let z : n - i ≡ 0 = omega (arith, h) in at_end (ap (λ i. at i 0) e) (rw z refl)
  skip-Reach (suc d) i l h = elim (Bool-cases (live m i)) [
    | inl on ↦ rw on (at_list i refl (omega arith) on refl)
    | inr off ↦
        rw off (Reach-off (rest_off i (omega arith) off) (skip-Reach d (i + 1) l (omega arith)))
  ]

  next-Reach : (i l : ℕ) → i < n → suc l ≡ length (bucket m i) → Reach (i + 1) (next m (at i l))
  unfolding next at
  next-Reach i l h last =
      let c : (l + 1 == length (bucket m i)) ≡ true = ground (arith, last) in
      rw (c, v.buckets_len) (skip-Reach (n - (i + 1)) (i + 1) l (omega arith))

  next_within : (i l : ℕ) → suc l < length (bucket m i) → next m (at i l) ≡ at i (suc l)
  unfolding next at
  next_within i l h =
      let c : (l + 1 == length (bucket m i)) ≡ false = ground (arith, h) in
      let e : l + 1 ≡ suc l = omega arith in rw (c, e) refl

  end_lem : (it : Iterator) → same it (end m) ≡ (it.vec == n) && (it.list == 0)
  unfolding same end
  end_lem it = rw v.buckets_len refl

  walk_end : (fuel : ℕ) → walk fuel m (at n 0) ≡ []
  unfolding walk at
  walk_end zero = refl
  walk_end (suc fuel) =
      let e : same (at n 0) (end m) ≡ true = end_lem (at n 0) ∙ (rw (==_refl n) refl) in rw e refl

  walk_step :
      (fuel i l : ℕ) (e : Shkv K V)
      → i < n
      → get_elem? (bucket m i) l ≡ some e
      → walk (suc fuel) m (at i l) ≡ e ∷ walk fuel m (next m (at i l))
  unfolding walk at entry_at
  walk_step fuel i l e h g =
      let ne : (i == n) ≡ false = ground arith in
      let c : same (at i l) (end m) ≡ false = end_lem (at i l) ∙ rw ne refl in rw (c, g) refl

  -- From an element of a live list the loop visits what is left of that list, then the live lists after it.
  abbrev pub Visits : ℕ → Type ℓ
  Visits fuel =
      (i l : ℕ)
      → i < n
      → live m i ≡ true
      → l < length (bucket m i)
      → length (drop l (bucket m i) ++ rest (i + 1)) ≤ fuel
      → walk fuel m (at i l) ≡ drop l (bucket m i) ++ rest (i + 1)

  pub walk-rest :
      {fuel i : ℕ} {it : Iterator}
      → Visits fuel
      → Reach i it
      → length (rest i) ≤ fuel
      → walk fuel m it ≡ rest i
  walk-rest {fuel} from (at_end p q) few = rw (p, q) (walk_end fuel)
  walk-rest {fuel} {i} from (at_list j p lj onj q) few =
      let again : alive m j ≡ bucket m j = rw onj refl in
      let split : rest i ≡ bucket m j ++ rest (j + 1) =
        q ∙ unfold_rest j lj ∙ ap (λ c. c ++ rest (j + 1)) again in
      rw (p, split) (from j 0 lj onj (v.filled j onj) (subst (λ c. length c ≤ fuel) split few))

  pub walk_from : (fuel : ℕ) → Visits fuel
  walk_from zero i l h on short enough =
      let (e, g, d) = get_elem?-drop (bucket m i) l short in
      absurd (omega (arith, enough, ap length (ap (λ c. c ++ rest (i + 1)) d)))
  walk_from (suc fuel) i l h on short enough =
      let (e, g, d) = get_elem?-drop (bucket m i) l short in
      let left : suc (length (drop (suc l) (bucket m i) ++ rest (i + 1))) ≤ suc fuel =
        subst (λ c. length (c ++ rest (i + 1)) ≤ suc fuel) d enough in
      let ih = walk_from fuel in
      rw (d, walk_step fuel i l e h g)
        (ap (◌∷◌ e) (elim (Bool-cases (ltb (suc l) (length (bucket m i)))) [
          | inl more ↦
              let room : suc l < length (bucket m i) = ground arith in
              rw (next_within i l room) (ih i (suc l) h on room (omega (arith, left)))
          | inr last ↦
              let none_left : drop (suc l) (bucket m i) ≡ [] =
                drop_all (bucket m i) (suc l) (ground arith) in
              rw none_left (
                walk-rest ih (next-Reach i l h (ground arith))
                  (omega (arith, rw none_left at left)))
        ]))

  pub first_live-Reach : (d i : ℕ) → d + i ≡ n → Reach i (at (first_live m d i) 0)
  unfolding first_live at joined
  first_live-Reach zero i h =
      let e : i ≡ n = omega (arith, h) in
      let z : n - i ≡ 0 = omega (arith, h) in at_end (ap (λ i. at i 0) e) (rw z refl)
  first_live-Reach (suc d) i h = elim (Bool-cases (live m i)) [
    | inl on ↦ rw on (at_list i refl (omega arith) on refl)
    | inr off ↦
        rw off (Reach-off (rest_off i (omega arith) off) (first_live-Reach d (i + 1) (omega arith)))
  ]

  joined-suc :
      (d i : ℕ)
      → length (joined (alive m) d i) + length (alive m (d + i))
        ≡ length (joined (alive m) (suc d) i)
  unfolding joined
  joined-suc zero i =
      let e : 0 + i ≡ i = omega arith in rw e (omega (arith, length-append (alive m i) []))
  joined-suc (suc d) i =
      let e : suc d + i ≡ d + (i + 1) = omega arith in
      rw e (
        omega (
          arith,
          joined-suc d (i + 1),
          length-append (alive m i) (joined (alive m) d (i + 1)),
          length-append (alive m i) (joined (alive m) (suc d) (i + 1)),
        ))

  pub joined-sum : (d : ℕ) → length (joined (alive m) d 0) ≡ sum d (alive m)
  unfolding joined sum
  joined-sum zero = refl
  joined-sum (suc d) =
      let e : d + 0 ≡ d = omega arith in
      omega (arith, joined-sum d, joined-suc d 0, ap (λ j. length (alive m j)) e)
