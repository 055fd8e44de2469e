-- ===== src/BitVec/Search.antt =====
-- What ffs and find return.
use native.Mathlib.Nat.{mod-eq_of_lt}
use gnu_my_server_gso_c.Base.{
  ℕ, zero, suc, ◌+◌, ◌-◌, ◌*◌, ◌/◌, ◌%◌, ◌≤◌, ◌<◌, Bool, true, false, ltb, ◌==◌, if◌then◌else◌,
  length, ◌≡◌, refl, sym, ◌∙◌, ap, inl, inr, arith, Bool-cases, subst, ltb→lt, ==_iff,
  length-replicate,
}
use gnu_my_server_gso_c.Base.Int.{ℤ, pos, negsuc}
use gnu_my_server_gso_c.BitVec.Words.{
  BitVec, init, bit, word, get, ffsl_from, ffsl, ffs_from, ffs, find_from, find,
}

-- The first bit that is set from a position on, below the capacity, or -1 if none is.
pub data FirstBit (v : BitVec) (low : ℕ) (r : ℤ) : Type 0 where
  at_bit :
      (q : ℕ)
      → r ≡ pos q
      → low ≤ q
      → q < v.capacity
      → get v q ≡ true
      → ((k : ℕ) → low ≤ k → k < q → get v k ≡ false)
      → FirstBit v low r
  no_bit : r ≡ negsuc 0 → ((k : ℕ) → low ≤ k → k < v.capacity → get v k ≡ false) → FirstBit v low r

-- The vector after a search: it has the word of the bit that was found, if one was.
pub data Remembered (v : BitVec) (o : BitVec × ℤ) : Type 0 where
  found_at : (q : ℕ) → o ≡ (record v { last_found = q / 64 }, pos q) → Remembered v o
  not_found : o ≡ (v, negsuc 0) → Remembered v o

-- The words hold all the bits up to the capacity, and the last word found is one of them.
pub record Sized (v : BitVec) : Type 0 where
  pub room : v.capacity < length v.words * 64
  pub within : v.last_found < length v.words

pub init-Sized : (capacity : ℕ) → Sized (init capacity)
unfolding init
init-Sized capacity = record {
  room = omega (arith, length-replicate {A = ℕ} (capacity / 64 + 1) 0);
  within = omega (arith, length-replicate {A = ℕ} (capacity / 64 + 1) 0);
}

-- The lowest bit of a word, counted from 1.
data Lowest (w j : ℕ) (p : ℕ) : Type 0 where
  none_set : p ≡ 0 → ((k : ℕ) → j ≤ k → k < 64 → bit w k ≡ false) → Lowest w j p
  lowest :
      (q : ℕ)
      → p ≡ q + 1
      → j ≤ q
      → q < 64
      → bit w q ≡ true
      → ((k : ℕ) → j ≤ k → k < q → bit w k ≡ false)
      → Lowest w j p

split_eq : (j k : ℕ) → j ≤ k → (j == k) ≡ false → j + 1 ≤ k
split_eq j k h ne = ground arith

Lowest-suc : {w j p : ℕ} → bit w j ≡ false → Lowest w (j + 1) p → Lowest w j p
Lowest-suc {w = w} {j = j} off (none_set e none) = none_set e λ k h l. elim (Bool-cases (j == k)) [
  | inl here ↦ ap (bit w) (sym ((==_iff j k).0 here)) ∙ off
  | inr later ↦ none k (split_eq j k h later) l
]
Lowest-suc {w = w} {j = j} off (lowest q e h l on none) = lowest q e (omega arith) l on λ k g m.
    elim (Bool-cases (j == k)) [
      | inl here ↦ ap (bit w) (sym ((==_iff j k).0 here)) ∙ off
      | inr later ↦ none k (split_eq j k g later) m
    ]

ffsl_from-Lowest : (n j w : ℕ) → n + j ≡ 64 → Lowest w j (ffsl_from n j w)
unfolding ffsl_from
ffsl_from-Lowest zero j w e = none_set refl (λ k h l. absurd (omega arith))
ffsl_from-Lowest (suc n) j w e = elim (Bool-cases (bit w j)) [
  | inl on ↦ rw on (lowest j refl (omega arith) (omega arith) on (λ k h l. absurd (omega arith)))
  | inr off ↦ rw off (Lowest-suc off (ffsl_from-Lowest n (j + 1) w (omega arith)))
]

ffsl-Lowest : (w : ℕ) → Lowest w 0 (ffsl w)
unfolding ffsl
ffsl-Lowest w = ffsl_from-Lowest 64 0 w refl

get_at :
    (v : BitVec) (i q k : ℕ)
    → i * 64 ≤ k
    → k < i * 64 + 64
    → q ≡ k - i * 64
    → get v k ≡ bit (word v i) q
unfolding get
get_at v i q k a b e =
    let w : k / 64 ≡ i = omega arith in let m : k % 64 ≡ q = omega (arith, e) in rw (w, m) refl

module _ (v : BitVec) (i : ℕ) where
  -- A word without a bit below the capacity is passed over.
  FirstBit-down :
      (r : ℤ)
      → ((k : ℕ) → i * 64 ≤ k → k < i * 64 + 64 → k < v.capacity → get v k ≡ false)
      → FirstBit v ((i + 1) * 64) r
      → FirstBit v (i * 64) r
  FirstBit-down r here (at_bit q e low l on none) = at_bit q e (omega (arith, low)) l on λ k a b.
      elim (Bool-cases (ltb k (i * 64 + 64))) [
        | inl early ↦ here k a (ltb→lt k (i * 64 + 64) early) (omega arith)
        | inr late ↦ none k (ground arith) b
      ]
  FirstBit-down r here (no_bit e none) = no_bit e λ k a b. elim (Bool-cases (ltb k (i * 64 + 64))) [
    | inl early ↦ here k a (ltb→lt k (i * 64 + 64) early) b
    | inr late ↦ none k (ground arith) b
  ]

  word_step :
      (rest : ℤ) (p : ℕ)
      → Lowest (word v i) 0 p
      → FirstBit v ((i + 1) * 64) rest
      → FirstBit v (i * 64) (
          if p == 0
          then rest
          else if ltb (i * 64 + p - 1) v.capacity
          then pos (i * 64 + p - 1)
          else rest)
  word_step rest p (none_set e none) f = rw e (
      FirstBit-down rest
        (λ k a b c.
          get_at v i (k - i * 64) k a b refl ∙ none (k - i * 64) (omega arith) (omega arith))
        f)
  word_step rest p (lowest q e low l on none) f =
      let r : i * 64 + p - 1 ≡ i * 64 + q = omega (arith, e) in
      let some_bit : (p == 0) ≡ false = ground (arith, e) in
      let below : (k : ℕ) → i * 64 ≤ k → k < i * 64 + q → get v k ≡ false = λ k a b.
        get_at v i (k - i * 64) k a (omega (arith, l)) refl
        ∙ none (k - i * 64) (omega arith) (omega arith) in
      elim (Bool-cases (ltb (i * 64 + q) v.capacity)) [
        | inl inside ↦
            rw (some_bit, r, inside)
              (at_bit (i * 64 + q) refl (omega arith) (ltb→lt (i * 64 + q) v.capacity inside)
                (get_at v i q (i * 64 + q) (omega arith) (omega (arith, l)) (omega arith) ∙ on)
                below)
        | inr outside ↦
            rw (some_bit, r, outside)
              (FirstBit-down rest (λ k a b c. below k a (ground (arith, c))) f)
      ]

ffs_from-FirstBit :
    (n i : ℕ) (v : BitVec) → Sized v → n + i ≡ length v.words → FirstBit v (i * 64) (ffs_from n i v)
unfolding ffs_from
ffs_from-FirstBit zero i v s e = no_bit refl (λ k a b. absurd (omega (arith, s.room)))
ffs_from-FirstBit (suc n) i v s e =
    word_step v i (ffs_from n (i + 1) v) (ffsl (word v i)) (ffsl-Lowest (word v i))
      (ffs_from-FirstBit n (i + 1) v s (omega arith))

-- If the words hold all the bits up to the capacity, ffs returns the index of the first bit that is
-- set below the capacity, or -1 if none is.
pub ffs-FirstBit : (v : BitVec) → Sized v → FirstBit v 0 (ffs v)
unfolding ffs
ffs-FirstBit v s = ffs_from-FirstBit (length v.words) 0 v s (omega arith)

module _ (v : BitVec) (s : Sized v) where
  -- Past the last word, no index that `find` computes is below the capacity.
  find_past : (n i : ℕ) → length v.words ≤ i → find_from n i v ≡ (v, negsuc 0)
  unfolding find_from
  find_past zero i h = refl
  find_past (suc n) i h =
      let rest = find_past n (i + 1) (omega arith) in
      let p = ffsl (word v (i % length v.words)) in
      elim (Bool-cases (p == 0)) [
        | inl no_bit_set ↦ rw (no_bit_set) rest
        | inr some_bit ↦
            let out : ltb (i * 64 + p - 1) v.capacity ≡ false =
              ground (arith, s.room, h, some_bit) in
            rw (some_bit, out) rest
      ]

  find_from-ffs_from :
      (n m i : ℕ) → m + i ≡ length v.words → m ≤ n → (find_from n i v).1 ≡ ffs_from m i v
  unfolding find_from ffs_from
  find_from-ffs_from n zero i e l = ap (λ x. x.1) (find_past n i (omega arith))
  find_from-ffs_from zero (suc m) i e l = absurd (omega arith)
  find_from-ffs_from (suc n) (suc m) i e l =
      let same : i % length v.words ≡ i = mod-eq_of_lt (omega arith) in
      let ih = find_from-ffs_from n m (i + 1) (omega arith) (omega arith) in
      rw (same, ← ih)
        (branches (ffsl (word v i) == 0) (ltb (i * 64 + ffsl (word v i) - 1) v.capacity))
    where
      branches :
          (a b : Bool)
          → (if a
              then find_from n (i + 1) v
              else if b
              then (record v { last_found = i }, pos (i * 64 + ffsl (word v i) - 1))
              else find_from n (i + 1) v).1
            ≡ (if a
                then (find_from n (i + 1) v).1
                else if b
                then pos (i * 64 + ffsl (word v i) - 1)
                else (find_from n (i + 1) v).1)
      branches true b = refl
      branches false true = refl
      branches false false = refl

  find_from-Remembered : (n i : ℕ) → Remembered v (find_from n i v)
  unfolding find_from
  find_from-Remembered zero i = not_found refl
  find_from-Remembered (suc n) i =
      let ih = find_from-Remembered n (i + 1) in
      let w = word v (i % length v.words) in
      elim (ffsl-Lowest w) [
        | none_set e none ↦ rw e ih
        | lowest q e low l on none ↦
            let some_bit : (ffsl w == 0) ≡ false = ground (arith, e) in
            let r : i * 64 + ffsl w - 1 ≡ i * 64 + q = omega (arith, e) in
            elim (Bool-cases (ltb (i * 64 + q) v.capacity)) [
              | inl inside ↦
                  let back : i ≡ (i * 64 + q) / 64 = omega (arith, l) in
                  rw (some_bit, r, inside)
                    (found_at (i * 64 + q)
                      (ap (λ k. (record v { last_found = k }, pos (i * 64 + q))) back))
              | inr outside ↦ rw (some_bit, r, outside) ih
            ]
      ]

  -- If the words hold all the bits up to the capacity, find returns the index of the first bit that
  -- is set from the word `lastFound` on, or -1 if none is: it does not come back to the words before.
  -- Then `lastFound` is the word of the bit that was found, or as before if none was, and nothing else
  -- of the vector changes.
  pub find-FirstBit : FirstBit v (v.last_found * 64) (find v).1 × Remembered v (find v)
  unfolding find
  find-FirstBit =
      let e =
        find_from-ffs_from (length v.words) (length v.words - v.last_found) v.last_found
          (omega (arith, s.within)) (omega arith) in
      (
        subst (FirstBit v (v.last_found * 64)) (sym e) (
            ffs_from-FirstBit (length v.words - v.last_found) v.last_found v s
              (omega (arith, s.within))),
        find_from-Remembered (length v.words) v.last_found,
      )
