-- ===== src/HashMap/Shape.antt =====
-- The vectors `data` and `map`: their sizes and stamps, and what a write does to the live lists.
use native.Mathlib.Decide.{ℕ_discrete}
use gnu_my_server_gso_c.Base.{
  ℕ, ◌≤◌, ◌<◌, List, [], ◌∷◌, ◌≡◌, refl, sym, ◌∙◌, inl, inr, true, false, arith, if◌then◌else◌,
  length, ◌==◌, ==_refl, leb, leb_refl, get_or, set, get_or-set, length-set, Bool-cases,
}
use mathlib.Core.Bool.{false≢true}
use gnu_my_server_gso_c.HashMap.Types.{Float, Shkv, HashMap}
use gnu_my_server_gso_c.HashMap.Table.{bucket, stamp, live, set_bucket, set_stamp}
use gnu_my_server_gso_c.HashMap.Resize.{drop_stamp}
use gnu_my_server_gso_c.HashMap.Sum.{update}

module _ {ℓ} {fl : Float} {K V : Type ℓ} where
  -- The list of an index as the table reads it: a list with an old stamp is stale.
  abbrev pub alive : HashMap fl K V → ℕ → List (Shkv K V)
  alive m i = if live m i then bucket m i else []

  pub record Shape (n : ℕ) (m : HashMap fl K V) : Type ℓ where
    pub buckets_len : length m.buckets ≡ n
    pub stamps_len : length m.stamps ≡ n
    pub positive : 1 ≤ m.offset
    pub stamped : (i : ℕ) → stamp m i ≤ m.offset
    pub filled : (i : ℕ) → live m i ≡ true → 1 ≤ length (bucket m i)

  -- The shape does not depend on the numbers beside the vectors.
  pub Shape_with :
      {n : ℕ} {m : HashMap fl K V} (c p k l : ℕ)
      → Shape n m
      → Shape n (record m { capacity = c; power = p; mask = k; load = l })
  Shape_with c p k l v = record {
    buckets_len = v.buckets_len;
    stamps_len = v.stamps_len;
    positive = v.positive;
    stamped = v.stamped;
    filled = v.filled;
  }

  pub alive-live : (m : HashMap fl K V) (i : ℕ) → 1 ≤ length (alive m i) → live m i ≡ true
  alive-live m i h = elim (Bool-cases (live m i)) [
    | inl on ↦ on
    | inr off ↦ absurd (omega (arith, rw off at h))
  ]

  -- The fields that the loops leave alone.
  pub record Frame (m r : HashMap fl K V) : Type ℓ where
    pub offset : r.offset ≡ m.offset
    pub capacity : r.capacity ≡ m.capacity
    pub power : r.power ≡ m.power
    pub mask : r.mask ≡ m.mask
    pub load : r.load ≡ m.load
    pub high : r.high_load_factor ≡ m.high_load_factor
    pub low : r.low_load_factor ≡ m.low_load_factor

  pub Frame-refl : (m : HashMap fl K V) → Frame m m
  Frame-refl m = record {
    offset = refl;
    capacity = refl;
    power = refl;
    mask = refl;
    load = refl;
    high = refl;
    low = refl;
  }

  pub Frame-vectors :
      (m : HashMap fl K V) (b : List (List (Shkv K V))) (s : List ℕ)
      → Frame m (record m { buckets = b; stamps = s })
  Frame-vectors m b s = record {
    offset = refl;
    capacity = refl;
    power = refl;
    mask = refl;
    load = refl;
    high = refl;
    low = refl;
  }

  pub Frame-trans : {a b c : HashMap fl K V} → Frame a b → Frame b c → Frame a c
  Frame-trans p q = record {
    offset = q.offset ∙ p.offset;
    capacity = q.capacity ∙ p.capacity;
    power = q.power ∙ p.power;
    mask = q.mask ∙ p.mask;
    load = q.load ∙ p.load;
    high = q.high ∙ p.high;
    low = q.low ∙ p.low;
  }

  module _ {n : ℕ} {m : HashMap fl K V} (v : Shape n m) (i : ℕ) (l : i < n) where
    pub bucket-set :
        (c : List (Shkv K V)) (j : ℕ)
        → get_or (set m.buckets i c) j [] ≡ (if i == j then c else bucket m j)
    bucket-set c j = get_or-set m.buckets i j c [] (omega (arith, v.buckets_len))

    pub stamp-set : (s j : ℕ) → get_or (set m.stamps i s) j 0 ≡ (if i == j then s else stamp m j)
    stamp-set s j = get_or-set m.stamps i j s 0 (omega (arith, v.stamps_len))

    -- Writing a list and marking it with the current stamp.
    abbrev pub written : List (Shkv K V) → HashMap fl K V
    written c = set_bucket (set_stamp m i m.offset) i c

    pub alive-written : (c : List (Shkv K V)) (j : ℕ) → alive (written c) j ≡ update (alive m) i c j
    alive-written c j =
        rw (bucket-set c j, stamp-set m.offset j)
          (elim (Bool-cases (i == j)) [
            | inl same ↦ rw (same, leb_refl m.offset)
            | inr other ↦ rw other
          ])

    written_filled :
        (c : List (Shkv K V))
        → 1 ≤ length c
        → (j : ℕ) → live (written c) j ≡ true
        → 1 ≤ length (bucket (written c) j)
    written_filled c full j h = elim (Bool-cases (i == j)) [
      | inl same ↦ rw (bucket-set c j, same) full
      | inr other ↦ rw (bucket-set c j, other) (v.filled j (rw (stamp-set m.offset j, other) at h))
    ]

    -- Writing a live list.
    pub alive-set_bucket :
        live m i ≡ true
        → (c : List (Shkv K V)) (j : ℕ) → alive (set_bucket m i c) j ≡ update (alive m) i c j
    alive-set_bucket on c j = rw (bucket-set c j) (elim (ℕ_discrete i j) [
      | yes same ↦ rw (← same, ==_refl i, on)
      | no other ↦ let off : (i == j) ≡ false = ground arith in rw off
    ])

    pub set_bucket-Shape : (c : List (Shkv K V)) → 1 ≤ length c → Shape n (set_bucket m i c)
    set_bucket-Shape c full = record {
      buckets_len = length-set m.buckets i c ∙ v.buckets_len;
      stamps_len = v.stamps_len;
      positive = v.positive;
      stamped = v.stamped;
      filled = λ j on. elim (Bool-cases (i == j)) [
        | inl same ↦ rw (bucket-set c j, same) full
        | inr other ↦ rw (bucket-set c j, other) (v.filled j on)
      ];
    }

    -- An empty list with the stamp 0.
    abbrev cleared : HashMap fl K V
    cleared = set_stamp (set_bucket m i []) i 0

    dead : leb m.offset 0 ≡ false
    dead = ground (arith, v.positive)

    alive-cleared : (j : ℕ) → alive cleared j ≡ update (alive m) i [] j
    alive-cleared j =
        rw (bucket-set [] j, stamp-set 0 j)
          (elim (Bool-cases (i == j)) [ inl same ↦ rw (same, dead) | inr other ↦ rw other ])

    cleared_filled : (j : ℕ) → live cleared j ≡ true → 1 ≤ length (bucket cleared j)
    cleared_filled j on = elim (Bool-cases (i == j)) [
      | inl same ↦
          let off : false ≡ true = sym dead ∙ (rw (stamp-set 0 j, same) at on) in
          absurd (false≢true off)
      | inr other ↦ rw (bucket-set [] j, other) (v.filled j (rw (stamp-set 0 j, other) at on))
    ]

    cleared-Shape : Shape n cleared
    cleared-Shape = record {
      buckets_len = length-set m.buckets i [] ∙ v.buckets_len;
      stamps_len = length-set m.stamps i 0 ∙ v.stamps_len;
      positive = v.positive;
      stamped = λ j. rw (stamp-set 0 j) (ground (arith, v.stamped j));
      filled = cleared_filled;
    }

    bucket-set_self : (c : List (Shkv K V)) → bucket (set_bucket m i c) i ≡ c
    bucket-set_self c = bucket-set c i ∙ rw (==_refl i)

    drop_stamp_nil : drop_stamp i (set_bucket m i []) ≡ cleared
    unfolding drop_stamp
    drop_stamp_nil = rw (bucket-set_self [], drop_stamp)

    drop_stamp_cons :
        (e : Shkv K V) (c : List (Shkv K V))
        → drop_stamp i (set_bucket m i (e ∷ c)) ≡ set_bucket m i (e ∷ c)
    unfolding drop_stamp
    drop_stamp_cons e c = rw (bucket-set_self (e ∷ c), drop_stamp)

    -- Writing a live list that may become empty, with the stamp that an empty list gets.
    pub alive-drop_stamp :
        live m i ≡ true
        → (c : List (Shkv K V)) (j : ℕ)
        → alive (drop_stamp i (set_bucket m i c)) j ≡ update (alive m) i c j
    alive-drop_stamp on [] j = rw drop_stamp_nil (alive-cleared j)
    alive-drop_stamp on (e ∷ c) j = rw (drop_stamp_cons e c) (alive-set_bucket on (e ∷ c) j)

    pub drop_stamp-Shape : (c : List (Shkv K V)) → Shape n (drop_stamp i (set_bucket m i c))
    drop_stamp-Shape [] = rw drop_stamp_nil cleared-Shape
    drop_stamp-Shape (e ∷ c) = rw (drop_stamp_cons e c) (set_bucket-Shape (e ∷ c) (omega arith))

    pub bucket-drop_stamp :
        (c : List (Shkv K V)) (j : ℕ)
        → (i == j) ≡ false
        → bucket (drop_stamp i (set_bucket m i c)) j ≡ bucket m j
    bucket-drop_stamp [] j other = rw (drop_stamp_nil, bucket-set [] j, other)
    bucket-drop_stamp (e ∷ c) j other = rw (drop_stamp_cons e c, bucket-set (e ∷ c) j, other)

    pub drop_stamp-Frame : (c : List (Shkv K V)) → Frame m (drop_stamp i (set_bucket m i c))
    drop_stamp-Frame [] = rw drop_stamp_nil (Frame-vectors m _ _)
    drop_stamp-Frame (e ∷ c) = rw (drop_stamp_cons e c) (Frame-vectors m _ _)

    pub written-Shape : (c : List (Shkv K V)) → 1 ≤ length c → Shape n (written c)
    written-Shape c full = record {
      buckets_len = length-set m.buckets i c ∙ v.buckets_len;
      stamps_len = length-set m.stamps i m.offset ∙ v.stamps_len;
      positive = v.positive;
      stamped = λ j. rw (stamp-set m.offset j) (ground (arith, v.stamped j));
      filled = written_filled c full;
    }
