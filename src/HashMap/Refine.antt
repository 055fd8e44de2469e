-- ===== src/HashMap/Refine.antt =====
-- get, containsKey, put and remove against the finite map that the table stands for.
use native.Mathlib.Nat.{le_trans, mod-lt, one-le-pow}
use gnu_my_server_gso_c.Base.{
  ℕ, ◌+◌, ◌-◌, ◌%◌, ◌^◌, ◌≤◌, ◌<◌, List, Option, none, some, ◌≡◌, sym, ◌∙◌, ap, subst, arith, true,
  false, Bool, ◌==◌, ==_iff, if◌then◌else◌, length, Bool-cases, inl, inr,
}
use gnu_my_server_gso_c.HashMap.Types.{Key, Float, Shkv, HashMap}
use gnu_my_server_gso_c.HashMap.Chain.{find, assign, erase}
use gnu_my_server_gso_c.HashMap.Table.{
  bucket, live, set_bucket, hash, home, search_in, get, contains_key,
}
use gnu_my_server_gso_c.HashMap.Methods.{drop_entry}
use gnu_my_server_gso_c.HashMap.Entries.{
  count, Hashed, find-assign, count-assign, length-assign, assign-Hashed, find-erase,
  count-erase-le, length-erase, erase-Hashed,
}
use gnu_my_server_gso_c.HashMap.Sum.{update, le-sum}
use gnu_my_server_gso_c.HashMap.Holds.{Holds, Holds-ext, update-Holds}
use gnu_my_server_gso_c.HashMap.Shape.{
  alive, Shape_with, alive-set_bucket, set_bucket-Shape, alive-drop_stamp, drop_stamp-Shape,
  drop_stamp-Frame,
}
use gnu_my_server_gso_c.HashMap.Models.{Models, Models-of, slot_mod}

-- The finite map `f` with `o` at the key `k`.
abbrev pub write {ℓ} : {K V : Type ℓ} ⦃key : Key K⦄ → (K → Option V) → K → Option V → K → Option V
write ⦃key⦄ f k o q = if key.eq k q then o else f q

abbrev pub value_or {ℓ} : {V : Type ℓ} → Option V → V → V
value_or none nil = nil
value_or (some v) nil = v

abbrev pub is_some {ℓ} : {V : Type ℓ} → Option V → Bool
is_some none = false
is_some (some v) = true

abbrev pub found {ℓ} : {V : Type ℓ} → Option V → ℕ
found none = 0
found (some v) = 1

module _ {ℓ} {fl : Float} {K V : Type ℓ} ⦃key : Key K⦄ {f : K → Option V} {m : HashMap fl K V}
    (v : Models f m) (k : K) where
  pub home_lem : home m k ≡ hash k % 2 ^ m.power
  unfolding home
  home_lem = slot_mod m m.power v.masked (hash k)

  pub home-lt : home m k < 2 ^ m.power
  home-lt = rw home_lem (mod-lt (hash k) (one-le-pow m.power 2 (omega arith)))

  -- The search finds what the finite map has.
  pub search_in_lem : search_in m k ≡ f k
  unfolding search_in find
  search_in_lem = elim (Bool-cases (live m (home m k))) [
    | inl on ↦ rw on (read on)
    | inr off ↦ rw off (read_off off)
  ]
    where
      at_home : find k (alive m (home m k)) ≡ f k
      at_home = ap (λ j. find k (alive m j)) home_lem ∙ v.holds.reads k

      read : live m (home m k) ≡ true → find k (bucket m (home m k)) ≡ f k
      read on = rw on at at_home

      read_off : live m (home m k) ≡ false → none ≡ f k
      read_off off = rw off at at_home

  -- `get` returns the value that the finite map has for the key, and 0 where it has none.
  pub get_lem : (nil : V) → get nil m k ≡ value_or (f k) nil
  unfolding get
  get_lem nil = rw (search_in_lem, get) (ground arith)

  -- `containsKey` tells whether the finite map has a value for the key.
  pub contains_key_lem : contains_key m k ≡ is_some (f k)
  unfolding contains_key
  contains_key_lem = rw (search_in_lem, contains_key) (ground arith)

  pub reads_here :
      (q : K) → (hash q % 2 ^ m.power == home m k) ≡ true → find q (alive m (home m k)) ≡ f q
  reads_here q same =
      ap (λ j. find q (alive m j)) (sym ((==_iff (hash q % 2 ^ m.power) (home m k)).0 same))
      ∙ v.holds.reads q

  apart : (q : K) → (hash q % 2 ^ m.power == home m k) ≡ false → key.eq k q ≡ false
  apart q other = elim (Bool-cases (key.eq k q)) [
    | inr no_key ↦ no_key
    | inl same ↦ absurd (not_other ((key.eq_iff k q).0 same))
  ]
    where
      not_other : k ≡ q → ⊥
      not_other e =
          let at : hash q % 2 ^ m.power ≡ home m k =
            ap (λ z. hash z % 2 ^ m.power) (sym e) ∙ sym home_lem in
          cc ((==_iff (hash q % 2 ^ m.power) (home m k)).1 at)

  pub bound_here :
      (q : K) → count q (alive m (home m k)) ≤ (if home m k == hash q % 2 ^ m.power then 1 else 0)
  bound_here q = v.holds.unique q (home m k)

  -- One list is written, and with it the finite map at the key `k`.
  pub replaced :
      (c : List (Shkv K V)) (o : Option V) (load' : ℕ)
      → Hashed c
      → ((q : K) → count q c ≤ (if home m k == hash q % 2 ^ m.power then 1 else 0))
      → load' + length (alive m (home m k)) ≡ m.load + length c
      → ((q : K) → find q c ≡ (if key.eq k q then o else find q (alive m (home m k))))
      → Holds
          (λ q. hash q % 2 ^ m.power)
          (2 ^ m.power)
          load'
          (write f k o)
          (update (alive m) (home m k) c)
  replaced c o load' h u e r = update-Holds (home m k) c v.holds home-lt h u e λ q.
      elim (Bool-cases (hash q % 2 ^ m.power == home m k)) [
        | inl same ↦ rw (same, r q, reads_here q same)
        | inr other ↦ rw (other, apart q other)
      ]

  module _ {old : V} (has : f k ≡ some old) where
    on_home : live m (home m k) ≡ true
    unfolding search_in
    on_home = elim (Bool-cases (live m (home m k))) [
      | inl on ↦ on
      | inr off ↦ let e : search_in m k ≡ some old = search_in_lem ∙ has in cc (rw off at e)
    ]

    alive-home : alive m (home m k) ≡ bucket m (home m k)
    alive-home = rw on_home

    find-home : find k (bucket m (home m k)) ≡ some old
    unfolding search_in
    find-home = (rw on_home at search_in_lem) ∙ has

    -- `put` on a key that the table has.
    pub assign-Models :
        (x : V)
        → Models (write f k (some x)) (set_bucket m (home m k) (assign k x (bucket m (home m k))))
    assign-Models x =
        let b = bucket m (home m k) in
        record {
          shape =
              set_bucket-Shape v.shape (home m k) home-lt (assign k x b)
                (omega (arith, length-assign b k x, v.shape.filled (home m k) on_home));
          capacity = v.capacity;
          masked = v.masked;
          large = v.large;
          small = v.small;
          bounded = v.bounded;
          holds = Holds-ext (alive-set_bucket v.shape (home m k) home-lt on_home (assign k x b)) (
              replaced (assign k x b) (some x) m.load
                (assign-Hashed k x b (rw on_home at (v.holds.hashed (home m k))))
                (λ q. rw (count-assign k q x b) (rw on_home at (bound_here q)))
                (omega (arith, length-assign b k x, ap length alive-home))
                (λ q. rw on_home (find-assign k q x b old find-home)));
        }

    -- `remove` on a key that the table has, before it shrinks.
    pub drop_entry-Models : Models (write f k none) (drop_entry m k)
    unfolding drop_entry
    drop_entry-Models =
        let i = home m k in
        let b = bucket m i in
        let c = erase k b in
        let s = Shape_with m.capacity m.power m.mask (m.load - 1) v.shape in
        let fr = drop_stamp-Frame s i home-lt c in
        let held : Holds (λ q. hash q % 2 ^ m.power) (2 ^ m.power) (m.load - 1) (write f k none)
            (update (alive m) i c) =
          replaced c none (m.load - 1) (erase-Hashed k b (rw on_home at (v.holds.hashed i)))
            (λ q. le_trans (count-erase-le b k q) (rw on_home at (bound_here q)))
            (omega (
              arith,
              length-erase b old k find-home,
              ap length alive-home,
              le-sum (2 ^ m.power) i (alive m) home-lt,
              v.holds.counted,
            ))
            (λ q. rw on_home (find-erase k q b (at_most_one q))) in
        Models-of m.power (drop_entry m k) (sym fr.power)
          (fr.capacity ∙ v.capacity ∙ ap (λ p. 2 ^ p) (sym fr.power))
          (drop_stamp-Shape s i home-lt c) (fr.mask ∙ v.masked) v.large v.small
          (rw fr.offset v.bounded)
          (subst
            (λ l.
              Holds (λ q. hash q % 2 ^ m.power) (2 ^ m.power) l (write f k none)
                (alive (drop_entry m k)))
            (sym fr.load) (Holds-ext (alive-drop_stamp s i home-lt on_home c) held))
      where
        at_most_one : (q : K) → count q (bucket m (home m k)) ≤ 1
        at_most_one q = le_trans (rw on_home at (bound_here q)) (ground arith)

    pub drop_entry_load : (drop_entry m k).load + 1 ≡ m.load
    unfolding drop_entry
    drop_entry_load =
        let s = Shape_with m.capacity m.power m.mask (m.load - 1) v.shape in
        let fr = drop_stamp-Frame s (home m k) home-lt (erase k (bucket m (home m k))) in
        omega (
          arith,
          fr.load,
          length-erase (bucket m (home m k)) old k find-home,
          ap length alive-home,
          le-sum (2 ^ m.power) (home m k) (alive m) home-lt,
          v.holds.counted,
        )
