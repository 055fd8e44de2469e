-- ===== src/HashMap/Put.antt =====
-- put on a key that the table has not: the new entry, and the growth.
use gnu_my_server_gso_c.Base.{
  ℕ, ◌+◌, ◌%◌, ◌^◌, ◌≤◌, [], ◌∷◌, Option, none, some, ◌≡◌, refl, sym, ◌∙◌, ap, subst, arith, true,
  false, ◌==◌, ==_refl, if◌then◌else◌, Bool-cases, inl, inr, set-set,
}
use gnu_my_server_gso_c.HashMap.Types.{Key, Float, HashMap}
use gnu_my_server_gso_c.HashMap.Chain.{find}
use gnu_my_server_gso_c.HashMap.Table.{bucket, live, set_bucket, set_stamp, hash, home}
use gnu_my_server_gso_c.HashMap.Resize.{push_front}
use gnu_my_server_gso_c.HashMap.Methods.{entry, add_entry}
use gnu_my_server_gso_c.HashMap.Entries.{count, count-eq-zero}
use gnu_my_server_gso_c.HashMap.Sum.{update}
use gnu_my_server_gso_c.HashMap.Holds.{Holds, Holds-ext}
use gnu_my_server_gso_c.HashMap.Shape.{
  alive, Shape, Shape_with, alive-set_bucket, set_bucket-Shape, written, alive-written,
  written-Shape, bucket-set,
}
use gnu_my_server_gso_c.HashMap.Models.{Models, Models-of}
use gnu_my_server_gso_c.HashMap.Refine.{write, home_lem, home-lt, bound_here, replaced}

module _ {ℓ} {fl : Float} {K V : Type ℓ} ⦃key : Key K⦄ {f : K → Option V} {m : HashMap fl K V}
    (v : Models f m) (k : K) (x : V) where
  -- The table with its entry counted.
  abbrev counted : HashMap fl K V
  counted = record m { load = m.load + 1 }

  counted-Shape : Shape (2 ^ m.power) counted
  counted-Shape = Shape_with m.capacity m.power m.mask (m.load + 1) v.shape

  module _ (has : f k ≡ none) where
    none_home : count k (alive m (home m k)) ≡ 0
    none_home =
        count-eq-zero k (alive m (home m k))
          (ap (λ j. find k (alive m j)) (home_lem v k) ∙ v.holds.reads k ∙ has)

    count-entry :
        (q : K)
        → count q (entry k x ∷ alive m (home m k))
          ≤ (if home m k == hash q % 2 ^ m.power then 1 else 0)
    unfolding count entry
    count-entry q = elim (Bool-cases (key.eq k q)) [
      | inl same ↦
          subst
            (λ q.
              (if key.eq k q then 1 else 0) + count q (alive m (home m k))
              ≤ (if home m k == hash q % 2 ^ m.power then 1 else 0))
            ((key.eq_iff k q).0 same)
            (rw (none_home, ← home_lem v k, ==_refl (home m k)) (ground arith))
      | inr other ↦ rw other (ground (arith, bound_here v k q))
    ]

    find-entry :
        (q : K)
        → find q (entry k x ∷ alive m (home m k))
          ≡ (if key.eq k q then some x else find q (alive m (home m k)))
    unfolding find entry
    find-entry q = refl

    entry-Holds :
        Holds
          (λ q. hash q % 2 ^ m.power)
          (2 ^ m.power)
          (m.load + 1)
          (write f k (some x))
          (update (alive m) (home m k) (entry k x ∷ alive m (home m k)))
    entry-Holds =
        replaced v k (entry k x ∷ alive m (home m k)) (some x) (m.load + 1)
          (entry_hash, v.holds.hashed (home m k)) count-entry (omega arith) find-entry
      where
        entry_hash : (entry k x).hash ≡ hash (entry k x).key
        entry_hash = unfold entry in refl

    module _ {r : HashMap fl K V} (s : Shape (2 ^ m.power) r)
        (lists : (j : ℕ)
          → alive r j ≡ update (alive m) (home m k) (entry k x ∷ alive m (home m k)) j) where
      added-Models :
          r.power ≡ m.power
          → r.capacity ≡ m.capacity
          → r.mask ≡ m.mask
          → r.offset ≡ m.offset
          → r.load ≡ m.load + 1
          → Models (write f k (some x)) r
      added-Models p c k' o l =
          Models-of m.power r (sym p) (c ∙ v.capacity ∙ ap (λ p. 2 ^ p) (sym p)) s (k' ∙ v.masked)
            v.large v.small (rw o v.bounded)
            (subst
              (λ l.
                Holds (λ q. hash q % 2 ^ m.power) (2 ^ m.power) l (write f k (some x)) (alive r))
              (sym l) (Holds-ext lists entry-Holds))

    add_on :
        live m (home m k) ≡ true
        → Models (write f k (some x)) (push_front counted (home m k) (entry k x))
    unfolding push_front
    add_on on =
        added-Models
          (set_bucket-Shape counted-Shape (home m k) (home-lt v k) (entry k x ∷ bucket m (home m k))
            (omega arith))
          (λ j.
            alive-set_bucket counted-Shape (home m k) (home-lt v k) on
              (entry k x ∷ bucket m (home m k)) j
            ∙ rw on)
          refl refl refl refl refl

    -- A stale list is cleared before the entry is pushed: that writes the list with one entry.
    add_off_lem :
        push_front
          (set_bucket (set_stamp counted (home m k) m.offset) (home m k) [])
          (home m k)
          (entry k x)
        ≡ written counted-Shape (home m k) (home-lt v k) (entry k x ∷ [])
    unfolding push_front
    add_off_lem = rw (
      bucket-set counted-Shape (home m k) (home-lt v k) [] (home m k),
      ==_refl (home m k),
      set-set m.buckets (home m k) [] (entry k x ∷ []),
    )

    add_off :
        live m (home m k) ≡ false
        → Models (write f k (some x)) (
            push_front
              (set_bucket (set_stamp counted (home m k) m.offset) (home m k) [])
              (home m k)
              (entry k x))
    add_off off = rw add_off_lem (
        added-Models
          (written-Shape counted-Shape (home m k) (home-lt v k) (entry k x ∷ []) (omega arith))
          (λ j. alive-written counted-Shape (home m k) (home-lt v k) (entry k x ∷ []) j ∙ rw off)
          refl refl refl refl refl)

    pub add_entry-Models : Models (write f k (some x)) (add_entry m k x)
    unfolding add_entry
    add_entry-Models = elim (Bool-cases (live m (home m k))) [
      | inl on ↦ rw on (add_on on)
      | inr off ↦ rw off (add_off off)
    ]

  pub add_entry_numbers :
      ((add_entry m k x).power ≡ m.power) × ((add_entry m k x).load ≡ m.load + 1)
  unfolding add_entry push_front
  add_entry_numbers = elim (Bool-cases (live m (home m k))) [
    | inl on ↦ rw on (refl, refl)
    | inr off ↦ rw off (refl, refl)
  ]
