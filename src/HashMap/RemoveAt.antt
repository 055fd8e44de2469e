-- ===== src/HashMap/RemoveAt.antt =====
-- getI and remove (const Iterator&) of hash_map.cpp against the finite map.
use mathlib.Core.Option.{some-injective}
use gnu_my_server_gso_c.Base.{
  ℕ, zero, suc, ◌+◌, ◌-◌, ◌%◌, ◌^◌, ◌≤◌, ◌<◌, List, [], ◌∷◌, Option, none, some, ◌≡◌, refl, sym,
  ◌∙◌, ap, inl, inr, true, arith, if◌then◌else◌, length, get_elem?, ◌==◌, Bool-cases, Option-cases,
  get_or-out, get_or, get_or-set, ==_refl,
}
use gnu_my_server_gso_c.HashMap.Types.{Key, Float, Shkv, HashMap}
use gnu_my_server_gso_c.HashMap.Table.{
  bucket, live, set_bucket, set_stamp, slot, hash, home, search_in, size,
}
use gnu_my_server_gso_c.HashMap.Chain.{find, erase, erase_at}
use gnu_my_server_gso_c.HashMap.Resize.{drop_stamp}
use gnu_my_server_gso_c.HashMap.Methods.{drop_entry}
use gnu_my_server_gso_c.HashMap.Entries.{count, Hashed}
use gnu_my_server_gso_c.HashMap.Shape.{alive}
use gnu_my_server_gso_c.HashMap.Iterator.{
  Iterator, entry_at, erase_entry, remove_at, position, get_i, end,
}
use gnu_my_server_gso_c.HashMap.Models.{Models}
use gnu_my_server_gso_c.HashMap.Refine.{
  write, home_lem, home-lt, search_in_lem, drop_entry-Models, drop_entry_load,
}

-- The value of the element at an iterator.
abbrev pub value_of {ℓ} : {K V : Type ℓ} → Option (Shkv K V) → Option V
value_of none = none
value_of (some e) = some e.value

module _ {ℓ} {K V : Type ℓ} ⦃key : Key K⦄ where
  abbrev at_position : Option ℕ → List (Shkv K V) → Option V
  at_position none c = none
  at_position (some i) c = value_of (get_elem? c i)

  position_lem : (k : K) (c : List (Shkv K V)) → at_position (position k c) c ≡ find k c
  unfolding position find
  position_lem k [] = refl
  position_lem k (e ∷ c) = ground (arith, position_lem k c, Option-cases (position k c))

  elem-Hashed :
      (l : ℕ) (c : List (Shkv K V)) (e : Shkv K V)
      → get_elem? c l ≡ some e
      → Hashed c
      → (e.hash ≡ hash e.key) × (1 ≤ count e.key c)
  unfolding count
  elem-Hashed l [] e h u = absurd (cc h)
  elem-Hashed zero (x ∷ c) e h u =
      let same : x ≡ e = some-injective x e h in
      let self : key.eq x.key e.key ≡ true = (key.eq_iff x.key e.key).1 (ap (λ x. x.key) same) in
      (rw (← same) u.0, rw self (omega arith))
  elem-Hashed (suc l) (x ∷ c) e h u =
      let ih = elem-Hashed l c e h u.1 in (ih.0, omega (arith, ih.1))

  -- The element at a position, when its key is in the list once.
  erase_at-erase :
      (l : ℕ) (c : List (Shkv K V)) (e : Shkv K V)
      → get_elem? c l ≡ some e
      → Hashed c
      → count e.key c ≤ 1
      → (erase_at l c ≡ erase e.key c) × (find e.key c ≡ some e.value)
  unfolding erase_at erase count find
  erase_at-erase l [] e h t u = absurd (cc h)
  erase_at-erase zero (x ∷ c) e h t u =
      let same : x ≡ e = some-injective x e h in
      let self : key.eq x.key e.key ≡ true = (key.eq_iff x.key e.key).1 (ap (λ x. x.key) same) in
      rw self (refl, ap (λ x. some x.value) same)
  erase_at-erase (suc l) (x ∷ c) e h t u = elim (Bool-cases (key.eq x.key e.key)) [
    | inl self ↦ absurd (omega (arith, rw self at u, (elem-Hashed l c e h t.1).1))
    | inr other ↦
        let ih = erase_at-erase l c e h t.1 (omega (arith, rw other at u)) in
        rw other (ap (◌∷◌ x) ih.0, ih.1)
  ]

module _ {ℓ} {fl : Float} {K V : Type ℓ} ⦃key : Key K⦄ {f : K → Option V} {m : HashMap fl K V}
    (v : Models f m) where
  -- `getI` returns an iterator at the value that the finite map has for the key, and at no element
  -- where it has none.
  pub get_i_lem : (temp : Iterator) (k : K) → value_of (entry_at m (get_i temp m k)) ≡ f k
  unfolding get_i entry_at end search_in
  get_i_lem temp k = elim (Bool-cases (live m (home m k))) [
    | inl on ↦ rw on (
        case (position k (bucket m (home m k)))
        ∙ position_lem k (bucket m (home m k))
        ∙ (rw on at (search_in_lem v k)))
    | inr off ↦ rw off (at_end ∙ (rw off at (search_in_lem v k)))
  ]
    where
      at_end : value_of (get_elem? (get_or m.buckets (length m.buckets) []) 0) ≡ none
      at_end = rw (get_or-out m.buckets (length m.buckets) [] (omega arith)) refl

      case :
          (o : Option ℕ)
          → value_of (
              entry_at m
                (elim o [ none ↦ end m | some i ↦ record temp { vec = home m k; list = i } ]))
            ≡ at_position o (bucket m (home m k))
      case none = at_end
      case (some i) = refl

  module _ (it : Iterator) (e : Shkv K V) (here : entry_at m it ≡ some e)
      (on : live m it.vec ≡ true) where
    unfolding_here : get_elem? (bucket m it.vec) it.list ≡ some e
    unfolding entry_at
    unfolding_here = here

    alive_here : alive m it.vec ≡ bucket m it.vec
    alive_here = rw on refl

    Hashed-here : Hashed (bucket m it.vec)
    Hashed-here = rw on at (v.holds.hashed it.vec)

    elem_here : (e.hash ≡ hash e.key) × (1 ≤ count e.key (bucket m it.vec))
    elem_here = elem-Hashed it.list (bucket m it.vec) e unfolding_here Hashed-here

    bound_here :
        count e.key (bucket m it.vec) ≤ (if it.vec == hash e.key % 2 ^ m.power then 1 else 0)
    bound_here = rw on at (v.holds.unique e.key it.vec)

    home_here : it.vec ≡ home m e.key
    home_here = ground (arith, home_lem v e.key, bound_here, elem_here)

    erased :
        (erase_at it.list (bucket m it.vec) ≡ erase e.key (bucket m it.vec))
        × (find e.key (bucket m it.vec) ≡ some e.value)
    erased =
        erase_at-erase it.list (bucket m it.vec) e unfolding_here Hashed-here
          (ground (arith, bound_here))

    value_here : f e.key ≡ some e.value
    unfolding search_in
    value_here = sym (search_in_lem v e.key) ∙ (rw (← home_here, on) erased.1)

    left : List (Shkv K V) → HashMap fl K V
    left c = set_bucket (record m { load = m.load - 1 }) it.vec c

    abbrev after : List (Shkv K V) → HashMap fl K V → ℕ → HashMap fl K V
    after [] r s = set_stamp r s 0
    after (x ∷ xs) r s = r

    emptied :
        (c : List (Shkv K V)) (r : HashMap fl K V) (i : ℕ)
        → bucket r i ≡ c
        → drop_stamp i r ≡ after c r i
    unfolding drop_stamp
    emptied [] r i e = rw (drop_stamp, e) refl
    emptied (x ∷ xs) r i e = rw (drop_stamp, e) refl

    erase_entry_of :
        (c : List (Shkv K V)) (s : ℕ)
        → erase_at it.list (bucket m it.vec) ≡ c
        → slot m e.hash ≡ s
        → erase_entry m it e ≡ after c (left c) s
    unfolding erase_entry left
    erase_entry_of [] s p q = rw (erase_entry, p, q) (ap (λ c. set_stamp (left c) s 0) p)
    erase_entry_of (x ∷ xs) s p q = rw (erase_entry, p) (ap left p)

    drop_entry_of : drop_entry m e.key ≡ drop_stamp it.vec (left (erase e.key (bucket m it.vec)))
    unfolding drop_entry left
    drop_entry_of =
        ap
          (λ i.
            drop_stamp i (set_bucket (record m { load = m.load - 1 }) i (erase e.key (bucket m i))))
          (sym home_here)

    slot_here : slot m e.hash ≡ it.vec
    unfolding home
    slot_here = ap (slot m) elem_here.0 ∙ sym home_here

    erase_entry-drop_entry : erase_entry m it e ≡ drop_entry m e.key
    unfolding left
    erase_entry-drop_entry =
        let c = erase e.key (bucket m it.vec) in
        let l : it.vec < length m.buckets =
          omega (arith, v.shape.buckets_len, home_here, home-lt v e.key) in
        let written : bucket (left c) it.vec ≡ c =
          get_or-set m.buckets it.vec it.vec c [] l ∙ (rw (==_refl it.vec) refl) in
        erase_entry_of c it.vec erased.0 slot_here
        ∙ sym (drop_entry_of ∙ emptied c (left c) it.vec written)

    -- `remove (const Iterator&)` at an element `e` of a live list returns its value and leaves a
    -- well-formed table that stands for the map without its key, with one element less.
    pub remove_at_lem :
        (m' : HashMap fl K V) × (remove_at m it ≡ some (m', e.value))
        × (f e.key ≡ some e.value)
        × Models (write f e.key none) m'
        × (size m' + 1 ≡ size m)
    unfolding remove_at size
    remove_at_lem = (
      erase_entry m it e,
      rw (remove_at, here) refl,
      value_here,
      rw erase_entry-drop_entry (drop_entry-Models v e.key value_here),
      rw erase_entry-drop_entry (drop_entry_load v e.key value_here),
    )
