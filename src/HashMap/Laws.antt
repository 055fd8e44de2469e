-- ===== src/HashMap/Laws.antt =====
-- The methods of HashMap against a finite map: constructors, clear, size, get, put and remove.
use mathlib.Core.Path.{fun_ext}
use mathlib.Core.Bool.{false≢true}
use native.Mathlib.Nat.{one-le-pow}
use gnu_my_server_gso_c.Base.{
  ℕ, suc, ◌+◌, ◌-◌, ◌/◌, ◌%◌, ◌^◌, ◌≤◌, ◌<◌, List, [], Option, none, some, ◌≡◌, ◌≢◌, refl, sym, ◌∙◌,
  ap, subst, inl, inr, true, false, ◌&&◌, arith, length, ◌==◌, ltb, leb, Bool-cases, Option-cases,
  length-replicate, get_or-replicate,
}
use gnu_my_server_gso_c.HashMap.Types.{Key, Float, Shkv, HashMap}
use gnu_my_server_gso_c.HashMap.Table.{stamp, search_in, size, clear}
use gnu_my_server_gso_c.HashMap.Methods.{with_power, grow, shrink, add_entry, put, remove}
use gnu_my_server_gso_c.HashMap.Chain.{find}
use gnu_my_server_gso_c.HashMap.Sum.{sum_none}
use gnu_my_server_gso_c.HashMap.Entries.{count}
use gnu_my_server_gso_c.HashMap.Holds.{Holds}
use gnu_my_server_gso_c.HashMap.Shape.{alive}
use gnu_my_server_gso_c.HashMap.Models.{
  Models, mask_of_lem, increase_size-Models, increase_size-load,
}
use gnu_my_server_gso_c.HashMap.Refine.{
  write, value_or, found, search_in_lem, assign-Models, drop_entry-Models, drop_entry_load,
}
use gnu_my_server_gso_c.HashMap.Put.{add_entry-Models, add_entry_numbers}
use gnu_my_server_gso_c.HashMap.Remove.{decrease_size-Models, decrease_size-load}

module _ {ℓ} {K V : Type ℓ} ⦃key : Key K⦄ where
  pub none-Holds :
      {at : K → ℕ} {n : ℕ} {lists : ℕ → List (Shkv K V)}
      → ((j : ℕ) → lists j ≡ [])
      → Holds at n 0 (λ q. none) lists
  unfolding count find
  none-Holds {n = n} {lists = lists} e = record {
    hashed = λ j. rw (e j) tt;
    unique = λ q j. rw (e j) (omega arith);
    counted = sum_none n lists e;
    reads = λ q. rw (e _);
  }

  write_absent : (f : K → Option V) (k : K) → f k ≡ none → (q : K) → write f k none q ≡ f q
  write_absent f k e q = elim (Bool-cases (key.eq k q)) [
    | inl same ↦ rw (same, ← (key.eq_iff k q).0 same) (sym e)
    | inr other ↦ rw other
  ]

module _ {ℓ} {K V : Type ℓ} (fl : Float) where
  pub with_power-alive :
      (p : ℕ) (h : fl.F) (j : ℕ) → alive {fl = fl} {K = K} {V = V} (with_power p h) j ≡ []
  unfolding with_power
  with_power-alive p h j = rw (get_or-replicate {A = List (Shkv K V)} (2 ^ p) j []) (ground arith)

module _ {ℓ} {fl : Float} {K V : Type ℓ} ⦃key : Key K⦄ where
  -- A table of the power `p` with empty vectors is the empty map.
  pub with_power-Models :
      (p : ℕ) (h : fl.F)
      → 4 ≤ p
      → p ≤ 30
      → Models {fl = fl} {K = K} {V = V} (λ q. none) (with_power p h)
  unfolding with_power
  with_power-Models p h four thirty = record {
    shape = record {
      buckets_len = length-replicate (2 ^ p) [];
      stamps_len = length-replicate (2 ^ p) 0;
      positive = omega arith;
      stamped = λ j. rw (get_or-replicate {A = ℕ} (2 ^ p) j 0) (omega arith);
      filled = λ j on. absurd (off j (rw (get_or-replicate {A = ℕ} (2 ^ p) j 0) at on));
    };
    capacity = refl;
    masked = mask_of_lem p (omega arith);
    large = four;
    small = thirty;
    bounded = omega arith;
    holds = none-Holds (with_power-alive fl p h);
  }
    where
      off : ℕ → leb 1 0 ≡ true → ⊥
      off j e = ground arith

  module _ {f : K → Option V} {m : HashMap fl K V} (v : Models f m) where
    grow-Models : m.power < 30 → Models f (grow m) × ((grow m).load ≡ m.load)
    unfolding grow
    grow-Models room =
        elim (Bool-cases (fl.lt m.high_load_factor (fl.of_int (m.load / m.capacity)))) [
          | inl full ↦
              rw full (increase_size-Models v 1 (omega arith), increase_size-load v 1 (omega arith))
          | inr roomy ↦ rw roomy (v, refl)
        ]

    shrink-Models : Models f (shrink m) × ((shrink m).load ≡ m.load)
    unfolding shrink
    shrink-Models =
        elim (Bool-cases
          (fl.lt (fl.of_int (m.load / m.capacity)) m.low_load_factor && ltb 16 m.capacity)) [
            | inl sparse ↦
                let big : 16 < m.capacity = ground arith in
                let five : m.power ≢ 4 = λ e. omega (arith, ap (λ p. 2 ^ p) e, v.capacity) in
                let e : m.power ≡ suc (m.power - 1) = omega (arith, v.large) in
                rw sparse (
                  decrease_size-Models v (m.power - 1) e (omega (arith, v.large, five)),
                  decrease_size-load v (m.power - 1) e (omega (arith, v.large, five)),
                )
            | inr dense ↦ rw dense (v, refl)
          ]

  Models-ext :
      {f g : K → Option V} {m : HashMap fl K V} → ((q : K) → g q ≡ f q) → Models f m → Models g m
  Models-ext {m = m} h v = subst (λ f. Models f m) (fun_ext (λ q. sym (h q))) v

  module _ {f : K → Option V} {m : HashMap fl K V} (v : Models f m) (nil : V) (k : K) where
    search_none : f k ≡ none → search_in m k ≡ none
    search_none e = search_in_lem v k ∙ e

    search_some : {old : V} → f k ≡ some old → search_in m k ≡ some old
    search_some e = search_in_lem v k ∙ e

    -- `put` on a table with a power below 30 leaves a well-formed table that stands for the map with
    -- the value under the key; it returns the value that the key had, or 0, and the size grows by
    -- one if the key was new.
    pub put_lem :
        (x : V)
        → m.power < 30
        → Models (write f k (some x)) (put nil m k x).0
          × ((put nil m k x).1 ≡ value_or (f k) nil)
          × (size (put nil m k x).0 + found (f k) ≡ size m + 1)
    unfolding put size
    put_lem x room = elim (Option-cases (f k)) [
      | inl e ↦ rw (search_none e, put, e) (put_new e)
      | inr (old, e) ↦ rw (search_some e, put, e) (assign-Models v k e x, refl, refl)
    ]
      where
        put_new :
            f k ≡ none
            → Models (write f k (some x)) (grow (add_entry m k x))
              × ◌≡◌ {A = V} nil nil
              × ((grow (add_entry m k x)).load + 0 ≡ m.load + 1)
        put_new e =
            let n = add_entry_numbers v k x in
            let g = grow-Models (add_entry-Models v k x e) (omega (arith, n.0)) in
            (g.0, refl, omega (arith, g.1, n.1))

    -- `remove` leaves a well-formed table that stands for the map without the key; it returns the
    -- value that the key had, or 0, and the size falls by one if there was one.
    pub remove_lem :
        Models (write f k none) (remove nil m k).0
        × ((remove nil m k).1 ≡ value_or (f k) nil)
        × (size (remove nil m k).0 + found (f k) ≡ size m)
    unfolding remove size
    remove_lem = elim (Option-cases (f k)) [
      | inl e ↦ rw (search_none e, remove, e) (Models-ext (write_absent f k e) v, refl, omega arith)
      | inr (old, e) ↦
          let s = shrink-Models (drop_entry-Models v k e) in
          rw (search_some e, remove, e) (s.0, refl, omega (arith, s.1, drop_entry_load v k e))
    ]

  module _ {f : K → Option V} {m : HashMap fl K V} (v : Models f m) where
    -- After `clear` every stamp is old.
    clear_dead : (j : ℕ) → leb (m.offset + 1) (stamp m j) ≡ false
    clear_dead j = ground (arith, v.shape.stamped j)

    -- `clear` leaves the empty map, as long as the 32-bit counter does not come round.
    pub clear-Models : m.offset + 1 < 2 ^ 32 → Models (λ q. none) (clear m)
    unfolding clear
    clear-Models l =
        let e : (m.offset + 1) % 2 ^ 32 ≡ m.offset + 1 = omega arith in
        let z : (m.offset + 1 == 0) ≡ false = ground arith in
        rw (e, z)
          (record {
            shape = record {
              buckets_len = v.shape.buckets_len;
              stamps_len = v.shape.stamps_len;
              positive = omega arith;
              stamped = λ j. omega (arith, v.shape.stamped j);
              filled = λ j on. absurd (false≢true (sym (clear_dead j) ∙ on));
            };
            capacity = v.capacity;
            masked = v.masked;
            large = v.large;
            small = v.small;
            bounded = l;
            holds = none-Holds (λ j. rw (clear_dead j));
          })

    -- When the 32-bit counter comes round to 0, `clear` leaves a table that is not well formed: it has
    -- no lists.
    pub clear_round : m.offset + 1 ≡ 2 ^ 32 → {g : K → Option V} → ¬ Models g (clear m)
    unfolding clear
    clear_round e {g} w =
        let none_left : length (clear m).buckets ≡ 0 =
          let r : (m.offset + 1) % 2 ^ 32 ≡ 0 = omega arith in rw r in
        omega (arith, none_left, w.shape.buckets_len, one-le-pow (clear m).power 2)
