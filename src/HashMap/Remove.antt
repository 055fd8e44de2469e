-- ===== src/HashMap/Remove.antt =====
-- decreaseSize (1) as `remove` calls it, and what it leaves.
use native.Mathlib.Nat.{pow-suc}
use gnu_my_server_gso_c.Base.{
  ℕ, suc, ◌+◌, ◌-◌, ◌*◌, ◌/◌, ◌%◌, ◌^◌, ◌≤◌, [], Option, ◌≡◌, sym, ◌∙◌, ap, subst, inl, inr, true,
  false, arith, if◌then◌else◌, length, ltb, leb, Bool-cases, resize, length-resize, get_or-resize,
  get_or-out,
}
use gnu_my_server_gso_c.HashMap.Types.{Key, Float, HashMap}
use gnu_my_server_gso_c.HashMap.Table.{bucket, stamp, live, slot, hash}
use gnu_my_server_gso_c.HashMap.Resize.{merge_down, decrease_size}
use gnu_my_server_gso_c.HashMap.Sum.{sum, sum_tail}
use gnu_my_server_gso_c.HashMap.Holds.{Holds-ext, Holds-at}
use gnu_my_server_gso_c.HashMap.Shape.{alive, Shape, Shape_with, Frame-refl}
use gnu_my_server_gso_c.HashMap.Increase.{Nested}
use gnu_my_server_gso_c.HashMap.Decrease.{
  cut, down_stage_first, down_stage_last, Down, merge_down-Down,
}
use gnu_my_server_gso_c.HashMap.Models.{Models, Models-of, slot_mod, pow-Nested}

module _ {ℓ} {fl : Float} {K V : Type ℓ} where
  -- The vectors cut to `low` lists.
  truncate : ℕ → HashMap fl K V → HashMap fl K V
  truncate low r = record r { buckets = resize r.buckets low []; stamps = resize r.stamps low 0 }

  -- The table when the loop starts.
  halved : ℕ → HashMap fl K V → HashMap fl K V
  halved low m = record m { power = m.power - 1; mask = m.mask / 2; capacity = low }

  decrease_size_lem :
      (low : ℕ) (m : HashMap fl K V)
      → m.capacity / 2 ≡ low
      → decrease_size 1 m ≡ truncate low (merge_down (m.capacity - low) low (halved low m))
  unfolding decrease_size truncate halved
  decrease_size_lem low m h = rw h

  bucket-truncate :
      (low j : ℕ) (r : HashMap fl K V)
      → bucket (truncate low r) j ≡ (if ltb j low then bucket r j else [])
  unfolding truncate
  bucket-truncate low j r = get_or-resize r.buckets low j []

  stamp-truncate :
      (low j : ℕ) (r : HashMap fl K V)
      → stamp (truncate low r) j ≡ (if ltb j low then stamp r j else 0)
  unfolding truncate
  stamp-truncate low j r = get_or-resize r.stamps low j 0

  alive-truncate : (low j : ℕ) (r : HashMap fl K V) → alive (truncate low r) j ≡ cut low (alive r) j
  unfolding truncate
  alive-truncate low j r =
      rw (bucket-truncate low j r, stamp-truncate low j r)
        (elim (Bool-cases (ltb j low)) [ inl kept ↦ rw kept | inr gone ↦ rw gone (ground arith) ])

  truncate-Shape : (low : ℕ) {n : ℕ} {r : HashMap fl K V} → Shape n r → Shape low (truncate low r)
  unfolding truncate
  truncate-Shape low {r = r} v = record {
    buckets_len = length-resize r.buckets low [];
    stamps_len = length-resize r.stamps low 0;
    positive = v.positive;
    stamped = λ j. rw (stamp-truncate low j r) (ground (arith, v.stamped j));
    filled = filled;
  }
    where
      filled : (j : ℕ) → live (truncate low r) j ≡ true → 1 ≤ length (bucket (truncate low r) j)
      filled j on = elim (Bool-cases (ltb j low)) [
        | inl kept ↦
            rw (bucket-truncate low j r, kept)
              (v.filled j (rw (stamp-truncate low j r, kept) at on))
        | inr gone ↦
            let e : leb r.offset 0 ≡ true = rw (stamp-truncate low j r, gone) at on in
            absurd (ground (arith, v.positive))
      ]

module _ {ℓ} {fl : Float} {K V : Type ℓ} ⦃key : Key K⦄ {f : K → Option V} {m : HashMap fl K V}
    (v : Models f m) (p : ℕ) (e : m.power ≡ suc p) (four : 4 ≤ p) where
  double : 2 ^ m.power ≡ 2 ^ p * 2
  double = rw e (pow-suc 2 p)

  levels : Nested (2 ^ p) (2 ^ m.power)
  levels =
      let e' : p + 1 ≡ m.power = omega (arith, e) in
      subst (λ n. Nested (2 ^ p) (2 ^ n)) e' (pow-Nested p 1)

  none_above : (j : ℕ) → ltb j (2 ^ m.power) ≡ false → alive m j ≡ []
  none_above j h =
      let e : bucket m j ≡ [] = get_or-out m.buckets j [] (ground (arith, v.shape.buckets_len)) in
      rw e (ground arith)

  cut_all : (j : ℕ) → cut (2 ^ m.power) (alive m) j ≡ alive m j
  cut_all j = elim (Bool-cases (ltb j (2 ^ m.power))) [
    | inl kept ↦ rw kept
    | inr above ↦ rw above (sym (none_above j above))
  ]

  halved-Down : Down levels m.load (2 ^ m.power) f (halved (2 ^ p) m) (halved (2 ^ p) m)
  unfolding halved
  halved-Down = record {
    shape = Shape_with (2 ^ p) (m.power - 1) (m.mask / 2) m.load v.shape;
    frame = Frame-refl (halved (2 ^ p) m);
    holds = Holds-at (λ q. down_stage_first levels (hash q)) (Holds-ext cut_all v.holds);
  }

  halved_slots : (h : ℕ) → slot (halved (2 ^ p) m) h ≡ h % 2 ^ p
  halved_slots = slot_mod (halved (2 ^ p) m) p half_mask
    where
      half_mask : (halved (2 ^ p) m).mask ≡ 2 ^ p - 1
      half_mask = unfold halved in omega (arith, v.masked, double)

  merged :
      Down levels m.load
        (2 ^ p)
        f
        (halved (2 ^ p) m)
        (merge_down (m.capacity - 2 ^ p) (2 ^ p) (halved (2 ^ p) m))
  merged =
      let count : 2 ^ p + (m.capacity - 2 ^ p) ≡ 2 ^ m.power = omega (arith, v.capacity, double) in
      merge_down-Down levels (m.capacity - 2 ^ p) (halved (2 ^ p) m) halved_slots
        (omega (arith, count))
        (subst (λ i. Down levels m.load i f (halved (2 ^ p) m) (halved (2 ^ p) m)) (sym count)
          halved-Down)

  low_sum :
      (r : HashMap fl K V)
      → sum (2 ^ m.power) (cut (2 ^ p) (alive r)) ≡ sum (2 ^ p) (cut (2 ^ p) (alive r))
  low_sum r =
      let e : 2 ^ p + 2 ^ p ≡ 2 ^ m.power = omega (arith, double) in
      rw (← e) (sum_tail (2 ^ p) (2 ^ p) (cut (2 ^ p) (alive r)) (λ j h. ground arith))

  truncated-Models :
      (r : HashMap fl K V)
      → Down levels m.load (2 ^ p) f (halved (2 ^ p) m) r
      → Models f (truncate (2 ^ p) r)
  unfolding truncate halved
  truncated-Models r d =
      let half : r.power ≡ p = d.frame.power ∙ (omega (arith, e)) in
      let mask : r.mask ≡ 2 ^ p - 1 = d.frame.mask ∙ (omega (arith, v.masked, double)) in
      Models-of p (truncate (2 ^ p) r) (sym half) (d.frame.capacity ∙ ap (λ p. 2 ^ p) (sym half))
        (truncate-Shape (2 ^ p) d.shape) mask four (omega (arith, e, v.small))
        (rw d.frame.offset v.bounded)
        (Holds-ext (λ j. alive-truncate (2 ^ p) j r)
          (Holds-at (λ q. sym (down_stage_last levels (hash q)))
            (record {
              hashed = d.holds.hashed;
              unique = d.holds.unique;
              counted = sym (low_sum r) ∙ d.holds.counted ∙ sym d.frame.load;
              reads = d.holds.reads;
            })))

  -- `decreaseSize` by one, from a power above 4, keeps the table well formed and the map it stands
  -- for.
  pub decrease_size-Models : Models f (decrease_size 1 m)
  decrease_size-Models =
      rw (decrease_size_lem (2 ^ p) m (omega (arith, v.capacity, double)))
        (truncated-Models (merge_down (m.capacity - 2 ^ p) (2 ^ p) (halved (2 ^ p) m)) merged)

  pub decrease_size-load : (decrease_size 1 m).load ≡ m.load
  unfolding truncate halved
  decrease_size-load =
      rw (decrease_size_lem (2 ^ p) m (omega (arith, v.capacity, double))) merged.frame.load
