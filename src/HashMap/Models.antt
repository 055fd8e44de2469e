-- ===== src/HashMap/Models.antt =====
-- The invariant of the hash table and the finite map that it stands for.
use native.Mathlib.Nat.{
  pow-suc, mod-mod_of_dvd, dvd_refl, dvd-mul_right_of_dvd, one-le-pow, pow-le-pow_right,
  le-add_right,
}
use Prim.Native.Nat.{◌∣◌}
use gnu_my_server_gso_c.Base.{
  ℕ, zero, suc, ◌+◌, ◌-◌, ◌%◌, ◌^◌, ◌≤◌, ◌<◌, [], Option, ◌≡◌, refl, sym, ◌∙◌, subst, arith, true,
  ◌==◌, ==_iff, passes, table_lookup, length-resize, get_or-resize_larger, get_or-out,
}
use gnu_my_server_gso_c.Base.Bits.{bit_and-mask}
use gnu_my_server_gso_c.HashMap.Types.{Key, Float, HashMap}
use gnu_my_server_gso_c.HashMap.Table.{bucket, stamp, mask_of, slot, hash}
use gnu_my_server_gso_c.HashMap.Resize.{grow_vectors, rehash_from, increase_size}
use gnu_my_server_gso_c.HashMap.Sum.{sum, sum_tail}
use gnu_my_server_gso_c.HashMap.Holds.{Holds, Holds-ext, Holds-at}
use gnu_my_server_gso_c.HashMap.Shape.{alive, Shape, Shape_with, Frame-refl}
use gnu_my_server_gso_c.HashMap.Increase.{Nested, stage_zero, stage_last, Loop, rehash_from-Loop}

mask_table : passes (λ p. mask_of p == 2 ^ p - 1) 33 ≡ true
unfolding passes mask_of
mask_table = refl

-- The mask of a power holds as many ones.
pub mask_of_lem : (p : ℕ) → p ≤ 32 → mask_of p ≡ 2 ^ p - 1
mask_of_lem p h =
    (==_iff _ _).0 (table_lookup (λ p. mask_of p == 2 ^ p - 1) 33 mask_table p (omega arith))

module _ {ℓ} {fl : Float} {K V : Type ℓ} ⦃key : Key K⦄ where
  -- The table is well formed, and its entries are those of the finite map `f`, one for each key.
  pub record Models (f : K → Option V) (m : HashMap fl K V) : Type ℓ where
    pub shape : Shape (2 ^ m.power) m
    pub capacity : m.capacity ≡ 2 ^ m.power
    pub masked : m.mask ≡ 2 ^ m.power - 1
    pub large : 4 ≤ m.power
    pub small : m.power ≤ 30
    pub bounded : m.offset < 2 ^ 32
    pub holds : Holds (λ q. hash q % 2 ^ m.power) (2 ^ m.power) m.load f (alive m)

pub slot_mod {ℓ} :
    {fl : Float} {K V : Type ℓ} (m : HashMap fl K V) (p : ℕ)
    → m.mask ≡ 2 ^ p - 1
    → (h : ℕ) → slot m h ≡ h % 2 ^ p
unfolding slot
slot_mod m p e h = rw e (bit_and-mask p h)

pow-dvd : (p d : ℕ) → 2 ^ p ∣ 2 ^ (p + d)
pow-dvd p zero = let e : p ≡ p + 0 = omega arith in rw (← e) (dvd_refl (2 ^ p))
pow-dvd p (suc d) =
    let e : suc (p + d) ≡ p + suc d = omega arith in
    rw (← e, pow-suc 2 (p + d)) (dvd-mul_right_of_dvd (2 ^ p) (pow-dvd p d) 2)

pub pow-Nested : (p d : ℕ) → Nested (2 ^ p) (2 ^ (p + d))
pow-Nested p d = record {
  some_list = one-le-pow p 2 (omega arith);
  larger = pow-le-pow_right (omega arith) (le-add_right p d);
  nested = λ h. mod-mod_of_dvd (2 ^ p) h (pow-dvd p d);
}

module _ {ℓ} {fl : Float} {K V : Type ℓ} ⦃key : Key K⦄ {f : K → Option V} where
  pub Models-of :
      (p : ℕ) (r : HashMap fl K V)
      → p ≡ r.power
      → r.capacity ≡ 2 ^ r.power
      → Shape (2 ^ p) r
      → r.mask ≡ 2 ^ p - 1
      → 4 ≤ p
      → p ≤ 30
      → r.offset < 2 ^ 32
      → Holds (λ q. hash q % 2 ^ p) (2 ^ p) r.load f (alive r)
      → Models f r
  Models-of p r e cap s mask large small b h = record {
    shape = subst (λ p. Shape (2 ^ p) r) e s;
    capacity = cap;
    masked = subst (λ p. r.mask ≡ 2 ^ p - 1) e mask;
    large = subst (λ p. 4 ≤ p) e large;
    small = subst (λ p. p ≤ 30) e small;
    bounded = b;
    holds = subst (λ p. Holds (λ q. hash q % 2 ^ p) (2 ^ p) r.load f (alive r)) e h;
  }

module _ {ℓ} {fl : Float} {K V : Type ℓ} ⦃key : Key K⦄ {f : K → Option V} {m : HashMap fl K V}
    (v : Models f m) (d : ℕ) (room : m.power + d ≤ 30) where
  larger : 2 ^ m.power ≤ 2 ^ (m.power + d)
  larger = (pow-Nested m.power d).larger

  bucket-grow_vectors : (j : ℕ) → bucket (grow_vectors d m) j ≡ bucket m j
  unfolding grow_vectors
  bucket-grow_vectors j =
      get_or-resize_larger m.buckets (2 ^ (m.power + d)) j []
        (omega (arith, v.shape.buckets_len, larger))

  stamp-grow_vectors : (j : ℕ) → stamp (grow_vectors d m) j ≡ stamp m j
  unfolding grow_vectors
  stamp-grow_vectors j =
      get_or-resize_larger m.stamps (2 ^ (m.power + d)) j 0
        (omega (arith, v.shape.stamps_len, larger))

  alive-grow_vectors : (j : ℕ) → alive (grow_vectors d m) j ≡ alive m j
  unfolding grow_vectors
  alive-grow_vectors j = rw (bucket-grow_vectors j, stamp-grow_vectors j)

  grow_vectors-Shape : Shape (2 ^ (m.power + d)) (grow_vectors d m)
  unfolding grow_vectors
  grow_vectors-Shape = record {
    buckets_len = length-resize m.buckets (2 ^ (m.power + d)) [];
    stamps_len = length-resize m.stamps (2 ^ (m.power + d)) 0;
    positive = v.shape.positive;
    stamped = λ j. rw (stamp-grow_vectors j) (v.shape.stamped j);
    filled =
        λ j on. rw (bucket-grow_vectors j) (v.shape.filled j (rw (stamp-grow_vectors j) at on));
  }

  none_above : (j : ℕ) → 2 ^ m.power ≤ j → bucket m j ≡ []
  none_above j h = get_or-out m.buckets j [] (omega (arith, v.shape.buckets_len))

  none_alive : (j : ℕ) → 2 ^ m.power ≤ j → alive m j ≡ []
  none_alive j h = rw (none_above j h) (ground arith)

  grown_sum : sum (2 ^ (m.power + d)) (alive m) ≡ m.load
  grown_sum =
      let e : (2 ^ (m.power + d) - 2 ^ m.power) + 2 ^ m.power ≡ 2 ^ (m.power + d) =
        omega (arith, larger) in
      rw (← e) (sum_tail (2 ^ (m.power + d) - 2 ^ m.power) (2 ^ m.power) (alive m) none_alive)
      ∙ v.holds.counted

  grow_vectors-Loop : Loop (pow-Nested m.power d) m.load 0 f (grow_vectors d m) (grow_vectors d m)
  grow_vectors-Loop = record {
    shape = grow_vectors-Shape;
    fresh =
        λ j h. bucket-grow_vectors j ∙ none_above j h ∙ sym (alive-grow_vectors j ∙ none_alive j h);
    frame = Frame-refl (grow_vectors d m);
    holds =
        Holds-at (λ q. stage_zero (pow-Nested m.power d) (hash q))
          (Holds-ext alive-grow_vectors (record {
            hashed = v.holds.hashed;
            unique = v.holds.unique;
            counted = grown_sum;
            reads = v.holds.reads;
          }));
  }

  new_mask : (grow_vectors d m).mask ≡ 2 ^ (m.power + d) - 1
  unfolding grow_vectors
  new_mask = mask_of_lem (m.power + d) (omega arith)

  grown :
      Loop
        (pow-Nested m.power d)
        m.load
        (2 ^ m.power)
        f
        (grow_vectors d m)
        (rehash_from m.capacity 0 (grow_vectors d m))
  grown =
      rehash_from-Loop (pow-Nested m.power d) m.capacity 0 (grow_vectors d m)
        (slot_mod (grow_vectors d m) (m.power + d) new_mask) (omega (arith, v.capacity))
        grow_vectors-Loop

  r_power : (rehash_from m.capacity 0 (grow_vectors d m)).power ≡ m.power + d
  unfolding grow_vectors
  r_power = grown.frame.power

  -- `increaseSize` by `d`, up to the power 30, keeps the table well formed and the map it stands for.
  pub increase_size-Models : Models f (increase_size d m)
  unfolding increase_size
  increase_size-Models =
      let r = rehash_from m.capacity 0 (grow_vectors d m) in
      let g = grown in
      Models-of (m.power + d) (record r { capacity = 2 ^ r.power }) (sym r_power) refl
        (Shape_with (2 ^ r.power) r.power r.mask r.load g.shape) (g.frame.mask ∙ new_mask)
        (omega (arith, v.large)) room (rw g.frame.offset grow_bounded)
        (subst (λ l. Holds (λ q. hash q % 2 ^ (m.power + d)) (2 ^ (m.power + d)) l f (alive r))
          (sym (g.frame.load ∙ grow_load))
          (Holds-at (λ q. sym (stage_last (pow-Nested m.power d) (hash q))) g.holds))
    where
      grow_load : (grow_vectors d m).load ≡ m.load
      grow_load = unfold grow_vectors in refl

      grow_bounded : (grow_vectors d m).offset < 2 ^ 32
      grow_bounded = unfold grow_vectors in v.bounded

  pub increase_size-load : (increase_size d m).load ≡ m.load
  unfolding increase_size grow_vectors
  increase_size-load = grown.frame.load
