-- ===== src/HashMap/Methods.antt =====
-- The constructors, put and remove of hash_map.cpp.
use gnu_my_server_gso_c.Base.{
  ℕ, zero, suc, ◌+◌, ◌-◌, ◌/◌, ◌^◌, [], true, false, ◌&&◌, none, some, ltb, if◌then◌else◌,
  replicate,
}
use gnu_my_server_gso_c.Base.Int.{ℤ, pos, negsuc}
use gnu_my_server_gso_c.HashMap.Types.{Key, Float, Shkv, HashMap}
use gnu_my_server_gso_c.HashMap.Chain.{assign, erase}
use gnu_my_server_gso_c.HashMap.Table.{
  bucket, live, set_bucket, set_stamp, hash, home, search_in, mask_of,
}
use gnu_my_server_gso_c.HashMap.Resize.{push_front, drop_stamp, increase_size, decrease_size}

-- `for (hashCapacity>>=5;hashCapacity>0;hashCapacity>>=1) ++power;`, with as much fuel as the
-- capacity.
unfoldable pub count_power : ℕ → ℕ → ℕ → ℕ
count_power zero hash_capacity power = power
count_power (suc fuel) hash_capacity power = elim (ltb 0 hash_capacity) [
  | true ↦ count_power fuel (hash_capacity / 2) (power + 1)
  | false ↦ power
]

unfoldable pub power_for : ℤ → ℕ
unfolding count_power
power_for (negsuc n) = 4
power_for (pos n) = if ltb 0x10 n then count_power n (n / 2 ^ 5) 5 else 4

module _ (fl : Float) where
  -- `hashLoadFactor/13*6`
  unfoldable pub low_factor : fl.F → fl.F
  low_factor f = fl.mul (fl.div f (fl.of_int 13)) (fl.of_int 6)

  -- The load factor that a constructor uses for its argument.
  unfoldable pub factor_for : fl.F → fl.F
  factor_for f = if fl.lt (fl.of_int 0) f then f else fl.three_quarters

module _ {ℓ} {fl : Float} {K V : Type ℓ} where
  -- The fields that every constructor sets, from the power and the load factor.
  unfoldable pub with_power : ℕ → fl.F → HashMap fl K V
  unfolding low_factor
  with_power power f = record {
    buckets = replicate (2 ^ power) [];
    stamps = replicate (2 ^ power) 0;
    offset = 1;
    capacity = 2 ^ power;
    power = power;
    mask = mask_of power;
    load = 0;
    high_load_factor = f;
    low_load_factor = low_factor fl f;
  }

  unfoldable pub new : HashMap fl K V
  unfolding with_power
  new = with_power 4 fl.three_quarters

  unfoldable pub new_capacity : ℤ → HashMap fl K V
  unfolding with_power power_for
  new_capacity hash_capacity = with_power (power_for hash_capacity) fl.three_quarters

  unfoldable pub new_factor : fl.F → HashMap fl K V
  unfolding with_power factor_for
  new_factor hash_load_factor = with_power 4 (factor_for fl hash_load_factor)

  unfoldable pub new_capacity_factor : ℤ → fl.F → HashMap fl K V
  unfolding with_power power_for factor_for
  new_capacity_factor hash_capacity hash_load_factor =
      with_power (power_for hash_capacity) (factor_for fl hash_load_factor)

  -- `if ((float)(load/capacity)>highLoadFactor) increaseSize (1);`, an integer division.
  unfoldable pub grow : HashMap fl K V → HashMap fl K V
  grow m =
      if fl.lt m.high_load_factor (fl.of_int (m.load / m.capacity)) then increase_size 1 m else m

  -- `if (((float)(load/capacity)<lowLoadFactor) && (capacity>16)) decreaseSize (1);`
  unfoldable pub shrink : HashMap fl K V → HashMap fl K V
  shrink m =
      if fl.lt (fl.of_int (m.load / m.capacity)) m.low_load_factor && ltb 16 m.capacity
      then decrease_size 1 m
      else m

unfoldable pub entry {ℓ} : {K V : Type ℓ} ⦃key : Key K⦄ → K → V → Shkv K V
entry k v = record { hash = hash k; key = k; value = v }

module _ {ℓ} {fl : Float} {K V : Type ℓ} ⦃key : Key K⦄ where
  -- The part of `put` for a key that was not found, up to the growth.
  unfoldable pub add_entry : HashMap fl K V → K → V → HashMap fl K V
  unfolding entry
  add_entry m k v =
      let i = home m k in
      let m' = record m { load = m.load + 1 } in
      if live m i
      then push_front m' i (entry k v)
      else push_front (set_bucket (set_stamp m' i m.offset) i []) i (entry k v)

  -- The new table and what the method returns.
  unfoldable pub put : V → HashMap fl K V → K → V → HashMap fl K V × V
  put nil m k v = elim (search_in m k) [
    | some old ↦ (set_bucket m (home m k) (assign k v (bucket m (home m k))), old)
    | none ↦ (grow (add_entry m k v), nil)
  ]

  -- The part of `remove` for a key that was found, up to the shrinking.
  unfoldable pub drop_entry : HashMap fl K V → K → HashMap fl K V
  drop_entry m k =
      let i = home m k in
      drop_stamp i (set_bucket (record m { load = m.load - 1 }) i (erase k (bucket m i)))

  unfoldable pub remove : V → HashMap fl K V → K → HashMap fl K V × V
  remove nil m k = elim (search_in m k) [
    | some old ↦ (shrink (drop_entry m k), old)
    | none ↦ (m, nil)
  ]
