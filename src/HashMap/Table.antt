-- ===== src/HashMap/Table.antt =====
-- The vectors `data` and `map` of a HashMap, the macro-free part of its methods that do not resize.
-- A read or write outside a vector is undefined in C++: the model reads an empty list and writes
-- nothing. In a well-formed table no index is outside.
use Prim.Native.Nat.{bit_and}
use gnu_my_server_gso_c.Base.{
  ℕ, ◌+◌, ◌-◌, ◌/◌, ◌%◌, ◌^◌, List, [], Bool, true, false, Option, none, some, leb, ◌==◌,
  if◌then◌else◌, get_or, set, replicate,
}
use gnu_my_server_gso_c.HashMap.Types.{Key, Float, Shkv, HashMap}
use gnu_my_server_gso_c.HashMap.Hash.{elf_hash}
use gnu_my_server_gso_c.HashMap.Chain.{find}

unfoldable pub mask_of : ℕ → ℕ
mask_of power = 0xffffffff / 2 ^ (32 - power)

module _ {ℓ} {fl : Float} {K V : Type ℓ} where
  abbrev pub bucket : HashMap fl K V → ℕ → List (Shkv K V)
  bucket m i = get_or m.buckets i []

  abbrev pub stamp : HashMap fl K V → ℕ → ℕ
  stamp m i = get_or m.stamps i 0

  -- `map[i] >= offset`
  abbrev pub live : HashMap fl K V → ℕ → Bool
  live m i = leb m.offset (stamp m i)

  abbrev pub set_bucket : HashMap fl K V → ℕ → List (Shkv K V) → HashMap fl K V
  set_bucket m i c = record m { buckets = set m.buckets i c }

  abbrev pub set_stamp : HashMap fl K V → ℕ → ℕ → HashMap fl K V
  set_stamp m i s = record m { stamps = set m.stamps i s }

  -- `hash & mask`
  unfoldable pub slot : HashMap fl K V → ℕ → ℕ
  slot m h = bit_and h m.mask

  unfoldable pub empty : HashMap fl K V → Bool
  empty m = m.load == 0

  unfoldable pub size : HashMap fl K V → ℕ
  size m = m.load

  unfoldable pub clear : HashMap fl K V → HashMap fl K V
  clear m =
      let offset = (m.offset + 1) % 2 ^ 32 in
      if offset == 0
      then record m { load = 0; offset = 1; buckets = []; stamps = replicate m.capacity 0 }
      else record m { load = 0; offset = offset }

-- `hash (…)` for the key.
unfoldable pub hash {ℓ} : {K : Type ℓ} ⦃key : Key K⦄ → K → ℕ
hash ⦃key⦄ k = elf_hash (key.bytes k)

module _ {ℓ} {fl : Float} {K V : Type ℓ} ⦃key : Key K⦄ where
  unfoldable pub home : HashMap fl K V → K → ℕ
  home m k = slot m (hash k)

  -- The search that `containsKey`, `get`, `getI`, `put` and `remove` share.
  unfoldable pub search_in : HashMap fl K V → K → Option V
  unfolding home
  search_in m k = if live m (home m k) then find k (bucket m (home m k)) else none

  unfoldable pub contains_key : HashMap fl K V → K → Bool
  contains_key m k = elim (search_in m k) [ none ↦ false | some v ↦ true ]

  -- `nil` is what `return (0)` gives at the type of values.
  unfoldable pub get : V → HashMap fl K V → K → V
  get nil m k = elim (search_in m k) [ none ↦ nil | some v ↦ v ]
