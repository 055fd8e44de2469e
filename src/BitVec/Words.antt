-- ===== src/BitVec/Words.antt =====
-- The vector of bits in words of 64 bits: init for zeros, get, ffs and find. A word is kept as an
-- unsigned number; the arithmetic shift of `long int` differs from it only in bits from 64 on.
use gnu_my_server_gso_c.Base.{
  ℕ, zero, suc, ◌+◌, ◌-◌, ◌*◌, ◌/◌, ◌%◌, ◌^◌, List, Bool, ltb, ◌==◌, if◌then◌else◌, get_or, length,
  replicate,
}
use gnu_my_server_gso_c.Base.Int.{ℤ, pos, negsuc}

-- `dataSize` is the length of `words`.
pub record BitVec : Type 0 where
  pub words : List ℕ
  pub capacity : ℕ
  pub last_found : ℕ

-- `init (capacity, false)`
unfoldable pub init : ℕ → BitVec
init capacity = record {
  words = replicate (capacity / 64 + 1) 0;
  capacity = capacity;
  last_found = 0;
}

-- `(i >> j) & 1`
abbrev pub bit : ℕ → ℕ → Bool
bit i j = i / 2 ^ j % 2 == 1

abbrev pub word : BitVec → ℕ → ℕ
word v i = get_or v.words i 0

unfoldable pub get : BitVec → ℕ → Bool
get v i = bit (word v (i / 64)) (i % 64)

-- The loop of ffsl, with the number of rounds left.
unfoldable pub ffsl_from : ℕ → ℕ → ℕ → ℕ
ffsl_from zero j i = 0
ffsl_from (suc n) j i = let rest = ffsl_from n (j + 1) i in if bit i j then j + 1 else rest

unfoldable pub ffsl : ℕ → ℕ
unfolding ffsl_from
ffsl i = ffsl_from 64 0 i

unfoldable pub ffs_from : ℕ → ℕ → BitVec → ℤ
ffs_from zero i v = negsuc 0
ffs_from (suc n) i v =
    let rest = ffs_from n (i + 1) v in
    let p = ffsl (word v i) in
    let r = i * 64 + p - 1 in if p == 0 then rest else if ltb r v.capacity then pos r else rest

unfoldable pub ffs : BitVec → ℤ
unfolding ffs_from
ffs v = ffs_from (length v.words) 0 v

unfoldable pub find_from : ℕ → ℕ → BitVec → BitVec × ℤ
find_from zero i v = (v, negsuc 0)
find_from (suc n) i v =
    let rest = find_from n (i + 1) v in
    let p = ffsl (word v (i % length v.words)) in
    let r = i * 64 + p - 1 in
    if p == 0 then rest else if ltb r v.capacity then (record v { last_found = i }, pos r) else rest

unfoldable pub find : BitVec → BitVec × ℤ
unfolding find_from
find v = find_from (length v.words) v.last_found v
