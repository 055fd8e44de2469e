-- ===== src/MemBuf/Buffer.antt =====
-- class MemBuf: its memory, and what changes it. Sizes are below 2 ^ 64, which their sums do not
-- reach.
use gnu_my_server_gso_c.Base.{
  ℕ, ◌+◌, ◌-◌, List, [], ◌∷◌, ◌++◌, Bool, true, false, not, ◌&&◌, ◌||◌, Option, none, some, ltb,
  leb, ◌==◌, if◌then◌else◌, length, take, drop,
}

-- `memory` has the nRealSize bytes at `buffer`; `is_null` is a null pointer there.
pub record MemBuf : Type 0 where
  pub memory : List ℕ
  pub is_null : Bool
  pub size : ℕ
  pub real_size : ℕ
  pub size_limit : ℕ
  pub block_length : ℕ
  pub can_delete : Bool

-- The bytes of the buffer.
unfoldable pub contents : MemBuf → List ℕ
contents b = take b.size b.memory

unfoldable pub empty_buffer : MemBuf
empty_buffer = record {
  memory = [];
  is_null = true;
  size = 0;
  real_size = 0;
  size_limit = 0;
  block_length = 1024;
  can_delete = true;
}

-- memcpy to the offset `i`.
unfoldable pub copy_to : ℕ → List ℕ → List ℕ → List ℕ
copy_to i bs memory = take i memory ++ (bs ++ drop (i + length bs) memory)

-- MemBuf::free.
unfoldable pub release_memory : MemBuf → MemBuf
release_memory b =
    if not b.is_null && b.can_delete
    then record b { memory = []; is_null = true; size = 0; real_size = 0 }
    else b

unfoldable pub set_size_limit : ℕ → MemBuf → MemBuf
set_size_limit n b = record b { size_limit = n }

-- setExternalBuffer, with the memory that the caller gives.
unfoldable pub set_external_buffer : List ℕ → MemBuf → MemBuf
unfolding release_memory
set_external_buffer bs b = record (release_memory b) {
  memory = bs;
  is_null = false;
  size = 0;
  real_size = length bs;
  can_delete = false;
}

-- The size that setRealLength takes.
unfoldable pub limited : MemBuf → ℕ → ℕ
limited b n = if not (b.size_limit == 0) && ltb b.size_limit n then b.size_limit else n

-- The copy of addBuffer, of as many bytes as there is room for.
unfoldable pub fill_room : List ℕ → MemBuf → MemBuf
unfolding copy_to
fill_room bs b =
    let allowed = b.real_size - b.size in
    if allowed == 0
    then b
    else if ltb allowed (length bs)
    then record b { memory = copy_to b.size (take allowed bs) b.memory; size = b.real_size }
    else record b { memory = copy_to b.size bs b.memory; size = b.size + length bs }

-- `allocate n` is the memory that `new char[n]` gives.
module _ (allocate : ℕ → List ℕ) where
  unfoldable pub alloc_buffer : ℕ → MemBuf → MemBuf
  unfolding release_memory
  alloc_buffer n b =
      if ltb b.real_size n || b.is_null
      then record (release_memory b) { memory = allocate n; is_null = false; real_size = n }
      else b

  unfoldable pub enlarge : ℕ → MemBuf → MemBuf
  unfolding alloc_buffer copy_to
  enlarge n b =
      if b.is_null || b.real_size == 0
      then alloc_buffer n b
      else record b { memory = copy_to 0 b.memory (allocate n); real_size = n }

  unfoldable pub set_real_length : ℕ → MemBuf → MemBuf
  unfolding limited enlarge
  set_real_length n b =
      if leb n b.real_size
      then b
      else if not (b.size_limit == 0) && ltb b.size_limit n && b.size_limit == b.real_size
      then b
      else enlarge (limited b n) b

  unfoldable pub set_length : ℕ → MemBuf → MemBuf
  unfolding set_real_length
  set_length n b =
      let c = set_real_length n b in
      record c { size = if ltb n c.real_size then n else c.real_size }

  -- The growth of addBuffer.
  unfoldable pub make_room : ℕ → MemBuf → MemBuf
  unfolding set_real_length
  make_room n b =
      if ltb b.real_size n
      then (if ltb (n - b.real_size) b.block_length
          then set_real_length (b.real_size + b.block_length) b
          else set_real_length n b)
      else b

  unfoldable pub add_buffer : List ℕ → MemBuf → MemBuf
  unfolding make_room fill_room
  add_buffer bs b = if length bs == 0 then b else fill_room bs (make_room (b.size + length bs) b)

  -- setBuffer. A size above the limit is cut to the limit.
  unfoldable pub set_new : List ℕ → MemBuf → MemBuf
  unfolding alloc_buffer copy_to
  set_new bs b =
      let c = alloc_buffer (length bs) b in
      record c { memory = copy_to 0 bs c.memory; size = length bs; real_size = length bs }

  unfoldable pub set_buffer : List ℕ → MemBuf → MemBuf
  unfolding set_new copy_to
  set_buffer bs b =
      if leb (length bs) b.real_size
      then record b { memory = copy_to 0 bs b.memory; size = length bs }
      else if not (b.size_limit == 0) && ltb b.size_limit (length bs)
      then set_new (take b.size_limit bs) b
      else set_new bs b

  -- getPart: a part of the buffer `b` is put into `result`.
  unfoldable pub get_part : ℕ → ℕ → MemBuf → MemBuf → MemBuf
  unfolding set_buffer
  get_part start end_ b result =
      let last = if ltb b.size end_ then b.size else end_ in
      if start == last
      then record result { size = 0 }
      else set_buffer (take (last - start) (drop start b.memory)) result

-- replace (what, by) on the bytes of the buffer.
unfoldable pub replace_all : ℕ → ℕ → List ℕ → List ℕ
replace_all what by [] = []
replace_all what by (c ∷ cs) = (if c == what then by else c) ∷ replace_all what by cs

unfoldable pub replace : ℕ → ℕ → MemBuf → MemBuf
unfolding replace_all
replace what by b = record b {
  memory = replace_all what by (take b.size b.memory) ++ drop b.size b.memory;
}

-- memchr.
unfoldable pub index_of : ℕ → List ℕ → Option ℕ
index_of c [] = none
index_of c (d ∷ ds) =
    if d == c then some 0 else elim (index_of c ds) [ none ↦ none | some i ↦ some (i + 1) ]

unfoldable pub from_start : ℕ → Option ℕ → Option ℕ
from_start start none = none
from_start start (some i) = some (start + i)

-- find (c, start); `none` is (size_t) -1.
unfoldable pub find_char : ℕ → ℕ → MemBuf → Option ℕ
unfolding index_of from_start
find_char c start b =
    if leb b.size start
    then none
    else from_start start (index_of c (take (b.size - start) (drop start b.memory)))
