-- ===== src/HashMap/Iterator.antt =====
-- The iterators of hash_map.cpp: begin, back, end, getI, remove (const Iterator&) and MyIterator.
-- An iterator holds positions: `vec` in `data`, `map_pos` in `map`, `list` in the list it is at.
-- One past the end of `data` there is no list: the position in it is 0.
use gnu_my_server_gso_c.Base.{
  ℕ, zero, suc, ◌+◌, ◌-◌, List, [], ◌∷◌, Bool, ◌&&◌, Option, none, some, leb, ◌==◌, if◌then◌else◌,
  get_elem?, length,
}
use gnu_my_server_gso_c.HashMap.Types.{Key, Float, Shkv, HashMap}
use gnu_my_server_gso_c.HashMap.Chain.{erase_at}
use gnu_my_server_gso_c.HashMap.Table.{bucket, stamp, live, set_bucket, set_stamp, slot, home}

pub record Iterator : Type 0 where
  pub offset : ℕ
  pub map_pos : ℕ
  pub vec : ℕ
  pub list : ℕ

-- `operator==` compares the list iterators.
unfoldable pub same : Iterator → Iterator → Bool
same a b = (a.vec == b.vec) && (a.list == b.list)

module _ {ℓ} {fl : Float} {K V : Type ℓ} where
  -- `for (;i<capacity;++i) if (map[i]>=offset) break;`
  unfoldable pub first_live : HashMap fl K V → ℕ → ℕ → ℕ
  first_live m zero i = i
  first_live m (suc n) i = let rest = first_live m n (i + 1) in if live m i then i else rest

  -- `for (;i>=0;--i) if (map[i]>=offset) break;`, from one below the argument.
  unfoldable pub last_live : HashMap fl K V → ℕ → ℕ
  last_live m zero = 0
  last_live m (suc n) = let rest = last_live m n in if live m n then n else rest

  unfoldable pub begin : HashMap fl K V → Iterator
  unfolding first_live
  begin m =
      let i = first_live m m.capacity 0 in
      if m.load == 0
      then record { offset = m.offset; map_pos = length m.stamps; vec = length m.buckets; list = 0 }
      else record { offset = m.offset; map_pos = i; vec = i; list = 0 }

  unfoldable pub back : HashMap fl K V → Iterator
  unfolding last_live
  back m =
      let i = last_live m m.capacity in
      if m.load == 0
      then record { offset = m.offset; map_pos = length m.stamps; vec = length m.buckets; list = 0 }
      else record { offset = m.offset; map_pos = i; vec = i; list = length (bucket m i) - 1 }

  unfoldable pub end : HashMap fl K V → Iterator
  end m = record { offset = m.offset; map_pos = length m.stamps; vec = length m.buckets; list = 0 }

  -- The while loop of `operator++`, with the number of lists left.
  unfoldable pub skip : ℕ → HashMap fl K V → Iterator → Iterator
  skip zero m it = record it { list = 0 }
  skip (suc n) m it =
      let rest = skip n m (record it { map_pos = it.map_pos + 1; vec = it.vec + 1 }) in
      if leb it.offset (stamp m it.map_pos) then record it { list = 0 } else rest

  unfoldable pub next : HashMap fl K V → Iterator → Iterator
  unfolding skip
  next m it =
      if it.list + 1 == length (bucket m it.vec)
      then skip (length m.buckets - (it.vec + 1)) m
          (record it { map_pos = it.map_pos + 1; vec = it.vec + 1 })
      else record it { list = it.list + 1 }

  -- The iterator that `operator++(int)` returns, and the one it leaves.
  unfoldable pub next_after : HashMap fl K V → Iterator → Iterator × Iterator
  unfolding next
  next_after m it = (it, next m it)

  -- The while loop of `operator--`, with the number of lists before this one.
  unfoldable pub skip_back : ℕ → HashMap fl K V → Iterator → Iterator
  skip_back zero m it = record it { list = 0 }
  skip_back (suc n) m it =
      let before = record it { map_pos = it.map_pos - 1; vec = it.vec - 1 } in
      let rest = skip_back n m before in
      if leb it.offset (stamp m before.map_pos)
      then record before { list = length (bucket m before.vec) - 1 }
      else rest

  unfoldable pub prev : HashMap fl K V → Iterator → Iterator
  unfolding skip_back
  prev m it = if it.list == 0 then skip_back it.vec m it else record it { list = it.list - 1 }

  unfoldable pub prev_after : HashMap fl K V → Iterator → Iterator × Iterator
  unfolding prev
  prev_after m it = (it, prev m it)

  -- The element that `operator*` and `getKey` read.
  unfoldable pub entry_at : HashMap fl K V → Iterator → Option (Shkv K V)
  entry_at m it = get_elem? (bucket m it.vec) it.list

  -- `erase (iter.listIter)`, then the stamp of `hash & mask` if the iterator's list is empty.
  unfoldable pub erase_entry : HashMap fl K V → Iterator → Shkv K V → HashMap fl K V
  erase_entry m it e =
      let c = erase_at it.list (bucket m it.vec) in
      let m' = set_bucket (record m { load = m.load - 1 }) it.vec c in
      elim c [ [] ↦ set_stamp m' (slot m e.hash) 0 | x ∷ xs ↦ m' ]

  -- `remove (const Iterator&)`, `none` where there is nothing to dereference.
  unfoldable pub remove_at : HashMap fl K V → Iterator → Option (HashMap fl K V × V)
  unfolding entry_at erase_entry
  remove_at m it = elim (entry_at m it) [
    | none ↦ none
    | some e ↦ some (erase_entry m it e, e.value)
  ]

  -- `for (it = begin (); it != end (); it++)`: the elements in their order.
  unfoldable pub walk : ℕ → HashMap fl K V → Iterator → List (Shkv K V)
  unfolding entry_at next end same
  walk zero m it = []
  walk (suc n) m it =
      let rest = walk n m (next m it) in
      if same it (end m) then [] else elim (entry_at m it) [ none ↦ [] | some e ↦ e ∷ rest ]

module _ {ℓ} {K V : Type ℓ} ⦃key : Key K⦄ where
  -- The position at which the search stops.
  unfoldable pub position : K → List (Shkv K V) → Option ℕ
  position k [] = none
  position k (e ∷ es) =
      let rest = position k es in
      if key.eq e.key k then some 0 else elim rest [ none ↦ none | some i ↦ some (suc i) ]

  -- Where it finds the key, `getI` sets neither `mapIter` nor `offset` of `tempIterator`.
  unfoldable pub get_i : {fl : Float} → Iterator → HashMap fl K V → K → Iterator
  unfolding home position end
  get_i temp m k =
      if live m (home m k)
      then elim (position k (bucket m (home m k))) [
        | none ↦ end m
        | some i ↦ record temp { vec = home m k; list = i }
      ]
      else end m
