-- ===== src/HashMap/Resize.antt =====
-- increaseSize and decreaseSize of hash_map.cpp.
use gnu_my_server_gso_c.Base.{
  ℕ, zero, suc, ◌+◌, ◌-◌, ◌/◌, ◌^◌, List, [], ◌∷◌, ltb, ◌==◌, if◌then◌else◌, resize,
}
use gnu_my_server_gso_c.HashMap.Types.{Float, Shkv, HashMap}
use gnu_my_server_gso_c.HashMap.Table.{bucket, stamp, live, set_bucket, set_stamp, slot, mask_of}

-- The entries whose slot is `i`: the loop erases the others from list `i`.
unfoldable pub stays {ℓ} : {K V : Type ℓ} → (ℕ → ℕ) → ℕ → List (Shkv K V) → List (Shkv K V)
stays slot_of i [] = []
stays slot_of i (e ∷ es) =
    let rest = stays slot_of i es in if slot_of e.hash == i then e ∷ rest else rest

module _ {ℓ} {fl : Float} {K V : Type ℓ} where
  -- `data[i].push_front (e)`
  unfoldable pub push_front : HashMap fl K V → ℕ → Shkv K V → HashMap fl K V
  push_front m i e = set_bucket m i (e ∷ bucket m i)

  -- An entry whose slot is not `i` is pushed to the front of its new list.
  unfoldable pub move_entry : ℕ → Shkv K V → HashMap fl K V → HashMap fl K V
  unfolding push_front
  move_entry i e m =
      let d = slot m e.hash in if d == i then m else push_front (set_stamp m d m.offset) d e

  unfoldable pub move_out : ℕ → List (Shkv K V) → HashMap fl K V → HashMap fl K V
  move_out i [] m = m
  move_out i (e ∷ es) m = move_out i es (move_entry i e m)

  -- `if (data[i].empty ()) map[i]=0;`
  unfoldable pub drop_stamp : ℕ → HashMap fl K V → HashMap fl K V
  drop_stamp i m = elim (bucket m i) [ [] ↦ set_stamp m i 0 | e ∷ es ↦ m ]

  unfoldable pub rehash_bucket : ℕ → HashMap fl K V → HashMap fl K V
  rehash_bucket i m =
      if live m i
      then drop_stamp i (set_bucket (move_out i (bucket m i) m) i (stays (slot m) i (bucket m i)))
      else m

  -- `for (int i=0;i<capacity;++i)`, with the number of rounds left.
  unfoldable pub rehash_from : ℕ → ℕ → HashMap fl K V → HashMap fl K V
  rehash_from zero i m = m
  rehash_from (suc n) i m = rehash_from n (i + 1) (rehash_bucket i m)

  -- power, mask and the vectors take their new size; `capacity` keeps the old one.
  unfoldable pub grow_vectors : ℕ → HashMap fl K V → HashMap fl K V
  grow_vectors power_offset m =
      let power = m.power + power_offset in
      record m {
        power = power;
        mask = mask_of power;
        buckets = resize m.buckets (2 ^ power) [];
        stamps = resize m.stamps (2 ^ power) 0;
      }

  unfoldable pub increase_size : ℕ → HashMap fl K V → HashMap fl K V
  unfolding grow_vectors
  increase_size power_offset m =
      let r = rehash_from m.capacity 0 (grow_vectors power_offset m) in
      record r { capacity = 2 ^ r.power }

  -- One round of the loop over a list that goes away.
  unfoldable pub pull_entry : Shkv K V → HashMap fl K V → HashMap fl K V
  unfolding push_front
  pull_entry e m =
      let d = slot m e.hash in
      push_front (if ltb (stamp m d) m.offset then set_bucket (set_stamp m d m.offset) d [] else m)
        d e

  unfoldable pub pull : List (Shkv K V) → HashMap fl K V → HashMap fl K V
  pull [] m = m
  pull (e ∷ es) m = pull es (pull_entry e m)

  unfoldable pub merge_bucket : ℕ → HashMap fl K V → HashMap fl K V
  merge_bucket i m = if live m i then pull (bucket m i) m else m

  -- `for (…;i>=capacity;--i)`: the rounds left are the lists from `low` on.
  unfoldable pub merge_down : ℕ → ℕ → HashMap fl K V → HashMap fl K V
  merge_down zero low m = m
  merge_down (suc n) low m = merge_down n low (merge_bucket (low + n) m)

  unfoldable pub decrease_size : ℕ → HashMap fl K V → HashMap fl K V
  decrease_size power_offset m =
      let capacity = m.capacity / 2 ^ power_offset in
      let r = merge_down (m.capacity - capacity) capacity (record m {
        power = m.power - power_offset;
        mask = m.mask / 2 ^ power_offset;
        capacity = capacity;
      }) in
      record r { buckets = resize r.buckets capacity []; stamps = resize r.stamps capacity 0 }
