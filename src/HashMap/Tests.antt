-- ===== src/HashMap/Tests.antt =====
-- Runs of the hash table with numbers as keys and values, and a float counted in thousandths.
use gnu_my_server_gso_c.Base.{
  ℕ, ◌+◌, ◌-◌, ◌^◌, ◌≤◌, ◌<◌, List, [], true, false, Option, none, some, ◌≡◌, refl, arith, leb,
  length-replicate, get_or-replicate, length,
}
use gnu_my_server_gso_c.Base.Int.{pos}
use gnu_my_server_gso_c.HashMap.Samples.{letter, thousandths}
use gnu_my_server_gso_c.HashMap.Types.{Shkv, HashMap}
use gnu_my_server_gso_c.HashMap.Hash.{elf_hash}
use gnu_my_server_gso_c.HashMap.Table.{
  slot, hash, mask_of, get, contains_key, size, clear, live, search_in,
}
use gnu_my_server_gso_c.HashMap.Resize.{push_front, increase_size, decrease_size}
use gnu_my_server_gso_c.HashMap.Methods.{
  grow, add_entry, new, new_capacity, new_factor, new_capacity_factor, put, remove, with_power,
}
use gnu_my_server_gso_c.HashMap.Entries.{count}
use gnu_my_server_gso_c.HashMap.Chain.{find, assign}
use gnu_my_server_gso_c.HashMap.Iterator.{Iterator, begin, walk, entry_at, remove_at}
use gnu_my_server_gso_c.HashMap.Shape.{alive}
use gnu_my_server_gso_c.HashMap.Models.{Models, increase_size-Models}
use gnu_my_server_gso_c.HashMap.Remove.{decrease_size-Models}
use gnu_my_server_gso_c.HashMap.Refine.{write, get_lem, contains_key_lem}
use gnu_my_server_gso_c.HashMap.Laws.{
  with_power-Models, none-Holds, put_lem, remove_lem, clear_round,
}
use gnu_my_server_gso_c.HashMap.Create.{new_lem}
use gnu_my_server_gso_c.HashMap.Walk.{walk_lem}
use gnu_my_server_gso_c.HashMap.RemoveAt.{remove_at_lem}

abbrev NumTable : Type 0
NumTable = HashMap thousandths ℕ ℕ

abbrev no_number : ℕ → Option ℕ
no_number q = none

abbrev five_seven : ℕ → Option ℕ
five_seven = write no_number 5 (some 7)

new_example :
    Models {fl = thousandths} {K = ℕ} {V = ℕ} no_number new
    × Models {fl = thousandths} {K = ℕ} {V = ℕ} no_number (new_capacity (pos 40))
    × Models {fl = thousandths} {K = ℕ} {V = ℕ} no_number (new_factor 800)
    × Models {fl = thousandths} {K = ℕ} {V = ℕ} no_number (new_capacity_factor (pos 40) 800)
    × (40 ≤ (new_capacity {fl = thousandths} {K = ℕ} {V = ℕ} (pos 40)).capacity)
    × ((new_capacity {fl = thousandths} {K = ℕ} {V = ℕ} (pos 40)).capacity ≤ 80)
new_example = new_lem (pos 40) 800 (omega arith)

empty_model : Models {fl = thousandths} {K = ℕ} {V = ℕ} no_number new
empty_model = new_example.0

small_table : (new {fl = thousandths} {K = ℕ} {V = ℕ}).power < 30
unfolding new with_power
small_table = omega arith

abbrev one_entry : NumTable
one_entry = (put 0 new 5 7).0

put_example :
    Models five_seven one_entry
    × ((put 0 (new {fl = thousandths} {K = ℕ} {V = ℕ}) 5 7).1 ≡ 0)
    × (size one_entry + 0 ≡ size (new {fl = thousandths} {K = ℕ} {V = ℕ}) + 1)
unfolding letter
put_example = put_lem empty_model 0 5 7 small_table

one_model : Models five_seven one_entry
one_model = put_example.0

get_example : get 0 one_entry 5 ≡ 7
unfolding letter
get_example = get_lem one_model 5 0

contains_key_example : contains_key one_entry 6 ≡ false
unfolding letter
contains_key_example = contains_key_lem one_model 6

remove_example :
    Models (write five_seven 5 none) (remove 0 one_entry 5).0
    × ((remove 0 one_entry 5).1 ≡ 7)
    × (size (remove 0 one_entry 5).0 + 1 ≡ size one_entry)
unfolding letter
remove_example = remove_lem one_model 0 5

early : one_entry.offset + 1 < 2 ^ 32
unfolding put new with_power search_in slot hash elf_hash letter mask_of grow add_entry push_front
early = omega arith

-- A run of the table itself: two keys, one of them written twice, then removed.
two_writes : get 0 (put 0 (put 0 one_entry 6 8).0 5 9).0 5 ≡ 9
unfolding put new with_power search_in slot hash elf_hash letter mask_of grow add_entry push_front
    get find assign
two_writes = refl

one_is_enough : size one_entry ≤ 1
unfolding put new with_power search_in slot hash elf_hash letter mask_of grow add_entry push_front
    size
one_is_enough = omega arith

walk_example :
    (length (walk 1 one_entry (begin one_entry)) ≡ size one_entry)
    × ((q : ℕ) → count q (walk 1 one_entry (begin one_entry)) ≤ 1)
    × ((q : ℕ) → find q (walk 1 one_entry (begin one_entry)) ≡ five_seven q)
walk_example = walk_lem one_model 1 one_is_enough

start : Iterator
start = begin one_entry

abbrev the_entry : Shkv ℕ ℕ
the_entry = record { hash = 5; key = 5; value = 7 }

start_entry : entry_at one_entry start ≡ some the_entry
unfolding put new with_power search_in slot hash elf_hash letter mask_of grow add_entry push_front
    entry_at begin start
start_entry = refl

start_live : live one_entry start.vec ≡ true
unfolding put new with_power search_in slot hash elf_hash letter mask_of grow add_entry push_front
    begin start
start_live = refl

remove_at_example :
    (m' : NumTable) × (remove_at one_entry start ≡ some (m', 7))
    × (five_seven 5 ≡ some 7)
    × Models (write five_seven 5 none) m'
    × (size m' + 1 ≡ size one_entry)
unfolding letter
remove_at_example = remove_at_lem one_model start the_entry start_entry start_live

-- A table whose counter of `clear` calls is about to come round.
abbrev old_table : NumTable
old_table = record (new {fl = thousandths} {K = ℕ} {V = ℕ}) { offset = 2 ^ 32 - 1 }

old_model : Models no_number old_table
unfolding new with_power
old_model = record {
  shape = record {
    buckets_len = length-replicate {A = List (Shkv ℕ ℕ)} 16 [];
    stamps_len = length-replicate {A = ℕ} 16 0;
    positive = omega arith;
    stamped = λ j. rw (get_or-replicate {A = ℕ} 16 j 0) (omega arith);
    filled = λ j on. absurd (off j (rw (get_or-replicate {A = ℕ} 16 j 0) at on));
  };
  capacity = refl;
  masked = empty_model.masked;
  large = omega arith;
  small = omega arith;
  bounded = omega arith;
  holds = none-Holds none_alive;
}
  where
    off : ℕ → leb (2 ^ 32 - 1) 0 ≡ true → ⊥
    off j e = ground arith

    none_alive : (j : ℕ) → alive old_table j ≡ []
    none_alive j = rw (get_or-replicate {A = List (Shkv ℕ ℕ)} 16 j []) (ground arith)

clear_round_example : ¬ Models no_number (clear old_table)
clear_round_example = clear_round old_model refl

increase_size_example : Models five_seven (increase_size 2 one_entry)
unfolding put new with_power search_in slot hash elf_hash letter mask_of grow add_entry push_front
increase_size_example = increase_size-Models one_model 2 (omega arith)

large_model : Models {fl = thousandths} {K = ℕ} {V = ℕ} no_number (with_power 5 750)
large_model = with_power-Models 5 750 (omega arith) (omega arith)

decrease_size_example :
    Models no_number (decrease_size 1 (with_power {fl = thousandths} {K = ℕ} {V = ℕ} 5 750))
unfolding with_power
decrease_size_example = decrease_size-Models large_model 4 refl (omega arith)
