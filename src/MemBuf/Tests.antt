-- ===== src/MemBuf/Tests.antt =====
-- The theorems on the memory buffer at concrete inputs, and runs of the code.
use gnu_my_server_gso_c.Base.{
  ◌*◌, ℕ, List, [], ◌∷◌, ◌++◌, some, length, take, replicate, length-replicate, ◌≡◌, refl, arith,
}
use gnu_my_server_gso_c.MemBuf.Buffer.{
  MemBuf, contents, empty_buffer, set_real_length, add_buffer, get_part, replace, find_char,
}
use gnu_my_server_gso_c.MemBuf.Room.{IsFit}
use gnu_my_server_gso_c.MemBuf.Added.{room_for, add_buffer_lem}
use gnu_my_server_gso_c.MemBuf.Hex.{hex, hex_to_data, hex_text, AllBytes, hex-hex_to_data}

-- Memory that is full of 255.
abbrev dirty : ℕ → List ℕ
dirty n = replicate n 255

length-dirty : (n : ℕ) → length (dirty n) ≡ n
length-dirty n = length-replicate n 255

abbrev limited_to_5 : MemBuf
limited_to_5 = record empty_buffer { size_limit = 5 }

limited-IsFit : IsFit limited_to_5
unfolding empty_buffer
limited-IsFit = record {
  allocated = refl;
  inside = omega arith;
  nothing_at_null = λ h. refl;
  below_limit = refl;
}

add_buffer_example :
    IsFit (add_buffer dirty (1 ∷ 2 ∷ 3 ∷ []) limited_to_5)
    × (contents (add_buffer dirty (1 ∷ 2 ∷ 3 ∷ []) limited_to_5)
        ≡ contents limited_to_5 ++ take (room_for limited_to_5 3) (1 ∷ 2 ∷ 3 ∷ []))
add_buffer_example = add_buffer_lem dirty length-dirty (1 ∷ 2 ∷ 3 ∷ []) limited_to_5 limited-IsFit

abbrev three_in_five : MemBuf
three_in_five = add_buffer dirty (1 ∷ 2 ∷ 3 ∷ []) limited_to_5

-- The limit cuts what is added.
cut_at_limit :
    contents (add_buffer dirty (4 ∷ 5 ∷ 6 ∷ 7 ∷ []) three_in_five) ≡ 1 ∷ 2 ∷ 3 ∷ 4 ∷ 5 ∷ []
unfolding add_buffer empty_buffer contents
cut_at_limit = refl

-- A limit below the real size: the copy to the new memory is longer than the memory.
overrun : (set_real_length dirty 9 (record three_in_five { size_limit = 2 })).real_size ≡ 2
unfolding add_buffer empty_buffer set_real_length
overrun = refl

part_runs : contents (get_part dirty 1 9 three_in_five empty_buffer) ≡ 2 ∷ 3 ∷ []
unfolding add_buffer empty_buffer contents get_part
part_runs = refl

find_runs : find_char 3 1 (replace 2 3 three_in_five) ≡ some 1
unfolding add_buffer empty_buffer find_char replace
find_runs = refl

abbrev key_bytes : List ℕ
key_bytes = 0 ∷ 27 ∷ 255 ∷ []

key-AllBytes : AllBytes key_bytes
key-AllBytes = (omega arith, (omega arith, (omega arith, tt)))

abbrev two_held : MemBuf
two_held = add_buffer dirty (7 ∷ 8 ∷ []) empty_buffer

two_held-IsFit : IsFit two_held
unfolding add_buffer empty_buffer
two_held-IsFit = record {
  allocated = refl;
  inside = omega arith;
  nothing_at_null = λ h. absurd (cc h);
  below_limit = refl;
}

two_held-unlimited : two_held.size_limit ≡ 0
unfolding add_buffer empty_buffer
two_held-unlimited = refl

hex-hex_to_data_example :
    (contents (hex dirty key_bytes two_held) ≡ contents two_held ++ hex_text key_bytes ++ (0 ∷ []))
    × (contents (
          hex_to_data dirty
            (take (length key_bytes * 2) (contents (hex dirty key_bytes empty_buffer))))
        ≡ key_bytes)
    × (contents (hex_to_data dirty (contents (hex dirty key_bytes empty_buffer))) ≡ 0 ∷ [])
hex-hex_to_data_example =
    hex-hex_to_data dirty length-dirty key_bytes two_held key-AllBytes two_held-IsFit
      two_held-unlimited

-- "001bff", and the 0 that the buffer keeps as its last byte.
hex_runs : contents (hex dirty key_bytes empty_buffer) ≡ 48 ∷ 48 ∷ 49 ∷ 98 ∷ 102 ∷ 102 ∷ 0 ∷ []
unfolding hex contents empty_buffer
hex_runs = refl
