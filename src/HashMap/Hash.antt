-- ===== src/HashMap/Hash.antt =====
-- The macro elfHash of hash_map.cpp: unsigned 32-bit arithmetic over the bytes of a key.
use Prim.Native.Nat.{bit_and, bit_xor}
use gnu_my_server_gso_c.Base.{
  ℕ, ◌+◌, ◌-◌, ◌*◌, ◌/◌, ◌%◌, ◌^◌, List, [], ◌∷◌, ltb, ◌==◌, if◌then◌else◌,
}

-- A `char` is signed: its conversion to unsigned int extends the sign.
unfoldable pub widen : ℕ → ℕ
widen c = if ltb c 128 then c else c + (2 ^ 32 - 256)

-- The body of the loop.
unfoldable pub elf_step : ℕ → ℕ → ℕ
unfolding widen
elf_step h c =
    let h' = (h * 16 + widen c) % 2 ^ 32 in
    let x = bit_and h' 0xF0000000 in
    if x == 0 then h' else bit_and (bit_xor h' (x / 2 ^ 24)) (2 ^ 32 - 1 - x)

elf_loop : ℕ → List ℕ → ℕ
unfolding elf_step
elf_loop h [] = h
elf_loop h (c ∷ cs) = elf_loop (elf_step h c) cs

unfoldable pub elf_hash : List ℕ → ℕ
unfolding elf_loop
elf_hash cs = bit_and (elf_loop 0 cs) 0x7FFFFFFF
