-- ===== src/BitVec/Tests.antt =====
-- Runs of the searches on a vector of 100 bits.
use gnu_my_server_gso_c.Base.{◌*◌, [], ◌∷◌, ◌≡◌, refl, arith}
use gnu_my_server_gso_c.Base.Int.{pos, negsuc}
use gnu_my_server_gso_c.BitVec.Words.{BitVec, ffsl_from, ffsl, ffs_from, ffs, find_from, find}
use gnu_my_server_gso_c.BitVec.Search.{FirstBit, Sized, Remembered, ffs-FirstBit, find-FirstBit}

-- Bits 3 and 65 are set, and the last search found the second word.
abbrev two_bits : BitVec
two_bits = record { words = 8 ∷ 2 ∷ []; capacity = 100; last_found = 1 }

two_bits-Sized : Sized two_bits
two_bits-Sized = record { room = omega arith; within = omega arith }

ffs_example : FirstBit two_bits 0 (ffs two_bits)
ffs_example = ffs-FirstBit two_bits two_bits-Sized

find_example : FirstBit two_bits (1 * 64) (find two_bits).1 × Remembered two_bits (find two_bits)
find_example = find-FirstBit two_bits two_bits-Sized

ffs_three : ffs two_bits ≡ pos 3
unfolding ffs ffs_from ffsl ffsl_from
ffs_three = refl

-- Bit 3 is not found again once the last search found the second word.
missed : (find (record two_bits { words = 8 ∷ 0 ∷ [] })).1 ≡ negsuc 0
unfolding find find_from ffsl ffsl_from
missed = refl
