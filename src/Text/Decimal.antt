-- ===== src/Text/Decimal.antt =====
-- `atoi` of the C library on a 64-bit system: strtol, which stops at the bounds of a long, and the
-- conversion to int.
use gnu_my_server_gso_c.Base.{
  ℕ, ◌+◌, ◌-◌, ◌*◌, ◌^◌, min, List, [], ◌∷◌, Bool, ◌&&◌, ◌||◌, leb, ◌==◌, if◌then◌else◌, ◌≡◌, refl,
}
use gnu_my_server_gso_c.Base.Int.{ℤ, pos, negsuc}
use gnu_my_server_gso_c.Text.Hex.{to_int}

unfoldable pub isdigit : ℕ → Bool
isdigit c = leb 48 c && leb c 57

unfoldable pub isspace : ℕ → Bool
isspace c = c == 32 || (leb 9 c && leb c 13)

-- The number of the digits at the front, after those of `n`.
unfoldable pub digits_value : ℕ → List ℕ → ℕ
unfolding isdigit
digits_value n [] = n
digits_value n (c ∷ cs) =
    let more = digits_value (n * 10 + (c - 48)) cs in if isdigit c then more else n

unfoldable pub skip_spaces : List ℕ → List ℕ
unfolding isspace
skip_spaces [] = []
skip_spaces (c ∷ cs) = if isspace c then skip_spaces cs else c ∷ cs

-- A negative number is cast like its two's complement.
unfoldable pub signed_value : List ℕ → ℤ
unfolding digits_value to_int
signed_value [] = pos 0
signed_value (c ∷ cs) =
    if c == 45
    then to_int (2 ^ 64 - min (digits_value 0 cs) (2 ^ 63))
    else if c == 43
    then to_int (min (digits_value 0 cs) (2 ^ 63 - 1))
    else to_int (min (digits_value 0 (c ∷ cs)) (2 ^ 63 - 1))

unfoldable pub atoi : List ℕ → ℤ
unfolding skip_spaces signed_value
atoi s = signed_value (skip_spaces s)

atoi_runs : atoi (32 ∷ 52 ∷ 50 ∷ 59 ∷ []) ≡ pos 42
unfolding atoi
atoi_runs = refl

atoi_negative : atoi (45 ∷ 49 ∷ []) ≡ negsuc 0
unfolding atoi
atoi_negative = refl
