-- ===== src/Text/Tests.antt =====
-- Runs of the functions on text.
use gnu_my_server_gso_c.Text.Secure.{strlcpy, strlcat, text_in}
use gnu_my_server_gso_c.Text.SecureLaws.{strlcpy_lem, strlcat_short}
use gnu_my_server_gso_c.Base.{
  ℕ, ◌^◌, take, arith, ◌≤◌, ◌<◌, List, [], ◌∷◌, ◌++◌, true, false, ◌≡◌, refl, ◌==◌, ◌||◌,
}
use gnu_my_server_gso_c.Base.Int.{pos, negsuc}
use gnu_my_server_gso_c.Text.Hex.{
  hex_to_int, translate_escape_string, isxdigit, hex_loop, digit_of, to_int,
}
use gnu_my_server_gso_c.Text.HexLaws.{
  hex_value, all_digits, escape, translate-escape, hex_to_int_lem,
}
use gnu_my_server_gso_c.Text.Blank.{trim, blank, get_char_in_string}
use gnu_my_server_gso_c.Text.BlankLaws.{
  all_in, StartsOut, EndsOut, trim_lem, First, limited, get_char_in_string-First,
}

-- "1aF"
abbrev number : List ℕ
number = 49 ∷ 97 ∷ 70 ∷ []

hex_to_int_example :
    (all_digits number ≡ true
      → hex_value 0 number < 2 ^ 31
      → hex_to_int number ≡ pos (hex_value 0 number))
    × (all_digits number ≡ false → hex_to_int number ≡ pos 0)
    × (2 ^ 32 ≤ hex_value 0 number → hex_to_int number ≡ pos 0)
hex_to_int_example = hex_to_int_lem number

number_value : hex_to_int number ≡ pos 431
unfolding hex_to_int hex_loop isxdigit digit_of to_int
number_value = refl

-- Eight digits with the highest bit set come out negative.
large_number : hex_to_int (102 ∷ 102 ∷ 102 ∷ 102 ∷ 102 ∷ 102 ∷ 102 ∷ 102 ∷ []) ≡ negsuc 0
unfolding hex_to_int hex_loop isxdigit digit_of to_int
large_number = refl

-- "a b%", with the blank and the percent sign escaped.
escape_example :
    translate_escape_string (escape (λ c. (c == 32) || (c == 37)) (97 ∷ 32 ∷ 98 ∷ 37 ∷ []))
    ≡ 97 ∷ 32 ∷ 98 ∷ 37 ∷ []
escape_example = translate-escape (λ c. (c == 32) || (c == 37)) (97 ∷ 32 ∷ 98 ∷ 37 ∷ []) refl refl

trim_example :
    (front back : List ℕ) × (32 ∷ 97 ∷ 32 ∷ [] ≡ front ++ trim (32 ∷ 97 ∷ 32 ∷ []) blank ++ back)
    × (all_in blank front ≡ true)
    × (all_in blank back ≡ true)
    × StartsOut blank (trim (32 ∷ 97 ∷ 32 ∷ []) blank)
    × EndsOut blank (trim (32 ∷ 97 ∷ 32 ∷ []) blank)
trim_example = trim_lem (32 ∷ 97 ∷ 32 ∷ []) blank

get_char_in_string_example :
    First
      (58 ∷ [])
      (limited (pos 0) (97 ∷ 58 ∷ []))
      (get_char_in_string (97 ∷ 58 ∷ []) (58 ∷ []) (pos 0))
get_char_in_string_example = get_char_in_string-First (97 ∷ 58 ∷ []) (58 ∷ []) (pos 0)

-- "abc" into four bytes of which three may be used.
strlcpy_example :
    (text_in (strlcpy (9 ∷ 9 ∷ 9 ∷ 9 ∷ []) (97 ∷ 98 ∷ 99 ∷ []) 3).0 ≡ take 2 (97 ∷ 98 ∷ 99 ∷ []))
    × ((strlcpy (9 ∷ 9 ∷ 9 ∷ 9 ∷ []) (97 ∷ 98 ∷ 99 ∷ []) 3).1 ≡ 3)
strlcpy_example =
    strlcpy_lem (9 ∷ 9 ∷ 9 ∷ 9 ∷ []) (97 ∷ 98 ∷ 99 ∷ []) 3 (refl, (refl, (refl, tt))) (omega arith)
      (omega arith) (omega arith) (omega arith)

-- "c" behind "ab" leaves "a".
strlcat_short_example :
    text_in (strlcat ((97 ∷ 98 ∷ []) ++ (0 ∷ 9 ∷ [])) (99 ∷ []) 4).0
    ≡ take 1 ((97 ∷ 98 ∷ []) ++ (99 ∷ []))
strlcat_short_example =
    strlcat_short (97 ∷ 98 ∷ []) (9 ∷ []) (99 ∷ []) 4 (refl, (refl, tt)) (refl, tt) (omega arith)
      (omega arith) (omega arith) (omega arith)

-- An empty text leaves the memory without a 0.
strlcpy_empty : (strlcpy (9 ∷ 9 ∷ []) [] 2).0 ≡ 9 ∷ 9 ∷ []
unfolding strlcpy
strlcpy_empty = refl
