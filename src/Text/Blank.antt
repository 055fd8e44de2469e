-- ===== src/Text/Blank.antt =====
-- trimLeft, trimRight, trim, getCharInString and getEndLine of stringutils.cpp.
use gnu_my_server_gso_c.Base.{
  ℕ, zero, suc, ◌+◌, List, [], ◌∷◌, Bool, false, ◌||◌, ◌==◌, if◌then◌else◌,
}
use gnu_my_server_gso_c.Base.Int.{ℤ, pos, negsuc}

-- Whether a set of characters has a character.
unfoldable pub has : List ℕ → ℕ → Bool
has [] c = false
has (x ∷ t) c = (c == x) || has t c

-- `str.erase (0, s.find_first_not_of (t))`: with no such character, all of the string goes.
unfoldable pub trim_left : List ℕ → List ℕ → List ℕ
unfolding has
trim_left [] t = []
trim_left (c ∷ s) t = let rest = trim_left s t in if has t c then rest else c ∷ s

-- A character before what is left of the rest.
unfoldable pub keep : List ℕ → ℕ → List ℕ → List ℕ
unfolding has
keep t c [] = if has t c then [] else c ∷ []
keep t c (x ∷ xs) = c ∷ x ∷ xs

-- `str.erase (str.find_last_not_of (t) + 1)`.
unfoldable pub trim_right : List ℕ → List ℕ → List ℕ
unfolding keep
trim_right [] t = []
trim_right (c ∷ s) t = keep t c (trim_right s t)

-- The default argument of trimLeft.
abbrev pub blank : List ℕ
blank = 32 ∷ []

-- trimLeft gets its default argument, not `t`.
unfoldable pub trim : List ℕ → List ℕ → List ℕ
trim s t = trim_left (trim_right s t) blank

-- The loop of getCharInString without a limit, and with `n` rounds left.
unfoldable pub scan : List ℕ → ℕ → List ℕ → ℤ
unfolding has
scan [] i characters = negsuc 0
scan (c ∷ s) i characters =
    let rest = scan s (i + 1) characters in if has characters c then pos i else rest

unfoldable pub scan_max : List ℕ → ℕ → ℕ → List ℕ → ℤ
unfolding has
scan_max s zero i characters = negsuc 0
scan_max [] (suc n) i characters = negsuc 0
scan_max (c ∷ s) (suc n) i characters =
    let rest = scan_max s n (i + 1) characters in if has characters c then pos i else rest

unfoldable pub get_char_in_string : List ℕ → List ℕ → ℤ → ℤ
unfolding scan scan_max
get_char_in_string str characters (negsuc n) = negsuc 0
get_char_in_string str characters (pos zero) = scan str 0 characters
get_char_in_string str characters (pos (suc n)) = scan_max str (suc n) 0 characters

-- The loops of getEndLine.
unfoldable pub scan_line : List ℕ → ℕ → ℤ
scan_line [] i = negsuc 0
scan_line (c ∷ s) i =
    let rest = scan_line s (i + 1) in if (c == 13) || (c == 10) then pos i else rest

unfoldable pub scan_line_max : List ℕ → ℕ → ℕ → ℤ
scan_line_max s zero i = negsuc 0
scan_line_max [] (suc n) i = negsuc 0
scan_line_max (c ∷ s) (suc n) i =
    let rest = scan_line_max s n (i + 1) in if (c == 13) || (c == 10) then pos i else rest

unfoldable pub get_end_line : List ℕ → ℤ → ℤ
unfolding scan_line scan_line_max
get_end_line str (negsuc n) = negsuc 0
get_end_line str (pos zero) = scan_line str 0
get_end_line str (pos (suc n)) = scan_line_max str (suc n) 0
