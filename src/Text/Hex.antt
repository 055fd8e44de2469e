-- ===== src/Text/Hex.antt =====
-- hexVal, hexToInt and translateEscapeString (char*) of stringutils.cpp. A C string is the list of
-- its bytes before the terminating 0. A byte of 128 or more is a negative `char`; it is in none of
-- the ranges tested, as here.
use gnu_my_server_gso_c.Base.{
  ℕ, ◌+◌, ◌-◌, ◌*◌, ◌%◌, ◌^◌, List, [], ◌∷◌, Bool, not, ◌&&◌, ◌||◌, ltb, leb, ◌==◌, if◌then◌else◌,
}
use gnu_my_server_gso_c.Base.Int.{ℤ, pos, negsuc}

unfoldable pub hex_val : ℕ → ℕ
hex_val ch =
    if leb 48 ch && leb ch 57
    then ch - 48
    else if leb 97 ch && leb ch 102
    then ch - 97 + 10
    else if leb 65 ch && leb ch 70
    then ch - 65 + 10
    else 0

-- `isxdigit`
unfoldable pub isxdigit : ℕ → Bool
isxdigit ch = (leb 48 ch && leb ch 57) || (leb 97 ch && leb ch 102) || (leb 65 ch && leb ch 70)

-- What the loop of hexToInt adds for a digit.
unfoldable pub digit_of : ℕ → ℕ
digit_of ch = if leb ch 57 then ch - 48 else if leb 97 ch then ch - 97 + 10 else ch - 65 + 10

-- The loop of hexToInt, with u_long of 64 bits.
unfoldable pub hex_loop : ℕ → List ℕ → ℕ
unfolding isxdigit digit_of
hex_loop u [] = u
hex_loop u (c ∷ cs) =
    let rest = hex_loop (u * 16 % 2 ^ 64 + digit_of c) cs in
    if not (isxdigit c) then 0 else if leb 0x10000000 u then 0 else rest

-- The conversion from u_long to a 32-bit int.
unfoldable pub to_int : ℕ → ℤ
to_int u = let r = u % 2 ^ 32 in if ltb r (2 ^ 31) then pos r else negsuc (2 ^ 32 - 1 - r)

unfoldable pub hex_to_int : List ℕ → ℤ
unfolding hex_loop to_int
hex_to_int [] = pos 0
hex_to_int (c ∷ cs) = to_int (hex_loop 0 (c ∷ cs))

-- The byte that `(char) (16 * hexVal (a) + hexVal (b))` stores.
unfoldable pub unescape : ℕ → ℕ → ℕ
unfolding hex_val
unescape a b = (16 * hex_val a + hex_val b) % 2 ^ 8

-- translateEscapeString: the bytes written, which overwrite the string from its start; the write
-- position never passes the read position.
unfoldable pub translate_escape_string : List ℕ → List ℕ
unfolding unescape
translate_escape_string [] = []
translate_escape_string (c ∷ []) = c ∷ []
translate_escape_string (c ∷ a ∷ []) = c ∷ a ∷ []
translate_escape_string (c ∷ a ∷ b ∷ s) =
    let decoded = translate_escape_string s in
    let plain = translate_escape_string (a ∷ b ∷ s) in
    if c == 37 then unescape a b ∷ decoded else c ∷ plain
