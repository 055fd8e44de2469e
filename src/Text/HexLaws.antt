-- ===== src/Text/HexLaws.antt =====
-- Hexadecimal text against its value, and escapes against their encoding.
use mathlib.Core.Bool.{false≢true}
use gnu_my_server_gso_c.Base.{
  ℕ, ◌+◌, ◌*◌, ◌/◌, ◌%◌, ◌^◌, ◌≤◌, ◌<◌, List, [], ◌∷◌, Bool, true, false, ◌&&◌, ltb, leb, ◌==◌,
  if◌then◌else◌, ◌≡◌, refl, sym, ◌∙◌, ap, inl, inr, arith, Bool-cases, passes, table_lookup, ==_iff,
  lt→ltb,
}
use gnu_my_server_gso_c.Base.Int.{pos}
use gnu_my_server_gso_c.Text.Hex.{
  hex_val, isxdigit, digit_of, hex_loop, to_int, hex_to_int, unescape, translate_escape_string,
}

-- The number that hexadecimal digits stand for, after the digits of `u`.
unfoldable pub hex_value : ℕ → List ℕ → ℕ
hex_value u [] = u
hex_value u (c ∷ cs) = hex_value (u * 16 + hex_val c) cs

unfoldable pub all_digits : List ℕ → Bool
all_digits [] = true
all_digits (c ∷ cs) = isxdigit c && all_digits cs

digit_of_lem : (c : ℕ) → isxdigit c ≡ true → (digit_of c ≡ hex_val c) × (hex_val c < 16)
unfolding isxdigit digit_of hex_val
digit_of_lem c h = ground arith

le-hex_value : (u : ℕ) (cs : List ℕ) → u ≤ hex_value u cs
unfolding hex_value
le-hex_value u [] = omega arith
le-hex_value u (c ∷ cs) = omega (arith, le-hex_value (u * 16 + hex_val c) cs)

leb-false : (a b : ℕ) → leb a b ≡ false → b < a
leb-false a b h = ground arith

nothing : (b : Bool) (n : ℕ) → 0 ≡ (if b && false then n else 0)
nothing true n = refl
nothing false n = refl

hex_loop_lem :
    (cs : List ℕ) (u : ℕ)
    → u < 2 ^ 32
    → hex_loop u cs ≡ (if all_digits cs && ltb (hex_value u cs) (2 ^ 32) then hex_value u cs else 0)
unfolding hex_loop all_digits hex_value
hex_loop_lem [] u h = ground (arith, h)
hex_loop_lem (c ∷ cs) u h = elim (Bool-cases (isxdigit c)) [
  | inr bad ↦ rw bad refl
  | inl good ↦
      let (same, small) = digit_of_lem c good in
      elim (Bool-cases (leb 0x10000000 u)) [
        | inl large ↦
            let over : ltb (hex_value (u * 16 + hex_val c) cs) (2 ^ 32) ≡ false =
              ground (arith, le-hex_value (u * 16 + hex_val c) cs) in
            rw (good, large, over) (nothing (all_digits cs) (hex_value (u * 16 + hex_val c) cs))
        | inr room ↦
            let e : u * 16 % 2 ^ 64 + digit_of c ≡ u * 16 + hex_val c =
              omega (arith, same, leb-false 0x10000000 u room) in
            rw (good, room, e)
              (hex_loop_lem cs (u * 16 + hex_val c)
                (omega (arith, small, leb-false 0x10000000 u room)))
      ]
]

hex_to_int-to_int : (s : List ℕ) → hex_to_int s ≡ to_int (hex_loop 0 s)
unfolding hex_to_int hex_loop to_int
hex_to_int-to_int [] = refl
hex_to_int-to_int (c ∷ cs) = refl

small_to_int : (u : ℕ) → u < 2 ^ 31 → to_int u ≡ pos u
unfolding to_int
small_to_int u l = let e : u % 2 ^ 32 ≡ u = omega arith in rw (e, lt→ltb u (2 ^ 31) l) refl

-- A byte written as two hexadecimal digits, in capitals.
unfoldable pub hex_digit : ℕ → ℕ
hex_digit n = if ltb n 10 then 48 + n else 55 + n

-- The escapes of a text: each byte that `test` names is written as % and two digits.
unfoldable pub escape : (ℕ → Bool) → List ℕ → List ℕ
unfolding hex_digit
escape test [] = []
escape test (c ∷ cs) =
    let rest = escape test cs in
    if test c then 37 ∷ hex_digit (c / 16) ∷ hex_digit (c % 16) ∷ rest else c ∷ rest

byte_table : passes (λ c. unescape (hex_digit (c / 16)) (hex_digit (c % 16)) == c) 256 ≡ true
unfolding passes unescape hex_val hex_digit
byte_table = refl

abbrev pub all_below_256 : List ℕ → Bool
all_below_256 [] = true
all_below_256 (c ∷ cs) = ltb c 256 && all_below_256 cs

plain_step :
    (c : ℕ) (s : List ℕ)
    → (c == 37) ≡ false
    → translate_escape_string (c ∷ s) ≡ c ∷ translate_escape_string s
unfolding translate_escape_string
plain_step c [] h = refl
plain_step c (a ∷ []) h = refl
plain_step c (a ∷ b ∷ s) h = rw h refl

coded_step :
    (c : ℕ) (s : List ℕ)
    → c < 256
    → translate_escape_string (37 ∷ hex_digit (c / 16) ∷ hex_digit (c % 16) ∷ s)
      ≡ c ∷ translate_escape_string s
unfolding translate_escape_string
coded_step c s l =
    let e : unescape (hex_digit (c / 16)) (hex_digit (c % 16)) ≡ c = (==_iff _ c).0 (
      table_lookup (λ c. unescape (hex_digit (c / 16)) (hex_digit (c % 16)) == c) 256 byte_table c
        l) in
    ap (λ x. x ∷ translate_escape_string s) e

empty_text : translate_escape_string [] ≡ []
unfolding translate_escape_string
empty_text = refl

-- translateEscapeString undoes the escapes of any text of bytes, if the escaped bytes are at least
-- the percent signs.
pub translate-escape :
    (test : ℕ → Bool) (s : List ℕ)
    → test 37 ≡ true
    → all_below_256 s ≡ true
    → translate_escape_string (escape test s) ≡ s
unfolding escape
translate-escape test [] percent bytes = empty_text
translate-escape test (c ∷ cs) percent bytes =
    let ih = translate-escape test cs percent (ground arith) in
    elim (Bool-cases (test c)) [
      | inl coded ↦ rw coded (coded_step c (escape test cs) (ground arith) ∙ ap (◌∷◌ c) ih)
      | inr plain ↦ rw plain (plain_step c (escape test cs) (other plain) ∙ ap (◌∷◌ c) ih)
    ]
  where
    other : test c ≡ false → (c == 37) ≡ false
    other plain = elim (Bool-cases (c == 37)) [
      | inr no_percent ↦ no_percent
      | inl is_percent ↦
          let e : c ≡ 37 = (==_iff c 37).0 is_percent in
          absurd (false≢true (sym plain ∙ ap test e ∙ percent))
    ]

-- hexToInt gives the value of a text of hexadecimal digits if the value is below 2 ^ 31, and 0 for a
-- text with another byte or with a value of 2 ^ 32 or more.
pub hex_to_int_lem :
    (s : List ℕ)
    → (all_digits s ≡ true → hex_value 0 s < 2 ^ 31 → hex_to_int s ≡ pos (hex_value 0 s))
      × (all_digits s ≡ false → hex_to_int s ≡ pos 0)
      × (2 ^ 32 ≤ hex_value 0 s → hex_to_int s ≡ pos 0)
hex_to_int_lem s = (
  (λ good l.
      let e : hex_loop 0 s ≡ hex_value 0 s =
        loop s ∙ (rw (good, lt→ltb (hex_value 0 s) (2 ^ 32) (omega (arith, l))) refl) in
      hex_to_int-to_int s ∙ ap to_int e ∙ small_to_int (hex_value 0 s) l),
  (λ bad. hex_to_int-to_int s ∙ ap to_int (loop s ∙ (rw bad refl)) ∙ small_to_int 0 (omega arith)),
  λ l.
      let over : ltb (hex_value 0 s) (2 ^ 32) ≡ false = ground arith in
      let e : hex_loop 0 s ≡ 0 =
        loop s ∙ (rw over (sym (nothing (all_digits s) (hex_value 0 s)))) in
      hex_to_int-to_int s ∙ ap to_int e ∙ small_to_int 0 (omega arith),
)
  where
    loop :
        (s : List ℕ)
        → hex_loop 0 s ≡ (if all_digits s && ltb (hex_value 0 s) (2 ^ 32) then hex_value 0 s else 0)
    loop s = hex_loop_lem s 0 (omega arith)
