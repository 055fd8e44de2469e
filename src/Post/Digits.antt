-- ===== src/Post/Digits.antt =====
-- The size of a chunk as text, and its value.
use native.Mathlib.Nat.{pow-suc}
use gnu_my_server_gso_c.Base.{
  ℕ, zero, suc, ◌+◌, ◌*◌, ◌/◌, ◌%◌, ◌^◌, ◌≤◌, ◌<◌, List, [], ◌∷◌, true, false, ◌==◌, length, ◌≡◌,
  refl, ap, ◌∙◌, inl, inr, Bool-cases, ==_iff, arith,
}
use gnu_my_server_gso_c.Text.Hex.{hex_val, isxdigit, hex_to_int}
use gnu_my_server_gso_c.Text.HexLaws.{hex_value, all_digits, hex_to_int_lem}
use gnu_my_server_gso_c.Post.Chunked.{until_nul, to_ulong}
use gnu_my_server_gso_c.Post.Writer.{hex_char, hex_digits}

hex_char_lem : (n : ℕ) → n < 16 → (isxdigit (hex_char n) ≡ true) × (hex_val (hex_char n) ≡ n)
unfolding hex_char isxdigit hex_val
hex_char_lem n l = ground arith

one_digit : (n : ℕ) → n < 16 → 0 * 16 + hex_val (hex_char n) ≡ n
one_digit n l = omega (arith, (hex_char_lem n l).1)

hex_value-hex_digits :
    (k n : ℕ) (acc : List ℕ)
    → n < 16 ^ suc k
    → hex_value 0 (hex_digits (suc k) n acc) ≡ hex_value n acc
unfolding hex_digits hex_value
hex_value-hex_digits zero n acc l =
    let e : (n / 16 == 0) ≡ true = (==_iff (n / 16) 0).1 (omega arith) in
    rw e (ap (λ v. hex_value v acc) (one_digit n (omega arith)))
hex_value-hex_digits (suc k) n acc l = elim (Bool-cases (n / 16 == 0)) [
  | inl e ↦
      let z : n / 16 ≡ 0 = (==_iff (n / 16) 0).0 e in
      rw e (ap (λ v. hex_value v acc) (one_digit n (omega arith)))
  | inr e ↦
      let m : n / 16 < 16 ^ suc k = omega (arith, pow-suc 16 (suc k)) in
      let v : n / 16 * 16 + hex_val (hex_char (n % 16)) ≡ n =
        omega (arith, (hex_char_lem (n % 16) (omega arith)).1) in
      rw e
        (hex_value-hex_digits k (n / 16) (hex_char (n % 16) ∷ acc) m ∙ ap (λ u. hex_value u acc) v)
]

all_digits-hex_digits :
    (k n : ℕ) (acc : List ℕ) → all_digits acc ≡ true → all_digits (hex_digits k n acc) ≡ true
unfolding hex_digits all_digits
all_digits-hex_digits zero n acc h = h
all_digits-hex_digits (suc k) n acc h = elim (Bool-cases (n / 16 == 0)) [
  | inl e ↦
      let z : n / 16 ≡ 0 = (==_iff (n / 16) 0).0 e in rw (e, (hex_char_lem n (omega arith)).0) h
  | inr e ↦ rw e (
      all_digits-hex_digits k (n / 16) (hex_char (n % 16) ∷ acc)
        (rw (hex_char_lem (n % 16) (omega arith)).0 h))
]

length-hex_digits : (k n : ℕ) (acc : List ℕ) → length (hex_digits k n acc) ≤ k + length acc
unfolding hex_digits
length-hex_digits zero n acc = omega arith
length-hex_digits (suc k) n acc =
    let ih = length-hex_digits k (n / 16) (hex_char (n % 16) ∷ acc) in ground (arith, ih)

-- A digit is neither the end of a line nor of a string.
pub plain_digit : (c : ℕ) → isxdigit c ≡ true → ((c == 13) ≡ false) × ((c == 0) ≡ false)
unfolding isxdigit
plain_digit c h = ground (arith, h)

until_nul-digits : (ds : List ℕ) → all_digits ds ≡ true → until_nul ds ≡ ds
unfolding until_nul all_digits
until_nul-digits [] h = refl
until_nul-digits (d ∷ ds) h =
    rw (plain_digit d (ground arith)).1 (ap (◌∷◌ d) (until_nul-digits ds (ground arith)))

no_digits : all_digits [] ≡ true
unfolding all_digits
no_digits = refl

value_of_none : (n : ℕ) → hex_value n [] ≡ n
unfolding hex_value
value_of_none n = refl

pub record IsSize (ds : List ℕ) (n : ℕ) : Type 0 where
  pub digits : all_digits ds ≡ true
  pub short : length ds ≤ 19
  pub value : to_ulong (hex_to_int (until_nul ds)) ≡ n

pub hex_digits-IsSize : (n : ℕ) → n < 2 ^ 31 → IsSize (hex_digits 16 n []) n
unfolding to_ulong
hex_digits-IsSize n l =
    let good = all_digits-hex_digits 16 n [] no_digits in
    let v = hex_value-hex_digits 15 n [] (omega arith) ∙ value_of_none n in
    record {
      digits = good;
      short = omega (arith, length-hex_digits 16 n []);
      value =
          rw
            (
              until_nul-digits (hex_digits 16 n []) good,
              (hex_to_int_lem (hex_digits 16 n [])).0 good (rw v l),
            )
            v;
    }
