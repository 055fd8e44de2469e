-- ===== src/Text/BlankLaws.antt =====
-- What trim removes, and what getCharInString and getEndLine find.
use gnu_my_server_gso_c.Base.{
  ℕ, zero, suc, ◌+◌, List, [], ◌∷◌, ◌++◌, Bool, true, false, ◌&&◌, ◌||◌, not, ◌==◌, ◌≡◌, refl, ◌∙◌,
  ap, inl, inr, arith, Bool-cases, length, take,
}
use gnu_my_server_gso_c.Base.Int.{ℤ, pos, negsuc}
use gnu_my_server_gso_c.Text.Blank.{
  has, keep, trim_left, trim_right, trim, blank, scan, scan_max, get_char_in_string, scan_line,
  scan_line_max, get_end_line,
}

-- All the characters of a text are in a set, or none is.
abbrev pub all_in : List ℕ → List ℕ → Bool
all_in t [] = true
all_in t (c ∷ s) = has t c && all_in t s

abbrev pub none_in : List ℕ → List ℕ → Bool
none_in t [] = true
none_in t (c ∷ s) = not (has t c) && none_in t s

trim_left_lem :
    (s t : List ℕ)
    → (front : List ℕ) × (s ≡ front ++ trim_left s t)
      × (all_in t front ≡ true)
      × (trim_left (trim_left s t) t ≡ trim_left s t)
unfolding trim_left
trim_left_lem [] t = ([], refl, refl, refl)
trim_left_lem (c ∷ s) t = elim (Bool-cases (has t c)) [
  | inl in_set ↦
      let (front, e, all, again) = trim_left_lem s t in
      rw in_set (c ∷ front, ap (◌∷◌ c) e, (rw in_set all), again)
  | inr out ↦ rw out ([], refl, refl, (rw out refl))
]

-- What is cut off the end of a text.
Cut : List ℕ → List ℕ → List ℕ → Type 0
Cut t s r = (back : List ℕ) × (s ≡ r ++ back) × (all_in t back ≡ true)

keep-Cut : (t : List ℕ) (c : ℕ) (s r : List ℕ) → Cut t s r → Cut t (c ∷ s) (keep t c r)
unfolding keep Cut
keep-Cut t c s [] (back, e, all) = elim (Bool-cases (has t c)) [
  | inl in_set ↦ rw in_set (c ∷ back, ap (◌∷◌ c) e, (rw in_set all))
  | inr out ↦ rw out (back, ap (◌∷◌ c) e, all)
]
keep-Cut t c s (x ∷ xs) (back, e, all) = (back, ap (◌∷◌ c) e, all)

trim_right-Cut : (s t : List ℕ) → Cut t s (trim_right s t)
unfolding trim_right Cut
trim_right-Cut [] t = ([], refl, refl)
trim_right-Cut (c ∷ s) t = keep-Cut t c s (trim_right s t) (trim_right-Cut s t)

-- The first character, and the last one, are not in a set.
abbrev pub StartsOut : List ℕ → List ℕ → Type 0
StartsOut t [] = Unit
StartsOut t (c ∷ s) = has t c ≡ false

abbrev pub EndsOut : List ℕ → List ℕ → Type 0
EndsOut t [] = Unit
EndsOut t (c ∷ []) = has t c ≡ false
EndsOut t (c ∷ d ∷ s) = EndsOut t (d ∷ s)

trim_left-StartsOut : (s t : List ℕ) → StartsOut t (trim_left s t)
unfolding trim_left
trim_left-StartsOut [] t = tt
trim_left-StartsOut (c ∷ s) t = elim (Bool-cases (has t c)) [
  | inl in_set ↦ rw in_set (trim_left-StartsOut s t)
  | inr out ↦ rw (out, out) refl
]

EndsOut-tail : (t : List ℕ) (c : ℕ) (s : List ℕ) → EndsOut t (c ∷ s) → EndsOut t s
EndsOut-tail t c [] h = tt
EndsOut-tail t c (d ∷ s) h = h

trim_left-EndsOut : (t s b : List ℕ) → EndsOut t s → EndsOut t (trim_left s b)
unfolding trim_left
trim_left-EndsOut t [] b h = tt
trim_left-EndsOut t (c ∷ s) b h = elim (Bool-cases (has b c)) [
  | inl in_set ↦ rw in_set (trim_left-EndsOut t s b (EndsOut-tail t c s h))
  | inr out ↦ rw out h
]

keep-EndsOut : (t : List ℕ) (c : ℕ) (r : List ℕ) → EndsOut t r → EndsOut t (keep t c r)
unfolding keep
keep-EndsOut t c [] h = elim (Bool-cases (has t c)) [
  | inl in_set ↦ rw in_set tt
  | inr out ↦ rw (out, out) refl
]
keep-EndsOut t c (x ∷ xs) h = h

trim_right-EndsOut : (s t : List ℕ) → EndsOut t (trim_right s t)
unfolding trim_right
trim_right-EndsOut [] t = tt
trim_right-EndsOut (c ∷ s) t = keep-EndsOut t c (trim_right s t) (trim_right-EndsOut s t)

-- trim removes blanks from the front and characters of `t` from the back, and nothing else; what is
-- left starts with no blank and ends with no character of `t`.
pub trim_lem :
    (s t : List ℕ)
    → (front back : List ℕ) × (s ≡ front ++ trim s t ++ back)
      × (all_in blank front ≡ true)
      × (all_in t back ≡ true)
      × StartsOut blank (trim s t)
      × EndsOut t (trim s t)
unfolding trim Cut
trim_lem s t =
    let (back, e, all) = trim_right-Cut s t in
    let (front, d, blanks, again) = trim_left_lem (trim_right s t) blank in
    (
      front,
      back,
      e ∙ ap (λ r. r ++ back) d,
      blanks,
      all,
      trim_left-StartsOut (trim_right s t) blank,
      trim_left-EndsOut t (trim_right s t) blank (trim_right-EndsOut s t),
    )

-- The first position at which a text has a character of a set, or that there is none.
pub data First (t s : List ℕ) (r : ℤ) : Type 0 where
  at :
      (before : List ℕ) (c : ℕ) (after : List ℕ)
      → s ≡ before ++ c ∷ after
      → none_in t before ≡ true
      → has t c ≡ true
      → r ≡ pos (length before)
      → First t s r
  nowhere : none_in t s ≡ true → r ≡ negsuc 0 → First t s r

-- The same, counting from a position.
data From (t s : List ℕ) (i : ℕ) (r : ℤ) : Type 0 where
  at_from :
      (before : List ℕ) (c : ℕ) (after : List ℕ)
      → s ≡ before ++ c ∷ after
      → none_in t before ≡ true
      → has t c ≡ true
      → r ≡ pos (i + length before)
      → From t s i r
  nowhere_from : none_in t s ≡ true → r ≡ negsuc 0 → From t s i r

From-suc :
    {t s : List ℕ} {i : ℕ} {r : ℤ} (c : ℕ)
    → has t c ≡ false
    → From t s (i + 1) r
    → From t (c ∷ s) i r
From-suc {i = i} c out (at_from before d after e no_other in_set p) =
    at_from (c ∷ before) d after (ap (◌∷◌ c) e) (rw out no_other) in_set (p ∙ ap pos (omega arith))
From-suc c out (nowhere_from no_other p) = nowhere_from (rw out no_other) p

scan-From : (t s : List ℕ) (i : ℕ) → From t s i (scan s i t)
unfolding scan
scan-From t [] i = nowhere_from refl refl
scan-From t (c ∷ s) i = elim (Bool-cases (has t c)) [
  | inl in_set ↦ rw in_set (at_from [] c s refl refl in_set (ap pos (omega arith)))
  | inr out ↦ rw out (From-suc c out (scan-From t s (i + 1)))
]

scan_max-scan : (t s : List ℕ) (n i : ℕ) → scan_max s n i t ≡ scan (take n s) i t
unfolding scan scan_max
scan_max-scan t s zero i = refl
scan_max-scan t [] (suc n) i = refl
scan_max-scan t (c ∷ s) (suc n) i = rw (scan_max-scan t s n (i + 1)) refl

-- The text that is searched for a limit: all of it for the limit 0.
unfoldable pub limited : ℤ → List ℕ → List ℕ
limited (negsuc n) s = []
limited (pos zero) s = s
limited (pos (suc n)) s = take (suc n) s

get_char-scan : (s t : List ℕ) (max : ℤ) → get_char_in_string s t max ≡ scan (limited max s) 0 t
unfolding get_char_in_string limited scan
get_char-scan s t (negsuc n) = refl
get_char-scan s t (pos zero) = refl
get_char-scan s t (pos (suc n)) = scan_max-scan t s (suc n) 0

-- getCharInString returns the first position, within the limit, of one of the characters, or -1 if
-- there is none.
pub get_char_in_string-First :
    (s t : List ℕ) (max : ℤ) → First t (limited max s) (get_char_in_string s t max)
get_char_in_string-First s t max = first (scan-From t (limited max s) 0)
  where
    first :
        From t (limited max s) 0 (scan (limited max s) 0 t)
        → First t (limited max s) (get_char_in_string s t max)
    first (at_from before c after e no_other in_set p) =
        at before c after e no_other in_set (get_char-scan s t max ∙ p ∙ ap pos (omega arith))
    first (nowhere_from no_other p) = nowhere no_other (get_char-scan s t max ∙ p)

or-false : (b : Bool) → (b || false) ≡ b
or-false true = refl
or-false false = refl

-- The carriage return and the line feed.
abbrev pub line_ends : List ℕ
line_ends = 13 ∷ 10 ∷ []

scan_line-scan : (s : List ℕ) (i : ℕ) → scan_line s i ≡ scan s i line_ends
unfolding scan_line scan has
scan_line-scan [] i = refl
scan_line-scan (c ∷ s) i = rw (scan_line-scan s (i + 1), or-false (c == 10)) refl

scan_line_max-scan_max : (s : List ℕ) (n i : ℕ) → scan_line_max s n i ≡ scan_max s n i line_ends
unfolding scan_line_max scan_max has
scan_line_max-scan_max s zero i = refl
scan_line_max-scan_max [] (suc n) i = refl
scan_line_max-scan_max (c ∷ s) (suc n) i =
    rw (scan_line_max-scan_max s n (i + 1), or-false (c == 10)) refl

-- getEndLine is getCharInString for the characters carriage return and line feed.
pub get_end_line-get_char_in_string :
    (s : List ℕ) (max : ℤ) → get_end_line s max ≡ get_char_in_string s line_ends max
unfolding get_end_line get_char_in_string
get_end_line-get_char_in_string s (negsuc n) = refl
get_end_line-get_char_in_string s (pos zero) = scan_line-scan s 0
get_end_line-get_char_in_string s (pos (suc n)) = scan_line_max-scan_max s (suc n) 0
