-- ===== src/Url/Find.antt =====
-- Searches and parts in a text that is made of parts.
use gnu_my_server_gso_c.Base.{
  ℕ, zero, suc, ◌+◌, List, [], ◌∷◌, ◌++◌, true, false, Option, none, some, ltb, ◌==◌, length, take,
  drop, ◌≡◌, refl, sym, ap, ◌∙◌, arith,
}
use gnu_my_server_gso_c.Url.Parser.{place_of, shifted, find_at, starts_scheme, find_scheme, part}

abbrev pub Absent : ℕ → List ℕ → Type 0
Absent c [] = Unit
Absent c (x ∷ xs) = ((x == c) ≡ false) × Absent c xs

shifted-shifted : (m n : ℕ) (o : Option ℕ) → shifted m (shifted n o) ≡ shifted (m + n) o
unfolding shifted
shifted-shifted m n none = refl
shifted-shifted m n (some i) = ap some (omega arith)

shifted_zero : (o : Option ℕ) → shifted 0 o ≡ o
unfolding shifted
shifted_zero none = refl
shifted_zero (some i) = ap some (omega arith)

pub place_of-append :
    (c : ℕ) (xs ys : List ℕ)
    → Absent c xs
    → place_of c (xs ++ ys) ≡ shifted (length xs) (place_of c ys)
unfolding place_of
place_of-append c [] ys a = sym (shifted_zero (place_of c ys))
place_of-append c (x ∷ xs) ys (other, a) = rw other (
    ap (shifted 1) (place_of-append c xs ys a)
    ∙ shifted-shifted 1 (length xs) (place_of c ys)
    ∙ ap (λ n. shifted n (place_of c ys)) (omega arith))

drop_nil : (n : ℕ) → drop {A = ℕ} n [] ≡ []
drop_nil zero = refl
drop_nil (suc n) = refl

drop-drop : (m n : ℕ) (xs : List ℕ) → drop (m + n) xs ≡ drop n (drop m xs)
drop-drop zero n xs = ap (λ k. drop k xs) (omega arith)
drop-drop (suc m) n [] = drop_nil (suc m + n) ∙ sym (drop_nil n)
drop-drop (suc m) n (x ∷ xs) =
    let e : suc m + n ≡ suc (m + n) = omega arith in ap (λ k. drop k (x ∷ xs)) e ∙ drop-drop m n xs

drop-append : (xs ys : List ℕ) → drop (length xs) (xs ++ ys) ≡ ys
drop-append [] ys = refl
drop-append (x ∷ xs) ys = drop-append xs ys

pub take-append_all : (xs ys : List ℕ) → take (length xs) (xs ++ ys) ≡ xs
take-append_all [] ys = refl
take-append_all (x ∷ xs) ys = ap (◌∷◌ x) (take-append_all xs ys)

-- A text `s` that has `mid` at the position `n`, and behind it `suf`.
module _ (s : List ℕ) (n : ℕ) (mid suf : List ℕ) (at_n : drop n s ≡ mid ++ suf) where
  pub drop_behind : drop (n + length mid) s ≡ suf
  drop_behind = drop-drop n (length mid) s ∙ ap (drop (length mid)) at_n ∙ drop-append mid suf

  pub find_behind : (c : ℕ) → Absent c mid → find_at c n s ≡ find_at c (n + length mid) s
  unfolding find_at
  find_behind c a =
      ap (λ t. shifted n (place_of c t)) at_n
      ∙ ap (shifted n) (place_of-append c mid suf a)
      ∙ shifted-shifted n (length mid) (place_of c suf)
      ∙ ap (λ t. shifted (n + length mid) (place_of c t)) (sym drop_behind)

  pub part_here : part s n (some (n + length mid)) ≡ mid
  unfolding part
  part_here =
      let e : ltb (n + length mid) n ≡ false = ground arith in
      rw (e, at_n) (ap (λ k. take k (mid ++ suf)) (omega arith) ∙ take-append_all mid suf)

pub find_here : (s : List ℕ) (n c : ℕ) (suf : List ℕ) → drop n s ≡ c ∷ suf → find_at c n s ≡ some n
unfolding find_at place_of shifted
find_here s n c suf h = let e : (c == c) ≡ true = ground arith in rw (h, e) (ap some (omega arith))

place_of-nowhere : (c : ℕ) (t : List ℕ) → Absent c t → place_of c t ≡ none
unfolding place_of shifted
place_of-nowhere c [] a = refl
place_of-nowhere c (x ∷ xs) (other, a) = rw (other, place_of-nowhere c xs a) refl

pub find_nowhere : (s : List ℕ) (n c : ℕ) → Absent c (drop n s) → find_at c n s ≡ none
unfolding find_at shifted
find_nowhere s n c a = ap (shifted n) (place_of-nowhere c (drop n s) a)

one_more : (n : ℕ) → shifted 1 (some n) ≡ some (suc n)
unfolding shifted
one_more n = ap some (omega arith)

pub drop_one : (s : List ℕ) (n c : ℕ) (suf : List ℕ) → drop n s ≡ c ∷ suf → drop (n + 1) s ≡ suf
drop_one s n c suf h = drop-drop n 1 s ∙ ap (drop 1) h

find_scheme-cons :
    (x : ℕ) (t : List ℕ) → (x == 58) ≡ false → find_scheme (x ∷ t) ≡ shifted 1 (find_scheme t)
unfolding find_scheme starts_scheme
find_scheme-cons x [] h = refl
find_scheme-cons x (y ∷ []) h = refl
find_scheme-cons x (y ∷ z ∷ t) h = rw h refl

-- The first "://" behind a text without colons.
pub find_scheme_here :
    (p suf : List ℕ) → Absent 58 p → find_scheme (p ++ (58 ∷ 47 ∷ 47 ∷ suf)) ≡ some (length p)
unfolding find_scheme starts_scheme
find_scheme_here [] suf a = refl
find_scheme_here (x ∷ p) suf (other, a) =
    find_scheme-cons x (p ++ (58 ∷ 47 ∷ 47 ∷ suf)) other
    ∙ ap (shifted 1) (find_scheme_here p suf a)
    ∙ one_more (length p)

pub Absent-append : (c : ℕ) (xs ys : List ℕ) → Absent c xs → Absent c ys → Absent c (xs ++ ys)
Absent-append c [] ys a b = b
Absent-append c (x ∷ xs) ys (other, a) b = (other, Absent-append c xs ys a b)

pub drop_scheme :
    (p : List ℕ) (a b c : ℕ) (rest : List ℕ) → drop (length p + 3) (p ++ (a ∷ b ∷ c ∷ rest)) ≡ rest
drop_scheme [] a b c rest = refl
drop_scheme (x ∷ p) a b c rest =
    let e : suc (length p) + 3 ≡ suc (length p + 3) = omega arith in
    ap (λ k. drop k (x ∷ (p ++ (a ∷ b ∷ c ∷ rest)))) e ∙ drop_scheme p a b c rest
