-- ===== src/Text/SecureLaws.antt =====
-- The texts that strlcpy and strlcat leave.
use mathlib.Core.List.{append_assoc}
use gnu_my_server_gso_c.Base.{
  ℕ, zero, suc, ◌+◌, ◌-◌, ◌^◌, ◌≤◌, ◌<◌, List, [], ◌∷◌, ◌++◌, false, ltb, ◌==◌, length, set, take,
  drop, ◌≡◌, refl, sym, ap, ◌∙◌, inl, inr, Bool-cases, length-append, arith,
}
use gnu_my_server_gso_c.Text.Secure.{
  strlen, memcpy, to_copy, kept, strlcpy, room_behind, strlcat, text_in, IsText,
}

-- A 0 behind a text of `k` characters.
text_in-set :
    (k : ℕ) (xs ys : List ℕ)
    → IsText xs
    → k ≤ length xs
    → k < length xs + length ys
    → text_in (set (xs ++ ys) k 0) ≡ take k xs
unfolding text_in
text_in-set zero [] [] t l m = absurd (omega arith)
text_in-set zero [] (y ∷ ys) t l m = refl
text_in-set zero (x ∷ xs) ys t l m = refl
text_in-set (suc k) [] ys t l m = absurd (omega arith)
text_in-set (suc k) (x ∷ xs) ys (other, t) l m =
    rw other (ap (◌∷◌ x) (text_in-set k xs ys t (omega arith) (omega arith)))

IsText-take : (k : ℕ) (xs : List ℕ) → IsText xs → IsText (take k xs)
IsText-take zero xs t = tt
IsText-take (suc k) [] t = tt
IsText-take (suc k) (x ∷ xs) (other, t) = (other, IsText-take k xs t)

length-take_less : (k : ℕ) (xs : List ℕ) → k ≤ length xs → length (take k xs) ≡ k
length-take_less zero xs l = refl
length-take_less (suc k) [] l = absurd (omega arith)
length-take_less (suc k) (x ∷ xs) l = omega (arith, length-take_less k xs (omega arith))

take-take : (k : ℕ) (xs : List ℕ) → take k (take k xs) ≡ take k xs
take-take zero xs = refl
take-take (suc k) [] = refl
take-take (suc k) (x ∷ xs) = ap (◌∷◌ x) (take-take k xs)

length-drop : (k : ℕ) (xs : List ℕ) → length (drop k xs) ≡ length xs - k
length-drop zero xs = omega arith
length-drop (suc k) [] = omega arith
length-drop (suc k) (x ∷ xs) = omega (arith, length-drop k xs)

take_past : (n : ℕ) (xs : List ℕ) → length xs ≤ n → take n xs ≡ xs
take_past zero [] l = refl
take_past zero (x ∷ xs) l = absurd (omega arith)
take_past (suc n) [] l = refl
take_past (suc n) (x ∷ xs) l = ap (◌∷◌ x) (take_past n xs (omega arith))

copied :
    (dst src : List ℕ) (k : ℕ)
    → IsText src
    → k ≤ length src
    → k < length dst
    → text_in (set (memcpy dst 0 (take k src)) k 0) ≡ take k src
unfolding memcpy
copied dst src k t l m =
    let n : length (take k src) ≡ k = length-take_less k src l in
    text_in-set k (take k src) (drop (0 + length (take k src)) dst) (IsText-take k src t)
      (omega arith) (omega (arith, n, length-drop (0 + length (take k src)) dst))
    ∙ take-take k src

to_copy-some : (n size : ℕ) → 0 < n → 0 < size → (to_copy n size == 0) ≡ false
unfolding to_copy
to_copy-some n size l m = ground arith

kept-le : (n size : ℕ) → kept n size ≤ n
unfolding kept to_copy
kept-le n size = ground arith

kept-lt : (n size : ℕ) → 0 < size → kept n size < size
unfolding kept to_copy
kept-lt n size l = ground arith

kept_all : (n size : ℕ) → n < size → kept n size ≡ n
unfolding kept to_copy
kept_all n size l = ground arith

kept_part : (n size : ℕ) → size ≤ n → kept n size ≡ size - 1
unfolding kept to_copy
kept_part n size l = ground arith

take-kept :
    (size : ℕ) (src : List ℕ) → 0 < size → take (kept (length src) size) src ≡ take (size - 1) src
take-kept size src l = elim (Bool-cases (ltb (length src) size)) [
  | inl e ↦
      let less : length src < size = ground (arith, e) in
      ap (λ k. take k src) (kept_all (length src) size less)
      ∙ take_past (length src) src (omega arith)
      ∙ sym (take_past (size - 1) src (omega (arith, less)))
  | inr e ↦ ap (λ k. take k src) (kept_part (length src) size (ground (arith, e)))
]

-- strlcpy into memory of at least the size given leaves the text of as many characters as have room
-- before a 0, and returns the length of the source. The source is not empty.
pub strlcpy_lem :
    (dst src : List ℕ) (size : ℕ)
    → IsText src
    → 0 < length src
    → length src < 2 ^ 32
    → 0 < size
    → size ≤ length dst
    → (text_in (strlcpy dst src size).0 ≡ take (size - 1) src)
      × ((strlcpy dst src size).1 ≡ length src)
unfolding strlcpy
strlcpy_lem dst src size t some_text short some_room fits =
    let k = kept (length src) size in
    let less : k < length dst = omega (arith, kept-lt (length src) size some_room) in
    rw (to_copy-some (length src) size some_text some_room) (
      copied dst src k t (kept-le (length src) size) less ∙ take-kept size src some_room,
      omega arith,
    )

strlen-text : (d rest : List ℕ) → IsText d → strlen (d ++ (0 ∷ rest)) ≡ length d
unfolding strlen
strlen-text [] rest t = refl
strlen-text (c ∷ d) rest (other, t) = rw other (ap suc (strlen-text d rest t))

IsText-append : (xs ys : List ℕ) → IsText xs → IsText ys → IsText (xs ++ ys)
IsText-append [] ys t u = u
IsText-append (x ∷ xs) ys (other, t) u = (other, IsText-append xs ys t u)

take-front : (xs ys : List ℕ) → take (length xs) (xs ++ ys) ≡ xs
take-front [] ys = refl
take-front (x ∷ xs) ys = ap (◌∷◌ x) (take-front xs ys)

room_left : (size m : ℕ) → m < size → size < 2 ^ 32 → room_behind size m ≡ size - m
unfolding room_behind
room_left size m l u = omega arith

-- strlcat of a text that is not empty, into memory that has room for both texts and a 0, leaves only as
-- many characters of the two texts together as the second has.
pub strlcat_short :
    (d rest src : List ℕ) (size : ℕ)
    → IsText d
    → IsText src
    → 0 < length src
    → length d + length src < size
    → size < 2 ^ 32
    → size ≤ length (d ++ (0 ∷ rest))
    → text_in (strlcat (d ++ (0 ∷ rest)) src size).0 ≡ take (length src) (d ++ src)
unfolding strlcat memcpy
strlcat_short d rest src size t u some_text room small fits =
    let m = strlen-text d rest t in
    let left = room_left size (length d) (omega arith) small in
    let all = kept_all (length src) (size - length d) (omega arith) in
    let copies = to_copy-some (length src) (size - length d) some_text (omega arith) in
    let tail = drop (length d + length src) (d ++ (0 ∷ rest)) in
    rw
      (
        m,
        left,
        copies,
        all,
        take_past (length src) src (omega arith),
        take-front d (0 ∷ rest),
        sym (append_assoc d src tail),
      )
      (text_in-set (length src) (d ++ src) tail (IsText-append d src t u)
        (omega (arith, length-append d src))
        (omega (
          arith,
          length-append d src,
          length-drop (length d + length src) (d ++ (0 ∷ rest)),
          fits,
        )))
