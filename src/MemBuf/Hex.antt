-- ===== src/MemBuf/Hex.antt =====
-- hex and hexToData of MemBuf: bytes as hexadecimal text, and back.
use mathlib.Core.List.{append_assoc, append-nil}
use gnu_my_server_gso_c.Base.{
  ℕ, suc, ◌+◌, ◌-◌, ◌*◌, ◌/◌, ◌%◌, ◌^◌, ◌<◌, List, [], ◌∷◌, ◌++◌, Bool, true, false, ◌&&◌, ltb, leb,
  ◌==◌, if◌then◌else◌, length, take, ◌≡◌, refl, sym, ap, ◌∙◌, ==_iff, passes, table_lookup, get_or,
  length-append, arith,
}
use gnu_my_server_gso_c.MemBuf.Buffer.{
  MemBuf, contents, empty_buffer, set_real_length, make_room, fill_room, add_buffer, set_buffer,
}
use gnu_my_server_gso_c.MemBuf.Room.{IsFit, set_real_length-Grown, make_room-Grown}
use gnu_my_server_gso_c.MemBuf.Added.{room_for, add_buffer_lem}

-- `hex_chars`.
unfoldable pub hex_chars : ℕ → ℕ
hex_chars n = if ltb n 10 then 48 + n else 87 + n

unfoldable pub hex_char_to_number : ℕ → ℕ
hex_char_to_number c =
    if leb 48 c && leb c 57
    then c - 48
    else if leb 97 c && leb c 102
    then c - 87
    else if leb 65 c && leb c 70
    then c - 55
    else 0

-- The byte of two characters.
unfoldable pub pair_value : ℕ → ℕ → ℕ
unfolding hex_char_to_number
pair_value a b = (hex_char_to_number a * 16 + hex_char_to_number b) % 2 ^ 8

module _ (allocate : ℕ → List ℕ) where
  unfoldable pub add_char : ℕ → MemBuf → MemBuf
  unfolding add_buffer
  add_char c b = add_buffer allocate (c ∷ []) b

  -- The loop of hex.
  unfoldable pub add_hex : List ℕ → MemBuf → MemBuf
  unfolding add_char hex_chars
  add_hex [] b = b
  add_hex (c ∷ cs) b = add_hex cs (add_char (hex_chars (c % 16)) (add_char (hex_chars (c / 16)) b))

  -- hex: its last assignment is to its argument, and changes nothing in the buffer.
  unfoldable pub hex : List ℕ → MemBuf → MemBuf
  unfolding set_real_length add_hex add_char
  hex bs b = add_char 0 (add_hex bs (set_real_length allocate (length bs * 2 + 1) b))

  -- The loop of hexToData, on an even number of characters.
  unfoldable pub add_pairs : List ℕ → MemBuf → MemBuf
  unfolding add_char pair_value
  add_pairs [] m = m
  add_pairs (a ∷ []) m = m
  add_pairs (a ∷ b ∷ cs) m = add_pairs cs (add_char (pair_value a b) m)

  unfoldable pub hex_to_data : List ℕ → MemBuf
  unfolding set_buffer set_real_length add_pairs empty_buffer
  hex_to_data cs =
      if length cs % 2 == 1
      then set_buffer allocate (0 ∷ []) empty_buffer
      else add_pairs cs
          (set_real_length allocate (length cs / 2) (record empty_buffer { can_delete = false }))

-- "0123456789abcdef"
abbrev pub hex_digits : List ℕ
hex_digits = 48 ∷ 49 ∷ 50 ∷ 51 ∷ 52 ∷ 53 ∷ 54 ∷ 55 ∷ 56 ∷ 57 ∷ 97 ∷ 98 ∷ 99 ∷ 100 ∷ 101 ∷ 102 ∷ []

unfoldable pub hex_digit : ℕ → ℕ
hex_digit n = get_or hex_digits n 0

-- The text of the bytes, two digits for each, the high one first.
unfoldable pub hex_text : List ℕ → List ℕ
hex_text [] = []
hex_text (c ∷ cs) = hex_digit (c / 16) ∷ hex_digit (c % 16) ∷ hex_text cs

abbrev pub AllBytes : List ℕ → Type 0
AllBytes [] = Unit
AllBytes (c ∷ cs) = (c < 256) × AllBytes cs

pair_table : passes (λ c. pair_value (hex_digit (c / 16)) (hex_digit (c % 16)) == c) 256 ≡ true
unfolding passes pair_value hex_digit
pair_table = refl

pair_value-hex_digit : (c : ℕ) → c < 256 → pair_value (hex_digit (c / 16)) (hex_digit (c % 16)) ≡ c
pair_value-hex_digit c l = (==_iff _ c).0 (
    table_lookup (λ c. pair_value (hex_digit (c / 16)) (hex_digit (c % 16)) == c) 256 pair_table c
      l)

chars_table : passes (λ n. hex_chars n == hex_digit n) 16 ≡ true
unfolding passes hex_chars hex_digit
chars_table = refl

hex_chars-hex_digit : (n : ℕ) → n < 16 → hex_chars n ≡ hex_digit n
hex_chars-hex_digit n l =
    (==_iff (hex_chars n) (hex_digit n)).0
      (table_lookup (λ n. hex_chars n == hex_digit n) 16 chars_table n l)

even_hex_text : (bs : List ℕ) → length (hex_text bs) % 2 ≡ 0
unfolding hex_text
even_hex_text [] = refl
even_hex_text (b ∷ bs) = omega (arith, even_hex_text bs)

module _ (allocate : ℕ → List ℕ) (allocated : (n : ℕ) → length (allocate n) ≡ n) where
  -- A well-formed buffer without a limit, with the bytes `xs`.
  record Has (b : MemBuf) (xs : List ℕ) : Type 0 where
    pub fit : IsFit b
    pub limit : b.size_limit ≡ 0
    pub told : contents b ≡ xs

  fill_room_limit : (bs : List ℕ) (b : MemBuf) → (fill_room bs b).size_limit ≡ b.size_limit
  unfolding fill_room
  fill_room_limit bs b = ground arith

  add_char_limit :
      (c : ℕ) (b : MemBuf) → IsFit b → (add_char allocate c b).size_limit ≡ b.size_limit
  unfolding add_char add_buffer
  add_char_limit c b f =
      fill_room_limit (c ∷ []) (make_room allocate (b.size + 1) b)
      ∙ (make_room-Grown allocate allocated (b.size + 1) b f (omega arith)).limit

  take_one : (c : ℕ) (b : MemBuf) → b.size_limit ≡ 0 → take (room_for b 1) (c ∷ []) ≡ c ∷ []
  unfolding room_for
  take_one c b h = rw h refl

  add_char-Has :
      (c : ℕ) (b : MemBuf) (xs : List ℕ) → Has b xs → Has (add_char allocate c b) (xs ++ (c ∷ []))
  unfolding add_char
  add_char-Has c b xs h =
      let (fit, told) = add_buffer_lem allocate allocated (c ∷ []) b h.fit in
      record {
        fit = fit;
        limit = add_char_limit c b h.fit ∙ h.limit;
        told =
            told ∙ ap (◌++◌ (contents b)) (take_one c b h.limit) ∙ ap (λ ys. ys ++ (c ∷ [])) h.told;
      }

  set_real_length-Has :
      (n : ℕ) (b : MemBuf) (xs : List ℕ) → Has b xs → Has (set_real_length allocate n b) xs
  set_real_length-Has n b xs h =
      let g = set_real_length-Grown allocate allocated n b h.fit in
      record { fit = g.fit; limit = g.limit ∙ h.limit; told = g.same ∙ h.told }

  -- Two characters are added.
  add_both :
      (h l : ℕ) (b : MemBuf) (xs cs : List ℕ) (done : MemBuf → MemBuf)
      → Has b xs
      → ((c : MemBuf) (ys : List ℕ) → Has c ys → Has (done c) (ys ++ cs))
      → Has (done (add_char allocate l (add_char allocate h b))) (xs ++ (h ∷ l ∷ cs))
  add_both h l b xs cs done has more =
      let one = add_char-Has h b xs has in
      let two = add_char-Has l (add_char allocate h b) (xs ++ (h ∷ [])) one in
      rw (sym (append_assoc xs (h ∷ []) (l ∷ cs)), sym (append_assoc (xs ++ (h ∷ [])) (l ∷ []) cs))
        (more _ _ two)

  add_hex-Has :
      (bs : List ℕ) (b : MemBuf) (xs : List ℕ)
      → AllBytes bs
      → Has b xs
      → Has (add_hex allocate bs b) (xs ++ hex_text bs)
  unfolding add_hex hex_text
  add_hex-Has [] b xs l h = rw (append-nil xs) h
  add_hex-Has (c ∷ cs) b xs l h =
      rw
        (
          sym (hex_chars-hex_digit (c / 16) (omega (arith, l.0))),
          sym (hex_chars-hex_digit (c % 16) (omega arith)),
        )
        (add_both (hex_chars (c / 16)) (hex_chars (c % 16)) b xs (hex_text cs) (add_hex allocate cs)
          h (λ d ys k. add_hex-Has cs d ys l.1 k))

  add_pairs-Has :
      (bs : List ℕ) (b : MemBuf) (xs : List ℕ)
      → AllBytes bs
      → Has b xs
      → Has (add_pairs allocate (hex_text bs) b) (xs ++ bs)
  unfolding add_pairs hex_text
  add_pairs-Has [] b xs l h = rw (append-nil xs) h
  add_pairs-Has (c ∷ cs) b xs l h =
      let e = pair_value-hex_digit c l.0 in
      rw (e, sym (append_assoc xs (c ∷ []) cs))
        (add_pairs-Has cs (add_char allocate c b) (xs ++ (c ∷ [])) l.1 (add_char-Has c b xs h))

  empty-Has : (v : Bool) → Has (record empty_buffer { can_delete = v }) []
  unfolding empty_buffer contents
  empty-Has v = record {
    fit = record {
      allocated = refl;
      inside = omega arith;
      nothing_at_null = λ h. refl;
      below_limit = refl;
    };
    limit = refl;
    told = refl;
  }

  new_buffer : Has empty_buffer []
  unfolding empty_buffer
  new_buffer = empty-Has true

  told_by_hex :
      (bs : List ℕ) (b : MemBuf) (xs : List ℕ)
      → AllBytes bs
      → Has b xs
      → contents (hex allocate bs b) ≡ xs ++ hex_text bs ++ (0 ∷ [])
  unfolding hex
  told_by_hex bs b xs l h =
      let start = set_real_length-Has (length bs * 2 + 1) b xs h in
      (add_char-Has 0 (add_hex allocate bs (set_real_length allocate (length bs * 2 + 1) b))
        (xs ++ hex_text bs)
        (add_hex-Has bs (set_real_length allocate (length bs * 2 + 1) b) xs l start)).told

  made_of_text : (bs : List ℕ) → AllBytes bs → contents (hex_to_data allocate (hex_text bs)) ≡ bs
  unfolding hex_to_data
  made_of_text bs l =
      let even : (length (hex_text bs) % 2 == 1) ≡ false = ap (λ n. n == 1) (even_hex_text bs) in
      let start =
        set_real_length-Has (length (hex_text bs) / 2) (record empty_buffer { can_delete = false })
          [] (empty-Has false) in
      rw even (add_pairs-Has bs _ [] l start).told

  -- An odd number of characters gives one 0.
  odd_text : (cs : List ℕ) → length cs % 2 ≡ 1 → contents (hex_to_data allocate cs) ≡ 0 ∷ []
  unfolding hex_to_data set_buffer empty_buffer contents
  odd_text cs h = rw (ap (λ n. n == 1) h) refl

  text_part : (bs : List ℕ) → take (length bs * 2) (hex_text bs ++ (0 ∷ [])) ≡ hex_text bs
  unfolding hex_text
  text_part [] = refl
  text_part (b ∷ bs) =
      let two : suc (length bs) * 2 ≡ suc (suc (length bs * 2)) = omega arith in
      rw two (ap (λ t. hex_digit (b / 16) ∷ hex_digit (b % 16) ∷ t) (text_part bs))

  -- hex puts the text of the bytes, and a 0, behind what a well-formed buffer without a limit had. Of
  -- what it puts into a new buffer, hexToData makes the bytes again if the 0 is left away; with the 0,
  -- the number of characters is odd, and hexToData gives a single 0. Memory of n bytes has n bytes.
  pub hex-hex_to_data :
      (bs : List ℕ) (b : MemBuf)
      → AllBytes bs
      → IsFit b
      → b.size_limit ≡ 0
      → (contents (hex allocate bs b) ≡ contents b ++ hex_text bs ++ (0 ∷ []))
        × (contents (
              hex_to_data allocate (take (length bs * 2) (contents (hex allocate bs empty_buffer))))
            ≡ bs)
        × (contents (hex_to_data allocate (contents (hex allocate bs empty_buffer))) ≡ 0 ∷ [])
  hex-hex_to_data bs b l f free =
      let told = told_by_hex bs empty_buffer [] l new_buffer in
      let odd : length (hex_text bs ++ (0 ∷ [])) % 2 ≡ 1 =
        omega (arith, length-append (hex_text bs) (0 ∷ []), even_hex_text bs) in
      (
        told_by_hex bs b (contents b) l (record { fit = f; limit = free; told = refl }),
        rw (told, text_part bs) (made_of_text bs l),
        rw told (odd_text (hex_text bs ++ (0 ∷ [])) odd),
      )
