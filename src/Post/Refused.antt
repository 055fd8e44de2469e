-- ===== src/Post/Refused.antt =====
-- Which requests readPostData refuses.
use gnu_my_server_gso_c.Base.{
  ℕ, zero, suc, List, [], Bool, true, false, ◌||◌, Option, none, some, ◌==◌, if◌then◌else◌, length,
  ◌≡◌, ◌↔◌, refl, sym, ap, ◌∙◌, ◌∷◌, ◌&&◌, not, ==_iff, arith, inl, inr, Bool-cases,
}
use gnu_my_server_gso_c.Base.Int.{ℤ, pos, negsuc}
use gnu_my_server_gso_c.Text.Decimal.{atoi}
use gnu_my_server_gso_c.Post.Streams.{Stream}
use gnu_my_server_gso_c.Post.Reader.{Reader, Got, read_contiguous}
use gnu_my_server_gso_c.Post.Flow.{read_contiguous_lem}
use gnu_my_server_gso_c.Post.Chunked.{Code, success, failure, stuck, Post, read_chunked}
use gnu_my_server_gso_c.Post.Body.{
  Request, Answer, received, lost, refused, no_fuel, Expected, same_text, chunked_text, expected,
  as_expected, dim_buffer, complete, end_round, save_bytes, counted, read_plain, of_code,
  read_encoded, left_of, read_encoding, open_file, no_length, is_negative, read_post_data,
}
use gnu_my_server_gso_c.Post.BodyStored.{minus, count_down_lem}

-- The status for a transfer encoding, and for a file that is not made.
unfoldable pub bad_encoding : Option (List ℕ) → Option ℕ
unfolding same_text
bad_encoding none = none
bad_encoding (some t) = if same_text t chunked_text then none else some 501

unfoldable pub not_made : {F : Type 0} → Option (List ℕ) → Option F → Option ℕ
unfolding bad_encoding
not_made t none = some 500
not_made t (some f) = bad_encoding t

unfoldable pub below_zero : ℤ → Bool
below_zero (pos n) = false
below_zero (negsuc n) = true

unfoldable pub empty_value : Option (List ℕ) → Bool
empty_value none = false
empty_value (some []) = true
empty_value (some (c ∷ cs)) = false

-- The status of the refusal of a request, if it is refused, from its fields.
unfoldable pub refusal : {F : Type 0} → Request → Option F → Option ℕ
unfolding below_zero empty_value not_made
refusal q made =
    let no_text = length q.content_length == 0 in
    if not no_text && below_zero (atoi q.content_length)
    then some 400
    else if no_text && q.keep_alive && empty_value q.content_encoding
    then some 400
    else not_made q.transfer_encoding made

negative_number : (z : ℤ) → is_negative (as_expected z) ≡ below_zero z
unfolding is_negative as_expected below_zero
negative_number (pos n) = refl
negative_number (negsuc n) = refl

negative_length :
    (cl : List ℕ) → is_negative (expected cl) ≡ not (length cl == 0) && below_zero (atoi cl)
unfolding expected is_negative
negative_length [] = refl
negative_length (c ∷ cs) =
    let some_text : (length (c ∷ cs) == 0) ≡ false = ground arith in
    rw some_text (negative_number (atoi (c ∷ cs)))

known_length : (q : Request) (z : ℤ) → no_length q (as_expected z) ≡ false
unfolding no_length as_expected
known_length q (pos n) = refl
known_length q (negsuc n) = refl

empty_encoding :
    (o : Option (List ℕ)) → elim o [ none ↦ false | some v ↦ length v == 0 ] ≡ empty_value o
unfolding empty_value
empty_encoding none = refl
empty_encoding (some []) = refl
empty_encoding (some (c ∷ cs)) = ground arith

missing_length :
    (q : Request) (cl : List ℕ)
    → no_length q (expected cl) ≡ (length cl == 0) && q.keep_alive && empty_value q.content_encoding
unfolding expected no_length
missing_length q [] = ap (λ b. q.keep_alive && b) (empty_encoding q.content_encoding)
missing_length q (c ∷ cs) =
    let some_text : (length (c ∷ cs) == 0) ≡ false = ground arith in
    rw some_text (known_length q (atoi (c ∷ cs)))

same_text_sound : (s t : List ℕ) → same_text s t ≡ true → s ≡ t
unfolding same_text
same_text_sound [] [] h = refl
same_text_sound [] (d ∷ t) h = absurd (cc h)
same_text_sound (c ∷ s) [] h = absurd (cc h)
same_text_sound (c ∷ s) (d ∷ t) h = elim (Bool-cases (c == d)) [
  | inl e ↦ ap (λ x. x ∷ s) ((==_iff c d).0 e) ∙ ap (◌∷◌ d) (same_text_sound s t (rw e at h))
  | inr e ↦ absurd (cc (rw e at h))
]

chunked_is : same_text chunked_text chunked_text ≡ true
unfolding same_text
chunked_is = refl

-- An answer against the status of a refusal.
abbrev pub Matches : Answer → Option ℕ → Type 0
Matches (refused s) o = o ≡ some s
Matches received o = o ≡ none
Matches lost o = o ≡ none
Matches no_fuel o = o ≡ none

module _ {F : Type 0} (file : Stream F) where
  end_round-Matches :
      (loop : Option ℕ → Reader → F → Answer × F) (left : Option ℕ) (got : Got) (o : Bool × F)
      → ((g : F) → Matches (loop left got.reader g).0 none)
      → Matches (end_round loop left got o).0 none
  unfolding end_round
  end_round-Matches loop left got (false, f) k = refl
  end_round-Matches loop left got (true, f) k =
      elim (Bool-cases (got.timed_out || length got.bytes == 0 || complete left)) [
        | inl stops ↦ rw stops refl
        | inr goes ↦ rw goes (k f)
      ]

  -- The status 400 for more bytes than announced does not occur.
  read_plain-Matches :
      (room fuel : ℕ) (left : Option ℕ) (r : Reader) (f : F)
      → Matches (read_plain file room fuel left r f).0 none
  unfolding read_plain counted
  read_plain-Matches room zero left r f = refl
  read_plain-Matches room (suc fuel) left r f =
      let got = read_contiguous (dim_buffer room left) r in
      let (keeps, short) = read_contiguous_lem (dim_buffer room left) r in
      let left' = minus left (length got.bytes) in
      rw (count_down_lem room left (length got.bytes) short) (
        end_round-Matches (read_plain file room fuel) left' got (save_bytes file got.bytes f)
          λ g. read_plain-Matches room fuel left' got.reader g)

  of_code-Matches : (f : F) (o : Code × Post F) → Matches (of_code f o).0 none
  unfolding of_code
  of_code-Matches f (success, p) = refl
  of_code-Matches f (failure, p) = refl
  of_code-Matches f (stuck, p) = refl

  read_encoding-Matches :
      (room fuel : ℕ) (t : Option (List ℕ)) (e : Expected) (r : Reader) (f : F)
      → Matches (read_encoding file room fuel t e r f).0 (bad_encoding t)
  unfolding read_encoding read_encoded bad_encoding
  read_encoding-Matches room fuel none e r f = read_plain-Matches room fuel (left_of e) r f
  read_encoding-Matches room fuel (some t) e r f = elim (Bool-cases (same_text t chunked_text)) [
    | inr other ↦ rw other refl
    | inl chunked ↦
        let start : Post F = record {
          reader = r;
          out = some f;
          out_nbr = 0;
          remaining = none;
          out_buffer = [];
        } in
        rw chunked (of_code-Matches f (read_chunked file room fuel 0 start))
  ]

  open_file-Matches :
      (room fuel : ℕ) (q : Request) (e : Expected) (made : Option F) (r : Reader)
      → Matches (open_file file room fuel q e made r).0 (not_made q.transfer_encoding made)
  unfolding open_file not_made
  open_file-Matches room fuel q e none r = refl
  open_file-Matches room fuel q e (some f) r =
      read_encoding-Matches room fuel q.transfer_encoding e r f

  matches :
      (room fuel : ℕ) (q : Request) (made : Option F) (r : Reader)
      → Matches (read_post_data file room fuel q made r).0 (refusal q made)
  unfolding read_post_data refusal
  matches room fuel q made r =
      let e = expected q.content_length in
      rw (sym (negative_length q.content_length), sym (missing_length q q.content_length))
        (elim (Bool-cases (is_negative e)) [
          | inl bad ↦ rw bad refl
          | inr good ↦ elim (Bool-cases (no_length q e)) [
            | inl no_size ↦ rw (good, no_size) refl
            | inr sized ↦ rw (good, sized) (open_file-Matches room fuel q e made r)
          ]
        ])

  -- readPostData answers with a status exactly if the request is refused with it: 400 for a content
  -- length whose text is a negative number, and for a keep-alive request without a length whose
  -- content-encoding is given and empty, else 500 if no file could be made, else 501 for a transfer
  -- encoding whose text is not "chunked". The answer 400 for a body that is longer than announced does
  -- not occur.
  pub read_post_data-Matches :
      (room fuel : ℕ) (q : Request) (made : Option F) (r : Reader)
      → Matches (read_post_data file room fuel q made r).0 (refusal q made)
        × ((t : List ℕ) → (same_text t chunked_text ≡ true) ↔ (t ≡ chunked_text))
  read_post_data-Matches room fuel q made r = (
    matches room fuel q made r,
    λ t. (same_text_sound t chunked_text, λ e. ap (λ u. same_text u chunked_text) e ∙ chunked_is),
  )
