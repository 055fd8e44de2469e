-- ===== src/Post/BodyStored.antt =====
-- The bytes that readPostData stores without a transfer encoding.
use mathlib.Core.List.{append-nil, append_assoc}
use gnu_my_server_gso_c.Base.{
  ℕ, zero, suc, ◌-◌, ◌≤◌, ◌<◌, List, [], ◌∷◌, ◌++◌, Bool, true, false, ◌||◌, Option, none, some,
  leb, ◌==◌, length, take, ◌≡◌, refl, sym, ap, ◌∙◌, inl, inr, Bool-cases, ==_iff, arith,
}
use gnu_my_server_gso_c.Post.Streams.{Stream, IsReliable}
use gnu_my_server_gso_c.Post.Reader.{Reader, Got, read_contiguous}
use gnu_my_server_gso_c.Post.Flow.{coming, read_contiguous_lem}
use gnu_my_server_gso_c.Post.Smooth.{Steady, read_contiguous-Steady, some_is_read}
use gnu_my_server_gso_c.Post.Ends.{rest, read_contiguous-rest}
use gnu_my_server_gso_c.Post.Body.{
  Answer, received, dim_buffer, count_down, complete, end_round, write_done, save_bytes, counted,
  read_plain,
}

-- As many bytes as were announced, or all.
unfoldable pub wanted : Option ℕ → List ℕ → List ℕ
wanted none xs = xs
wanted (some n) xs = take n xs

-- The rest of the announced length after `n` bytes.
unfoldable pub minus : Option ℕ → ℕ → Option ℕ
minus none n = none
minus (some left) n = some (left - n)

pub count_down_lem :
    (room : ℕ) (left : Option ℕ) (n : ℕ)
    → n ≤ dim_buffer room left
    → count_down left n ≡ some (minus left n)
unfolding dim_buffer count_down minus
count_down_lem room none n l = refl
count_down_lem room (some left) n l =
    let fits : leb n left ≡ true = ground (arith, l) in rw fits refl

take-length_append :
    (bs xs : List ℕ) (n : ℕ) → length bs ≤ n → take n (bs ++ xs) ≡ bs ++ take (n - length bs) xs
take-length_append [] xs n l = ap (λ k. take k xs) (omega arith)
take-length_append (b ∷ bs) xs zero l = absurd (omega arith)
take-length_append (b ∷ bs) xs (suc n) l =
    let e : suc n - suc (length bs) ≡ n - length bs = omega arith in
    rw e (ap (◌∷◌ b) (take-length_append bs xs n (omega arith)))

wanted-append :
    (room : ℕ) (left : Option ℕ) (bs xs : List ℕ)
    → length bs ≤ dim_buffer room left
    → wanted left (bs ++ xs) ≡ bs ++ wanted (minus left (length bs)) xs
unfolding dim_buffer wanted minus
wanted-append room none bs xs l = refl
wanted-append room (some n) bs xs l = take-length_append bs xs n (ground (arith, l))

wanted-complete : (left : Option ℕ) (xs : List ℕ) → complete left ≡ true → wanted left xs ≡ []
unfolding complete wanted
wanted-complete none xs h = absurd (ground (arith, h))
wanted-complete (some zero) xs h = refl
wanted-complete (some (suc n)) xs h = absurd (ground (arith, h))

-- Nothing is read from a smooth reader only if nothing is wanted or nothing comes.
wanted-none :
    (room : ℕ) (left : Option ℕ) (xs : List ℕ)
    → 0 < room
    → (0 < dim_buffer room left → 0 < length xs → ⊥)
    → wanted left xs ≡ []
unfolding dim_buffer wanted
wanted-none room none [] p k = refl
wanted-none room none (x ∷ xs) p k = absurd (k p (omega arith))
wanted-none room (some zero) xs p k = refl
wanted-none room (some (suc n)) [] p k = refl
wanted-none room (some (suc n)) (x ∷ xs) p k = absurd (k (ground (arith, p)) (omega arith))

append-no_bytes : (bs ys : List ℕ) → length bs ≡ 0 → bs ++ ys ≡ ys
append-no_bytes [] ys e = refl
append-no_bytes (b ∷ bs) ys e = absurd (omega arith)

-- If nothing is read, nothing is wanted any more.
nothing_read :
    (room : ℕ) (left : Option ℕ) (r : Reader)
    → Steady r
    → 0 < room
    → length (read_contiguous (dim_buffer room left) r).bytes ≡ 0
    → wanted
        (minus left (length (read_contiguous (dim_buffer room left) r).bytes))
        (coming (read_contiguous (dim_buffer room left) r).reader)
      ≡ []
nothing_read room left r s p e =
    let dim = dim_buffer room left in
    let got = read_contiguous dim r in
    let (keeps, short) = read_contiguous_lem dim r in
    let xs = wanted (minus left (length got.bytes)) (coming got.reader) in
    sym (append-no_bytes got.bytes xs e)
    ∙ sym (wanted-append room left got.bytes (coming got.reader) short)
    ∙ ap (wanted left) keeps
    ∙ wanted-none room left (coming r) p λ d m. absurd (omega (arith, e, some_is_read dim r s d m))

last_test : (a b c : Bool) → a || b || c ≡ true → a ≡ false → b ≡ false → c ≡ true
last_test a b c h p q = ground (arith, h, p, q)

module _ {F : Type 0} (view : F → List ℕ) (file : Stream F) (reliable : IsReliable file view) where
  pub record Stored (o : Answer × F) (xs : List ℕ) : Type 0 where
    pub answer : o.0 ≡ received
    pub told : view o.1 ≡ xs

  pub record Wrote (o : Bool × F) (xs : List ℕ) : Type 0 where
    pub fine : o.0 ≡ true
    pub told : view o.1 ≡ xs

  write_done-Wrote :
      (o : Option ℕ × F) (n : ℕ) (xs : List ℕ)
      → o.0 ≡ some n
      → view o.1 ≡ xs
      → Wrote (write_done o) xs
  unfolding write_done
  write_done-Wrote (none, f) n xs e v = absurd (ground (arith, e))
  write_done-Wrote (some m, f) n xs e v = record { fine = refl; told = v }

  pub save_bytes-Wrote : (bs : List ℕ) (f : F) → Wrote (save_bytes file bs f) (view f ++ bs)
  unfolding save_bytes
  save_bytes-Wrote [] f = record { fine = refl; told = sym (append-nil (view f)) }
  save_bytes-Wrote (b ∷ bs) f =
      let some_data : (length (b ∷ bs) == 0) ≡ false = ground arith in
      rw some_data (
        write_done-Wrote (file.write (b ∷ bs) f) (length (b ∷ bs)) (view f ++ (b ∷ bs))
          (reliable.writes (b ∷ bs) f) (reliable.keeps (b ∷ bs) f))

  end_round-Stored :
      (loop : Option ℕ → Reader → F → Answer × F) (left : Option ℕ) (got : Got) (o : Bool × F)
      (ys xs : List ℕ)
      → Wrote o ys
      → got.timed_out ≡ false
      → ((length got.bytes ≡ 0) → xs ≡ [])
      → (complete left ≡ true → xs ≡ [])
      → (0 < length got.bytes → Stored (loop left got.reader o.1) (view o.1 ++ xs))
      → Stored (end_round loop left got o) (ys ++ xs)
  unfolding end_round
  end_round-Stored loop left got (false, f) ys xs w t a b k = absurd (ground (arith, w.fine))
  end_round-Stored loop left got (true, f) ys xs w t a b k =
      elim (Bool-cases (got.timed_out || length got.bytes == 0 || complete left)) [
        | inl stops ↦
            let none_left : xs ≡ [] = elim (Bool-cases (length got.bytes == 0)) [
              | inl e ↦ a ((==_iff _ 0).0 e)
              | inr e ↦
                  b (last_test got.timed_out (length got.bytes == 0) (complete left) stops t e)
            ] in
            rw (stops, none_left, append-nil ys) (record { answer = refl; told = w.told })
        | inr goes ↦ rw (goes, sym w.told) (k (ground (arith, goes)))
      ]

  pub read_plain-Stored :
      (room fuel : ℕ) (left : Option ℕ) (r : Reader) (f : F)
      → 0 < room
      → Steady r
      → rest r < fuel
      → Stored (read_plain file room fuel left r f) (view f ++ wanted left (coming r))
  unfolding read_plain counted
  read_plain-Stored room zero left r f p s l = absurd (omega arith)
  read_plain-Stored room (suc fuel) left r f p s l =
      let dim = dim_buffer room left in
      let got = read_contiguous dim r in
      let (keeps, short) = read_contiguous_lem dim r in
      let (smooth, in_time) = read_contiguous-Steady dim r s in
      let left' = minus left (length got.bytes) in
      let xs = wanted left' (coming got.reader) in
      let parts : wanted left (coming r) ≡ got.bytes ++ xs =
        ap (wanted left) (sym keeps)
        ∙ wanted-append room left got.bytes (coming got.reader) short in
      let wrote = save_bytes-Wrote got.bytes f in
      rw
        (
          count_down_lem room left (length got.bytes) short,
          parts,
          sym (append_assoc (view f) got.bytes xs),
        )
        (end_round-Stored (read_plain file room fuel) left' got (save_bytes file got.bytes f)
          (view f ++ got.bytes) xs wrote in_time (λ e. nothing_read room left r s p e)
          (λ e. wanted-complete left' (coming got.reader) e)
          λ m.
            read_plain-Stored room fuel left' got.reader (save_bytes file got.bytes f).1 p smooth
              (omega (arith, read_contiguous-rest dim r)))
