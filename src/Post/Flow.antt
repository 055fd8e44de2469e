-- ===== src/Post/Flow.antt =====
-- What a read takes from what is coming.
use mathlib.Core.List.{append-nil, append_assoc}
use gnu_my_server_gso_c.Base.{
  ℕ, zero, suc, ◌-◌, ◌≤◌, List, [], ◌∷◌, ◌++◌, false, Option, none, some, ◌==◌, length, take, drop,
  length-append, ◌≡◌, refl, sym, ap, ◌∙◌, inl, inr, Bool-cases, arith,
}
use gnu_my_server_gso_c.Post.Streams.{Arrival, packet, failed, leave, recv}
use gnu_my_server_gso_c.Post.Reader.{Reader, add_received, read_contiguous}

-- All the bytes that the network still has.
unfoldable pub arrived : List Arrival → List ℕ
arrived [] = []
arrived (packet bs ∷ arrivals) = bs ++ arrived arrivals
arrived (failed ∷ arrivals) = arrived arrivals

unfoldable pub coming : Reader → List ℕ
unfolding arrived
coming r = r.ahead ++ arrived r.arrivals

pub take-append-drop {ℓ} : {A : Type ℓ} (n : ℕ) (xs : List A) → take n xs ++ drop n xs ≡ xs
take-append-drop zero xs = refl
take-append-drop (suc n) [] = refl
take-append-drop (suc n) (x ∷ xs) = ap (◌∷◌ x) (take-append-drop n xs)

pub length-take {ℓ} : {A : Type ℓ} (n : ℕ) (xs : List A) → length (take n xs) ≤ n
length-take zero xs = omega arith
length-take (suc n) [] = omega arith
length-take (suc n) (x ∷ xs) = omega (arith, length-take n xs)

pub take-all {ℓ} :
    {A : Type ℓ} (n : ℕ) (xs : List A) → (n == length (take n xs)) ≡ false → take n xs ≡ xs
take-all zero xs h = absurd (ground (arith, h))
take-all (suc n) [] h = refl
take-all (suc n) (x ∷ xs) h = ap (◌∷◌ x) (take-all n xs (ground arith))

pub arrived-leave : (bs : List ℕ) (a : List Arrival) → arrived (leave bs a) ≡ bs ++ arrived a
unfolding arrived leave
arrived-leave [] a = refl
arrived-leave (b ∷ bs) a = refl

-- The bytes of a call of `recv`.
unfoldable pub received : Option (List ℕ) → List ℕ
received none = []
received (some bs) = bs

pub recv_keeps :
    (len : ℕ) (a : List Arrival) → received (recv len a).0 ++ arrived (recv len a).1 ≡ arrived a
unfolding recv received arrived
recv_keeps len [] = refl
recv_keeps len (failed ∷ a) = refl
recv_keeps len (packet bs ∷ a) =
    ap (◌++◌ (take len bs)) (arrived-leave (drop len bs) a)
    ∙ sym (append_assoc (take len bs) (drop len bs) (arrived a))
    ∙ ap (λ xs. xs ++ arrived a) (take-append-drop len bs)

pub length-recv : (len : ℕ) (a : List Arrival) → length (received (recv len a).0) ≤ len
unfolding recv received
length-recv len [] = omega arith
length-recv len (failed ∷ a) = omega arith
length-recv len (packet bs ∷ a) = length-take len bs

pub add_received-bytes :
    (bs : List ℕ) (o : Option (List ℕ) × List Arrival)
    → (add_received bs o).bytes ≡ bs ++ received o.0
unfolding add_received received
add_received-bytes bs (none, a) = sym (append-nil bs)
add_received-bytes bs (some m, a) = refl

add_received-coming :
    (bs : List ℕ) (o : Option (List ℕ) × List Arrival)
    → coming (add_received bs o).reader ≡ arrived o.1
unfolding add_received coming
add_received-coming bs (none, a) = refl
add_received-coming bs (some m, a) = refl

fill_lem :
    (len : ℕ) (bs : List ℕ) (a : List Arrival)
    → length bs ≤ len
    → ((add_received bs (recv (len - length bs) a)).bytes
          ++ coming (add_received bs (recv (len - length bs) a)).reader
        ≡ bs ++ arrived a)
      × (length (add_received bs (recv (len - length bs) a)).bytes ≤ len)
fill_lem len bs a l =
    let o = recv (len - length bs) a in
    (
      rw (add_received-bytes bs o, add_received-coming bs o)
          (append_assoc bs (received o.0) (arrived o.1)
            ∙ ap (◌++◌ bs) (recv_keeps (len - length bs) a)),
      rw (add_received-bytes bs o, length-append bs (received o.0))
          (omega (arith, length-recv (len - length bs) a)),
    )

take_lem :
    (len : ℕ) (r : Reader)
    → take len r.ahead ++ coming (record r { ahead = drop len r.ahead }) ≡ coming r
unfolding coming
take_lem len r =
    sym (append_assoc (take len r.ahead) (drop len r.ahead) (arrived r.arrivals))
    ∙ ap (λ xs. xs ++ arrived r.arrivals) (take-append-drop len r.ahead)

used_up :
    (len : ℕ) (r : Reader)
    → (len == length (take len r.ahead)) ≡ false
    → take len r.ahead ++ arrived r.arrivals ≡ coming r
unfolding coming
used_up len r more = ap (λ xs. xs ++ arrived r.arrivals) (take-all len r.ahead more)

-- A read of the post data loses and repeats nothing: what it returns, followed by what is still to
-- come, is what was to come before, whatever the socket does; and it returns no more bytes than the
-- buffer holds.
pub read_contiguous_lem :
    (len : ℕ) (r : Reader)
    → ((read_contiguous len r).bytes ++ coming (read_contiguous len r).reader ≡ coming r)
      × (length (read_contiguous len r).bytes ≤ len)
unfolding read_contiguous
read_contiguous_lem len r = elim (Bool-cases (len == length (take len r.ahead))) [
  | inl full ↦ rw full (take_lem len r, length-take len r.ahead)
  | inr more ↦
      let filled = fill_lem len (take len r.ahead) r.arrivals (length-take len r.ahead) in
      rw more (filled.0 ∙ used_up len r more, filled.1)
]
