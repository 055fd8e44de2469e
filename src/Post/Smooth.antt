-- ===== src/Post/Smooth.antt =====
-- Reads from a network that has no time-outs and errors, and from one that also cuts no line end in two.
use gnu_my_server_gso_c.Base.{
  ℕ, zero, suc, ◌-◌, ◌<◌, List, [], ◌∷◌, Bool, false, Option, none, some, ◌==◌, length, take, drop,
  ◌≡◌, refl, ap, ◌∙◌, inl, inr, Bool-cases, arith,
}
use gnu_my_server_gso_c.Post.Streams.{Arrival, packet, failed, leave, recv}
use gnu_my_server_gso_c.Post.Reader.{Reader, add_received, read_contiguous}
use gnu_my_server_gso_c.Post.Flow.{arrived, coming, arrived-leave, add_received-bytes}

-- The last byte is a carriage return.
unfoldable pub ends_cr : List ℕ → Bool
ends_cr [] = false
ends_cr (b ∷ []) = b == 13
ends_cr (b ∷ c ∷ cs) = ends_cr (c ∷ cs)

-- No error and no empty packet comes, and no packet that is `bad`.
abbrev pub Timely : (List ℕ → Bool) → List Arrival → Type 0
Timely bad [] = Unit
Timely bad (failed ∷ a) = ⊥
Timely bad (packet [] ∷ a) = ⊥
Timely bad (packet (b ∷ bs) ∷ a) = (bad (b ∷ bs) ≡ false) × Timely bad a

-- Nothing that comes from the socket is an error or is empty.
abbrev pub Steady : Reader → Type 0
Steady r = Timely (λ bs. false) r.arrivals

-- And nothing ends between a carriage return and what follows it.
abbrev pub Smooth : Reader → Type 0
Smooth r = Timely ends_cr r.arrivals

ends_cr-tail : (b : ℕ) (bs : List ℕ) → ends_cr (b ∷ bs) ≡ false → ends_cr bs ≡ false
unfolding ends_cr
ends_cr-tail b [] h = refl
ends_cr-tail b (c ∷ cs) h = h

ends_cr-drop : (n : ℕ) (bs : List ℕ) → ends_cr bs ≡ false → ends_cr (drop n bs) ≡ false
unfolding ends_cr
ends_cr-drop zero bs h = h
ends_cr-drop (suc n) [] h = refl
ends_cr-drop (suc n) (b ∷ bs) h = ends_cr-drop n bs (ends_cr-tail b bs h)

module _ (bad : List ℕ → Bool)
    (bad-drop : (n : ℕ) (bs : List ℕ) → bad bs ≡ false → bad (drop n bs) ≡ false) where
  Timely-leave :
      (bs : List ℕ) (a : List Arrival) → bad bs ≡ false → Timely bad a → Timely bad (leave bs a)
  unfolding leave
  Timely-leave [] a h s = s
  Timely-leave (b ∷ bs) a h s = (h, s)

  -- A call of `recv` succeeds and leaves the rest as timely.
  abbrev Taken : Option (List ℕ) × List Arrival → Type 0
  Taken (none, a) = ⊥
  Taken (some bs, a) = Timely bad a

  recv-Taken : (len : ℕ) (a : List Arrival) → Timely bad a → Taken (recv len a)
  unfolding recv
  recv-Taken len [] s = tt
  recv-Taken len (failed ∷ a) s = absurd s
  recv-Taken len (packet [] ∷ a) s = absurd s
  recv-Taken len (packet (b ∷ bs) ∷ a) s =
      Timely-leave (drop len (b ∷ bs)) a (bad-drop len (b ∷ bs) s.0) s.1

  add_received-Timely :
      (bs : List ℕ) (o : Option (List ℕ) × List Arrival)
      → Taken o
      → Timely bad (add_received bs o).reader.arrivals × ((add_received bs o).timed_out ≡ false)
  unfolding add_received
  add_received-Timely bs (none, a) t = absurd t
  add_received-Timely bs (some m, a) t = (t, refl)

  read_contiguous-Timely :
      (len : ℕ) (r : Reader)
      → Timely bad r.arrivals
      → Timely bad (read_contiguous len r).reader.arrivals
        × ((read_contiguous len r).timed_out ≡ false)
  unfolding read_contiguous
  read_contiguous-Timely len r s = elim (Bool-cases (len == length (take len r.ahead))) [
    | inl full ↦ rw full (s, refl)
    | inr more ↦ rw more (
        add_received-Timely (take len r.ahead) (recv (len - length (take len r.ahead)) r.arrivals)
          (recv-Taken (len - length (take len r.ahead)) r.arrivals s))
  ]

  -- Something is read while something is to come.
  progress :
      (len : ℕ) (ahead : List ℕ) (arrivals : List Arrival)
      → Timely bad arrivals
      → 0 < length (coming (record { ahead = ahead; arrivals = arrivals }))
      → 0 < length (read_contiguous (suc len) (record { ahead = ahead; arrivals = arrivals })).bytes
  unfolding read_contiguous coming arrived recv add_received
  progress len [] [] s l = absurd (omega arith)
  progress len [] (failed ∷ a) s l = absurd s
  progress len [] (packet [] ∷ a) s l = absurd s
  progress len [] (packet (b ∷ bs) ∷ a) s l = ground arith
  progress len (c ∷ cs) a s l =
      let o = recv (suc len - length (take (suc len) (c ∷ cs))) a in
      ground (arith, ap length (add_received-bytes (c ∷ take len cs) o))

  reads_some :
      (len : ℕ) (r : Reader)
      → Timely bad r.arrivals
      → 0 < len
      → 0 < length (coming r)
      → 0 < length (read_contiguous len r).bytes
  reads_some zero r s p l = absurd (omega arith)
  reads_some (suc len) r s p l = progress len r.ahead r.arrivals s l

pub read_contiguous-Smooth :
    (len : ℕ) (r : Reader)
    → Smooth r
    → Smooth (read_contiguous len r).reader × ((read_contiguous len r).timed_out ≡ false)
read_contiguous-Smooth len r s = read_contiguous-Timely ends_cr ends_cr-drop len r s

pub read_contiguous-Steady :
    (len : ℕ) (r : Reader)
    → Steady r
    → Steady (read_contiguous len r).reader × ((read_contiguous len r).timed_out ≡ false)
read_contiguous-Steady len r s = read_contiguous-Timely (λ bs. false) (λ n bs h. refl) len r s

pub read_contiguous_progress :
    (len : ℕ) (r : Reader)
    → Smooth r
    → 0 < len
    → 0 < length (coming r)
    → 0 < length (read_contiguous len r).bytes
read_contiguous_progress len r s p l = reads_some ends_cr ends_cr-drop len r s p l

pub some_is_read :
    (len : ℕ) (r : Reader)
    → Steady r
    → 0 < len
    → 0 < length (coming r)
    → 0 < length (read_contiguous len r).bytes
some_is_read len r s p l = reads_some (λ bs. false) (λ n bs h. refl) len r s p l

-- The end of a line is read whole.
crlf :
    (ahead : List ℕ) (arrivals : List Arrival) (w : List ℕ)
    → Smooth (record { ahead = ahead; arrivals = arrivals })
    → coming (record { ahead = ahead; arrivals = arrivals }) ≡ 13 ∷ 10 ∷ w
    → coming (read_contiguous 2 (record { ahead = ahead; arrivals = arrivals })).reader ≡ w
unfolding read_contiguous coming arrived recv leave add_received ends_cr
crlf [] [] w s e = absurd (cc)
crlf [] (failed ∷ a) w s e = absurd s
crlf [] (packet [] ∷ a) w s e = absurd s
crlf [] (packet (b ∷ []) ∷ a) w s e = ground (arith, e, s)
crlf [] (packet (b ∷ c ∷ bs) ∷ a) w s e = arrived-leave bs a ∙ (ground (arith, e))
crlf (b ∷ []) [] w s e = absurd (ground (arith, e))
crlf (b ∷ []) (failed ∷ a) w s e = absurd s
crlf (b ∷ []) (packet [] ∷ a) w s e = absurd s
crlf (b ∷ []) (packet (c ∷ bs) ∷ a) w s e = arrived-leave bs a ∙ (ground (arith, e))
crlf (b ∷ c ∷ bs) a w s e = ground (arith, e)

pub read_contiguous-crlf :
    (r : Reader) (w : List ℕ)
    → Smooth r
    → coming r ≡ 13 ∷ 10 ∷ w
    → coming (read_contiguous 2 r).reader ≡ w
read_contiguous-crlf r w s e = crlf r.ahead r.arrivals w s e
