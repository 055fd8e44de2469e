-- ===== src/Post/Ends.antt =====
-- The loops of readChunkedPostData end: each round takes a byte at least.
use gnu_my_server_gso_c.Base.{
  ℕ, zero, suc, ◌+◌, ◌-◌, ◌≤◌, ◌<◌, min, List, [], ◌∷◌, ◌++◌, Bool, true, false, ◌||◌, Option, none,
  some, ltb, ◌==◌, length, get_or, length-append, ◌≡◌, ◌≢◌, refl, sym, ap, ◌∙◌, inl, inr,
  Bool-cases, lt→ltb, arith,
}
use gnu_my_server_gso_c.Post.Streams.{Stream}
use gnu_my_server_gso_c.Post.Reader.{Reader, read_contiguous}
use gnu_my_server_gso_c.Post.Flow.{coming, read_contiguous_lem}
use gnu_my_server_gso_c.Post.Chunked.{
  Code, stuck, Post, read_line, end_line, read_size, Part, again, leave, Round, next_chunk,
  last_chunk, save, deliver, part_end, end_part, close_part, after_write, read_part, go_on,
  read_data, start_chunk, read_chunk, finish, next_round, read_chunks, read_chunked,
}

-- How much is still to come.
abbrev pub rest : Reader → ℕ
rest r = length (coming r)

pub read_contiguous-rest :
    (len : ℕ) (r : Reader)
    → length (read_contiguous len r).bytes + rest (read_contiguous len r).reader ≡ rest r
read_contiguous-rest len r =
    let got = read_contiguous len r in
    sym (length-append got.bytes (coming got.reader)) ∙ ap length (read_contiguous_lem len r).0

-- What is left after a number was read, or after a failure.
abbrev Fewer : {A : Type 0} → ℕ → Option A × Reader → Type 0
Fewer n (none, r) = Unit
Fewer n (some a, r) = rest r < n

read_line-Fewer :
    (room : ℕ) (line : List ℕ) (r : Reader) (n : ℕ) → rest r ≤ n → Fewer n (read_line room line r)
unfolding read_line
read_line-Fewer zero line r n l = ground (arith, read_contiguous-rest 1 r)
read_line-Fewer (suc room) line r n l =
    let got = read_contiguous 1 r in
    let c = get_or got.bytes 0 0 in
    elim (Bool-cases (length got.bytes == 1)) [
      | inr e ↦ rw e tt
      | inl e ↦
          let ih =
            read_line-Fewer room (line ++ (c ∷ [])) got.reader n
              (ground (arith, read_contiguous-rest 1 r)) in
          ground (arith, e, ih, read_contiguous-rest 1 r)
    ]

end_line-Fewer : (n : ℕ) (o : Option (List ℕ) × Reader) → Fewer n o → Fewer n (end_line o)
unfolding end_line
end_line-Fewer n (none, r) l = tt
end_line-Fewer n (some line, r) l = ground (arith, read_contiguous-rest 1 r)

read_size-Fewer : (r : Reader) → Fewer (rest r) (read_size r)
unfolding read_size
read_size-Fewer r =
    end_line-Fewer (rest r) (read_line 19 [] r) (read_line-Fewer 19 [] r (rest r) (omega arith))

module _ {S : Type 0} where
  abbrev PartFewer : ℕ → Part × Post S → Type 0
  PartFewer n (again done, p) = rest p.reader < n
  PartFewer n (leave, p) = rest p.reader < n
  PartFewer n (Part.return c, p) = c ≢ stuck

  abbrev RoundFewer : ℕ → Round × Post S → Type 0
  RoundFewer n (next_chunk, p) = rest p.reader < n
  RoundFewer n (last_chunk, p) = Unit
  RoundFewer n (Round.return c, p) = c ≢ stuck

  save-reader : (bs : List ℕ) (o : Option ℕ × S) (p : Post S) → (save bs o p).1.reader ≡ p.reader
  unfolding save
  save-reader bs (none, d) p = refl
  save-reader bs (some n, d) p = ground arith

  part_end-Fewer :
      (n size done : ℕ) (p : Post S) (o : Option S)
      → rest p.reader < n
      → PartFewer n (part_end size done p o)
  unfolding part_end
  part_end-Fewer n size done p none l = λ e. cc
  part_end-Fewer n size done p (some d) l = l

  end_part-Fewer :
      (n size done : ℕ) (p : Post S) → rest p.reader < n → PartFewer n (end_part size done p)
  unfolding end_part
  end_part-Fewer n size done p l = part_end-Fewer n size done p p.out l

  close_part-Fewer :
      (n size done : ℕ) (p : Post S) → rest p.reader < n → PartFewer n (close_part size done p)
  unfolding close_part
  close_part-Fewer n size done p l =
      let got = read_contiguous 2 p.reader in
      let m : rest got.reader < n = omega (arith, read_contiguous-rest 2 p.reader) in
      elim (Bool-cases (done == size)) [
        | inl e ↦ elim (Bool-cases got.timed_out) [
          | inl t ↦ rw (e, t) (λ f. cc)
          | inr t ↦ rw (e, t) (end_part-Fewer n size done (record p { reader = got.reader }) m)
        ]
        | inr e ↦ rw e (end_part-Fewer n size done p l)
      ]

  after_write-Fewer :
      (n size done : ℕ) (timed_out : Bool) (o : Bool × Post S)
      → rest o.1.reader < n
      → PartFewer n (after_write size done timed_out o)
  unfolding after_write
  after_write-Fewer n size done timed_out (false, p) l = λ e. cc
  after_write-Fewer n size done true (true, p) l = l
  after_write-Fewer n size done false (true, p) l = close_part-Fewer n size done p l

  weaken : (m n : ℕ) (o : Round × Post S) → m ≤ n → RoundFewer m o → RoundFewer n o
  weaken m n (next_chunk, p) l h = omega arith
  weaken m n (last_chunk, p) l h = tt
  weaken m n (Round.return c, p) l h = h

  go_on-Fewer :
      (n : ℕ) (loop : ℕ → Post S → Round × Post S) (o : Part × Post S)
      → PartFewer n o
      → ((done : ℕ) (p : Post S) → rest p.reader < n → RoundFewer n (loop done p))
      → RoundFewer n (go_on loop o)
  unfolding go_on
  go_on-Fewer n loop (again done, p) h k = k done p h
  go_on-Fewer n loop (leave, p) h k = h
  go_on-Fewer n loop (Part.return c, p) h k = h

  module _ (stream : Stream S) where
    pub deliver-reader :
        (bs : List ℕ) (o : Option S) (p : Post S) → (deliver stream bs o p).1.reader ≡ p.reader
    unfolding deliver
    deliver-reader bs none p = refl
    deliver-reader bs (some d) p = save-reader bs (stream.write bs d) p

    module _ (out_size : ℕ) where
      read_part-Fewer :
          (size done : ℕ) (p : Post S)
          → PartFewer (rest p.reader) (read_part stream out_size size done p)
      unfolding read_part
      read_part-Fewer size done p =
          let got = read_contiguous (min out_size (size - done)) p.reader in
          let q = record p { reader = got.reader; out_buffer = got.bytes } in
          elim (Bool-cases (length got.bytes == 0)) [
            | inl e ↦ rw e (λ f. cc)
            | inr e ↦ rw e (
                after_write-Fewer (rest p.reader) size (done + length got.bytes) got.timed_out
                  (deliver stream got.bytes q.out q)
                  (rw (deliver-reader got.bytes q.out q)
                    (ground (arith, read_contiguous-rest (min out_size (size - done)) p.reader))))
          ]

      abbrev Loop : ℕ → ℕ → Type 0
      Loop fuel size =
          (done : ℕ) (p : Post S)
          → rest p.reader < fuel
          → RoundFewer (suc (rest p.reader)) (read_data stream out_size fuel size done p)

      step-Fewer :
          (fuel size done : ℕ) (p : Post S)
          → rest p.reader < suc fuel
          → Loop fuel size
          → RoundFewer
              (rest p.reader)
              (go_on (read_data stream out_size fuel size) (read_part stream out_size size done p))
      step-Fewer fuel size done p l ih =
          go_on-Fewer (rest p.reader) (read_data stream out_size fuel size)
            (read_part stream out_size size done p) (read_part-Fewer size done p)
            λ d q m.
              weaken (suc (rest q.reader)) (rest p.reader) (read_data stream out_size fuel size d q)
                (omega arith) (ih d q (omega arith))

      read_data-Fewer : (fuel size : ℕ) → Loop fuel size
      unfolding read_data
      read_data-Fewer zero size done p l = absurd (omega arith)
      read_data-Fewer (suc fuel) size done p l = elim (Bool-cases (ltb done size)) [
        | inl e ↦ rw e (
            weaken (rest p.reader) (suc (rest p.reader))
              (go_on (read_data stream out_size fuel size) (read_part stream out_size size done p))
              (omega arith) (step-Fewer fuel size done p l (read_data-Fewer fuel size)))
        | inr e ↦ rw e (omega arith)
      ]

      start_chunk-Fewer :
          (fuel : ℕ) (o : Option ℕ × Reader) (p : Post S) (n : ℕ)
          → n < fuel
          → Fewer n o
          → RoundFewer n (start_chunk stream out_size fuel o p)
      unfolding start_chunk
      start_chunk-Fewer fuel (none, r) p n l h = λ f. cc
      start_chunk-Fewer fuel (some size, r) p n l h = elim (Bool-cases (size == 0)) [
        | inl e ↦ rw e tt
        | inr e ↦
            let q = record p { reader = r } in
            rw e (
              weaken (suc (rest r)) n (read_data stream out_size fuel size 0 q) h
                (read_data-Fewer fuel size 0 q (omega arith)))
      ]

      read_remaining-Fewer :
          (fuel size : ℕ) (p : Post S)
          → rest p.reader < fuel
          → RoundFewer (rest p.reader) (read_data stream out_size fuel (suc size) 0 p)
      unfolding read_data
      read_remaining-Fewer zero size p l = absurd (omega arith)
      read_remaining-Fewer (suc fuel) size p l =
          rw (lt→ltb 0 (suc size) (omega arith))
            (step-Fewer fuel (suc size) 0 p l (read_data-Fewer fuel (suc size)))

      read_chunk-Fewer :
          (fuel : ℕ) (o : Option ℕ) (p : Post S)
          → rest p.reader < fuel
          → RoundFewer (rest p.reader) (read_chunk stream out_size fuel o p)
      unfolding read_chunk
      read_chunk-Fewer fuel none p l =
          start_chunk-Fewer fuel (read_size p.reader) p (rest p.reader) l (read_size-Fewer p.reader)
      read_chunk-Fewer fuel (some zero) p l =
          start_chunk-Fewer fuel (read_size p.reader) p (rest p.reader) l (read_size-Fewer p.reader)
      read_chunk-Fewer fuel (some (suc size)) p l = read_remaining-Fewer fuel size p l

      next_round-Ends :
          (n : ℕ) (loop : Post S → Code × Post S) (o : Round × Post S)
          → RoundFewer n o
          → ((p : Post S) → rest p.reader < n → (loop p).0 ≢ stuck)
          → (next_round loop o).0 ≢ stuck
      unfolding next_round finish
      next_round-Ends n loop (next_chunk, p) h k = k p h
      next_round-Ends n loop (last_chunk, p) h k = λ e. cc
      next_round-Ends n loop (Round.return c, p) h k = h

      read_chunks-Ends :
          (fuel max_chunks n : ℕ) (p : Post S)
          → rest p.reader < fuel
          → (read_chunks stream out_size fuel max_chunks n p).0 ≢ stuck
      unfolding read_chunks finish
      read_chunks-Ends zero max_chunks n p l = absurd (omega arith)
      read_chunks-Ends (suc fuel) max_chunks n p l =
          elim (Bool-cases (max_chunks == 0 || ltb n max_chunks)) [
            | inl e ↦ rw e (
                next_round-Ends (rest p.reader)
                  (read_chunks stream out_size fuel max_chunks (n + 1))
                  (read_chunk stream out_size (suc fuel) p.remaining p)
                  (read_chunk-Fewer (suc fuel) p.remaining p l)
                  λ q m. read_chunks-Ends fuel max_chunks (n + 1) q (omega arith))
            | inr e ↦ rw e (λ f. cc)
          ]

      -- With fuel for the bytes that the network still has, readChunkedPostData returns, whatever these
      -- bytes are and whatever the destination does with them.
      pub read_chunked-ne-stuck :
          (fuel max_chunks : ℕ) (p : Post S)
          → rest p.reader < fuel
          → (read_chunked stream out_size fuel max_chunks p).0 ≢ stuck
      unfolding read_chunked
      read_chunked-ne-stuck fuel max_chunks p l =
          read_chunks-Ends fuel max_chunks 0 (record p { out_nbr = 0 }) l
