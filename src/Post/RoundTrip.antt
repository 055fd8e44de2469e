-- ===== src/Post/RoundTrip.antt =====
-- What the writer of chunks sends, the reader of chunks reads.
use mathlib.Core.List.{append_assoc, append-nil}
use gnu_my_server_gso_c.Base.{
  ℕ, zero, suc, ◌+◌, ◌^◌, ◌<◌, List, [], ◌∷◌, ◌++◌, true, Option, none, some, ◌==◌, length,
  length-append, ◌≡◌, refl, sym, arith,
}
use gnu_my_server_gso_c.Post.Streams.{Stream, IsReliable}
use gnu_my_server_gso_c.Post.Reader.{Reader}
use gnu_my_server_gso_c.Post.Chunked.{
  Code, success, Post, Round, next_chunk, last_chunk, start_chunk, read_chunk, read_size,
  set_remaining, finish, next_round, read_chunks,
}
use gnu_my_server_gso_c.Post.Digits.{IsSize, hex_digits-IsSize}
use gnu_my_server_gso_c.Post.Lines.{Leaves, read_size-Leaves}
use gnu_my_server_gso_c.Post.Writer.{hex_digits}
use gnu_my_server_gso_c.Post.Data.{unread, Holds, Read}
use gnu_my_server_gso_c.Post.Chunks.{start_chunk-Read, read_chunk_new}

-- A body in chunks, before the bytes `w`.
unfoldable pub wire : List (List ℕ) → List ℕ → List ℕ
wire [] w = 48 ∷ 13 ∷ 10 ∷ w
wire (c ∷ cs) w = hex_digits 16 (length c) [] ++ (13 ∷ 10 ∷ (c ++ (13 ∷ 10 ∷ wire cs w)))

unfoldable pub joined : List (List ℕ) → List ℕ
joined [] = []
joined (c ∷ cs) = c ++ joined cs

-- No chunk is empty, and the size of each is an int.
abbrev pub Sendable : List (List ℕ) → Type 0
Sendable [] = Unit
Sendable (c ∷ cs) = (0 < length c) × (length c < 2 ^ 31) × Sendable cs

length-wire :
    (c : List ℕ) (cs : List (List ℕ)) (w : List ℕ)
    → length c + length (wire cs w) < length (wire (c ∷ cs) w)
unfolding wire
length-wire c cs w =
    rw
      (
        length-append (hex_digits 16 (length c) []) (13 ∷ 10 ∷ (c ++ (13 ∷ 10 ∷ wire cs w))),
        length-append c (13 ∷ 10 ∷ wire cs w),
      )
      (omega arith)

zero_IsSize : IsSize (48 ∷ []) 0
unfolding hex_digits
zero_IsSize = hex_digits-IsSize 0 (omega arith)

unread-set_remaining : (o : Option ℕ) → unread (set_remaining o 0) ≡ 0
unfolding set_remaining
unread-set_remaining none = refl
unread-set_remaining (some n) = refl

module _ {S : Type 0} (view : S → List ℕ) where
  record Ended (o : Round × Post S) (xs w : List ℕ) : Type 0 where
    pub round : o.0 ≡ last_chunk
    pub holds : Holds view o.1 xs w

  -- The reader has returned 0, with `xs` in the destination and `w` to come.
  pub record Returned (o : Code × Post S) (xs w : List ℕ) : Type 0 where
    pub code : o.0 ≡ success
    pub holds : Holds view o.1 xs w

  finish-Returned :
      (o : Round × Post S) (loop : Post S → Code × Post S) (xs w : List ℕ)
      → Ended o xs w
      → Returned (next_round loop o) xs w
  unfolding next_round finish
  finish-Returned (next_chunk, p) loop xs w e = absurd (ground (arith, e.round))
  finish-Returned (Round.return c, p) loop xs w e = absurd (ground (arith, e.round))
  finish-Returned (last_chunk, p) loop xs w e = record {
    code = refl;
    holds = record {
      smooth = e.holds.smooth;
      later = e.holds.later;
      sink = e.holds.sink;
      is_open = e.holds.is_open;
      saved = e.holds.saved;
      between = unread-set_remaining p.remaining;
    };
  }

  next_round_read :
      (o : Round × Post S) (loop : Post S → Code × Post S)
      → o.0 ≡ next_chunk
      → next_round loop o ≡ loop o.1
  unfolding next_round
  next_round_read (next_chunk, p) loop e = refl
  next_round_read (last_chunk, p) loop e = absurd (ground (arith, e))
  next_round_read (Round.return c, p) loop e = absurd (ground (arith, e))

  module _ (stream : Stream S) (reliable : IsReliable stream view) (out_size : ℕ) where
    start_chunk-Ended :
        (fuel : ℕ) (o : Option ℕ × Reader) (p : Post S) (xs w v : List ℕ)
        → Leaves o 0 w
        → Holds view p xs v
        → Ended (start_chunk stream out_size fuel o p) xs w
    unfolding start_chunk
    start_chunk-Ended fuel (none, r) p xs w v e h = absurd (ground (arith, e.result))
    start_chunk-Ended fuel (some size, r) p xs w v e h =
        let last : (size == 0) ≡ true = ground (arith, e.result) in
        rw last (record {
          round = refl;
          holds = record {
            smooth = e.smooth;
            later = e.later;
            sink = h.sink;
            is_open = h.is_open;
            saved = h.saved;
            between = h.between;
          };
        })

    last_chunk-Ended :
        (fuel : ℕ) (p : Post S) (xs w : List ℕ)
        → Holds view p xs (48 ∷ 13 ∷ 10 ∷ w)
        → Ended (read_chunk stream out_size fuel p.remaining p) xs w
    last_chunk-Ended fuel p xs w h =
        rw (read_chunk_new stream out_size fuel p.remaining p h.between) (
          start_chunk-Ended fuel (read_size p.reader) p xs w (48 ∷ 13 ∷ 10 ∷ w)
            (read_size-Leaves p.reader (48 ∷ []) w 0 h.smooth zero_IsSize h.later) h)

    module _ (room : 0 < out_size) where
      read_chunk-Read :
          (fuel : ℕ) (p : Post S) (xs c v : List ℕ)
          → Holds view p xs (hex_digits 16 (length c) [] ++ (13 ∷ 10 ∷ (c ++ (13 ∷ 10 ∷ v))))
          → 0 < length c
          → length c < 2 ^ 31
          → length c < fuel
          → Read view (read_chunk stream out_size fuel p.remaining p) (xs ++ c) v
      read_chunk-Read fuel p xs c v h some_data small l =
          rw (read_chunk_new stream out_size fuel p.remaining p h.between) (
            start_chunk-Read view stream reliable out_size room fuel (read_size p.reader) p xs c v
              (hex_digits 16 (length c) [] ++ (13 ∷ 10 ∷ (c ++ (13 ∷ 10 ∷ v))))
              (read_size-Leaves p.reader (hex_digits 16 (length c) []) (c ++ (13 ∷ 10 ∷ v))
                (length c) h.smooth (hex_digits-IsSize (length c) small) h.later)
              some_data l h)

      pub read_chunks-Returned :
          (fuel n : ℕ) (p : Post S) (xs : List ℕ) (cs : List (List ℕ)) (w : List ℕ)
          → Holds view p xs (wire cs w)
          → Sendable cs
          → length (wire cs w) < fuel
          → Returned (read_chunks stream out_size fuel 0 n p) (xs ++ joined cs) w
      unfolding read_chunks wire joined
      read_chunks-Returned zero n p xs cs w h s l = absurd (omega arith)
      read_chunks-Returned (suc fuel) n p xs [] w h s l = rw (append-nil xs) (
          finish-Returned (read_chunk stream out_size (suc fuel) p.remaining p)
            (read_chunks stream out_size fuel 0 (n + 1)) xs w
            (last_chunk-Ended (suc fuel) p xs w h))
      read_chunks-Returned (suc fuel) n p xs (c ∷ cs) w h s l =
          let o = read_chunk stream out_size (suc fuel) p.remaining p in
          let loop = read_chunks stream out_size fuel 0 (n + 1) in
          let one =
            read_chunk-Read (suc fuel) p xs c (wire cs w) h s.0 s.1
              (omega (arith, length-wire c cs w)) in
          rw (next_round_read o loop one.round, sym (append_assoc xs c (joined cs)))
            (read_chunks-Returned fuel (n + 1) o.1 (xs ++ c) cs w one.holds s.2
              (omega (arith, length-wire c cs w, s.0)))
