-- ===== src/Post/Chunked.antt =====
-- readChunkedPostData of http_data_read.cpp. Its loops are functions of their own; the two loops that
-- a run of reads ends have fuel, and `stuck` is the result without fuel.
use gnu_my_server_gso_c.Base.{
  ℕ, zero, suc, ◌+◌, ◌-◌, ◌%◌, ◌^◌, min, List, [], ◌∷◌, ◌++◌, Bool, true, false, not, ◌||◌, Option,
  none, some, ltb, ◌==◌, if◌then◌else◌, length, get_or,
}
use gnu_my_server_gso_c.Base.Int.{ℤ, pos, negsuc}
use gnu_my_server_gso_c.Text.Hex.{hex_to_int}
use gnu_my_server_gso_c.Post.Streams.{Stream}
use gnu_my_server_gso_c.Post.Reader.{Reader, read_contiguous}

pub data Code : Type 0 where
  success failure stuck : Code

-- The variables of the function: `out` is the destination, *outNbr is `out_nbr`, *remainingChunk is
-- `remaining`, with `none` for a null pointer, and `out_buffer` has the bytes of the last read.
pub record Post (S : Type 0) : Type 0 where
  pub reader : Reader
  pub out : Option S
  pub out_nbr : ℕ
  pub remaining : Option ℕ
  pub out_buffer : List ℕ

-- A C string ends at its first 0.
unfoldable pub until_nul : List ℕ → List ℕ
until_nul [] = []
until_nul (c ∷ cs) = if c == 0 then [] else c ∷ until_nul cs

-- (u_long) of an int.
unfoldable pub to_ulong : ℤ → ℕ
to_ulong (pos n) = n
to_ulong (negsuc n) = 2 ^ 64 - 1 - n

-- The loop that reads the line of the size: `room` characters may still go into the buffer.
unfoldable pub read_line : ℕ → List ℕ → Reader → Option (List ℕ) × Reader
unfolding read_contiguous
read_line zero line r =
    let got = read_contiguous 1 r in
    if not (length got.bytes == 1) then (none, got.reader) else (some line, got.reader)
read_line (suc room) line r =
    let got = read_contiguous 1 r in
    let c = get_or got.bytes 0 0 in
    let more = read_line room (line ++ (c ∷ [])) got.reader in
    if not (length got.bytes == 1)
    then (none, got.reader)
    else if c == 13
    then (some line, got.reader)
    else if got.timed_out
    then (some (line ++ (c ∷ [])), got.reader)
    else more

-- After the line: the line feed, and the number.
unfoldable pub end_line : Option (List ℕ) × Reader → Option ℕ × Reader
unfolding read_contiguous until_nul to_ulong hex_to_int
end_line (none, r) = (none, r)
end_line (some line, r) =
    let got = read_contiguous 1 r in
    if got.timed_out
    then (none, got.reader)
    else (some (to_ulong (hex_to_int (until_nul line))), got.reader)

unfoldable pub read_size : Reader → Option ℕ × Reader
unfolding read_line end_line
read_size r = end_line (read_line 19 [] r)

-- How a round of the loop over the data of a chunk ends: with the loop's condition, for `done`
-- bytes, with `break`, or with `return`.
pub data Part : Type 0 where
  again : ℕ → Part
  leave : Part
  return : Code → Part

-- How a round of the loop over the chunks ends.
pub data Round : Type 0 where
  next_chunk : Round
  last_chunk : Round
  return : Code → Round

unfoldable pub set_remaining : Option ℕ → ℕ → Option ℕ
set_remaining none n = none
set_remaining (some m) n = some n

module _ {S : Type 0} where
  -- The write of what was read: `none` for the destination stands for a null pointer.
  unfoldable pub save : List ℕ → Option ℕ × S → Post S → Bool × Post S
  save bs (none, d) p = (false, record p { out = some d })
  save bs (some nbw, d) p =
      if not (nbw == length bs)
      then (false, record p { out = some d })
      else (true, record p { out = some d; out_nbr = (p.out_nbr + nbw) % 2 ^ 64 })

  -- The rest of a round after the write: the end of the chunk, and the return to a caller without a
  -- destination.
  unfoldable pub part_end : ℕ → ℕ → Post S → Option S → Part × Post S
  unfolding set_remaining
  part_end size done p none =
      (return success, record p { remaining = set_remaining p.remaining (size - done) })
  part_end size done p (some d) = (again done, p)

  unfoldable pub end_part : ℕ → ℕ → Post S → Part × Post S
  unfolding part_end
  end_part size done p = part_end size done p p.out

  unfoldable pub close_part : ℕ → ℕ → Post S → Part × Post S
  unfolding read_contiguous end_part
  close_part size done p =
      let got = read_contiguous 2 p.reader in
      let q = record p { reader = got.reader } in
      if done == size
      then (if got.timed_out then (return failure, q) else end_part size done q)
      else end_part size done p

  unfoldable pub after_write : ℕ → ℕ → Bool → Bool × Post S → Part × Post S
  unfolding close_part
  after_write size done timed_out (false, p) = (return failure, p)
  after_write size done timed_out (true, p) =
      if timed_out then (leave, p) else close_part size done p

  unfoldable pub go_on : (ℕ → Post S → Round × Post S) → Part × Post S → Round × Post S
  go_on loop (again done, p) = loop done p
  go_on loop (leave, p) = (next_chunk, p)
  go_on loop (return c, p) = (return c, p)

  unfoldable pub finish : Post S → Code × Post S
  unfolding set_remaining
  finish p = (success, record p { remaining = set_remaining p.remaining 0 })

  unfoldable pub next_round : (Post S → Code × Post S) → Round × Post S → Code × Post S
  unfolding finish
  next_round loop (next_chunk, p) = loop p
  next_round loop (last_chunk, p) = finish p
  next_round loop (return c, p) = (c, p)

  module _ (stream : Stream S) where
    unfoldable pub deliver : List ℕ → Option S → Post S → Bool × Post S
    unfolding save
    deliver bs none p = (true, record p { out_nbr = (p.out_nbr + length bs) % 2 ^ 64 })
    deliver bs (some d) p = save bs (stream.write bs d) p

    module _ (out_size : ℕ) where
      -- A round of the loop over the data of a chunk, with `done` bytes of `size` read.
      unfoldable pub read_part : ℕ → ℕ → Post S → Part × Post S
      unfolding read_contiguous deliver after_write
      read_part size done p =
          let got = read_contiguous (min out_size (size - done)) p.reader in
          let q = record p { reader = got.reader; out_buffer = got.bytes } in
          if length got.bytes == 0
          then (return failure, q)
          else after_write size (done + length got.bytes) got.timed_out (deliver got.bytes q.out q)

      unfoldable pub read_data : ℕ → ℕ → ℕ → Post S → Round × Post S
      unfolding read_part go_on
      read_data zero size done p = (return stuck, p)
      read_data (suc fuel) size done p =
          let step = go_on (read_data fuel size) (read_part size done p) in
          if ltb done size then step else (next_chunk, p)

      unfoldable pub start_chunk : ℕ → Option ℕ × Reader → Post S → Round × Post S
      unfolding read_data
      start_chunk fuel (none, r) p = (return failure, record p { reader = r })
      start_chunk fuel (some size, r) p =
          let q = record p { reader = r } in
          if size == 0 then (last_chunk, q) else read_data fuel size 0 q

      unfoldable pub read_chunk : ℕ → Option ℕ → Post S → Round × Post S
      unfolding start_chunk read_size read_data
      read_chunk fuel none p = start_chunk fuel (read_size p.reader) p
      read_chunk fuel (some zero) p = start_chunk fuel (read_size p.reader) p
      read_chunk fuel (some (suc size)) p = read_data fuel (suc size) 0 p

      -- The loop over the chunks, with `n` of them read.
      unfoldable pub read_chunks : ℕ → ℕ → ℕ → Post S → Code × Post S
      unfolding read_chunk next_round finish
      read_chunks zero max_chunks n p = (stuck, p)
      read_chunks (suc fuel) max_chunks n p =
          let step =
            next_round (read_chunks fuel max_chunks (n + 1))
              (read_chunk (suc fuel) p.remaining p) in
          if max_chunks == 0 || ltb n max_chunks then step else finish p

      unfoldable pub read_chunked : ℕ → ℕ → Post S → Code × Post S
      unfolding read_chunks
      read_chunked fuel max_chunks p = read_chunks fuel max_chunks 0 (record p { out_nbr = 0 })
