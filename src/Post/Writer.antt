-- ===== src/Post/Writer.antt =====
-- appendDataToHTTPChannel of http_data_handler.cpp for raw data, and the end of a chunked answer.
use gnu_my_server_gso_c.Base.{
  ℕ, zero, suc, ◌+◌, ◌/◌, ◌%◌, List, [], ◌∷◌, ◌++◌, Bool, true, false, Option, none, some, ltb,
  ◌==◌, if◌then◌else◌, length,
}
use gnu_my_server_gso_c.Post.Streams.{Stream}

unfoldable pub hex_char : ℕ → ℕ
hex_char n = if ltb n 10 then 48 + n else 87 + n

-- `<< hex << n` of a number of at most `digits` digits, before the text `acc`.
unfoldable pub hex_digits : ℕ → ℕ → List ℕ → List ℕ
unfolding hex_char
hex_digits zero n acc = acc
hex_digits (suc digits) n acc =
    let more = hex_digits digits (n / 16) (hex_char (n % 16) ∷ acc) in
    if n / 16 == 0 then hex_char n ∷ acc else more

-- The header of a chunk: a u_long of 64 bits has at most 16 digits.
unfoldable pub chunk_header : ℕ → List ℕ
unfolding hex_digits
chunk_header size = hex_digits 16 size [] ++ (13 ∷ 10 ∷ [])

-- The filters chain: its own writes and flushes, those of its last stream, and whether a filter
-- modifies the data. Both change the same state.
pub record Chain (S : Type 0) : Type 0 where
  pub modifies : Bool
  pub chain : Stream S
  pub stream : Stream S

-- The calls in order: the next is made if a call returned zero, else the function returns 1.
unfoldable pub and_then {ℓ} : {S : Type ℓ} → Option ℕ × S → (S → Bool × S) → Bool × S
and_then (none, s) next = (false, s)
and_then (some n, s) next = next s

unfoldable pub status {ℓ} : {S : Type ℓ} → Option ℕ × S → Bool × S
status (none, s) = (false, s)
status (some n, s) = (true, s)

module _ {S : Type 0} (c : Chain S) where
  unfoldable pub write_tail : Bool → S → Bool × S
  unfolding status
  write_tail use_chunks s =
      if use_chunks then status (c.stream.write (13 ∷ 10 ∷ []) s) else (true, s)

  unfoldable pub write_data : List ℕ → Bool → S → Bool × S
  unfolding and_then write_tail
  write_data buffer use_chunks s =
      if length buffer == 0
      then write_tail use_chunks s
      else and_then (c.chain.write buffer s) (write_tail use_chunks)

  unfoldable pub write_header : List ℕ → S → Bool × S
  unfolding and_then chunk_header write_data
  write_header buffer s =
      and_then (c.chain.flush s)
        λ t. and_then (c.stream.write (chunk_header (length buffer)) t) (write_data buffer true)

  unfoldable pub send : List ℕ → Bool → S → Bool × S
  unfolding write_header write_data
  send buffer use_chunks s = if use_chunks then write_header buffer s else write_data buffer false s

  -- The last chunk, as the handlers write it.
  unfoldable pub end_chunks : S → Bool × S
  unfolding status
  end_chunks s = status (c.stream.write (48 ∷ 13 ∷ 10 ∷ 13 ∷ 10 ∷ []) s)

  module _ {F : Type 0} (file : Stream F) where
    unfoldable pub in_file : Option ℕ × F → S → Bool × F × S
    in_file (none, f) s = (false, f, s)
    in_file (some n, f) s = (true, f, s)

    unfoldable pub with_file : F → Bool × S → Bool × F × S
    with_file f (b, s) = (b, f, s)

    -- The file of the append mode and the state of the chain; `true` is the return of 0.
    unfoldable pub append_data : List ℕ → Bool → Bool → F → S → Bool × F × S
    unfolding in_file with_file send
    append_data buffer append use_chunks f s =
        if c.modifies
        then (false, f, s)
        else if append
        then in_file (file.write buffer f) s
        else with_file f (send buffer use_chunks s)
