-- ===== src/Post/Sender.antt =====
-- What appendDataToHTTPChannel sends in chunks, and its way back.
use mathlib.Core.List.{append_assoc}
use gnu_my_server_gso_c.Base.{
  ℕ, ◌<◌, List, [], ◌∷◌, ◌++◌, Bool, true, false, Option, none, some, ◌==◌, if◌then◌else◌, length,
  ◌≡◌, refl, sym, ap, ◌∙◌, arith,
}
use gnu_my_server_gso_c.Post.Streams.{Stream, IsReliable}
use gnu_my_server_gso_c.Post.Reader.{Reader}
use gnu_my_server_gso_c.Post.Flow.{coming}
use gnu_my_server_gso_c.Post.Smooth.{Smooth}
use gnu_my_server_gso_c.Post.Chunked.{Post, read_chunked}
use gnu_my_server_gso_c.Post.RoundTrip.{wire, joined, Sendable, Returned, read_chunks-Returned}
use gnu_my_server_gso_c.Post.Writer.{
  chunk_header, Chain, and_then, status, write_tail, write_data, write_header, send, end_chunks,
  with_file, append_data,
}

-- A handler that sends buffers in chunks and then the last chunk.
unfoldable pub send_body : {S F : Type 0} → Chain S → Stream F → List (List ℕ) → F → S → Bool × S
unfolding append_data end_chunks
send_body c file [] f s = end_chunks c s
send_body c file (b ∷ bs) f s =
    let (fine, g, t) = append_data c file b false true f s in
    let later = send_body c file bs g t in if fine then later else (false, t)

module _ {S : Type 0} (view : S → List ℕ) where
  -- A call has succeeded, and `ys` is sent.
  record Sent (o : Bool × S) (ys : List ℕ) : Type 0 where
    pub fine : o.0 ≡ true
    pub told : view o.1 ≡ ys

  and_then-Sent :
      (o : Option ℕ × S) (next : S → Bool × S) (n : ℕ) (ys : List ℕ)
      → o.0 ≡ some n
      → Sent (next o.1) ys
      → Sent (and_then o next) ys
  unfolding and_then
  and_then-Sent (none, s) next n ys e h = absurd (ground (arith, e))
  and_then-Sent (some m, s) next n ys e h = h

  status-Sent :
      (o : Option ℕ × S) (n : ℕ) (ys : List ℕ) → o.0 ≡ some n → view o.1 ≡ ys → Sent (status o) ys
  unfolding status
  status-Sent (none, s) n ys e h = absurd (ground (arith, e))
  status-Sent (some m, s) n ys e h = record { fine = refl; told = h }

  module _ (c : Chain S) (stream : IsReliable c.stream view) where
    write_tail-Sent : (s : S) → Sent (write_tail c true s) (view s ++ (13 ∷ 10 ∷ []))
    unfolding write_tail
    write_tail-Sent s =
        status-Sent (c.stream.write (13 ∷ 10 ∷ []) s) 2 (view s ++ (13 ∷ 10 ∷ []))
          (stream.writes (13 ∷ 10 ∷ []) s) (stream.keeps (13 ∷ 10 ∷ []) s)

    end_chunks-Sent : (s : S) → Sent (end_chunks c s) (view s ++ wire [] (13 ∷ 10 ∷ []))
    unfolding end_chunks wire
    end_chunks-Sent s =
        let last = 48 ∷ 13 ∷ 10 ∷ 13 ∷ 10 ∷ [] in
        status-Sent (c.stream.write last s) 5 (view s ++ last) (stream.writes last s)
          (stream.keeps last s)

    module _ (chain : IsReliable c.chain view) where
      write_data-Sent :
          (b : List ℕ) (s : S)
          → 0 < length b
          → Sent (write_data c b true s) ((view s ++ b) ++ (13 ∷ 10 ∷ []))
      unfolding write_data
      write_data-Sent b s l =
          let some_data : (length b == 0) ≡ false = ground (arith, l) in
          let tail = write_tail-Sent (c.chain.write b s).1 in
          rw some_data (
            and_then-Sent (c.chain.write b s) (write_tail c true) (length b)
              ((view s ++ b) ++ (13 ∷ 10 ∷ [])) (chain.writes b s)
              (rw (sym (chain.keeps b s)) tail))

      -- One chunk.
      write_header-Sent :
          (b : List ℕ) (s : S)
          → 0 < length b
          → Sent (write_header c b s) (((view s ++ chunk_header (length b)) ++ b) ++ (13 ∷ 10 ∷ []))
      unfolding write_header
      write_header-Sent b s l =
          let t = (c.chain.flush s).1 in
          let h = chunk_header (length b) in
          let told = stream.keeps h t ∙ ap (λ ys. ys ++ h) (chain.still s) in
          let rest = write_data-Sent b (c.stream.write h t).1 l in
          and_then-Sent (c.chain.flush s)
            (λ u. and_then (c.stream.write (chunk_header (length b)) u) (write_data c b true)) 0
            (((view s ++ h) ++ b) ++ (13 ∷ 10 ∷ [])) (chain.flushes s)
            (and_then-Sent (c.stream.write h t) (write_data c b true) (length h)
              (((view s ++ h) ++ b) ++ (13 ∷ 10 ∷ [])) (stream.writes h t) (rw (sym told) rest))

      header-wire :
          (ys b : List ℕ) (bs : List (List ℕ)) (w : List ℕ)
          → (((ys ++ chunk_header (length b)) ++ b) ++ (13 ∷ 10 ∷ [])) ++ wire bs w
            ≡ ys ++ wire (b ∷ bs) w
      unfolding chunk_header wire
      header-wire ys b bs w = simp append_assoc

      -- Without filters, each buffer goes out as a chunk, and the answer ends with the last chunk.
      send_body-Sent :
          {F : Type 0} (file : Stream F) (bs : List (List ℕ)) (f : F) (s : S)
          → c.modifies ≡ false
          → Sendable bs
          → Sent (send_body c file bs f s) (view s ++ wire bs (13 ∷ 10 ∷ []))
      unfolding send_body append_data with_file send
      send_body-Sent file [] f s raw h = end_chunks-Sent s
      send_body-Sent file (b ∷ bs) f s raw h =
          let one = write_header-Sent b s h.0 in
          let later = send_body-Sent file bs f (write_header c b s).1 raw h.2 in
          rw (raw, one.fine, sym (header-wire (view s) b bs (13 ∷ 10 ∷ [])), sym one.told) later

-- The chunks that appendDataToHTTPChannel sends through a chain without filters, over streams that
-- take all, are read back by readChunkedPostData: it returns 0, its destination has got the data of
-- all the buffers in their order, and the line end after the last chunk is left. No buffer is empty or
-- has 2 ^ 31 bytes, and the reader has a buffer of at least one byte and fuel for the bytes that come.
-- The bytes come in packets of any sizes, without errors and time-outs, and none ends with a carriage
-- return.
pub read_chunked-send_body :
    {S F D : Type 0} (view : S → List ℕ) (c : Chain S) (file : Stream F) (out : Stream D)
    (look : D → List ℕ) (out_size : ℕ) (bs : List (List ℕ)) (f : F) (s : S) (fuel : ℕ) (r : Reader)
    (d : D)
    → IsReliable c.chain view
    → IsReliable c.stream view
    → c.modifies ≡ false
    → IsReliable out look
    → 0 < out_size
    → Sendable bs
    → view s ≡ []
    → Smooth r
    → coming r ≡ view (send_body c file bs f s).1
    → length (coming r) < fuel
    → Returned look
        (read_chunked out out_size fuel 0
          (record { reader = r; out = some d; out_nbr = 0; remaining = none; out_buffer = [] }))
        (look d ++ joined bs)
        (13 ∷ 10 ∷ [])
unfolding read_chunked
read_chunked-send_body view c file out look out_size bs f s fuel r d chain stream raw reliable room
      h empty smooth e l =
    let told =
      (send_body-Sent view c stream chain file bs f s raw h).told
      ∙ ap (λ ys. ys ++ wire bs (13 ∷ 10 ∷ [])) empty in
    let start : Post _ = record {
      reader = r;
      out = some d;
      out_nbr = 0;
      remaining = none;
      out_buffer = [];
    } in
    read_chunks-Returned look out reliable out_size room fuel 0 start (look d) bs (13 ∷ 10 ∷ [])
      (record {
        smooth = smooth;
        later = e ∙ told;
        sink = d;
        is_open = refl;
        saved = refl;
        between = refl;
      })
      h (omega (arith, l, ap length (e ∙ told)))
