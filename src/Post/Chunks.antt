-- ===== src/Post/Chunks.antt =====
-- readChunkedPostData on a body in chunks.
use mathlib.Core.List.{append_assoc, append-nil}
use gnu_my_server_gso_c.Base.{
  ℕ, zero, suc, ◌+◌, ◌<◌, List, [], ◌∷◌, ◌++◌, true, false, Option, none, some, ltb, ◌==◌,
  if◌then◌else◌, length, length-append, ◌≡◌, refl, sym, ap, ◌∙◌, lt→ltb, arith,
}
use gnu_my_server_gso_c.Post.Streams.{Stream, IsReliable}
use gnu_my_server_gso_c.Post.Reader.{Reader}
use gnu_my_server_gso_c.Post.Chunked.{
  Post, Part, again, Round, read_part, go_on, read_data, start_chunk, read_chunk, read_size,
}
use gnu_my_server_gso_c.Post.Lines.{Leaves}
use gnu_my_server_gso_c.Post.Data.{unread, Holds, Read, Waits, read_part-Took}

module _ {S : Type 0} where
  go_on_again :
      (loop : ℕ → Post S → Round × Post S) (o : Part × Post S) (d : ℕ)
      → o.0 ≡ again d
      → go_on loop o ≡ loop d o.1
  unfolding go_on
  go_on_again loop (again c, p) d e = ap (λ n. loop n p) (ground (arith, e))
  go_on_again loop (Part.leave, p) d e = absurd (ground (arith, e))
  go_on_again loop (Part.return c, p) d e = absurd (ground (arith, e))

  module _ (stream : Stream S) (out_size : ℕ) where
    pub read_chunk_new :
        (fuel : ℕ) (o : Option ℕ) (p : Post S)
        → unread o ≡ 0
        → read_chunk stream out_size fuel o p
          ≡ start_chunk stream out_size fuel (read_size p.reader) p
    unfolding read_chunk
    read_chunk_new fuel none p e = refl
    read_chunk_new fuel (some zero) p e = refl
    read_chunk_new fuel (some (suc n)) p e = absurd (omega arith)

  module _ (view : S → List ℕ) (stream : Stream S) (reliable : IsReliable stream view)
      (out_size : ℕ) (room : 0 < out_size) where
    read_data_end :
        (fuel size done : ℕ) (p : Post S) (xs w : List ℕ)
        → done ≡ size
        → 0 < fuel
        → Holds view p xs w
        → Read view (read_data stream out_size fuel size done p) xs w
    unfolding read_data
    read_data_end zero size done p xs w e l h = absurd (omega arith)
    read_data_end (suc fuel) size done p xs w e l h =
        let stop : ltb done size ≡ false = ground (arith, e) in
        rw stop (record { round = refl; holds = h })

    abbrev Reads : ℕ → ℕ → Type 0
    Reads fuel size =
        (done : ℕ) (p : Post S) (xs bs w : List ℕ)
        → Waits view size done p xs bs w
        → length bs < fuel
        → Read view (read_data stream out_size fuel size done p) (xs ++ bs) w

    read_data_next :
        (fuel size done : ℕ) (p : Post S) (xs left w : List ℕ)
        → Reads fuel size
        → Holds view p xs (if length left == 0 then w else left ++ (13 ∷ 10 ∷ w))
        → done + length left ≡ size
        → length left < fuel
        → Read view (read_data stream out_size fuel size done p) (xs ++ left) w
    read_data_next fuel size done p xs [] w ih h e l =
        rw (append-nil xs) (read_data_end fuel size done p xs w (omega arith) (omega arith) h)
    read_data_next fuel size done p xs (b ∷ bs) w ih h e l =
        let some_left : (length (b ∷ bs) == 0) ≡ false = ground arith in
        ih done p xs (b ∷ bs) w
          (record { holds = rw some_left at h; counts = e; some_left = omega arith }) l

    read_data-Read : (fuel size : ℕ) → Reads fuel size
    unfolding read_data
    read_data-Read zero size done p xs bs w h l = absurd (omega arith)
    read_data-Read (suc fuel) size done p xs bs w h l =
        let o = read_part stream out_size size done p in
        let t = read_part-Took view stream reliable out_size room size done p xs bs w h in
        let more : ltb done size ≡ true = lt→ltb done size (omega (arith, h.counts, h.some_left)) in
        let lengths : length bs ≡ length t.taken + length t.left =
          ap length t.parts ∙ length-append t.taken t.left in
        let later =
          read_data_next fuel size (done + length t.taken) o.1 (xs ++ t.taken) t.left w
            (read_data-Read fuel size) t.goes.holds (omega (arith, h.counts, lengths))
            (omega (arith, t.takes, lengths)) in
        rw
          (
            more,
            go_on_again (read_data stream out_size fuel size) o (done + length t.taken) t.goes.part,
            t.parts,
            sym (append_assoc xs t.taken t.left),
          )
          later

    pub start_chunk-Read :
        (fuel : ℕ) (o : Option ℕ × Reader) (p : Post S) (xs bs w v : List ℕ)
        → Leaves o (length bs) (bs ++ (13 ∷ 10 ∷ w))
        → 0 < length bs
        → length bs < fuel
        → Holds view p xs v
        → Read view (start_chunk stream out_size fuel o p) (xs ++ bs) w
    unfolding start_chunk
    start_chunk-Read fuel (none, r) p xs bs w v e m l h = absurd (ground (arith, e.result))
    start_chunk-Read fuel (some size, r) p xs bs w v e m l h =
        let same : size ≡ length bs = ground (arith, e.result) in
        let some_size : (size == 0) ≡ false = ground (arith, same, m) in
        rw some_size (
          read_data-Read fuel size 0 (record p { reader = r }) xs bs w
            (record {
              holds = record {
                smooth = e.smooth;
                later = e.later;
                sink = h.sink;
                is_open = h.is_open;
                saved = h.saved;
                between = h.between;
              };
              counts = omega (arith, same);
              some_left = m;
            })
            l)
