-- ===== src/Post/Data.antt =====
-- Reading the data of a chunk from a smooth reader into a reliable stream.
use gnu_my_server_gso_c.Base.{
  ℕ, ◌+◌, ◌-◌, ◌≤◌, ◌<◌, min, List, [], ◌∷◌, ◌++◌, Bool, true, false, Option, none, some, ◌==◌,
  if◌then◌else◌, length, length-append, ◌≡◌, refl, ap, ◌∙◌, ==_refl, arith,
}
use gnu_my_server_gso_c.Post.Streams.{Stream, IsReliable}
use gnu_my_server_gso_c.Post.Reader.{read_contiguous}
use gnu_my_server_gso_c.Post.Flow.{coming, read_contiguous_lem}
use gnu_my_server_gso_c.Post.Smooth.{
  Smooth, read_contiguous-Smooth, read_contiguous_progress, read_contiguous-crlf,
}
use gnu_my_server_gso_c.Post.Chunked.{
  Post, Part, again, Round, next_chunk, save, deliver, part_end, end_part, close_part, after_write,
  read_part,
}

-- What a first part of the data leaves.
split_bytes :
    (bs xs ys zs : List ℕ)
    → length bs ≤ length ys
    → bs ++ xs ≡ ys ++ zs
    → (more : List ℕ) × (ys ≡ bs ++ more) × (xs ≡ more ++ zs)
split_bytes [] xs ys zs l e = (ys, refl, e)
split_bytes (b ∷ bs) xs [] zs l e = absurd (omega arith)
split_bytes (b ∷ bs) xs (y ∷ ys) zs l e =
    let (more, p, q) = split_bytes bs xs ys zs (omega arith) (ground (arith, e)) in
    (more, ground (arith, e, p), q)

abbrev pub unread : Option ℕ → ℕ
unread none = 0
unread (some n) = n

module _ {S : Type 0} (view : S → List ℕ) where
  -- Between two calls: the destination has `xs`, and `w` is to come.
  pub record Holds (p : Post S) (xs w : List ℕ) : Type 0 where
    pub smooth : Smooth p.reader
    pub later : coming p.reader ≡ w
    pub sink : S
    pub is_open : p.out ≡ some sink
    pub saved : view sink ≡ xs
    pub between : unread p.remaining ≡ 0

  -- After a round of the data loop.
  pub record Goes (o : Part × Post S) (done : ℕ) (xs w : List ℕ) : Type 0 where
    pub part : o.0 ≡ again done
    pub holds : Holds o.1 xs w

  -- After a write.
  record Did (o : Bool × Post S) (xs w : List ℕ) : Type 0 where
    pub fine : o.0 ≡ true
    pub holds : Holds o.1 xs w

  -- After a chunk.
  pub record Read (o : Round × Post S) (xs w : List ℕ) : Type 0 where
    pub round : o.0 ≡ next_chunk
    pub holds : Holds o.1 xs w

  save-Did :
      (bs xs w : List ℕ) (o : Option ℕ × S) (p : Post S)
      → Holds p xs w
      → o.0 ≡ some (length bs)
      → view o.1 ≡ xs ++ bs
      → Did (save bs o p) (xs ++ bs) w
  unfolding save
  save-Did bs xs w (none, d) p h e v = absurd (ground (arith, e))
  save-Did bs xs w (some n, d) p h e v =
      let same : (n == length bs) ≡ true = ground (arith, e) in
      rw same (record {
        fine = refl;
        holds = record {
          smooth = h.smooth;
          later = h.later;
          sink = d;
          is_open = refl;
          saved = v;
          between = h.between;
        };
      })

  part_end-Goes :
      (size done : ℕ) (p : Post S) (xs w : List ℕ) (o : Option S) (d : S)
      → o ≡ some d
      → Holds p xs w
      → Goes (part_end size done p o) done xs w
  unfolding part_end
  part_end-Goes size done p xs w none d e h = absurd (ground (arith, e))
  part_end-Goes size done p xs w (some c) d e h = record { part = refl; holds = h }

  end_part-Goes :
      (size done : ℕ) (p : Post S) (xs w : List ℕ)
      → Holds p xs w
      → Goes (end_part size done p) done xs w
  unfolding end_part
  end_part-Goes size done p xs w h = part_end-Goes size done p xs w p.out h.sink h.is_open h

  close_part-Goes :
      (size done : ℕ) (p : Post S) (xs w : List ℕ)
      → (done == size) ≡ false
      → Holds p xs w
      → Goes (close_part size done p) done xs w
  unfolding close_part
  close_part-Goes size done p xs w e h = rw e (end_part-Goes size done p xs w h)

  close_part_end :
      (size : ℕ) (p : Post S) (xs w : List ℕ)
      → Holds p xs (13 ∷ 10 ∷ w)
      → Goes (close_part size size p) size xs w
  unfolding close_part
  close_part_end size p xs w h =
      let (smooth, in_time) = read_contiguous-Smooth 2 p.reader h.smooth in
      rw (==_refl size, in_time)
        (end_part-Goes size size (record p { reader = (read_contiguous 2 p.reader).reader }) xs w
          (record {
            smooth = smooth;
            later = read_contiguous-crlf p.reader w h.smooth h.later;
            sink = h.sink;
            is_open = h.is_open;
            saved = h.saved;
            between = h.between;
          }))

  after_write-Goes :
      (size done : ℕ) (o : Bool × Post S) (xs w : List ℕ)
      → (done == size) ≡ false
      → Did o xs w
      → Goes (after_write size done false o) done xs w
  unfolding after_write
  after_write-Goes size done (false, p) xs w e d = absurd (ground (arith, d.fine))
  after_write-Goes size done (true, p) xs w e d = close_part-Goes size done p xs w e d.holds

  after_write_end :
      (size done : ℕ) (o : Bool × Post S) (xs w : List ℕ)
      → done ≡ size
      → Did o xs (13 ∷ 10 ∷ w)
      → Goes (after_write size done false o) done xs w
  unfolding after_write
  after_write_end size done (false, p) xs w e d = absurd (ground (arith, d.fine))
  after_write_end size done (true, p) xs w e d = rw e (close_part_end size p xs w d.holds)

  -- What is still to come of a chunk when a round starts.
  pub record Waits (size done : ℕ) (p : Post S) (xs bs w : List ℕ) : Type 0 where
    pub holds : Holds p xs (bs ++ (13 ∷ 10 ∷ w))
    pub counts : done + length bs ≡ size
    pub some_left : 0 < length bs

  -- A round that takes a part of the data, or all that was left.
  pub record Took (size done : ℕ) (o : Part × Post S) (xs bs w : List ℕ) : Type 0 where
    pub taken : List ℕ
    pub left : List ℕ
    pub parts : bs ≡ taken ++ left
    pub takes : 0 < length taken
    pub goes :
        Goes o
          (done + length taken)
          (xs ++ taken)
          (if length left == 0 then w else left ++ (13 ∷ 10 ∷ w))

  module _ (stream : Stream S) (reliable : IsReliable stream view) where
    deliver-Did :
        (bs xs w : List ℕ) (o : Option S) (p : Post S) (d : S)
        → o ≡ some d
        → view d ≡ xs
        → Holds p xs w
        → Did (deliver stream bs o p) (xs ++ bs) w
    unfolding deliver
    deliver-Did bs xs w none p d e v h = absurd (ground (arith, e))
    deliver-Did bs xs w (some c) p d e v h =
        let same : c ≡ d = ground (arith, e) in
        save-Did bs xs w (stream.write bs c) p h (reliable.writes bs c)
          (reliable.keeps bs c ∙ ap (λ y. view y ++ bs) same ∙ ap (λ ys. ys ++ bs) v)

    module _ (out_size : ℕ) (room : 0 < out_size) where
      after_write-Took :
          (size done : ℕ) (o : Bool × Post S) (xs taken left w : List ℕ)
          → done + length taken + length left ≡ size
          → Did o (xs ++ taken) (left ++ (13 ∷ 10 ∷ w))
          → Goes
              (after_write size (done + length taken) false o)
              (done + length taken)
              (xs ++ taken)
              (if length left == 0 then w else left ++ (13 ∷ 10 ∷ w))
      after_write-Took size done o xs taken [] w e d =
          after_write_end size (done + length taken) o (xs ++ taken) w (omega arith) d
      after_write-Took size done o xs taken (l ∷ ls) w e d =
          let more : (done + length taken == size) ≡ false = ground arith in
          let some_left : (length (l ∷ ls) == 0) ≡ false = ground arith in
          rw some_left (
            after_write-Goes size (done + length taken) o (xs ++ taken) ((l ∷ ls) ++ (13 ∷ 10 ∷ w))
              more d)

      pub read_part-Took :
          (size done : ℕ) (p : Post S) (xs bs w : List ℕ)
          → Waits size done p xs bs w
          → Took size done (read_part stream out_size size done p) xs bs w
      unfolding read_part
      read_part-Took size done p xs bs w h =
          let len = min out_size (size - done) in
          let got = read_contiguous len p.reader in
          let q = record p { reader = got.reader; out_buffer = got.bytes } in
          let (keeps, short) = read_contiguous_lem len p.reader in
          let (smooth, in_time) = read_contiguous-Smooth len p.reader h.holds.smooth in
          let coming_some : 0 < length (coming p.reader) =
            rw (h.holds.later, length-append bs (13 ∷ 10 ∷ w)) (omega (arith, h.some_left)) in
          let some_read =
            read_contiguous_progress len p.reader h.holds.smooth
              (omega (arith, h.some_left, h.counts)) coming_some in
          let (left, parts, later) =
            split_bytes got.bytes (coming got.reader) bs (13 ∷ 10 ∷ w)
              (omega (arith, h.counts, short)) (keeps ∙ h.holds.later) in
          let holds : Holds q xs (left ++ (13 ∷ 10 ∷ w)) = record {
            smooth = smooth;
            later = later;
            sink = h.holds.sink;
            is_open = h.holds.is_open;
            saved = h.holds.saved;
            between = h.holds.between;
          } in
          let did =
            deliver-Did got.bytes xs (left ++ (13 ∷ 10 ∷ w)) q.out q h.holds.sink h.holds.is_open
              h.holds.saved holds in
          let not_none : (length got.bytes == 0) ≡ false = ground (arith, some_read) in
          let counts : done + length got.bytes + length left ≡ size =
            omega (arith, h.counts, ap length parts, length-append got.bytes left) in
          rw (not_none, in_time)
            (record {
              taken = got.bytes;
              left = left;
              parts = parts;
              takes = some_read;
              goes =
                  after_write-Took size done (deliver stream got.bytes q.out q) xs got.bytes left w
                    counts did;
            })
