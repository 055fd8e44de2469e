-- ===== src/Post/Body.antt =====
-- readPostData of http_data_read.cpp: the body of a request goes to a temporary file.
use gnu_my_server_gso_c.Base.{
  ℕ, zero, suc, ◌-◌, List, [], ◌∷◌, Bool, true, false, ◌&&◌, ◌||◌, Option, none, some, ltb, leb,
  ◌==◌, if◌then◌else◌, length,
}
use gnu_my_server_gso_c.Base.Int.{ℤ, pos, negsuc}
use gnu_my_server_gso_c.Text.Decimal.{atoi}
use gnu_my_server_gso_c.Post.Streams.{Stream}
use gnu_my_server_gso_c.Post.Reader.{Reader, Got, read_contiguous}
use gnu_my_server_gso_c.Post.Chunked.{Code, success, failure, stuck, Post, read_chunked}

-- The fields of the request that the function reads: the text of content-length, empty if there is
-- none, and the values of the headers.
pub record Request : Type 0 where
  pub content_length : List ℕ
  pub keep_alive : Bool
  pub content_encoding : Option (List ℕ)
  pub transfer_encoding : Option (List ℕ)

-- What is returned: 0, 1 with the HTTP status, or -1; `no_fuel` is the loop without fuel.
pub data Answer : Type 0 where
  received lost no_fuel : Answer
  refused : ℕ → Answer

unfoldable pub same_text : List ℕ → List ℕ → Bool
same_text [] [] = true
same_text [] (d ∷ ds) = false
same_text (c ∷ cs) [] = false
same_text (c ∷ cs) (d ∷ ds) = (c == d) && same_text cs ds

abbrev pub chunked_text : List ℕ
chunked_text = 99 ∷ 104 ∷ 117 ∷ 110 ∷ 107 ∷ 101 ∷ 100 ∷ []

-- The value of content-length: not given, negative, or a number.
pub data Expected : Type 0 where
  unknown negative : Expected
  bytes : ℕ → Expected

unfoldable pub as_expected : ℤ → Expected
as_expected (pos n) = bytes n
as_expected (negsuc n) = negative

unfoldable pub expected : List ℕ → Expected
unfolding as_expected atoi
expected [] = unknown
expected (c ∷ cs) = as_expected (atoi (c ∷ cs))

-- `dimBuffer`: do not read more than what is expected.
unfoldable pub dim_buffer : ℕ → Option ℕ → ℕ
dim_buffer room none = room
dim_buffer room (some left) = if ltb left room then left else room

-- What is left of the content length after `nbr` bytes, or `none` if these are more.
unfoldable pub count_down : Option ℕ → ℕ → Option (Option ℕ)
count_down none nbr = some none
count_down (some left) nbr = if leb nbr left then some (some (left - nbr)) else none

unfoldable pub complete : Option ℕ → Bool
complete none = false
complete (some left) = left == 0

unfoldable pub left_of : Expected → Option ℕ
left_of unknown = none
left_of negative = none
left_of (bytes n) = some n

-- A keep-alive request with an empty content-encoding and no length.
unfoldable pub no_length : Request → Expected → Bool
no_length q unknown =
    q.keep_alive && elim q.content_encoding [ none ↦ false | some v ↦ length v == 0 ]
no_length q negative = false
no_length q (bytes n) = false

unfoldable pub is_negative : Expected → Bool
is_negative unknown = false
is_negative negative = true
is_negative (bytes n) = false

module _ {F : Type 0} where
  -- The end of a round of the loop, with the loop for the next.
  unfoldable pub end_round :
      (Option ℕ → Reader → F → Answer × F) → Option ℕ → Got → Bool × F → Answer × F
  unfolding complete
  end_round loop left got (false, f) = (lost, f)
  end_round loop left got (true, f) =
      let more = loop left got.reader f in
      if got.timed_out || length got.bytes == 0 || complete left then (received, f) else more

  unfoldable pub write_done : Option ℕ × F → Bool × F
  write_done (none, f) = (false, f)
  write_done (some nbw, f) = (true, f)

  unfoldable pub save_bytes : Stream F → List ℕ → F → Bool × F
  unfolding write_done
  save_bytes file bs f = if length bs == 0 then (true, f) else write_done (file.write bs f)

  unfoldable pub counted :
      Stream F → (Option ℕ → Reader → F → Answer × F) → Option (Option ℕ) → Got → F → Answer × F
  unfolding end_round save_bytes
  counted file loop none got f = (refused 400, f)
  counted file loop (some left) got f = end_round loop left got (save_bytes file got.bytes f)

  -- The loop that reads without a transfer encoding; `left` is the content length that is left, if
  -- one was given.
  unfoldable pub read_plain : Stream F → ℕ → ℕ → Option ℕ → Reader → F → Answer × F
  unfolding read_contiguous dim_buffer count_down counted
  read_plain file room zero left r f = (no_fuel, f)
  read_plain file room (suc fuel) left r f =
      let got = read_contiguous (dim_buffer room left) r in
      counted file (read_plain file room fuel) (count_down left (length got.bytes)) got f

  -- `compare ("chunked") == 0` and the return of the chunked read.
  unfoldable pub of_code : F → Code × Post F → Answer × F
  of_code f (success, p) = (received, elim p.out [ none ↦ f | some g ↦ g ])
  of_code f (failure, p) = (lost, elim p.out [ none ↦ f | some g ↦ g ])
  of_code f (stuck, p) = (no_fuel, elim p.out [ none ↦ f | some g ↦ g ])

  unfoldable pub read_encoded : Stream F → ℕ → ℕ → List ℕ → Reader → F → Answer × F
  unfolding same_text of_code read_chunked
  read_encoded file room fuel encoding r f =
      if same_text encoding chunked_text
      then of_code f (
          read_chunked file room fuel 0
            (record { reader = r; out = some f; out_nbr = 0; remaining = none; out_buffer = [] }))
      else (refused 501, f)

  unfoldable pub read_encoding :
      Stream F → ℕ → ℕ → Option (List ℕ) → Expected → Reader → F → Answer × F
  unfolding read_encoded left_of read_plain
  read_encoding file room fuel none e r f = read_plain file room fuel (left_of e) r f
  read_encoding file room fuel (some encoding) e r f = read_encoded file room fuel encoding r f

  -- `createTemporaryFile` gives the empty file, or `none` where it fails.
  unfoldable pub open_file :
      Stream F → ℕ → ℕ → Request → Expected → Option F → Reader → Answer × Option F
  unfolding read_encoding
  open_file file room fuel q e none r = (refused 500, none)
  open_file file room fuel q e (some f) r =
      let (a, g) = read_encoding file room fuel q.transfer_encoding e r f in (a, some g)

  -- `room` is the length of the auxiliary buffer without its last byte.
  unfoldable pub read_post_data : Stream F → ℕ → ℕ → Request → Option F → Reader → Answer × Option F
  unfolding expected no_length is_negative open_file
  read_post_data file room fuel q made r =
      let e = expected q.content_length in
      if is_negative e
      then (refused 400, none)
      else if no_length q e
      then (refused 400, none)
      else open_file file room fuel q e made r
