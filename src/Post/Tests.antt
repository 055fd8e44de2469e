-- ===== src/Post/Tests.antt =====
-- The theorems on the post data at concrete inputs, and runs of the code.
use gnu_my_server_gso_c.Base.{
  ◌↔◌, ℕ, ◌≤◌, List, [], ◌∷◌, ◌++◌, true, false, none, some, length, take, ◌≡◌, ◌≢◌, refl, arith,
}
use gnu_my_server_gso_c.Post.Streams.{Stream, IsReliable, packet}
use gnu_my_server_gso_c.Post.Reader.{Reader, read_contiguous}
use gnu_my_server_gso_c.Post.Flow.{coming, read_contiguous_lem}
use gnu_my_server_gso_c.Post.Smooth.{ends_cr}
use gnu_my_server_gso_c.Post.Ends.{read_chunked-ne-stuck}
use gnu_my_server_gso_c.Post.Chunked.{success, stuck, Post, read_chunked}
use gnu_my_server_gso_c.Post.Writer.{Chain}
use gnu_my_server_gso_c.Post.RoundTrip.{Returned, joined}
use gnu_my_server_gso_c.Post.Sender.{send_body, read_chunked-send_body}
use gnu_my_server_gso_c.Post.Body.{
  Request, same_text, chunked_text, received, refused, no_fuel, bytes, expected, read_post_data,
}
use gnu_my_server_gso_c.Post.Received.{
  read_post_data-ne-no_fuel, read_post_data_lem, read_post_data_bound,
}
use gnu_my_server_gso_c.Post.Refused.{refusal, Matches, read_post_data-Matches}

-- A stream that keeps all in memory.
abbrev memory : Stream (List ℕ)
memory = record { write = λ bs s. (some (length bs), s ++ bs); flush = λ s. (some 0, s) }

abbrev contents : List ℕ → List ℕ
contents s = s

memory-IsReliable : IsReliable memory contents
memory-IsReliable = record {
  writes = λ bs s. refl;
  keeps = λ bs s. refl;
  flushes = λ s. refl;
  still = λ s. refl;
}

abbrev plain_chain : Chain (List ℕ)
plain_chain = record { modifies = false; chain = memory; stream = memory }

abbrev two_buffers : List (List ℕ)
two_buffers = (97 ∷ 98 ∷ 99 ∷ []) ∷ (100 ∷ []) ∷ []

-- "3\r\nabc\r\n1\r\nd\r\n0\r\n\r\n", partly in the buffer.
abbrev on_the_wire : Reader
on_the_wire = record {
  ahead = 51 ∷ 13 ∷ 10 ∷ 97 ∷ [];
  arrivals =
      packet (98 ∷ 99 ∷ 13 ∷ 10 ∷ 49 ∷ [])
      ∷ packet (13 ∷ 10 ∷ 100 ∷ 13 ∷ 10 ∷ 48 ∷ 13 ∷ 10 ∷ 13 ∷ 10 ∷ [])
      ∷ [];
}

abbrev start : Reader → Post (List ℕ)
start r = record { reader = r; out = some []; out_nbr = 0; remaining = none; out_buffer = [] }

sends : send_body plain_chain memory two_buffers [] [] ≡ (true, coming on_the_wire)
unfolding send_body coming
sends = refl

sends_view : coming on_the_wire ≡ contents (send_body plain_chain memory two_buffers [] []).1
unfolding send_body coming
sends_view = refl

wire_length : length (coming on_the_wire) ≡ 19
unfolding coming
wire_length = refl

smooth_ends :
    (ends_cr (98 ∷ 99 ∷ 13 ∷ 10 ∷ 49 ∷ []) ≡ false)
    × (ends_cr (13 ∷ 10 ∷ 100 ∷ 13 ∷ 10 ∷ 48 ∷ 13 ∷ 10 ∷ 13 ∷ 10 ∷ []) ≡ false)
unfolding ends_cr
smooth_ends = (refl, refl)

read_contiguous_example :
    ((read_contiguous 6 on_the_wire).bytes ++ coming (read_contiguous 6 on_the_wire).reader
      ≡ coming on_the_wire)
    × (length (read_contiguous 6 on_the_wire).bytes ≤ 6)
read_contiguous_example = read_contiguous_lem 6 on_the_wire

read_chunked-ends_example : (read_chunked memory 2 20 0 (start on_the_wire)).0 ≢ stuck
read_chunked-ends_example =
    read_chunked-ne-stuck memory 2 20 0 (start on_the_wire) (omega (arith, wire_length))

read_chunked_example :
    Returned contents
      (read_chunked memory 2 20 0 (start on_the_wire))
      (contents [] ++ joined two_buffers)
      (13 ∷ 10 ∷ [])
read_chunked_example =
    read_chunked-send_body contents plain_chain memory memory contents 2 two_buffers [] [] 20
      on_the_wire [] memory-IsReliable memory-IsReliable refl memory-IsReliable (omega arith)
      (omega arith) refl (smooth_ends.0, (smooth_ends.1, tt)) sends_view
      (omega (arith, wire_length))

read_chunked_runs :
    (read_chunked memory 2 20 0 (start on_the_wire)).1.out ≡ some (97 ∷ 98 ∷ 99 ∷ 100 ∷ [])
unfolding read_chunked
read_chunked_runs = refl

-- A packet that ends between the carriage return and the line feed after a chunk: the line feed is
-- taken for a size, the text that follows has the value 0, and the body ends early without an error.
cut_line_end :
    (read_chunked memory 8 30 0 (
      start (record {
        ahead = [];
        arrivals =
            packet (49 ∷ 13 ∷ 10 ∷ 97 ∷ 13 ∷ [])
            ∷ packet (10 ∷ 49 ∷ 13 ∷ 10 ∷ 98 ∷ 13 ∷ 10 ∷ 48 ∷ 13 ∷ 10 ∷ [])
            ∷ [];
      }))).0
    ≡ success
unfolding read_chunked
cut_line_end = refl

cut_line_end_lost :
    (read_chunked memory 8 30 0 (
      start (record {
        ahead = [];
        arrivals =
            packet (49 ∷ 13 ∷ 10 ∷ 97 ∷ 13 ∷ [])
            ∷ packet (10 ∷ 49 ∷ 13 ∷ 10 ∷ 98 ∷ 13 ∷ 10 ∷ 48 ∷ 13 ∷ 10 ∷ [])
            ∷ [];
      }))).1.out
    ≡ some (97 ∷ [])
unfolding read_chunked
cut_line_end_lost = refl

-- content-length: 3
abbrev three_bytes : Request
three_bytes = record {
  content_length = 51 ∷ [];
  keep_alive = true;
  content_encoding = none;
  transfer_encoding = none;
}

abbrev four_come : Reader
four_come = record { ahead = 97 ∷ []; arrivals = packet (98 ∷ 99 ∷ 100 ∷ []) ∷ [] }

expects_three : expected three_bytes.content_length ≡ bytes 3
unfolding expected
expects_three = refl

four_length : length (coming four_come) ≡ 4
unfolding coming
four_length = refl

read_post_data_example :
    (g : List ℕ) × (read_post_data memory 2 9 three_bytes (some []) four_come ≡ (received, some g))
    × (contents g ≡ contents [] ++ take 3 (coming four_come))
read_post_data_example =
    read_post_data_lem contents memory 2 9 3 three_bytes [] four_come memory-IsReliable
      expects_three refl (omega arith) (refl, tt) (omega (arith, four_length))

read_post_data-bound_example :
    (g : List ℕ) × (ys : List ℕ) × (zs : List ℕ) × ((read_post_data memory 2 9 three_bytes
        (some [])
        four_come).1
      ≡ some g)
    × (contents g ≡ contents [] ++ ys)
    × (ys ++ zs ≡ coming four_come)
    × (length ys ≤ 3)
read_post_data-bound_example =
    read_post_data_bound contents memory 2 9 3 three_bytes [] four_come memory-IsReliable
      expects_three refl

read_post_data-ends_example :
    (read_post_data memory 2 9 three_bytes (some []) four_come).0 ≢ no_fuel
read_post_data-ends_example =
    read_post_data-ne-no_fuel memory 2 9 three_bytes (some []) four_come
      (omega (arith, four_length))

-- transfer-encoding: gzip
abbrev zipped : Request
zipped = record three_bytes { transfer_encoding = some (103 ∷ 122 ∷ 105 ∷ 112 ∷ []) }

read_post_data-refused_example :
    Matches
      (read_post_data memory 2 9 zipped (some []) four_come).0
      (refusal {F = List ℕ} zipped (some []))
    × ((t : List ℕ) → (same_text t chunked_text ≡ true) ↔ (t ≡ chunked_text))
read_post_data-refused_example = read_post_data-Matches memory 2 9 zipped (some []) four_come

zipped_refused : read_post_data memory 2 9 zipped (some []) four_come ≡ (refused 501, some [])
unfolding read_post_data
zipped_refused = refl
