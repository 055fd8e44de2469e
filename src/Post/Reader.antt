-- ===== src/Post/Reader.antt =====
-- readContiguousPrimitivePostData of http_data_read.cpp: first from the buffer that came with the
-- header, then from the socket.
use gnu_my_server_gso_c.Base.{
  ℕ, ◌-◌, List, [], ◌++◌, Bool, true, false, Option, none, some, ◌==◌, if◌then◌else◌, length, take,
  drop,
}
use gnu_my_server_gso_c.Post.Streams.{Arrival, recv}

-- `ahead` is the part of inBuffer from *inBufferPos to inBufferSize: the position only moves by what
-- is taken from it.
pub record Reader : Type 0 where
  pub ahead : List ℕ
  pub arrivals : List Arrival

-- What a call returns: `timed_out` for -1, the `bytes` that it put in outBuffer, *nbr of them, and
-- the reader after it.
pub record Got : Type 0 where
  pub timed_out : Bool
  pub bytes : List ℕ
  pub reader : Reader

-- The socket is read only when the buffer is used up.
unfoldable pub add_received : List ℕ → Option (List ℕ) × List Arrival → Got
add_received bs (none, arrivals) = record {
  timed_out = true;
  bytes = bs;
  reader = record { ahead = []; arrivals = arrivals };
}
add_received bs (some more, arrivals) = record {
  timed_out = false;
  bytes = bs ++ more;
  reader = record { ahead = []; arrivals = arrivals };
}

unfoldable pub read_contiguous : ℕ → Reader → Got
unfolding add_received recv
read_contiguous out_size r =
    let bs = take out_size r.ahead in
    if out_size == length bs
    then record {
      timed_out = false;
      bytes = bs;
      reader = record r { ahead = drop out_size r.ahead };
    }
    else add_received bs (recv (out_size - length bs) r.arrivals)
