-- ===== src/Post/Streams.antt =====
-- class Stream (stream.h) as the callers see it, and the calls of Socket::recv.
use gnu_my_server_gso_c.Base.{ℕ, List, [], ◌∷◌, ◌++◌, Option, none, some, ◌≡◌, length, take, drop}

-- A write, or a flush, returns nonzero (`none`) or sets the number of bytes written.
pub record Stream (S : Type 0) : Type 0 where
  pub write : List ℕ → S → Option ℕ × S
  pub flush : S → Option ℕ × S

-- What the network has for the next call of `recv`: bytes, of which the call takes as many as it
-- asks for, or an error. No bytes stand for a time-out. When the list ends, the peer has closed.
pub data Arrival : Type 0 where
  packet : List ℕ → Arrival
  failed : Arrival

-- What a call leaves of a packet.
unfoldable pub leave : List ℕ → List Arrival → List Arrival
leave [] arrivals = arrivals
leave (b ∷ bs) arrivals = packet (b ∷ bs) ∷ arrivals

-- Socket::recv with a time-out: `none` is -1.
unfoldable pub recv : ℕ → List Arrival → Option (List ℕ) × List Arrival
unfolding leave
recv len [] = (some [], [])
recv len (failed ∷ arrivals) = (none, arrivals)
recv len (packet bs ∷ arrivals) = (some (take len bs), leave (drop len bs) arrivals)

-- A stream that takes all it is given: `view` is what it has taken so far.
pub record IsReliable {S : Type 0} (out : Stream S) (view : S → List ℕ) : Type 0 where
  pub writes : (bs : List ℕ) (s : S) → (out.write bs s).0 ≡ some (length bs)
  pub keeps : (bs : List ℕ) (s : S) → view (out.write bs s).1 ≡ view s ++ bs
  pub flushes : (s : S) → (out.flush s).0 ≡ some 0
  pub still : (s : S) → view (out.flush s).1 ≡ view s
