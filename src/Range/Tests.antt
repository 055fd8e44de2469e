-- ===== src/Range/Tests.antt =====
-- A range of addresses from 10.1.0.0 to 10.3.0.0.
use gnu_my_server_gso_c.Base.{[], ◌∷◌, true, ◌≡◌, refl, arith}
use gnu_my_server_gso_c.Range.Octets.{Ipv4Range, init, in_range, same_network, not_below, not_above}
use gnu_my_server_gso_c.Range.InRange.{at_most, Whole, Open, in_range_lem}

abbrev ten : Ipv4Range
ten = record {
  mask = 255 ∷ 0 ∷ 0 ∷ 0 ∷ [];
  start = 10 ∷ 1 ∷ 0 ∷ 0 ∷ [];
  stop = 10 ∷ 3 ∷ 0 ∷ 0 ∷ [];
}

ten-Whole : Whole ten.mask ten.start ten.stop (10 ∷ 2 ∷ 7 ∷ 9 ∷ [])
ten-Whole = Whole.masked 10 10 (omega arith) (omega arith) (
    Whole.open_from (
      Open.free 1 3 2 (omega arith) (omega arith) (omega arith) (
        Open.free 0 0 7 (omega arith) (omega arith) (omega arith)
          (Open.free 0 0 9 (omega arith) (omega arith) (omega arith) Open.last))))

in_range_example : in_range ten (10 ∷ 2 ∷ 7 ∷ 9 ∷ []) ≡ true
unfolding at_most
in_range_example = in_range_lem ten (10 ∷ 2 ∷ 7 ∷ 9 ∷ []) ten-Whole

-- The range of a new object takes every address.
anywhere : in_range init (1 ∷ 2 ∷ 3 ∷ 4 ∷ []) ≡ true
unfolding in_range init same_network not_below not_above
anywhere = refl
