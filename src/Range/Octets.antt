-- ===== src/Range/Octets.antt =====
-- Ipv4Range: the arrays m_nMask, m_nStart and m_nEnd of four octets, and InRange on an address.
use Prim.Native.Nat.{bit_and}
use gnu_my_server_gso_c.Base.{
  ℕ, ◌-◌, List, ◌∷◌, Bool, true, false, ◌&&◌, ltb, ◌==◌, if◌then◌else◌, replicate,
}

pub record Ipv4Range : Type 0 where
  pub mask : List ℕ
  pub start : List ℕ
  pub stop : List ℕ

-- `Init ()`
unfoldable pub init : Ipv4Range
init = record { mask = replicate 4 0; start = replicate 4 0; stop = replicate 4 255 }

-- The first loop: whether the networks are the same.
unfoldable pub same_network : List ℕ → List ℕ → List ℕ → Bool
same_network (m ∷ ms) (s ∷ ss) (a ∷ addr) =
    let rest = same_network ms ss addr in if bit_and a m == bit_and s m then rest else false
same_network ms ss addr = true

-- The second loop: whether it does not return false.
unfoldable pub not_below : List ℕ → List ℕ → List ℕ → Bool
not_below (m ∷ ms) (s ∷ ss) (a ∷ addr) =
    let rest = not_below ms ss addr in
    let host_mask = 255 - m in
    if ltb (bit_and s host_mask) (bit_and a host_mask)
    then true
    else if ltb (bit_and a host_mask) (bit_and s host_mask)
    then false
    else rest
not_below ms ss addr = true

-- The third loop and the last return.
unfoldable pub not_above : List ℕ → List ℕ → List ℕ → Bool
not_above (m ∷ ms) (e ∷ es) (a ∷ addr) =
    let rest = not_above ms es addr in
    let host_mask = 255 - m in
    if ltb (bit_and a host_mask) (bit_and e host_mask)
    then true
    else if ltb (bit_and e host_mask) (bit_and a host_mask)
    then false
    else rest
not_above ms es addr = true

unfoldable pub in_range : Ipv4Range → List ℕ → Bool
unfolding same_network not_below not_above
in_range r addr =
    same_network r.mask r.start addr
    && not_below r.mask r.start addr
    && not_above r.mask r.stop addr
