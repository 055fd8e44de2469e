-- ===== src/Range/InRange.antt =====
-- InRange against the order of addresses as numbers.
use Prim.Native.Nat.{bit_and}
use gnu_my_server_gso_c.Base.{
  ℕ, ◌<◌, List, [], ◌∷◌, Bool, true, false, ◌&&◌, ltb, ◌==◌, if◌then◌else◌, ◌≡◌, refl, inl, inr,
  arith, Bool-cases, ==_iff, ==_refl,
}
use gnu_my_server_gso_c.Base.Bits.{bit_and-mask}
use gnu_my_server_gso_c.Range.Octets.{Ipv4Range, same_network, not_below, not_above, in_range}

-- Addresses of the same length are compared as their octets are, the first one first.
unfoldable pub at_most : List ℕ → List ℕ → Bool
at_most (a ∷ xs) (b ∷ ys) =
    let rest = at_most xs ys in if ltb a b then true else if ltb b a then false else rest
at_most xs ys = true

-- Octets without a mask.
pub data Open : List ℕ → List ℕ → List ℕ → List ℕ → Type 0 where
  last : Open [] [] [] []
  free :
      {ms ss es addr : List ℕ} (s e a : ℕ)
      → s < 256
      → e < 256
      → a < 256
      → Open ms ss es addr
      → Open (0 ∷ ms) (s ∷ ss) (e ∷ es) (a ∷ addr)

-- The mask covers some whole octets, in which the start and the stop are the same; the other octets
-- have no mask.
pub data Whole : List ℕ → List ℕ → List ℕ → List ℕ → Type 0 where
  masked :
      {ms ss es addr : List ℕ} (s a : ℕ)
      → s < 256
      → a < 256
      → Whole ms ss es addr
      → Whole (255 ∷ ms) (s ∷ ss) (s ∷ es) (a ∷ addr)
  open_from : {ms ss es addr : List ℕ} → Open ms ss es addr → Whole ms ss es addr

byte_and : (x : ℕ) → x < 256 → bit_and x 255 ≡ x
byte_and x h = omega (arith, bit_and-mask 8 x)

and_zero : (x : ℕ) → bit_and x 0 ≡ 0
and_zero x = omega (arith, bit_and-mask 0 x)

Open_lem :
    {ms ss es addr : List ℕ}
    → Open ms ss es addr
    → (same_network ms ss addr ≡ true)
      × (not_below ms ss addr ≡ at_most ss addr)
      × (not_above ms es addr ≡ at_most addr es)
unfolding same_network not_below not_above at_most
Open_lem last = (refl, refl, refl)
Open_lem (free s e a hs he ha o) =
    let (n, l, h) = Open_lem o in
    rw (and_zero s, and_zero a, byte_and s hs, byte_and a ha, byte_and e he, n, l, h)
      (refl, refl, refl)

apart_and :
    (a s : ℕ) → a < 256 → s < 256 → (a == s) ≡ false → (bit_and a 255 == bit_and s 255) ≡ false
apart_and a s ha hs e = rw (byte_and a ha, byte_and s hs) e

Whole_lem :
    {ms ss es addr : List ℕ}
    → Whole ms ss es addr
    → (same_network ms ss addr && not_below ms ss addr && not_above ms es addr)
      ≡ at_most ss addr && at_most addr es
unfolding same_network not_below not_above at_most
Whole_lem (open_from o) = let (n, l, h) = Open_lem o in rw (n, l, h) refl
Whole_lem (masked s a hs ha w) = elim (Bool-cases (a == s)) [
  | inl agree ↦
      let e : a ≡ s = (==_iff a s).0 agree in
      let irrefl : ltb s s ≡ false = ground arith in
      let same : (bit_and s 255 == bit_and s 255) ≡ true = ==_refl (bit_and s 255) in
      rw (e, same, and_zero s, irrefl) (Whole_lem w)
  | inr differ ↦ elim (Bool-cases (ltb s a)) [
    | inl less ↦
        let greater : ltb a s ≡ false = ground arith in
        rw (apart_and a s ha hs differ, less, greater) refl
    | inr more ↦
        let greater : ltb a s ≡ true = ground arith in
        rw (apart_and a s ha hs differ, more, greater) refl
  ]
]

-- If the mask covers whole octets, in which start and end agree, and the octets after them have no
-- mask, an address is in the range exactly if it is at least the start and at most the end, in the
-- order of addresses.
pub in_range_lem :
    (r : Ipv4Range) (addr : List ℕ)
    → Whole r.mask r.start r.stop addr
    → in_range r addr ≡ at_most r.start addr && at_most addr r.stop
unfolding in_range
in_range_lem r addr w = Whole_lem w
