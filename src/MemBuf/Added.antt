-- ===== src/MemBuf/Added.antt =====
-- What addBuffer adds.
use mathlib.Core.List.{append_assoc, append-nil}
use gnu_my_server_gso_c.Base.{
  ℕ, zero, suc, ◌+◌, ◌-◌, ◌≤◌, ◌<◌, List, [], ◌∷◌, ◌++◌, ltb, leb, ◌==◌, if◌then◌else◌, length,
  take, drop, length-append, ◌≡◌, refl, sym, ap, ◌∙◌, inl, inr, Bool-cases, ==_iff, arith,
}
use gnu_my_server_gso_c.MemBuf.Buffer.{MemBuf, contents, copy_to, make_room, fill_room, add_buffer}
use gnu_my_server_gso_c.MemBuf.Room.{
  IsFit, Grown, take-append, length-take_all, length-copy_to, make_room-Grown,
}

-- How many bytes there is room for under the limit.
unfoldable pub room_for : MemBuf → ℕ → ℕ
room_for b n = if b.size_limit == 0 then n else b.size_limit - b.size

-- A copy behind the bytes.
pub take-copy_to :
    (i : ℕ) (bs memory : List ℕ)
    → i + length bs ≤ length memory
    → take (i + length bs) (copy_to i bs memory) ≡ take i memory ++ bs
unfolding copy_to
take-copy_to i bs memory l =
    let front = take i memory in
    let e : i + length bs ≡ length (front ++ bs) =
      omega (arith, length-append front bs, length-take_all i memory (omega arith)) in
    ap (take (i + length bs)) (sym (append_assoc front bs (drop (i + length bs) memory)))
    ∙ ap (λ n. take n ((front ++ bs) ++ drop (i + length bs) memory)) e
    ∙ take-append (length (front ++ bs)) (front ++ bs) (drop (i + length bs) memory) (omega arith)
    ∙ take_whole (front ++ bs)
  where
    take_whole : (xs : List ℕ) → take (length xs) xs ≡ xs
    take_whole [] = refl
    take_whole (x ∷ xs) = ap (◌∷◌ x) (take_whole xs)

-- The result of the copy.
record Filled (b c : MemBuf) (bs : List ℕ) : Type 0 where
  pub fit : IsFit c
  pub told : contents c ≡ contents b ++ take (b.real_size - b.size) bs

take_more : (n : ℕ) (bs : List ℕ) → length bs ≤ n → take n bs ≡ bs
take_more zero [] l = refl
take_more zero (b ∷ bs) l = absurd (omega arith)
take_more (suc n) [] l = refl
take_more (suc n) (b ∷ bs) l = ap (◌∷◌ b) (take_more n bs (omega arith))

fill_room-Filled : (bs : List ℕ) (b : MemBuf) → IsFit b → Filled b (fill_room bs b) bs
unfolding fill_room contents
fill_room-Filled bs b f =
    let allowed = b.real_size - b.size in
    elim (Bool-cases (allowed == 0)) [
      | inl full ↦
          let e : allowed ≡ 0 = (==_iff allowed 0).0 full in
          rw full (record {
            fit = f;
            told =
                sym (
                  ap (λ n. take b.size b.memory ++ take n bs) e
                  ∙ append-nil (take b.size b.memory));
          })
      | inr space ↦ elim (Bool-cases (ltb allowed (length bs))) [
        | inl short ↦
            let part = take allowed bs in
            let n : length part ≡ allowed = length-take_all allowed bs (ground (arith, short)) in
            let fits : b.size + length part ≤ length b.memory =
              omega (arith, n, f.allocated, f.inside) in
            let end_ : b.real_size ≡ b.size + length part = omega (arith, n, f.inside) in
            rw (space, short)
              (record {
                fit = record {
                  allocated = length-copy_to b.size part b.memory fits ∙ f.allocated;
                  inside = omega arith;
                  nothing_at_null = f.nothing_at_null;
                  below_limit = f.below_limit;
                };
                told =
                    ap (λ m. take m (copy_to b.size part b.memory)) end_
                    ∙ take-copy_to b.size part b.memory fits;
              })
        | inr long ↦
            let few : length bs ≤ allowed = ground (arith, long) in
            let fits : b.size + length bs ≤ length b.memory =
              ground (arith, few, f.allocated, space) in
            rw (space, long)
              (record {
                fit = record {
                  allocated = length-copy_to b.size bs b.memory fits ∙ f.allocated;
                  inside = omega (arith, fits, f.allocated);
                  nothing_at_null = f.nothing_at_null;
                  below_limit = f.below_limit;
                };
                told =
                    take-copy_to b.size bs b.memory fits
                    ∙ ap (λ ys. take b.size b.memory ++ ys) (sym (take_more allowed bs few));
              })
      ]
    ]

nothing_added : (xs : List ℕ) (n : ℕ) (bs : List ℕ) → length bs ≡ 0 → xs ≡ xs ++ take n bs
nothing_added xs zero bs h = sym (append-nil xs)
nothing_added xs (suc n) [] h = sym (append-nil xs)
nothing_added xs (suc n) (b ∷ bs) h = absurd (omega arith)

take_both : (m n : ℕ) (bs : List ℕ) → length bs ≤ m → length bs ≤ n → take m bs ≡ take n bs
take_both m n bs p q = take_more m bs p ∙ sym (take_more n bs q)

-- The room that was made is that under the limit, as far as it is needed.
same_part :
    (b c : MemBuf) (bs : List ℕ)
    → IsFit b
    → Grown (b.size + length bs) b c
    → take (c.real_size - c.size) bs ≡ take (room_for b (length bs)) bs
unfolding room_for
same_part b c bs f g = elim (Bool-cases (b.size_limit == 0)) [
  | inl e ↦
      let z : b.size_limit ≡ 0 = (==_iff _ 0).0 e in
      rw e (
        take_both (c.real_size - c.size) (length bs) bs (omega (arith, g.no_limit z, g.size))
          (omega arith))
  | inr e ↦
      let some_limit : 0 < b.size_limit = ground (arith, e) in
      rw e (elim (Bool-cases (leb (b.size + length bs) b.size_limit)) [
        | inl fits ↦
            let l : b.size + length bs ≤ b.size_limit = ground (arith, fits) in
            take_both (c.real_size - c.size) (b.size_limit - b.size) bs
              (omega (arith, g.enough l, g.size)) (omega (arith, l))
        | inr over ↦
            let l : b.size_limit ≤ b.size + length bs = ground (arith, over) in
            ap (λ n. take n bs) (omega (arith, g.up_to l some_limit, g.size))
      ])
]

module _ (allocate : ℕ → List ℕ) (allocated : (n : ℕ) → length (allocate n) ≡ n) where
  -- addBuffer on a well-formed buffer leaves a well-formed one, with the bytes that it had and behind
  -- them all the bytes given, or, if a limit is set, as many of them as the limit has room for.
  pub add_buffer_lem :
      (bs : List ℕ) (b : MemBuf)
      → IsFit b
      → IsFit (add_buffer allocate bs b)
        × (contents (add_buffer allocate bs b) ≡ contents b ++ take (room_for b (length bs)) bs)
  unfolding add_buffer
  add_buffer_lem bs b f = elim (Bool-cases (length bs == 0)) [
    | inl none_given ↦
        rw none_given
          (f, nothing_added (contents b) (room_for b (length bs)) bs ((==_iff _ 0).0 none_given))
    | inr some_given ↦
        let n = b.size + length bs in
        let g = make_room-Grown allocate allocated n b f (ground (arith, some_given)) in
        let c = make_room allocate n b in
        let filled = fill_room-Filled bs c g.fit in
        rw some_given (
          filled.fit,
          filled.told
              ∙ ap (λ ys. ys ++ take (c.real_size - c.size) bs) g.same
              ∙ ap (◌++◌ (contents b)) (same_part b c bs f g),
        )
  ]
