-- ===== src/MemBuf/Room.antt =====
-- Well-formed buffers, and the growth of their memory.
use gnu_my_server_gso_c.Base.{
  ℕ, zero, suc, ◌+◌, ◌-◌, ◌≤◌, ◌<◌, List, [], ◌∷◌, ◌++◌, Bool, true, false, not, ◌&&◌, ◌||◌, ltb,
  leb, ◌==◌, length, take, drop, length-append, ◌≡◌, refl, sym, ap, ◌∙◌, inl, inr, Bool-cases,
  arith,
}
use gnu_my_server_gso_c.MemBuf.Buffer.{
  MemBuf, contents, copy_to, release_memory, alloc_buffer, limited, enlarge, set_real_length,
  make_room,
}

-- The memory has the real size, the bytes are in it, a null pointer has no memory, and the limit, if
-- there is one, is kept.
pub record IsFit (b : MemBuf) : Type 0 where
  pub allocated : length b.memory ≡ b.real_size
  pub inside : b.size ≤ b.real_size
  pub nothing_at_null : b.is_null ≡ true → b.real_size ≡ 0
  pub below_limit : (b.size_limit == 0 || leb b.real_size b.size_limit) ≡ true

pub take-append {ℓ} :
    {A : Type ℓ} (n : ℕ) (xs ys : List A) → n ≤ length xs → take n (xs ++ ys) ≡ take n xs
take-append zero xs ys l = refl
take-append (suc n) [] ys l = absurd (omega arith)
take-append (suc n) (x ∷ xs) ys l = ap (◌∷◌ x) (take-append n xs ys (omega arith))

pub length-take_all {ℓ} :
    {A : Type ℓ} (n : ℕ) (xs : List A) → n ≤ length xs → length (take n xs) ≡ n
length-take_all zero xs l = refl
length-take_all (suc n) [] l = absurd (omega arith)
length-take_all (suc n) (x ∷ xs) l = ap suc (length-take_all n xs (omega arith))

pub length-drop {ℓ} : {A : Type ℓ} (n : ℕ) (xs : List A) → length (drop n xs) ≡ length xs - n
length-drop zero xs = omega arith
length-drop (suc n) [] = omega arith
length-drop (suc n) (x ∷ xs) = omega (arith, length-drop n xs)

-- A copy inside the memory keeps its length.
pub length-copy_to :
    (i : ℕ) (bs memory : List ℕ)
    → i + length bs ≤ length memory
    → length (copy_to i bs memory) ≡ length memory
unfolding copy_to
length-copy_to i bs memory l =
    rw
      (
        length-append (take i memory) (bs ++ drop (i + length bs) memory),
        length-append bs (drop (i + length bs) memory),
      )
      (omega (arith, length-take_all i memory (omega arith), length-drop (i + length bs) memory))

take_none {ℓ} : {A : Type ℓ} (n : ℕ) (xs : List A) → n ≡ 0 → take n xs ≡ []
take_none zero xs h = refl
take_none (suc n) xs h = absurd (omega arith)

release_memory_size : (b : MemBuf) → b.size ≡ 0 → (release_memory b).size ≡ 0
unfolding release_memory
release_memory_size b h = ground (arith, h)

release_memory_limit : (b : MemBuf) → (release_memory b).size_limit ≡ b.size_limit
unfolding release_memory
release_memory_limit b = ground arith

false_or_true : (p : Bool) → p || true ≡ true
false_or_true p = ground arith

-- A buffer with room for `n` bytes, or as much of it as the limit allows, and the same bytes.
pub record Grown (n : ℕ) (b c : MemBuf) : Type 0 where
  pub fit : IsFit c
  pub same : contents c ≡ contents b
  pub size : c.size ≡ b.size
  pub limit : c.size_limit ≡ b.size_limit
  pub no_limit : b.size_limit ≡ 0 → n ≤ c.real_size
  pub up_to : b.size_limit ≤ n → 0 < b.size_limit → c.real_size ≡ b.size_limit
  pub enough : n ≤ b.size_limit → n ≤ c.real_size

no_memory : (b : MemBuf) → IsFit b → b.is_null || b.real_size == 0 ≡ true → b.real_size ≡ 0
no_memory b f h = elim (Bool-cases b.is_null) [
  | inl e ↦ f.nothing_at_null e
  | inr e ↦ ground (arith, e, h)
]

not_null : (b : MemBuf) → b.is_null ≡ true → b.is_null || b.real_size == 0 ≡ false → ⊥
not_null b h k = ground (arith, h, k)

weaken : (m n : ℕ) (b c : MemBuf) → n ≤ m → 0 < n → Grown m b c → Grown n b c
weaken m n b c l p g = record {
  fit = g.fit;
  same = g.same;
  size = g.size;
  limit = g.limit;
  no_limit = λ x. omega (arith, g.no_limit x, l);
  up_to = λ x y. g.up_to (omega arith) y;
  enough = λ x. elim (Bool-cases (leb m b.size_limit)) [
    | inl e ↦ let q : m ≤ b.size_limit = ground (arith, e) in omega (arith, g.enough q, l)
    | inr e ↦
        let q : b.size_limit ≤ m = ground (arith, e) in
        omega (arith, g.up_to q (omega (arith, x, p)), x)
  ];
}

module _ (allocate : ℕ → List ℕ) (allocated : (n : ℕ) → length (allocate n) ≡ n) where
  alloc-IsFit :
      (n : ℕ) (b : MemBuf)
      → IsFit b
      → b.real_size ≡ 0
      → 0 < n
      → (b.size_limit == 0 || leb n b.size_limit) ≡ true
      → IsFit (alloc_buffer allocate n b)
        × (contents (alloc_buffer allocate n b) ≡ contents b)
        × ((alloc_buffer allocate n b).size ≡ b.size)
        × ((alloc_buffer allocate n b).size_limit ≡ b.size_limit)
        × ((alloc_buffer allocate n b).real_size ≡ n)
  unfolding alloc_buffer contents
  alloc-IsFit n b f z p l =
      let r = release_memory b in
      let no_size : b.size ≡ 0 = omega (arith, f.inside) in
      let e = release_memory_size b no_size in
      let g = release_memory_limit b in
      let more : ltb b.real_size n || b.is_null ≡ true = ground (arith, z, p) in
      rw more (
        record {
          allocated = allocated n;
          inside = omega (arith, e);
          nothing_at_null = λ h. absurd (ground (arith, h));
          below_limit = ap (λ m. m == 0 || leb n m) g ∙ l;
        },
        take_none r.size (allocate n) e ∙ sym (take_none b.size b.memory no_size),
        e ∙ sym no_size,
        g,
        refl,
      )

  enlarge-IsFit :
      (n : ℕ) (b : MemBuf)
      → IsFit b
      → b.real_size < n
      → (b.size_limit == 0 || leb n b.size_limit) ≡ true
      → IsFit (enlarge allocate n b)
        × (contents (enlarge allocate n b) ≡ contents b)
        × ((enlarge allocate n b).size ≡ b.size)
        × ((enlarge allocate n b).size_limit ≡ b.size_limit)
        × ((enlarge allocate n b).real_size ≡ n)
  unfolding enlarge contents copy_to
  enlarge-IsFit n b f p l = elim (Bool-cases (b.is_null || b.real_size == 0)) [
    | inl none_yet ↦ rw none_yet (alloc-IsFit n b f (no_memory b f none_yet) (omega arith) l)
    | inr some_memory ↦
        let fits : length b.memory ≤ length (allocate n) =
          omega (arith, f.allocated, allocated n) in
        rw some_memory (
          record {
            allocated = length-copy_to 0 b.memory (allocate n) (omega (arith, fits)) ∙ allocated n;
            inside = omega (arith, f.inside);
            nothing_at_null = λ h. absurd (not_null b h some_memory);
            below_limit = l;
          },
          take-append b.size b.memory (drop (0 + length b.memory) (allocate n))
              (omega (arith, f.inside, f.allocated)),
          refl,
          refl,
          refl,
        )
  ]

  stay-Grown :
      (n : ℕ) (b : MemBuf)
      → IsFit b
      → (b.size_limit ≡ 0 → n ≤ b.real_size)
      → (n ≤ b.size_limit → n ≤ b.real_size)
      → (b.size_limit ≤ n → 0 < b.size_limit → b.size_limit ≤ b.real_size)
      → Grown n b b
  stay-Grown n b f h k m = record {
    fit = f;
    same = refl;
    size = refl;
    limit = refl;
    no_limit = h;
    up_to = λ x p. full b f p (m x p);
    enough = k;
  }
    where
      full :
          (b : MemBuf)
          → IsFit b
          → 0 < b.size_limit
          → b.size_limit ≤ b.real_size
          → b.real_size ≡ b.size_limit
      full b f p l = ground (arith, f.below_limit, p, l)

  enlarge-Grown :
      (n m : ℕ) (b : MemBuf)
      → IsFit b
      → b.real_size < m
      → (b.size_limit == 0 || leb m b.size_limit) ≡ true
      → (b.size_limit ≡ 0 → n ≤ m)
      → (n ≤ b.size_limit → n ≤ m)
      → (b.size_limit ≤ n → 0 < b.size_limit → m ≡ b.size_limit)
      → Grown n b (enlarge allocate m b)
  enlarge-Grown n m b f p l h k q =
      let (fit, same, size, limit, real) = enlarge-IsFit m b f p l in
      record {
        fit = fit;
        same = same;
        size = size;
        limit = limit;
        no_limit = λ x. omega (arith, real, h x);
        up_to = λ x y. real ∙ q x y;
        enough = λ x. omega (arith, real, k x);
      }

  pub set_real_length-Grown :
      (n : ℕ) (b : MemBuf) → IsFit b → Grown n b (set_real_length allocate n b)
  unfolding set_real_length limited
  set_real_length-Grown n b f = elim (Bool-cases (leb n b.real_size)) [
    | inl there ↦ rw there (
        stay-Grown n b f (λ x. ground (arith, there)) (λ x. ground (arith, there))
          (λ x y. ground (arith, there)))
    | inr more ↦ elim (Bool-cases (not (b.size_limit == 0) && ltb b.size_limit n)) [
      | inl over ↦ elim (Bool-cases (b.size_limit == b.real_size)) [
        | inl full ↦
            rw (more, over, full)
              (stay-Grown n b f (λ x. ground (arith, over, x)) (λ x. ground (arith, over, x))
                (λ x y. ground (arith, full)))
        | inr room ↦
            rw (more, over, room)
              (enlarge-Grown n b.size_limit b f (ground (arith, room, over, f.below_limit))
                (ground (arith, over)) (λ x. ground (arith, over, x)) (λ x. ground (arith, over, x))
                (λ x y. refl))
      ]
      | inr under ↦
          rw (more, under)
            (enlarge-Grown n n b f (ground (arith, more)) (ground (arith, under)) (λ x. omega arith)
              (λ x. omega arith) (λ x y. ground (arith, under, x, y)))
    ]
  ]

  pub make_room-Grown : (n : ℕ) (b : MemBuf) → IsFit b → 0 < n → Grown n b (make_room allocate n b)
  unfolding make_room
  make_room-Grown n b f p = elim (Bool-cases (ltb b.real_size n)) [
    | inr there ↦ rw there (
        stay-Grown n b f (λ x. ground (arith, there)) (λ x. ground (arith, there))
          (λ x y. ground (arith, there)))
    | inl more ↦ elim (Bool-cases (ltb (n - b.real_size) b.block_length)) [
      | inr much ↦ rw (more, much) (set_real_length-Grown n b f)
      | inl little ↦
          rw (more, little)
            (weaken (b.real_size + b.block_length) n b
              (set_real_length allocate (b.real_size + b.block_length) b) (ground (arith, little)) p
              (set_real_length-Grown (b.real_size + b.block_length) b f))
    ]
  ]
