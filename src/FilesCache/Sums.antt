-- ===== src/FilesCache/Sums.antt =====
-- The records of the cache counted and summed up, and what the operations on the lists do to that.
use gnu_my_server_gso_c.Base.{
  ℕ, ◌+◌, ◌^◌, ◌≤◌, ◌<◌, List, [], ◌∷◌, ◌++◌, false, some, ◌==◌, if◌then◌else◌, ◌≡◌, ◌≢◌, refl, sym,
  inl, inr, Bool-cases, ==_refl, arith,
}
use gnu_my_server_gso_c.FilesCache.Cache.{
  Entry, sub_ulong, get, change, remove_name, purge, decrement,
}

unfoldable pub total : List Entry → ℕ
total [] = 0
total (e ∷ es) = e.file_size + total es

unfoldable pub at : ℕ → ℕ → ℕ → ℕ
at a b n = if b == a then n else 0

-- The records at an address, and the references that they count.
unfoldable pub copies : ℕ → List Entry → ℕ
unfolding at
copies a [] = 0
copies a (e ∷ es) = at a e.address 1 + copies a es

unfoldable pub refs : ℕ → List Entry → ℕ
unfolding at
refs a [] = 0
refs a (e ∷ es) = at a e.address e.ref_counter + refs a es

unfoldable pub handles : ℕ → List ℕ → ℕ
unfolding at
handles a [] = 0
handles a (h ∷ hs) = at a h 1 + handles a hs

pub at-add : (a b m n : ℕ) → at a b (m + n) ≡ at a b m + at a b n
unfolding at
at-add a b m n = ground arith

pub at_zero : (a b : ℕ) → at a b 0 ≡ 0
unfolding at
at_zero a b = ground arith

pub at-le : (a b n : ℕ) → at a b n ≤ n
unfolding at
at-le a b n = ground arith

pub at_other : (a b n : ℕ) → a ≢ b → at a b n ≡ 0
unfolding at
at_other a b n d = let e : (b == a) ≡ false = ground (arith, d) in rw e refl

pub at_self : (a n : ℕ) → at a a n ≡ n
unfolding at
at_self a n = rw (==_refl a) refl

pub handles_cons : (a h : ℕ) (hs : List ℕ) → handles a (h ∷ hs) ≡ handles a hs + at a h 1
unfolding handles
handles_cons a h hs = omega arith

pub total-append : (xs ys : List Entry) → total (xs ++ ys) ≡ total xs + total ys
unfolding total
total-append [] ys = omega arith
total-append (e ∷ es) ys = omega (arith, total-append es ys)

pub copies-append : (a : ℕ) (xs ys : List Entry) → copies a (xs ++ ys) ≡ copies a xs + copies a ys
unfolding copies
copies-append a [] ys = omega arith
copies-append a (e ∷ es) ys = omega (arith, copies-append a es ys)

pub refs-append : (a : ℕ) (xs ys : List Entry) → refs a (xs ++ ys) ≡ refs a xs + refs a ys
unfolding refs
refs-append a [] ys = omega arith
refs-append a (e ∷ es) ys = omega (arith, refs-append a es ys)

pub copies-refs : (a : ℕ) (xs : List Entry) → copies a xs ≡ 0 → refs a xs ≡ 0
unfolding copies refs at
copies-refs a [] h = refl
copies-refs a (e ∷ es) h = ground (arith, copies-refs a es, h)

pub refs-copies : (a : ℕ) (xs : List Entry) → 0 < refs a xs → 0 < copies a xs
unfolding copies refs at
refs-copies a [] h = absurd (omega arith)
refs-copies a (e ∷ es) h = ground (arith, refs-copies a es, h)

-- purgeRecords keeps the references and the sizes that it does not free.
pub total-purge : (xs : List Entry) → total (purge xs).0 + (purge xs).1 ≡ total xs
unfolding total purge
total-purge [] = refl
total-purge (e ∷ es) = elim (Bool-cases (e.ref_counter == 0)) [
  | inl z ↦ rw z (omega (arith, total-purge es))
  | inr z ↦ rw z (omega (arith, total-purge es))
]

pub copies-purge : (a : ℕ) (xs : List Entry) → copies a (purge xs).0 ≤ copies a xs
unfolding copies purge
copies-purge a [] = omega arith
copies-purge a (e ∷ es) = elim (Bool-cases (e.ref_counter == 0)) [
  | inl z ↦ rw z (omega (arith, copies-purge a es))
  | inr z ↦ rw z (omega (arith, copies-purge a es))
]

pub refs-purge : (a : ℕ) (xs : List Entry) → refs a (purge xs).0 ≡ refs a xs
unfolding refs purge at
refs-purge a [] = refl
refs-purge a (e ∷ es) = elim (Bool-cases (e.ref_counter == 0)) [
  | inl z ↦ rw z (ground (arith, refs-purge a es, z))
  | inr z ↦ rw z (omega (arith, refs-purge a es))
]

-- A change of a record that keeps its address and size.
pub record Keeps (f : Entry → Entry) (n : ℕ) : Type 0 where
  pub address : (e : Entry) → (f e).address ≡ e.address
  pub file_size : (e : Entry) → (f e).file_size ≡ e.file_size
  pub counts : (e : Entry) → (f e).ref_counter ≡ e.ref_counter + n

module _ (f : Entry → Entry) (n : ℕ) (k : Keeps f n) (name : ℕ) where
  pub total-change : (xs : List Entry) → total (change name f xs) ≡ total xs
  unfolding total change
  total-change [] = refl
  total-change (e ∷ es) = elim (Bool-cases (e.name == name)) [
    | inl h ↦ rw (h, k.file_size e) refl
    | inr h ↦ rw h (omega (arith, total-change es))
  ]

  pub copies-change : (a : ℕ) (xs : List Entry) → copies a (change name f xs) ≡ copies a xs
  unfolding copies change
  copies-change a [] = refl
  copies-change a (e ∷ es) = elim (Bool-cases (e.name == name)) [
    | inl h ↦ rw (h, k.address e) refl
    | inr h ↦ rw h (omega (arith, copies-change a es))
  ]

  pub refs-change :
      (a : ℕ) (xs : List Entry) (e : Entry)
      → get name xs ≡ some e
      → refs a (change name f xs) ≡ refs a xs + at a e.address n
  unfolding refs change get at
  refs-change a [] e h = absurd (ground (arith, h))
  refs-change a (x ∷ xs) e h = elim (Bool-cases (x.name == name)) [
    | inl m ↦
        let same : x ≡ e = ground (arith, rw m at h) in
        rw (m, k.address x, k.counts x, sym same)
          (omega (arith, at-add a x.address x.ref_counter n))
    | inr m ↦ rw m (omega (arith, refs-change a xs e (rw m at h)))
  ]

module _ (name : ℕ) where
  pub total-remove_name :
      (xs : List Entry) (e : Entry)
      → get name xs ≡ some e
      → total (remove_name name xs) + e.file_size ≡ total xs
  unfolding total remove_name get
  total-remove_name [] e h = absurd (ground (arith, h))
  total-remove_name (x ∷ xs) e h = elim (Bool-cases (x.name == name)) [
    | inl m ↦ let same : x ≡ e = ground (arith, rw m at h) in rw (m, sym same) (omega arith)
    | inr m ↦ rw m (omega (arith, total-remove_name xs e (rw m at h)))
  ]

  pub copies-remove_name :
      (a : ℕ) (xs : List Entry) (e : Entry)
      → get name xs ≡ some e
      → copies a (remove_name name xs) + at a e.address 1 ≡ copies a xs
  unfolding copies remove_name get
  copies-remove_name a [] e h = absurd (ground (arith, h))
  copies-remove_name a (x ∷ xs) e h = elim (Bool-cases (x.name == name)) [
    | inl m ↦ let same : x ≡ e = ground (arith, rw m at h) in rw (m, sym same) (omega arith)
    | inr m ↦ rw m (omega (arith, copies-remove_name a xs e (rw m at h)))
  ]

  pub refs-remove_name :
      (a : ℕ) (xs : List Entry) (e : Entry)
      → get name xs ≡ some e
      → refs a (remove_name name xs) + at a e.address e.ref_counter ≡ refs a xs
  unfolding refs remove_name get
  refs-remove_name a [] e h = absurd (ground (arith, h))
  refs-remove_name a (x ∷ xs) e h = elim (Bool-cases (x.name == name)) [
    | inl m ↦ let same : x ≡ e = ground (arith, rw m at h) in rw (m, sym same) (omega arith)
    | inr m ↦ rw m (omega (arith, refs-remove_name a xs e (rw m at h)))
  ]

-- A record that is found is there.
pub found-copies :
    (name : ℕ) (xs : List Entry) (e : Entry) → get name xs ≡ some e → 0 < copies e.address xs
unfolding at
found-copies name xs e h = omega (arith, copies-remove_name name e.address xs e h, own e.address)
  where
    own : (a : ℕ) → at a a 1 ≡ 1
    own a = rw (==_refl a) refl

-- One reference less.
pub total-decrement : (b : ℕ) (xs : List Entry) → total (decrement b xs) ≡ total xs
unfolding total decrement
total-decrement b [] = refl
total-decrement b (e ∷ es) = elim (Bool-cases (e.address == b)) [
  | inl m ↦ rw m (omega (arith, total-decrement b es))
  | inr m ↦ rw m (omega (arith, total-decrement b es))
]

pub copies-decrement : (a b : ℕ) (xs : List Entry) → copies a (decrement b xs) ≡ copies a xs
unfolding copies decrement
copies-decrement a b [] = refl
copies-decrement a b (e ∷ es) = elim (Bool-cases (e.address == b)) [
  | inl m ↦ rw m (omega (arith, copies-decrement a b es))
  | inr m ↦ rw m (omega (arith, copies-decrement a b es))
]

pub refs-decrement_other :
    (a b : ℕ) (xs : List Entry) → (b == a) ≡ false → refs a (decrement b xs) ≡ refs a xs
unfolding refs decrement at
refs-decrement_other a b [] h = refl
refs-decrement_other a b (e ∷ es) h = elim (Bool-cases (e.address == b)) [
  | inl m ↦
      let other : (e.address == a) ≡ false = ground (arith, m, h) in
      rw (m, other) (omega (arith, refs-decrement_other a b es h))
  | inr m ↦ rw m (omega (arith, refs-decrement_other a b es h))
]

pub refs-decrement_none :
    (b : ℕ) (xs : List Entry) → copies b xs ≡ 0 → refs b (decrement b xs) ≡ refs b xs
unfolding refs decrement copies at
refs-decrement_none b [] h = refl
refs-decrement_none b (e ∷ es) h = elim (Bool-cases (e.address == b)) [
  | inl m ↦ absurd (ground (arith, m, h))
  | inr m ↦ rw (m, m) (omega (arith, refs-decrement_none b es (omega (arith, rw m at h))))
]

pub refs-decrement_one :
    (b : ℕ) (xs : List Entry)
    → copies b xs ≡ 1
    → 0 < refs b xs
    → refs b xs < 2 ^ 64
    → refs b (decrement b xs) + 1 ≡ refs b xs
unfolding refs decrement copies at sub_ulong
refs-decrement_one b [] h p l = absurd (omega arith)
refs-decrement_one b (e ∷ es) h p l = elim (Bool-cases (e.address == b)) [
  | inl m ↦
      let none_left : copies b es ≡ 0 = omega (arith, rw m at h) in
      let no_refs = copies-refs b es none_left in
      rw (m, m, refs-decrement_none b es none_left, no_refs)
        (omega (arith, rw (m, no_refs) at p, rw (m, no_refs) at l))
  | inr m ↦
      rw (m, m)
        (omega (
          arith,
          refs-decrement_one b es (omega (arith, rw m at h)) (omega (arith, rw m at p))
              (omega (arith, rw m at l)),
        ))
]
