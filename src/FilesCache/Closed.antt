-- ===== src/FilesCache/Closed.antt =====
-- Closing a file keeps the accounts of the cache.
use gnu_my_server_gso_c.Base.{
  ℕ, ◌+◌, ◌^◌, ◌≤◌, ◌<◌, List, [], ◌∷◌, ◌++◌, Bool, true, false, ◌||◌, Option, none, some, ◌==◌,
  if◌then◌else◌, length, ◌≡◌, refl, sym, inl, inr, Bool-cases, ==_iff, arith,
}
use gnu_my_server_gso_c.FilesCache.Cache.{
  Entry, Cache, get, remove_name, null_found, null_references, decrement, notify, at_address,
  close_file,
}
use gnu_my_server_gso_c.FilesCache.Sums.{
  total, at, copies, refs, handles, total-append, copies-append, refs-append, copies-refs,
  refs-copies, total-remove_name, copies-remove_name, refs-remove_name, total-decrement,
  copies-decrement, refs-decrement_other, refs-decrement_none, refs-decrement_one,
}
use gnu_my_server_gso_c.FilesCache.Sound.{IsSound}

-- One CachedFile on the buffer is closed.
unfoldable pub without : ℕ → List ℕ → List ℕ
without a [] = []
without a (h ∷ hs) = if h == a then hs else h ∷ without a hs

handles-without_self :
    (a : ℕ) (hs : List ℕ) → 0 < handles a hs → handles a (without a hs) + 1 ≡ handles a hs
unfolding handles without at
handles-without_self a [] l = absurd (omega arith)
handles-without_self a (h ∷ hs) l = elim (Bool-cases (h == a)) [
  | inl e ↦ rw e (omega arith)
  | inr e ↦ rw (e, e) (omega (arith, handles-without_self a hs (omega (arith, rw e at l))))
]

handles-without_other :
    (a b : ℕ) (hs : List ℕ) → (b == a) ≡ false → handles a (without b hs) ≡ handles a hs
unfolding handles without at
handles-without_other a b [] n = refl
handles-without_other a b (h ∷ hs) n = elim (Bool-cases (h == b)) [
  | inl e ↦ let other : (h == a) ≡ false = ground (arith, e, n) in rw (e, other) (omega arith)
  | inr e ↦ rw e (omega (arith, handles-without_other a b hs n))
]

length-without : (a : ℕ) (hs : List ℕ) → length (without a hs) ≤ length hs
unfolding without
length-without a [] = omega arith
length-without a (h ∷ hs) = elim (Bool-cases (h == a)) [
  | inl e ↦ rw e (omega arith)
  | inr e ↦ rw e (omega (arith, length-without a hs))
]

handles-le-length : (a : ℕ) (hs : List ℕ) → handles a hs ≤ length hs
unfolding handles at
handles-le-length a [] = omega arith
handles-le-length a (h ∷ hs) = elim (Bool-cases (h == a)) [
  | inl e ↦ rw e (omega (arith, handles-le-length a hs))
  | inr e ↦ rw e (omega (arith, handles-le-length a hs))
]

-- The record goes from the table to the list.
moved-IsSound :
    (name : ℕ) (e : Entry) (c : Cache) (hs : List ℕ)
    → get name c.buffers ≡ some e
    → IsSound c hs
    → IsSound
        (record c {
          buffers = remove_name name c.buffers;
          buffers_to_remove = c.buffers_to_remove ++ (e ∷ []);
        })
        hs
unfolding total copies refs
moved-IsSound name e c hs g s =
    let p = c.buffers_to_remove in
    record {
      sizes = omega (arith, s.sizes, total-remove_name name c.buffers e g, total-append p (e ∷ []));
      fits = s.fits;
      word = s.word;
      single = λ a.
          omega (
            arith,
            s.single a,
            copies-remove_name name a c.buffers e g,
            copies-append a p (e ∷ []),
          );
      fresh = λ a l.
          omega (
            arith,
            s.fresh a l,
            copies-remove_name name a c.buffers e g,
            copies-append a p (e ∷ []),
          );
      counted = λ a.
          omega
            (arith, s.counted a, refs-remove_name name a c.buffers e g, refs-append a p (e ∷ []));
      few = s.few;
    }

null_found-IsSound :
    (name : ℕ) (crowded : Bool) (o : Option Entry) (c : Cache) (hs : List ℕ)
    → get name c.buffers ≡ o
    → IsSound c hs
    → IsSound (null_found name crowded o c) hs
unfolding null_found
null_found-IsSound name crowded none c hs g s = s
null_found-IsSound name crowded (some e) c hs g s = elim (Bool-cases (crowded || e.invalid_cache)) [
  | inl gone ↦ rw gone (moved-IsSound name e c hs g s)
  | inr stays ↦ rw stays s
]

null_references-IsSound :
    (name : ℕ) (low crowded : Bool) (c : Cache) (hs : List ℕ)
    → IsSound c hs
    → IsSound (null_references name low crowded c) hs
unfolding null_references
null_references-IsSound name true crowded c hs s = s
null_references-IsSound name false crowded c hs s =
    null_found-IsSound name crowded (get name c.buffers) c hs refl s

notify-IsSound :
    (low crowded : Bool) (o : Option Entry) (c : Cache) (hs : List ℕ)
    → IsSound c hs
    → IsSound (notify low crowded o c) hs
unfolding notify
notify-IsSound low crowded none c hs s = s
notify-IsSound low crowded (some e) c hs s = elim (Bool-cases (e.ref_counter == 0)) [
  | inl zero_ ↦ rw zero_ (null_references-IsSound e.name low crowded c hs s)
  | inr more ↦ rw more s
]

-- One of the two lists has the buffer, once.
dropped_self :
    (b : ℕ) (xs ys : List Entry) (hs : List ℕ)
    → copies b xs + copies b ys ≤ 1
    → refs b xs + refs b ys ≡ handles b hs
    → 0 < handles b hs
    → length hs < 2 ^ 64
    → refs b (decrement b xs) + refs b (decrement b ys) ≡ handles b (without b hs)
dropped_self b xs ys hs one all p l =
    let few : handles b hs < 2 ^ 64 = omega (arith, handles-le-length b hs) in
    let less = handles-without_self b hs p in
    elim (Bool-cases (copies b xs == 0)) [
      | inl e ↦
          let z : copies b xs ≡ 0 = (==_iff _ 0).0 e in
          let no_refs = copies-refs b xs z in
          let r : 0 < refs b ys = omega (arith, all) in
          let one_left : copies b ys ≡ 1 = omega (arith, refs-copies b ys r) in
          omega (
            arith,
            refs-decrement_none b xs z,
            refs-decrement_one b ys one_left r (omega (arith, all)),
          )
      | inr e ↦
          let z : copies b ys ≡ 0 = ground (arith, e, one) in
          let no_refs = copies-refs b ys z in
          let r : 0 < refs b xs = omega (arith, all) in
          let one_left : copies b xs ≡ 1 = omega (arith, refs-copies b xs r) in
          omega (
            arith,
            refs-decrement_none b ys z,
            refs-decrement_one b xs one_left r (omega (arith, all)),
          )
    ]

-- The references to the buffers after one of those to `b` is dropped.
dropped :
    (a b : ℕ) (xs ys : List Entry) (hs : List ℕ)
    → copies b xs + copies b ys ≤ 1
    → ((x : ℕ) → refs x xs + refs x ys ≡ handles x hs)
    → 0 < handles b hs
    → length hs < 2 ^ 64
    → refs a (decrement b xs) + refs a (decrement b ys) ≡ handles a (without b hs)
dropped a b xs ys hs one all p l = elim (Bool-cases (b == a)) [
  | inr other ↦ omega (
    arith,
    refs-decrement_other a b xs other,
    refs-decrement_other a b ys other,
    all a,
    handles-without_other a b hs other,
  )
  | inl same ↦
      let e : b ≡ a = (==_iff b a).0 same in rw (sym e) (dropped_self b xs ys hs one (all b) p l)
]

dropped-IsSound :
    (b : ℕ) (c : Cache) (hs : List ℕ)
    → 0 < handles b hs
    → IsSound c hs
    → IsSound
        (record c {
          buffers = decrement b c.buffers;
          buffers_to_remove = decrement b c.buffers_to_remove;
        })
        (without b hs)
dropped-IsSound b c hs l s =
    let p = c.buffers_to_remove in
    record {
      sizes = omega (arith, s.sizes, total-decrement b c.buffers, total-decrement b p);
      fits = s.fits;
      word = s.word;
      single =
          λ a. omega (arith, s.single a, copies-decrement a b c.buffers, copies-decrement a b p);
      fresh =
          λ a m. omega (arith, s.fresh a m, copies-decrement a b c.buffers, copies-decrement a b p);
      counted = λ a. dropped a b c.buffers p hs (s.single b) s.counted l s.few;
      few = omega (arith, s.few, length-without b hs);
    }

pub close_file-IsSound :
    (b : ℕ) (low crowded : Bool) (c : Cache) (hs : List ℕ)
    → 0 < handles b hs
    → IsSound c hs
    → IsSound (close_file b low crowded c) (without b hs)
unfolding close_file
close_file-IsSound b low crowded c hs l s =
    let d = record c {
      buffers = decrement b c.buffers;
      buffers_to_remove = decrement b c.buffers_to_remove;
    } in
    notify-IsSound low crowded (at_address b (d.buffers ++ d.buffers_to_remove)) d (without b hs)
      (dropped-IsSound b c hs l s)
