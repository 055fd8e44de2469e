-- ===== src/FilesCache/Sound.antt =====
-- The accounts of the cache: the space used, and the references to its buffers.
use gnu_my_server_gso_c.Base.{
  ℕ, ◌+◌, ◌-◌, ◌%◌, ◌^◌, ◌≤◌, ◌<◌, List, ◌∷◌, Bool, false, not, ◌&&◌, ◌||◌, Option, none, some,
  ◌==◌, length, ◌≡◌, ◌≢◌, refl, inl, inr, Bool-cases, ==_iff, arith,
}
use gnu_my_server_gso_c.FilesCache.Cache.{
  Entry, Cache, Disk, Opened, cached, direct, thrown, sub_ulong, get, change, purge, purge_records,
  refresh, use_entry, new_entry, open_direct, too_large, open_new, open_old, open_found, open_file,
}
use gnu_my_server_gso_c.FilesCache.Sums.{
  total, at, copies, refs, handles, Keeps, at_zero, at-le, at_other, handles_cons, total-purge,
  copies-purge, refs-purge, total-change, copies-change, refs-change,
}

-- `hs` has the address of the buffer of each CachedFile that is open.
pub record IsSound (c : Cache) (hs : List ℕ) : Type 0 where
  pub sizes : c.used_size ≡ total c.buffers + total c.buffers_to_remove
  pub fits : c.used_size ≤ c.size
  pub word : c.size < 2 ^ 64
  pub single : (a : ℕ) → copies a c.buffers + copies a c.buffers_to_remove ≤ 1
  pub fresh : (a : ℕ) → c.next ≤ a → copies a c.buffers + copies a c.buffers_to_remove ≡ 0
  pub counted : (a : ℕ) → refs a c.buffers + refs a c.buffers_to_remove ≡ handles a hs
  pub few : length hs < 2 ^ 64

purge_records-IsSound : (c : Cache) (hs : List ℕ) → IsSound c hs → IsSound (purge_records c) hs
unfolding purge_records sub_ulong
purge_records-IsSound c hs s =
    let freed = total-purge c.buffers_to_remove in
    let left : (c.used_size + 2 ^ 64 - (purge c.buffers_to_remove).1) % 2 ^ 64
        ≡ total c.buffers + total (purge c.buffers_to_remove).0 =
      omega (arith, freed, s.sizes, s.fits, s.word) in
    record {
      sizes = left;
      fits = omega (arith, left, freed, s.sizes, s.fits);
      word = s.word;
      single = λ a. omega (arith, s.single a, copies-purge a c.buffers_to_remove);
      fresh = λ a l. omega (arith, s.fresh a l, copies-purge a c.buffers_to_remove);
      counted = λ a. omega (arith, s.counted a, refs-purge a c.buffers_to_remove);
      few = s.few;
    }

-- A change of the record under a name, with `n` references more.
change-IsSound :
    (f : Entry → Entry) (n : ℕ) (name : ℕ) (e : Entry) (c : Cache) (hs ks : List ℕ)
    → Keeps f n
    → get name c.buffers ≡ some e
    → ((a : ℕ) → handles a ks ≡ handles a hs + at a e.address n)
    → length ks < 2 ^ 64
    → IsSound c hs
    → IsSound (record c { buffers = change name f c.buffers }) ks
change-IsSound f n name e c hs ks k g h l s = record {
  sizes = omega (arith, s.sizes, total-change f n k name c.buffers);
  fits = s.fits;
  word = s.word;
  single = λ a. omega (arith, s.single a, copies-change f n k name a c.buffers);
  fresh = λ a m. omega (arith, s.fresh a m, copies-change f n k name a c.buffers);
  counted = λ a. omega (arith, s.counted a, refs-change f n k name a c.buffers e g, h a);
  few = l;
}

-- The handles after an open.
unfoldable pub held : Opened → List ℕ → List ℕ
held (cached a) hs = a ∷ hs
held direct hs = hs
held thrown hs = hs

open_direct-held : (d : Disk) (hs : List ℕ) → held (open_direct d) hs ≡ hs
unfolding open_direct held
open_direct-held d hs = ground arith

refresh-Keeps : (ticks : ℕ) (d : Disk) → Keeps (refresh ticks d) 0
unfolding refresh
refresh-Keeps ticks d = record {
  address = λ e. ground arith;
  file_size = λ e. ground arith;
  counts = λ e. ground arith;
}

use-Keeps : (ticks : ℕ) (d : Disk) → Keeps (λ e. use_entry (refresh ticks d e)) 1
unfolding use_entry
use-Keeps ticks d =
    let k = refresh-Keeps ticks d in
    record { address = k.address; file_size = k.file_size; counts = λ e. omega (arith, k.counts e) }

open_old-IsSound :
    (name ticks : ℕ) (no_follow : Bool) (d : Disk) (e : Entry) (c : Cache) (hs : List ℕ)
    → get name c.buffers ≡ some e
    → length hs + 1 < 2 ^ 64
    → IsSound c hs
    → IsSound
        (open_old name ticks no_follow d e c).1
        (held (open_old name ticks no_follow d e c).0 hs)
unfolding open_old held
open_old-IsSound name ticks no_follow d e c hs g l s =
    let r = refresh ticks d e in
    elim (Bool-cases (r.invalid_cache || (not no_follow && r.symlink))) [
      | inl bad ↦
          rw (bad, open_direct-held d hs)
            (change-IsSound (refresh ticks d) 0 name e c hs hs (refresh-Keeps ticks d) g
              (λ a. omega (arith, at_zero a e.address)) s.few s)
      | inr good ↦ rw good (
          change-IsSound (λ x. use_entry (refresh ticks d x)) 1 name e c hs (e.address ∷ hs)
            (use-Keeps ticks d) g (λ a. handles_cons a e.address hs) (omega (arith, l)) s)
    ]

fits_in :
    (c : Cache) (n : ℕ)
    → too_large c n ≡ false
    → c.used_size ≤ c.size
    → c.size < 2 ^ 64
    → c.used_size + n ≤ c.size
unfolding too_large sub_ulong
fits_in c n h l w =
    let e : (c.size + 2 ^ 64 - c.used_size) % 2 ^ 64 ≡ c.size - c.used_size = omega arith in
    ground (arith, h, e)

open_new-IsSound :
    (name ticks : ℕ) (d : Disk) (c : Cache) (hs : List ℕ)
    → length hs + 1 < 2 ^ 64
    → IsSound c hs
    → IsSound (open_new name ticks d c).1 (held (open_new name ticks d c).0 hs)
unfolding open_new held use_entry new_entry total copies refs
open_new-IsSound name ticks d c hs l s = elim (Bool-cases (not d.exists)) [
  | inl gone ↦ rw gone s
  | inr there ↦ elim (Bool-cases (too_large c d.file_size)) [
    | inl large ↦ rw (there, large) s
    | inr room ↦
        let fits = fits_in c d.file_size room s.fits s.word in
        rw (there, room)
          (record {
            sizes = omega (arith, fits, s.sizes, s.word);
            fits = omega (arith, fits, s.word);
            word = s.word;
            single = λ a. elim (Bool-cases (c.next == a)) [
              | inl e ↦
                  let same : c.next ≡ a = (==_iff c.next a).0 e in
                  omega (arith, s.fresh a (omega (arith, same)), at-le a c.next 1)
              | inr e ↦
                  let other : a ≢ c.next = λ q. ground (arith, e, q) in
                  omega (arith, s.single a, at_other a c.next 1 other)
            ];
            fresh = λ a m.
                omega
                  (arith, s.fresh a (omega arith), at_other a c.next 1 (λ q. omega (arith, q, m)));
            counted = λ a. omega (arith, s.counted a, handles_cons a c.next hs);
            few = omega (arith, l);
          })
  ]
]

open_found-IsSound :
    (name ticks : ℕ) (no_follow : Bool) (d : Disk) (o : Option Entry) (c : Cache) (hs : List ℕ)
    → get name c.buffers ≡ o
    → length hs + 1 < 2 ^ 64
    → IsSound c hs
    → IsSound
        (open_found name ticks no_follow d o c).1
        (held (open_found name ticks no_follow d o c).0 hs)
unfolding open_found
open_found-IsSound name ticks no_follow d none c hs g l s = open_new-IsSound name ticks d c hs l s
open_found-IsSound name ticks no_follow d (some e) c hs g l s =
    open_old-IsSound name ticks no_follow d e c hs g l s

pub open_file-IsSound :
    (name ticks : ℕ) (no_follow : Bool) (d : Disk) (c : Cache) (hs : List ℕ)
    → length hs + 1 < 2 ^ 64
    → IsSound c hs
    → IsSound
        (open_file name ticks no_follow d c).1
        (held (open_file name ticks no_follow d c).0 hs)
unfolding open_file
open_file-IsSound name ticks no_follow d c hs l s =
    let p = purge_records c in
    open_found-IsSound name ticks no_follow d (get name p.buffers) p hs refl l
      (purge_records-IsSound c hs s)
