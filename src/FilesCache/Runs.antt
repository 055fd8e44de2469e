-- ===== src/FilesCache/Runs.antt =====
-- Every run of the calls of open and close.
use gnu_my_server_gso_c.Base.{
  ℕ, ◌+◌, ◌^◌, ◌≤◌, ◌<◌, List, [], Bool, ◌==◌, length, ◌≡◌, refl, inl, inr, Bool-cases, arith,
}
use gnu_my_server_gso_c.FilesCache.Cache.{
  Cache, Disk, new_cache, open_file, close_file, set_min_size, set_max_size,
}
use gnu_my_server_gso_c.FilesCache.Sums.{total, copies, refs, handles, copies-refs, refs-copies}
use gnu_my_server_gso_c.FilesCache.Sound.{IsSound, held, open_file-IsSound}
use gnu_my_server_gso_c.FilesCache.Closed.{without, close_file-IsSound}

-- A call, with the addresses of the buffers of the files that are open.
pub data Step : Cache → List ℕ → Cache → List ℕ → Type 0 where
  opened :
      {c : Cache} {hs : List ℕ} (name ticks : ℕ) (no_follow : Bool) (d : Disk)
      → length hs + 1 < 2 ^ 64
      → Step c hs
          (open_file name ticks no_follow d c).1
          (held (open_file name ticks no_follow d c).0 hs)
  closed :
      {c : Cache} {hs : List ℕ} (b : ℕ) (low crowded : Bool)
      → 0 < handles b hs
      → Step c hs (close_file b low crowded c) (without b hs)
  min_size_set : {c : Cache} {hs : List ℕ} (n : ℕ) → Step c hs (set_min_size n c) hs
  max_size_set : {c : Cache} {hs : List ℕ} (n : ℕ) → Step c hs (set_max_size n c) hs

pub data Run (size : ℕ) : Cache → List ℕ → Type 0 where
  created : Run size (new_cache size) []
  then_ : {c d : Cache} {hs ks : List ℕ} → Run size c hs → Step c hs d ks → Run size d ks

new_cache-IsSound : (size : ℕ) → size < 2 ^ 64 → IsSound (new_cache size) []
unfolding new_cache total copies refs handles
new_cache-IsSound size l = record {
  sizes = refl;
  fits = omega arith;
  word = l;
  single = λ a. omega arith;
  fresh = λ a m. refl;
  counted = λ a. refl;
  few = omega arith;
}

Step-IsSound : {c d : Cache} {hs ks : List ℕ} → Step c hs d ks → IsSound c hs → IsSound d ks
unfolding set_min_size set_max_size
Step-IsSound (opened {c} {hs} name ticks no_follow d l) s =
    open_file-IsSound name ticks no_follow d c hs l s
Step-IsSound (closed {c} {hs} b low crowded l) s = close_file-IsSound b low crowded c hs l s
Step-IsSound (min_size_set n) s = record {
  sizes = s.sizes;
  fits = s.fits;
  word = s.word;
  single = s.single;
  fresh = s.fresh;
  counted = s.counted;
  few = s.few;
}
Step-IsSound (max_size_set n) s = record {
  sizes = s.sizes;
  fits = s.fits;
  word = s.word;
  single = s.single;
  fresh = s.fresh;
  counted = s.counted;
  few = s.few;
}

Run-IsSound : {size : ℕ} {c : Cache} {hs : List ℕ} → size < 2 ^ 64 → Run size c hs → IsSound c hs
Run-IsSound {size} l created = new_cache-IsSound size l
Run-IsSound l (then_ r s) = Step-IsSound s (Run-IsSound l r)

-- In every run of the calls, the space used is the sum of the sizes of the buffers that are in memory,
-- and no more than the size of the cache; and the buffer of each CachedFile that is open is in memory,
-- in the table or in the list of those to remove, once.
pub Run_accounts :
    (size : ℕ) (c : Cache) (hs : List ℕ)
    → size < 2 ^ 64
    → Run size c hs
    → (c.used_size ≡ total c.buffers + total c.buffers_to_remove)
      × (c.used_size ≤ c.size)
      × ((a : ℕ) → 0 < handles a hs → copies a c.buffers + copies a c.buffers_to_remove ≡ 1)
Run_accounts size c hs l r = let s = Run-IsSound l r in (s.sizes, s.fits, λ a p. in_memory a s p)
  where
    in_memory :
        {c : Cache} {hs : List ℕ} (a : ℕ)
        → IsSound c hs
        → 0 < handles a hs
        → copies a c.buffers + copies a c.buffers_to_remove ≡ 1
    in_memory {c} a s p = elim (Bool-cases (copies a c.buffers == 0)) [
      | inl e ↦
          let z : copies a c.buffers ≡ 0 = ground (arith, e) in
          omega (
            arith,
            s.single a,
            z,
            copies-refs a c.buffers z,
            s.counted a,
            refs-copies a c.buffers_to_remove
                (omega (arith, s.counted a, copies-refs a c.buffers z)),
          )
      | inr e ↦ let z : 0 < copies a c.buffers = ground (arith, e) in omega (arith, s.single a, z)
    ]
