-- ===== src/FilesCache/Served.antt =====
-- What open does with a record that the table has.
use gnu_my_server_gso_c.Base.{
  ℕ, ◌+◌, List, [], ◌∷◌, Bool, true, not, ◌&&◌, ◌||◌, some, ltb, ◌==◌, if◌then◌else◌, ◌≡◌, refl, ap,
  ◌∙◌, inl, inr, Bool-cases, arith,
}
use gnu_my_server_gso_c.FilesCache.Cache.{
  Entry, Cache, Disk, Opened, cached, direct, thrown, get, change, purge_records, refresh,
  use_entry, open_direct, open_old, open_found, open_file,
}

-- Whether the record can be served: it is valid, as the file says if the record has expired and as
-- the record says if not, and no symbolic link that the caller follows.
unfoldable pub servable : ℕ → Bool → Disk → Entry → Bool
servable ticks no_follow d e =
    (if ltb ticks e.expire_time then not e.invalid_cache else d.unchanged)
    && (no_follow || not e.symlink)

-- What open does with the record `e` under the name: the answer and the record afterwards.
pub record Reopened (name ticks : ℕ) (no_follow : Bool) (d : Disk) (e : Entry) (o : Opened × Cache)
    : Type 0 where
  pub answer : o.0 ≡ (
      if servable ticks no_follow d e
      then cached e.address
      else if d.exists
      then direct
      else thrown)
  pub entry : Entry
  pub found : get name o.1.buffers ≡ some entry
  pub address : entry.address ≡ e.address
  pub references :
      entry.ref_counter
      ≡ (if servable ticks no_follow d e then e.ref_counter + 1 else e.ref_counter)
  pub valid :
      entry.invalid_cache ≡ (if ltb ticks e.expire_time then e.invalid_cache else not d.unchanged)
  pub expires :
      entry.expire_time ≡ (if ltb ticks e.expire_time then e.expire_time else ticks + 5_000_000)

get-change :
    (name : ℕ) (f : Entry → Entry) (xs : List Entry) (e : Entry)
    → ((x : Entry) → (f x).name ≡ x.name)
    → get name xs ≡ some e
    → get name (change name f xs) ≡ some (f e)
unfolding get change
get-change name f [] e k h = absurd (ground (arith, h))
get-change name f (x ∷ xs) e k h = elim (Bool-cases (x.name == name)) [
  | inl m ↦
      let same : x ≡ e = ground (arith, rw m at h) in
      let n : ((f x).name == name) ≡ true = ap (λ z. z == name) (k x) ∙ m in
      rw (m, n) (ap (λ y. some (f y)) same)
  | inr m ↦ rw (m, m) (get-change name f xs e k (rw m at h))
]

refresh-name : (ticks : ℕ) (d : Disk) (e : Entry) → (refresh ticks d e).name ≡ e.name
unfolding refresh
refresh-name ticks d e = ground arith

-- The guard of open is that of `servable`.
guard-servable :
    (ticks : ℕ) (no_follow : Bool) (d : Disk) (e : Entry)
    → (refresh ticks d e).invalid_cache || (not no_follow && (refresh ticks d e).symlink)
      ≡ not (servable ticks no_follow d e)
unfolding refresh servable
guard-servable ticks no_follow d e = ground arith

refresh-valid :
    (ticks : ℕ) (d : Disk) (e : Entry)
    → (refresh ticks d e).invalid_cache
      ≡ (if ltb ticks e.expire_time then e.invalid_cache else not d.unchanged)
unfolding refresh
refresh-valid ticks d e = ground arith

refresh-expires :
    (ticks : ℕ) (d : Disk) (e : Entry)
    → (refresh ticks d e).expire_time
      ≡ (if ltb ticks e.expire_time then e.expire_time else ticks + 5_000_000)
unfolding refresh
refresh-expires ticks d e = ground arith

refresh-address : (ticks : ℕ) (d : Disk) (e : Entry) → (refresh ticks d e).address ≡ e.address
unfolding refresh
refresh-address ticks d e = ground arith

refresh-references :
    (ticks : ℕ) (d : Disk) (e : Entry) → (refresh ticks d e).ref_counter ≡ e.ref_counter
unfolding refresh
refresh-references ticks d e = ground arith

open_old-Reopened :
    (name ticks : ℕ) (no_follow : Bool) (d : Disk) (e : Entry) (c : Cache)
    → get name c.buffers ≡ some e
    → Reopened name ticks no_follow d e (open_old name ticks no_follow d e c)
unfolding open_old use_entry open_direct
open_old-Reopened name ticks no_follow d e c g =
    let guard = guard-servable ticks no_follow d e in
    elim (Bool-cases (servable ticks no_follow d e)) [
      | inl good ↦
          rw (guard, good)
            (record {
              answer = rw good refl;
              entry = use_entry (refresh ticks d e);
              found =
                  get-change name (λ x. use_entry (refresh ticks d x)) c.buffers e
                    (refresh-name ticks d) g;
              address = refresh-address ticks d e;
              references = rw good (ap (λ n. n + 1) (refresh-references ticks d e));
              valid = refresh-valid ticks d e;
              expires = refresh-expires ticks d e;
            })
      | inr bad ↦
          rw (guard, bad)
            (record {
              answer = rw bad refl;
              entry = refresh ticks d e;
              found = get-change name (refresh ticks d) c.buffers e (refresh-name ticks d) g;
              address = refresh-address ticks d e;
              references = rw bad (refresh-references ticks d e);
              valid = refresh-valid ticks d e;
              expires = refresh-expires ticks d e;
            })
    ]

-- If the table has a record under the name, open serves it exactly if it is valid, which the file
-- decides where the record has expired, and if it is no symbolic link that is followed; else it opens
-- the file itself. The record stays under its name, has a reference more exactly if it is served, and
-- keeps what was found on its validity with a new time.
pub open_file-Reopened :
    (name ticks : ℕ) (no_follow : Bool) (d : Disk) (c : Cache) (e : Entry)
    → get name c.buffers ≡ some e
    → Reopened name ticks no_follow d e (open_file name ticks no_follow d c)
unfolding open_file open_found purge_records
open_file-Reopened name ticks no_follow d c e g =
    rw g (open_old-Reopened name ticks no_follow d e (purge_records c) g)
