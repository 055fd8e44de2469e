-- ===== src/FilesCache/Cache.antt =====
-- class CachedFileFactory with its records and their buffers. The table of the records is the finite
-- map from names to records that a HashMap stands for, as a list; names are numbers. A record and its
-- buffer are one entry, and its address is its number.
use gnu_my_server_gso_c.Base.{
  ℕ, ◌+◌, ◌-◌, ◌%◌, ◌^◌, List, [], ◌∷◌, ◌++◌, Bool, false, not, ◌&&◌, ◌||◌, Option, none, some, ltb,
  leb, ◌==◌, if◌then◌else◌,
}

pub record Entry : Type 0 where
  pub address : ℕ
  pub name : ℕ
  pub used : ℕ
  pub created : ℕ
  pub invalid_cache : Bool
  pub file_size : ℕ
  pub symlink : Bool
  pub expire_time : ℕ
  pub ref_counter : ℕ

-- `next` is the address of the next record.
pub record Cache : Type 0 where
  pub buffers : List Entry
  pub buffers_to_remove : List Entry
  pub used_size : ℕ
  pub size : ℕ
  pub min_size : ℕ
  pub max_size : ℕ
  pub next : ℕ

-- What the system says of a file: whether it can be opened, its size, whether it is a symbolic link,
-- and whether it is the file that was cached.
pub record Disk : Type 0 where
  pub exists : Bool
  pub file_size : ℕ
  pub symlink : Bool
  pub unchanged : Bool

-- What open returns: a CachedFile on an entry, a File, or an exception.
pub data Opened : Type 0 where
  cached : ℕ → Opened
  direct thrown : Opened

-- u_long subtraction.
unfoldable pub sub_ulong : ℕ → ℕ → ℕ
sub_ulong a b = (a + 2 ^ 64 - b) % 2 ^ 64

unfoldable pub new_cache : ℕ → Cache
new_cache size = record {
  buffers = [];
  buffers_to_remove = [];
  used_size = 0;
  size = size;
  min_size = 0;
  max_size = 0;
  next = 0;
}

unfoldable pub set_min_size : ℕ → Cache → Cache
set_min_size n c = record c { min_size = n }

unfoldable pub set_max_size : ℕ → Cache → Cache
set_max_size n c = record c { max_size = n }

unfoldable pub get : ℕ → List Entry → Option Entry
get name [] = none
get name (e ∷ es) = if e.name == name then some e else get name es

-- The record under the name is changed in place.
unfoldable pub change : ℕ → (Entry → Entry) → List Entry → List Entry
change name f [] = []
change name f (e ∷ es) = if e.name == name then f e ∷ es else e ∷ change name f es

unfoldable pub remove_name : ℕ → List Entry → List Entry
remove_name name [] = []
remove_name name (e ∷ es) = if e.name == name then es else e ∷ remove_name name es

-- purgeRecords: what stays in the list, and the sizes of what goes.
unfoldable pub purge : List Entry → List Entry × ℕ
purge [] = ([], 0)
purge (e ∷ es) =
    let (kept, freed) = purge es in
    if e.ref_counter == 0 then (kept, e.file_size + freed) else (e ∷ kept, freed)

unfoldable pub purge_records : Cache → Cache
unfolding purge sub_ulong
purge_records c =
    let (kept, freed) = purge c.buffers_to_remove in
    record c { buffers_to_remove = kept; used_size = sub_ulong c.used_size freed }

abbrev pub expire_after : ℕ
expire_after = 5_000_000

unfoldable pub refresh : ℕ → Disk → Entry → Entry
refresh ticks d e =
    if leb e.expire_time ticks
    then record e { expire_time = ticks + expire_after; invalid_cache = not d.unchanged }
    else e

-- A use of the record, with the reference of the new CachedFile.
unfoldable pub use_entry : Entry → Entry
use_entry e = record e { used = e.used + 1; ref_counter = e.ref_counter + 1 }

unfoldable pub new_entry : ℕ → ℕ → Disk → ℕ → Entry
new_entry address name d ticks = record {
  address = address;
  name = name;
  used = 0;
  created = ticks;
  invalid_cache = false;
  file_size = d.file_size;
  symlink = d.symlink;
  expire_time = ticks + expire_after;
  ref_counter = 0;
}

-- The file itself, without the cache.
unfoldable pub open_direct : Disk → Opened
open_direct d = if d.exists then direct else thrown

unfoldable pub too_large : Cache → ℕ → Bool
unfolding sub_ulong
too_large c n =
    (not (c.min_size == 0) && ltb n c.min_size)
    || (not (c.max_size == 0) && ltb c.max_size n)
    || ltb (sub_ulong c.size c.used_size) n

-- A file that the cache does not have.
unfoldable pub open_new : ℕ → ℕ → Disk → Cache → Opened × Cache
unfolding too_large new_entry use_entry
open_new name ticks d c =
    if not d.exists then (thrown, c) else if too_large c d.file_size then (direct, c) else (
      cached c.next,
      record c {
        buffers = use_entry (new_entry c.next name d ticks) ∷ c.buffers;
        used_size = (c.used_size + d.file_size) % 2 ^ 64;
        next = c.next + 1;
      },
    )

-- A record that the cache has.
unfoldable pub open_old : ℕ → ℕ → Bool → Disk → Entry → Cache → Opened × Cache
unfolding refresh use_entry change open_direct
open_old name ticks no_follow d e c =
    let r = refresh ticks d e in
    if r.invalid_cache || (not no_follow && r.symlink)
    then (open_direct d, record c { buffers = change name (refresh ticks d) c.buffers })
    else (
      cached e.address,
      record c { buffers = change name (λ x. use_entry (refresh ticks d x)) c.buffers },
    )

unfoldable pub open_found : ℕ → ℕ → Bool → Disk → Option Entry → Cache → Opened × Cache
unfolding open_new open_old
open_found name ticks no_follow d none c = open_new name ticks d c
open_found name ticks no_follow d (some e) c = open_old name ticks no_follow d e c

-- CachedFileFactory::open. `no_follow` is the flag NO_FOLLOW_SYMLINK.
unfoldable pub open_file : ℕ → ℕ → Bool → Disk → Cache → Opened × Cache
unfolding purge_records get open_found
open_file name ticks no_follow d c =
    let p = purge_records c in open_found name ticks no_follow d (get name p.buffers) p

-- nullReferences. The comparisons of the use of the space and of the age, which are of type float and
-- of the clock, are arguments: `low` for a use below 0.65, `crowded` for the two that make a record
-- leave.
unfoldable pub null_found : ℕ → Bool → Option Entry → Cache → Cache
unfolding remove_name
null_found name crowded none c = c
null_found name crowded (some e) c =
    if crowded || e.invalid_cache
    then record c {
      buffers = remove_name name c.buffers;
      buffers_to_remove = c.buffers_to_remove ++ (e ∷ []);
    }
    else c

unfoldable pub null_references : ℕ → Bool → Bool → Cache → Cache
unfolding get null_found
null_references name low crowded c =
    if low then c else null_found name crowded (get name c.buffers) c

-- decRef of the buffer at an address; `refCounter` is a u_long.
unfoldable pub decrement : ℕ → List Entry → List Entry
unfolding sub_ulong
decrement a [] = []
decrement a (e ∷ es) =
    (if e.address == a then record e { ref_counter = sub_ulong e.ref_counter 1 } else e)
    ∷ decrement a es

unfoldable pub at_address : ℕ → List Entry → Option Entry
at_address a [] = none
at_address a (e ∷ es) = if e.address == a then some e else at_address a es

unfoldable pub notify : Bool → Bool → Option Entry → Cache → Cache
unfolding null_references
notify low crowded none c = c
notify low crowded (some e) c =
    if e.ref_counter == 0 then null_references e.name low crowded c else c

-- The end of a CachedFile.
unfoldable pub close_file : ℕ → Bool → Bool → Cache → Cache
unfolding decrement at_address notify
close_file a low crowded c =
    let d = record c {
      buffers = decrement a c.buffers;
      buffers_to_remove = decrement a c.buffers_to_remove;
    } in
    notify low crowded (at_address a (d.buffers ++ d.buffers_to_remove)) d
