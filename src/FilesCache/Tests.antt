-- ===== src/FilesCache/Tests.antt =====
-- The theorems on the files cache at concrete inputs, and runs of the code.
use gnu_my_server_gso_c.Base.{some, ℕ, ◌+◌, ◌≤◌, ◌<◌, [], ◌∷◌, true, false, ◌≡◌, refl, arith}
use gnu_my_server_gso_c.FilesCache.Cache.{
  Cache, Entry, Disk, get, cached, direct, new_cache, open_file, close_file,
}
use gnu_my_server_gso_c.FilesCache.Sums.{total, copies, handles}
use gnu_my_server_gso_c.FilesCache.Sound.{held}
use gnu_my_server_gso_c.FilesCache.Runs.{Run, created, then_, opened, Run_accounts}
use gnu_my_server_gso_c.FilesCache.Served.{Reopened, open_file-Reopened}

abbrev page : Disk
page = record { exists = true; file_size = 30; symlink = false; unchanged = true }

abbrev with_page : Cache
with_page = (open_file 5 1000 false page (new_cache 100)).1

page_cached : (open_file 5 1000 false page (new_cache 100)).0 ≡ cached 0
unfolding open_file new_cache
page_cached = refl

run_to_page : Run 100 with_page (0 ∷ [])
unfolding open_file new_cache held
run_to_page = then_ created (opened 5 1000 false page (omega arith))

run_accounts_example :
    (with_page.used_size ≡ total with_page.buffers + total with_page.buffers_to_remove)
    × (with_page.used_size ≤ with_page.size)
    × ((a : ℕ)
        → 0 < handles a (0 ∷ [])
        → copies a with_page.buffers + copies a with_page.buffers_to_remove ≡ 1)
run_accounts_example = Run_accounts 100 with_page (0 ∷ []) (omega arith) run_to_page

-- The record of the page, with the reference of the first open.
abbrev opened_once : Entry
opened_once = record {
  address = 0;
  name = 5;
  used = 1;
  created = 1000;
  invalid_cache = false;
  file_size = 30;
  symlink = false;
  expire_time = 5_001_000;
  ref_counter = 1;
}

page_found : get 5 with_page.buffers ≡ some opened_once
unfolding open_file new_cache get
page_found = refl

open_file_example :
    Reopened 5 9_000_000 false page opened_once (open_file 5 9_000_000 false page with_page)
open_file_example = open_file-Reopened 5 9_000_000 false page with_page opened_once page_found

-- The record leaves the table with its last reference, and the memory with the next open.
closed_accounts : (close_file 0 false true with_page).used_size ≡ 30
unfolding close_file open_file new_cache
closed_accounts = refl

purged_accounts :
    (open_file 6 2000 false
      (record page { file_size = 7 })
      (close_file 0 false true with_page)).1.used_size
    ≡ 7
unfolding close_file open_file new_cache
purged_accounts = refl

too_large_direct : (open_file 5 1000 false page (new_cache 29)).0 ≡ direct
unfolding open_file new_cache
too_large_direct = refl
