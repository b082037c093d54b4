-- ===== src/Tests/Folders.antt =====
-- A folder listed over HTTP, and a local one whose file is read into the cache.
use cache_system_with_fuse.Tests.{whole, disk, env, path}
use cache_system_with_fuse.Tests.Mounted.{info, folder, sys, home}
use cache_system_with_fuse.Tests.Calls.{path-Apart}
use cache_system_with_fuse.Fuse.{Mount, env_of, cache_of}
use cache_system_with_fuse.Fuse.Json.Server.{list_json}
use cache_system_with_fuse.Fuse.Json.Sets.{mem, Ascending}
use cache_system_with_fuse.Fuse.Json.Sorted.{find_json_names-Ascending}
use cache_system_with_fuse.Fuse.Json.{text_lt, find_json_names}
use cache_system_with_fuse.Fuse.Paths.{slash_last}
use cache_system_with_fuse.Fuse.Transfer.{read_file}
use cache_system_with_fuse.Manager.{Manager, entry}
use cache_system_with_fuse.Fuse.Transfer.Cached.{read_file-cache_read_file}
use cache_system_with_fuse.Files.{File, has_text, has_slash, parent, above, squeeze}
use cache_system_with_fuse.Files.Names.{length-above_le}
use cache_system_with_fuse.Files.Keeping.{Passable}
use cache_system_with_fuse.BlockStore.Total.{
  IsHealthy, shard_level1, shard_level2, length-shard_level1, length-shard_level2,
}
use cache_system_with_fuse.Manager.{hash_hex, local_path, join_path, ends_with_slash}
use cache_system_with_fuse.Manager.Rounds.{Apart}
use cache_system_with_fuse.Manager.ReadLaws.{IsOpen}
use cache_system_with_fuse.Manager.Api.{cache_read_file}
use cache_system_with_fuse.Lru
use cache_system_with_fuse.Base.{
  ℕ, suc, ◌+◌, ◌≡◌, refl, sym, ap, ◌≢◌, if_neg, ◌||◌, none, some, length, List, [], ◌∷◌, arith, pos,
  returned, Text, codes, text_discrete, find, Bytes, Agree,
}

-- The listing of a folder with two files, into a set that has one of the names and another.
find_json_names-Ascending_example :
    (names : List Text) × (find_json_names
        (list_json (info ∷ folder ∷ []))
        (codes "sub" ∷ codes "zz" ∷ [])
      ≡ returned names)
    × Ascending names
    × ((n : Text)
        → mem n names
          ≡ (mem n (codes "a b.txt" ∷ codes "sub" ∷ []) || mem n (codes "sub" ∷ codes "zz" ∷ [])))
find_json_names-Ascending_example =
    find_json_names-Ascending (info ∷ folder ∷ []) (codes "sub" ∷ codes "zz" ∷ [])
      ((refl, (refl, (refl, (refl, (refl, (refl, (refl, tt))))))), ((refl, (refl, (refl, tt))), tt))
      (unfold text_lt in (refl, (tt, tt)))

abbrev empty_cache : Manager ℕ
empty_cache = record {
  root = codes "r";
  store = disk;
  meta = [];
  lru = Lru.init 4;
  prefetches = [];
  entries = [];
}

-- Only a path of three characters can be that of the one file.
not_there :
    (q : Text)
    → length q ≢ 3
    → find {V = File} text_discrete q ((codes "d/f", record { size = 50; byte = λ i. i + 3 }) ∷ [])
      ≡ none
unfolding find
not_there q ne = if_neg (text_discrete (codes "d/f") q) (λ e. ne (sym (ap length e))) _ _

stocked-IsHealthy :
    IsHealthy
      (record home.disk { files = (codes "d/f", record { size = 50; byte = λ i. i + 3 }) ∷ [] })
      (codes "r")
unfolding has_text text_discrete
stocked-IsHealthy = record {
  has_root = refl;
  accepts = λ c q. refl;
  clear = λ g n. (
    not_there (shard_level1 (codes "r") g)
        (λ e. omega (arith, e, length-shard_level1 (codes "r") g n)),
    not_there (shard_level2 (codes "r") g)
        (λ e. omega (arith, e, length-shard_level2 (codes "r") g n)),
  );
}

stocked-Passable :
    Passable
      (record home.disk { files = (codes "d/f", record { size = 50; byte = λ i. i + 3 }) ∷ [] })
      (local_path (codes "r") path)
unfolding local_path join_path ends_with_slash above parent has_slash
stocked-Passable k =
    not_there (above (suc k) (codes "r/f")) (λ e. omega (arith, e, length-above_le k (codes "r")))

empty_cache-IsOpen : IsOpen (env_of sys home) empty_cache path
unfolding entry find
empty_cache-IsOpen = record { present = refl; named = refl }

empty_cache-Apart :
    Apart (local_path (codes "r") path) (codes "r") (hash_hex (env_of sys home) path)
unfolding hash_hex
empty_cache-Apart = path-Apart

-- A file in that directory, and a cache with nothing in it.
abbrev page : File
page = record { size = 50; byte = λ i. i + 3 }

abbrev stocked : Mount ℕ
stocked = record home {
  disk = record home.disk { files = (codes "d/f", page) ∷ [] };
  cache = some empty_cache;
}

read_file-cache_read_file_example :
    (s' : Mount ℕ) × (m' : Manager ℕ) × (got got' : Bytes) × (read_file whole sys stocked path
        (λ i. 0)
        40
        20
      ≡ returned (s', pos 30, got))
    × Agree 30 got (λ i. 20 + i + 3)
    × (cache_read_file whole env (cache_of s') path (λ i. 0) 30 20
        ≡ returned (some m', pos 30, got'))
    × Agree 30 got' (λ i. 20 + i + 3)
unfolding find text_discrete slash_last squeeze
read_file-cache_read_file_example =
    read_file-cache_read_file whole sys stocked empty_cache env path page (λ i. 0) (λ i. 0) 40 20
      refl (λ e. omega arith) refl stocked-IsHealthy refl empty_cache-IsOpen empty_cache-Apart
      stocked-Passable (omega arith)
