-- ===== src/Tests/Blocks.antt =====
-- A file that is read, written and evicted block by block, and a download.
use cache_system_with_fuse.Tests.{whole, root, disk, disk-IsHealthy, env, path, name, manager}
use cache_system_with_fuse.Tests.Policy.{two_blocks}
use cache_system_with_fuse.Tests.Store.{name-IsHash, disk-Coherent, disk-Filled}
use cache_system_with_fuse.BlockStore
use cache_system_with_fuse.Manager.{
  Env, Manager, CacheEntry, k_block_size, hash_hex, init_manager, entry, fetch_block,
}
use cache_system_with_fuse.Manager.Fetch.{Serves, IsSound}
use cache_system_with_fuse.Manager.Reading.{read}
use cache_system_with_fuse.Manager.ReadLaws.{IsOpen, read_right}
use cache_system_with_fuse.Manager.Writing.{store_block}
use cache_system_with_fuse.Manager.Prefetch.{read-run_prefetch}
use cache_system_with_fuse.Manager.Gap.{fetch_block-store_block, fetch_block_after_gap}
use cache_system_with_fuse.Manager.Eviction.{run_prefetch}
use cache_system_with_fuse.Http.{HttpBackend, Response, Curl, succeeded, download_request, download}
use cache_system_with_fuse.Http.Slices.{body, body_length}
use cache_system_with_fuse.Http.Requests.{download_lem}
use cache_system_with_fuse.Base.{
  ℕ, ◌+◌, ◌*◌, ◌/◌, ◌≤◌, ◌<◌, min, ◌≡◌, refl, ◌⊎◌, true, false, some, [], ◌∷◌, arith, pos, negsuc,
  returned, codes, find, Bytes, Agree,
}

abbrev bytes : Bytes
bytes = λ i. i

serves : (blk : ℕ) → Serves env path bytes blk
serves blk buf = (refl, λ i lt. refl)

sound : IsSound disk root name bytes 0
sound = record { healthy = disk-IsHealthy; coherent = disk-Coherent; filled = disk-Filled }

manager-IsOpen : IsOpen env manager path
unfolding entry init_manager find
manager-IsOpen = record { present = refl; named = refl }

manager-IsSound :
    IsSound manager.store manager.root (hash_hex env path) bytes (10 / k_block_size * k_block_size)
unfolding init_manager
manager-IsSound = sound

read_right_example :
    (m' : Manager whole.Carrier) × (buf' : Bytes) × (read whole env path 100_000 10 manager (λ i. 0)
      ≡ returned (m', pos 100_000, buf'))
    × Agree 100_000 buf' (λ i. bytes (10 + i))
read_right_example =
    read_right whole env path 100_000 10 bytes manager (λ i. 0) manager-IsOpen manager-IsSound
      (λ blk lt. serves blk)

fetch_block-store_block_example :
    let d' = store_block disk root name bytes 0 2 10 5 in
    (block : Bytes) × (fetch_block env d' root path name 2 ≡ (d', some block))
    × ((i : ℕ) → i < 5 → block (10 + i) ≡ bytes (0 + i))
    × ((i : ℕ) → i < k_block_size → (i < 10) ⊎ (10 + 5 ≤ i) → block i ≡ 0)
unfolding find
fetch_block-store_block_example =
    fetch_block-store_block env disk root path name disk-IsHealthy name-IsHash bytes 0 2 10 5
      (omega arith) refl

fetch_block_after_gap_example :
    let d' = (BlockStore.write disk root name bytes k_block_size (3 * k_block_size)).0 in
    (block : Bytes) × (fetch_block env d' root path name 1 ≡ (d', some block))
    × ((i : ℕ) → i < k_block_size → block i ≡ 0)
unfolding find
fetch_block_after_gap_example =
    fetch_block_after_gap env disk root path name disk-IsHealthy name-IsHash bytes k_block_size 1 3
      (omega arith) refl (omega arith) refl

-- A manager with an entry, two tracked blocks and one file.
abbrev live : CacheEntry
live = record { path = path; hash_hex = name; last_block = 3; evicted = false }

abbrev busy : Manager ℕ
busy = record {
  root = root;
  store = record disk { files = (codes "r/f", record { size = 9; byte = bytes }) ∷ [] };
  meta = [];
  lru = two_blocks;
  prefetches = [];
  entries = (path, live) ∷ [];
}

-- No backend at all.
abbrev nowhere : Env
nowhere = record env { remote = λ path buf len off. (negsuc 0, buf) }

-- A job for the first blocks of the file.
abbrev job : CacheEntry
job = record { path = path; hash_hex = name; last_block = 0; evicted = false }

read-run_prefetch_example :
    let m' = run_prefetch whole env manager ((job, 0) ∷ []) in
    (m'' : Manager ℕ) × (buf' : Bytes) × (read whole nowhere path 200_000 10 m' (λ i. 0)
      ≡ returned (m'', pos 200_000, buf'))
    × Agree 200_000 buf' (λ i. bytes (10 + i))
unfolding init_manager entry find hash_hex
read-run_prefetch_example =
    read-run_prefetch whole env nowhere manager job 0 [] bytes (λ i. 0) path 200_000 10 name-IsHash
      sound (λ blk low high. serves blk) refl refl (omega arith)

abbrev answer : Response
answer = record { ok = true; http_code = 206; chunks = (bytes, 3) ∷ (bytes, 4) ∷ [] }

abbrev curl : Curl
curl = λ request. some answer

abbrev backend : HttpBackend
backend = record { base_url = codes "http://h"; bearer_token = [] }

download_lem_example :
    let d = download curl backend path (λ i. 0) 5 100 in
    ((i : ℕ) → 5 ≤ i → d.1 i ≡ 0)
    × (((r : Response) × (curl (download_request backend path 5 100) ≡ some r)
          × (succeeded r ≡ true)
          × (d.0 ≡ pos (min 5 (body_length r.chunks)))
          × ((i : ℕ) → i < min 5 (body_length r.chunks) → d.1 i ≡ body r.chunks i))
        ⊎ (((r : Response)
              → curl (download_request backend path 5 100) ≡ some r
              → succeeded r ≡ false)
            × (d.0 ≡ negsuc 0)))
download_lem_example = download_lem curl backend path (λ i. 0) 5 100
