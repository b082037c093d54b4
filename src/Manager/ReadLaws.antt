-- ===== src/Manager/ReadLaws.antt =====
-- `CacheManager::read` against the bytes of the file.
use cache_system_with_fuse.Double.{Double}
use cache_system_with_fuse.Files.{Disk}
use cache_system_with_fuse.Manager.{
  Env, Manager, CacheEntry, k_block_size, hash_hex, entry, fetch_block, after_block,
}
use cache_system_with_fuse.Manager.Hash.{hash_hex-IsHash}
use cache_system_with_fuse.Manager.Fetch.{Serves, IsSound, fetch_block-IsSound}
use cache_system_with_fuse.Manager.Reading.{read}
use cache_system_with_fuse.Manager.ReadLoop.{read_loop-read}
use cache_system_with_fuse.Manager.Entries.{entry_keeps}
use cache_system_with_fuse.Base.{
  ℕ, ◌+◌, ◌*◌, ◌/◌, ◌≤◌, ◌<◌, ◌≡◌, false, some, arith, pos, returned, Text, Bytes, Agree,
}

pub IsSound-down :
    (d : Disk) (root h : Text) (src : Bytes) (n k : ℕ)
    → k ≤ n
    → IsSound d root h src n
    → IsSound d root h src k
IsSound-down d root h src n k le v = record {
  healthy = v.healthy;
  coherent = v.coherent;
  filled = λ o lt. v.filled o (omega arith);
}

-- A path that may be read: its entry, old or new, is not evicted and has the hash of the path.
pub record IsOpen {A : Type 0} (env : Env) (m : Manager A) (path : Text) : Type 0 where
  pub present : (entry env m path).1.evicted ≡ false
  pub named : (entry env m path).1.hash_hex ≡ hash_hex env path

-- Of a disk: enough to fetch every block of the range from block `n` on.
abbrev pub DiskYields : Env → Text → ℕ → ℕ → Bytes → Text → Text → (Disk → ℕ → Type 0) → Type 0
DiskYields env path len off src root h Ready =
    (d : Disk) (blk : ℕ)
    → 0 < len
    → off / k_block_size ≤ blk
    → blk * k_block_size < off + len
    → Ready d blk
    → (d' : Disk) × (block : Bytes) × (fetch_block env d root path h blk ≡ (d', some block))
      × Agree k_block_size block (λ i. src (blk * k_block_size + i))
      × Ready d' (blk + 1)

-- `CacheManager::read` of an entry that is open, on a disk that yields the blocks of the range.
pub read_yields :
    (F : Double) (env : Env) (path : Text) (len off : ℕ) (src : Bytes) (m : Manager F.Carrier)
    (buf : Bytes) (h : Text) (Ready : Disk → ℕ → Type 0)
    → ((d : Disk) (n k : ℕ) → k ≤ n → Ready d n → Ready d k)
    → DiskYields env path len off src m.root h Ready
    → (entry env m path).1.evicted ≡ false
    → (entry env m path).1.hash_hex ≡ h
    → Ready m.store (off / k_block_size)
    → (m' : Manager F.Carrier) × (buf' : Bytes) × (read F env path len off m buf
        ≡ returned (m', pos len, buf'))
      × Agree len buf' (λ i. src (off + i))
unfolding after_block
read_yields F env path len off src m buf h Ready weaken yields present named v =
    let e = entry env m path in
    let (same_store, same_root) = entry_keeps env m path in
    let Inv : Manager F.Carrier → CacheEntry → ℕ → Type 0 =
      λ m' ce n. (m'.root ≡ m.root) × (ce.hash_hex ≡ h) × Ready m'.store n in
    let (m', buf', ends, whole, _) =
      read_loop-read F env path len off src Inv
        (λ m' ce n k le inv. (inv.0, inv.1, weaken m'.store n k le inv.2))
        (λ m' ce blk some_bytes low high inv.
          let (d, block, f, same, next) = yields m'.store blk some_bytes low high inv.2 in
          (d, block, rw inv.0 (rw inv.1 f), same, (inv.0, inv.1, next)))
        m buf present (same_root, named, rw same_store v) in
    (m', buf', ends, whole)

-- `CacheManager::read` ends within one round per byte, returns the length that was asked for and
-- fills the buffer with the bytes of the file `src`, if the entry of the path (the one there, or
-- the new one) is not evicted and has the hash of the path, the backend delivers whole, right
-- blocks of the file up to the end of the range whatever the buffer held, the cache root is
-- there, no file has the name of a shard directory, the system refuses nothing and cuts no write
-- short, and what the store has of the file is right and has no gap before the block where the
-- read begins.
pub read_right :
    (F : Double) (env : Env) (path : Text) (len off : ℕ) (src : Bytes) (m : Manager F.Carrier)
    (buf : Bytes)
    → IsOpen env m path
    → IsSound m.store m.root (hash_hex env path) src (off / k_block_size * k_block_size)
    → ((blk : ℕ) → blk * k_block_size < off + len → Serves env path src blk)
    → (m' : Manager F.Carrier) × (buf' : Bytes) × (read F env path len off m buf
        ≡ returned (m', pos len, buf'))
      × Agree len buf' (λ i. src (off + i))
read_right F env path len off src m buf v sound serves =
    let h = hash_hex env path in
    let is_hash = hash_hex-IsHash env path in
    read_yields F env path len off src m buf h (λ d n. IsSound d m.root h src (n * k_block_size))
      (λ d n k le. IsSound-down d m.root h src (n * k_block_size) (k * k_block_size) (omega arith))
      (λ d blk some_bytes low high ready.
        fetch_block-IsSound env m.root path h src is_hash d blk ready (serves blk high))
      v.present v.named sound
