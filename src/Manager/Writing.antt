-- ===== src/Manager/Writing.antt =====
-- `CacheManager::write`: each block is read, changed and stored, and the bytes also go to the file
-- under the root.
use cache_system_with_fuse.Double.{Double}
use cache_system_with_fuse.Files.{
  Disk, failed, opened, parent, open_file, pwrite, create_directories,
}
use cache_system_with_fuse.Layout.{k_max_part_size}
use cache_system_with_fuse.BlockStore
use cache_system_with_fuse.Bitmap.{mark_dirty_block}
use cache_system_with_fuse.Lru
use cache_system_with_fuse.Manager.{
  Env, Manager, CacheEntry, k_block_size, entry, local_path, block_key,
}
use cache_system_with_fuse.Manager.Reading.{enoent}
use cache_system_with_fuse.Base.{
  ℕ, zero, suc, ◌+◌, ◌-◌, ◌*◌, ◌/◌, min, Bool, true, false, Option, none, some, ltb, if◌then◌else◌,
  ℤ, pos, Outcome, returned, thrown, exhausted, Text, Bytes, memcpy,
}

-- `ensure_dst`: whether `dst_fd` is open afterwards. `fs::create_directories` may throw.
unfoldable pub ensure_dst : Disk → Text → Bool → Option (Disk × Bool)
ensure_dst d dst true = some (d, true)
ensure_dst d dst false = elim (create_directories d (parent dst)) [
  | none ↦ none
  | some d' ↦ elim (open_file d' dst true) [
    | failed e ↦ some (d', false)
    | opened d'' ↦ some (d'', true)
  ]
]

-- The block of the store with `chunk` bytes of `buf` over it; where nothing is stored it is zeros.
unfoldable pub merge_block : Disk → Text → Text → Bytes → ℕ → ℕ → ℕ → ℕ → Bytes
merge_block d root hash buf done blk within chunk =
    let stored = BlockStore.read d root hash (λ i. 0) k_block_size (blk * k_block_size) in
    memcpy stored.1 within buf done chunk

-- The part of a round on the disk, up to `ensure_dst`.
unfoldable pub store_block : Disk → Text → Text → Bytes → ℕ → ℕ → ℕ → ℕ → Disk
store_block d root hash buf done blk within chunk =
    (BlockStore.write d root hash (merge_block d root hash buf done blk within chunk) k_block_size
      (blk * k_block_size)).0

-- `::pwrite(dst_fd, …)`, whose result is ignored.
unfoldable pub write_through : Disk → Text → Bool → Bytes → ℕ → ℕ → ℕ → Disk
write_through d dst has_dst buf done chunk off =
    if has_dst then (pwrite d dst (λ i. buf (done + i)) chunk (off + done)).1 else d

module _ (F : Double) (env : Env) (path : Text) (buf : Bytes) (len off : ℕ) where
  unfoldable pub write_loop :
      ℕ → Manager F.Carrier → CacheEntry → Bool → ℕ → Outcome (Manager F.Carrier × ℤ)
  write_loop zero m ce has_dst done = if ltb done len then exhausted else returned (m, pos done)
  write_loop (suc fuel) m ce has_dst done = elim (ltb done len) [
    | false ↦ returned (m, pos done)
    | true ↦
        let blk = (off + done) / k_block_size in
        let boff = blk * k_block_size in
        let within = off + done - boff in
        let chunk = min (k_block_size - within) (len - done) in
        let dst = local_path m.root path in
        let stored = store_block m.store m.root ce.hash_hex buf done blk within chunk in
        elim (ensure_dst stored dst has_dst) [
          | none ↦ thrown
          | some (d, ready) ↦
              write_loop fuel
                (record m {
                  store = write_through d dst ready buf done chunk off;
                  meta = mark_dirty_block m.meta ce.hash_hex (boff / k_max_part_size) blk;
                  lru = Lru.touch F m.lru (block_key (env.address path) blk) k_block_size F.one;
                })
                ce ready (done + chunk)
        ]
  ]

  unfoldable pub write : Manager F.Carrier → Outcome (Manager F.Carrier × ℤ)
  unfolding write_loop
  write m =
      let e = entry env m path in
      if e.1.evicted then returned (e.0, enoent) else write_loop len e.0 e.1 false 0
