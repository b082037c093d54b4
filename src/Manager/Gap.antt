-- ===== src/Manager/Gap.antt =====
-- Blocks of the store that nobody fetched, in `CacheManager::read` and `write`.
use cache_system_with_fuse.Files.{Disk, Syscall, file_at, empty_file, open_file, write_bytes}
use cache_system_with_fuse.BlockStore.Delete.{IsHash}
use cache_system_with_fuse.Layout.{k_max_part_size, data_part_path}
use cache_system_with_fuse.BlockStore
use cache_system_with_fuse.BlockStore.Contents.{byte_of, object_byte, Holds}
use cache_system_with_fuse.BlockStore.Reads.{read_of_Holds}
use cache_system_with_fuse.BlockStore.Transfer.{
  write_part-file_at, ensure_shard_dirs-file_at, write-Holds,
}
use cache_system_with_fuse.BlockStore.Total.{IsHealthy, write_total}
use cache_system_with_fuse.Manager.{Env, k_block_size, fetch_block}
use cache_system_with_fuse.Manager.Fetch.{block-InPart}
use cache_system_with_fuse.Manager.Writing.{merge_block, store_block}
use cache_system_with_fuse.Base.{
  ℕ, ◌+◌, ◌-◌, ◌*◌, ◌/◌, ◌%◌, ◌≤◌, ◌<◌, ◌≡◌, refl, ap, ◌∙◌, ◌⊎◌, if_pos, none, some, arith, pos,
  Text, text_discrete, Bytes, memcpy, Agree,
}

abbrev part_of : Text → Text → ℕ → Text
part_of root h blk = data_part_path root h (blk * k_block_size / k_max_part_size)

read_absent :
    (d : Disk) (root h : Text) (buf : Bytes) (blk : ℕ)
    → file_at d (part_of root h blk) ≡ none
    → (BlockStore.read d root h buf k_block_size (blk * k_block_size)).1 ≡ buf
unfolding BlockStore.read open_file
read_absent d root h buf blk absent = ground arith

-- A block that an object holds whole is fetched from the store, whatever the backend has.
pub fetch_held :
    (env : Env) (d : Disk) (root path h : Text) (src : Bytes) (blk : ℕ)
    → IsHealthy d root
    → Holds d root h src k_block_size (blk * k_block_size)
    → (block : Bytes) × (fetch_block env d root path h blk ≡ (d, some block))
      × Agree k_block_size block src
unfolding fetch_block
fetch_held env d root path h src blk v held =
    let (whole, same) =
      read_of_Holds d root h src (env.stack blk) k_block_size (blk * k_block_size)
        (block-InPart blk) (omega arith) (v.accepts Syscall.sys_open _)
        (v.accepts Syscall.sys_read _) held in
    (_, ground (arith, whole), same)

byte_of_hole :
    (src : Bytes) (len off i : ℕ)
    → i < off
    → 0 < len
    → byte_of (some (write_bytes empty_file src len off)) i ≡ some 0
unfolding write_bytes memcpy
byte_of_hole src len off i h some_bytes = ground arith

-- A write past the start of a part that has no file leaves zeros before it.
object_byte_hole :
    (d : Disk) (root h : Text) (src : Bytes) (len off o : ℕ)
    → (BlockStore.write d root h src len off).1 ≡ pos len
    → file_at d (data_part_path root h (off / k_max_part_size)) ≡ none
    → o / k_max_part_size ≡ off / k_max_part_size
    → o % k_max_part_size < off % k_max_part_size
    → 0 < len
    → object_byte (BlockStore.write d root h src len off).0 root h o ≡ some 0
unfolding BlockStore.write
object_byte_hole d root h src len off o wrote absent same_part before some_bytes =
    let p = data_part_path root h (off / k_max_part_size) in
    rw
      (
        same_part,
        (write_part-file_at _ root h src len off len p wrote).1,
        if_pos (text_discrete p p) refl,
        ensure_shard_dirs-file_at d root h p,
        absent,
      )
      (byte_of_hole src len (off % k_max_part_size) (o % k_max_part_size) before some_bytes)

module _ (env : Env) (d : Disk) (root path h : Text) (v : IsHealthy d root)
    (is_hash : IsHash h) where
  -- On a disk with the cache root, where no call is refused, no write cut short and no file has
  -- the name of a shard directory: where the file of the part is not in the store, a round of
  -- `CacheManager::write` on a part of a block leaves the rest of the block as zeros, and the
  -- next fetch of the block takes it from the store, unchanged disk and all, with the written
  -- bytes in place and zeros elsewhere, whatever the backend holds.
  pub fetch_block-store_block :
      (buf : Bytes) (done blk within chunk : ℕ)
      → within + chunk ≤ k_block_size
      → file_at d (part_of root h blk) ≡ none
      → let d' = store_block d root h buf done blk within chunk in
        (block : Bytes) × (fetch_block env d' root path h blk ≡ (d', some block))
        × ((i : ℕ) → i < chunk → block (within + i) ≡ buf (done + i))
        × ((i : ℕ) → i < k_block_size → (i < within) ⊎ (within + chunk ≤ i) → block i ≡ 0)
  unfolding store_block merge_block memcpy
  fetch_block-store_block buf done blk within chunk fits absent =
      let new = merge_block d root h buf done blk within chunk in
      let off = blk * k_block_size in
      let (wrote, healthy) = write_total d root h new k_block_size off v is_hash in
      let (_, holds) =
        write-Holds d root h new k_block_size off k_block_size (block-InPart blk) wrote in
      let (block, e, same) = fetch_held env _ root path h new blk healthy holds in
      (
        block,
        e,
        λ i lt.
            let back : within + i - within ≡ i = omega arith in
            same (within + i) (omega arith) ∙ ground (arith, ap (λ (t : ℕ). buf (done + t)) back),
        λ i lt out. same i lt ∙ rw (read_absent d root h (λ i. 0) blk absent) (ground arith),
      )

  -- On a disk with the cache root, where no call is refused, no write cut short and no file has
  -- the name of a shard directory: where a block of a part without a file is stored, with at
  -- least one byte, the fetch of any earlier block of that part succeeds from the store with
  -- zeros only, whatever the backend holds.
  pub fetch_block_after_gap :
      (got : Bytes) (n early late : ℕ)
      → early < late
      → early * k_block_size / k_max_part_size ≡ late * k_block_size / k_max_part_size
      → 0 < n
      → file_at d (part_of root h late) ≡ none
      → let d' = (BlockStore.write d root h got n (late * k_block_size)).0 in
        (block : Bytes) × (fetch_block env d' root path h early ≡ (d', some block))
        × ((i : ℕ) → i < k_block_size → block i ≡ 0)
  fetch_block_after_gap got n early late before same_part some_bytes absent =
      let off = late * k_block_size in
      let (wrote, healthy) = write_total d root h got n off v is_hash in
      fetch_held env _ root path h (λ i. 0) early healthy
        (λ i lt.
          object_byte_hole d root h got n off (early * k_block_size + i) wrote absent (omega arith)
            (omega arith) some_bytes)
