-- ===== src/Manager/Growth.antt =====
-- The store of a file that is read in order, and what a fetch leaves of it.
use cache_system_with_fuse.Files.{Disk}
use cache_system_with_fuse.BlockStore.Delete.{IsHash}
use cache_system_with_fuse.BlockStore
use cache_system_with_fuse.BlockStore.Contents.{object_byte}
use cache_system_with_fuse.BlockStore.Prefix.{Filled, write-present}
use cache_system_with_fuse.BlockStore.Total.{write_total}
use cache_system_with_fuse.Manager.{Env, k_block_size, fetch_block, fetch_remote}
use cache_system_with_fuse.Manager.Fetch.{block-InPart, Serves, IsSound}
use cache_system_with_fuse.Base.{
  ℕ, ◌*◌, ◌≡◌, ◌⊎◌, inl, inr, some, arith, Bool-cases, is_count, Text, Bytes,
}

-- Every byte that an object had is there, the same or another.
abbrev pub Grows : Disk → Disk → Text → Text → Type 0
Grows d d' root h =
    (o : ℕ)
    → (b : ℕ) × (object_byte d root h o ≡ some b)
    → (b : ℕ) × (object_byte d' root h o ≡ some b)

pub Filled-Grows :
    (d d' : Disk) (root h : Text) (n : ℕ)
    → Grows d d' root h
    → Filled d root h n
    → Filled d' root h n
Filled-Grows d d' root h n grows filled o lt = grows o (filled o lt)

module _ (env : Env) (root path h : Text) (src : Bytes) (is_hash : IsHash h) where
  -- A fetch leaves the disk, or stores the block of the backend.
  pub fetch_block_disk :
      (d : Disk) (blk : ℕ)
      → Serves env path src blk
      → let d' = (fetch_block env d root path h blk).0 in
        (d' ≡ d)
        ⊎ ((buf : Bytes) × (d'
              ≡ (BlockStore.write d root h buf k_block_size (blk * k_block_size)).0))
  unfolding fetch_block fetch_remote
  fetch_block_disk d blk serves =
      let off = blk * k_block_size in
      let stored = BlockStore.read d root h (env.stack blk) k_block_size off in
      let (whole, _) = serves stored.1 in
      elim (Bool-cases (is_count stored.0 k_block_size)) [
        | inl hit ↦ inl (ground (arith, hit))
        | inr miss ↦
            inr ((env.remote path stored.1 k_block_size off).1, ground (arith, miss, whole))
      ]

  pub fetch_block-Grows :
      (d : Disk) (blk n : ℕ)
      → IsSound d root h src n
      → Serves env path src blk
      → Grows d (fetch_block env d root path h blk).0 root h
  fetch_block-Grows d blk n v serves o there = elim (fetch_block_disk d blk serves) [
    | inl same ↦ rw same there
    | inr (buf, stored) ↦ rw stored (
        write-present d root h buf k_block_size (blk * k_block_size) o (block-InPart blk)
          (write_total d root h buf k_block_size (blk * k_block_size) v.healthy is_hash).0 there)
  ]
