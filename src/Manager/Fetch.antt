-- ===== src/Manager/Fetch.antt =====
-- Fetching one block, from the store or from a backend that serves whole blocks.
use cache_system_with_fuse.Files.{Disk}
use cache_system_with_fuse.BlockStore.Delete.{IsHash}
use cache_system_with_fuse.BlockStore
use cache_system_with_fuse.BlockStore.Contents.{InPart}
use cache_system_with_fuse.BlockStore.Reads.{read-object_byte}
use cache_system_with_fuse.BlockStore.Prefix.{Coherent, Filled, write-Coherent, write-present}
use cache_system_with_fuse.BlockStore.Transfer.{write-Holds}
use cache_system_with_fuse.BlockStore.Total.{IsHealthy, write_total}
use cache_system_with_fuse.Manager.{Env, k_block_size, fetch_block, fetch_remote}
use cache_system_with_fuse.Base.{
  ℕ, ◌+◌, ◌-◌, ◌*◌, ◌≡◌, inl, inr, true, false, some, arith, dec_lt, Bool-cases, ℤ, pos, negsuc,
  is_count, Text, Bytes, Agree,
}

-- Blocks divide the parts, so no block is split.
pub block-InPart : (blk : ℕ) → InPart k_block_size (blk * k_block_size)
block-InPart blk = omega arith

-- The backend delivers all of block `blk`, as it is in `src`.
abbrev pub Serves : Env → Text → Bytes → ℕ → Type 0
Serves env path src blk =
    (buf : Bytes)
    → ((env.remote path buf k_block_size (blk * k_block_size)).0 ≡ pos k_block_size)
      × Agree k_block_size (env.remote path buf k_block_size (blk * k_block_size)).1
          (λ i. src (blk * k_block_size + i))

pub is_count_eq : (r : ℤ) (n : ℕ) → is_count r n ≡ true → r ≡ pos n
is_count_eq (pos k) n e = ground arith
is_count_eq (negsuc k) n e = cc

-- The store of an object: usable, right as far as it goes, and filled below `n`.
pub record IsSound (d : Disk) (root h : Text) (src : Bytes) (n : ℕ) : Type 0 where
  pub healthy : IsHealthy d root
  pub coherent : Coherent d root h src
  pub filled : Filled d root h n

module _ (env : Env) (root path h : Text) (src : Bytes) (is_hash : IsHash h) where
  fetch_cached :
      (d : Disk) (blk : ℕ)
      → IsSound d root h src (blk * k_block_size)
      → (BlockStore.read d root h (env.stack blk) k_block_size (blk * k_block_size)).0
        ≡ pos k_block_size
      → (block : Bytes) × (fetch_block env d root path h blk ≡ (d, some block))
        × Agree k_block_size block (λ i. src (blk * k_block_size + i))
        × IsSound d root h src ((blk + 1) * k_block_size)
  unfolding fetch_block
  fetch_cached d blk v e =
      let off = blk * k_block_size in
      let block = (BlockStore.read d root h (env.stack blk) k_block_size off).1 in
      let (_, holds, _) =
        read-object_byte d root h (env.stack blk) k_block_size off k_block_size (block-InPart blk)
          e in
      (
        block,
        ground (arith, e),
        λ i lt. v.coherent (off + i) (block i) (holds i lt),
        record {
          healthy = v.healthy;
          coherent = v.coherent;
          filled = λ o lt. elim (dec_lt o off) [
            | yes before ↦ v.filled o before
            | no ge ↦
                let back : off + (o - off) ≡ o = omega arith in
                (block (o - off), rw back at (holds (o - off) (omega arith)))
          ];
        },
      )

  fetch_missed :
      (d : Disk) (blk : ℕ)
      → IsSound d root h src (blk * k_block_size)
      → Serves env path src blk
      → is_count
          (BlockStore.read d root h (env.stack blk) k_block_size (blk * k_block_size)).0
          k_block_size
        ≡ false
      → (d' : Disk) × (block : Bytes) × (fetch_block env d root path h blk ≡ (d', some block))
        × Agree k_block_size block (λ i. src (blk * k_block_size + i))
        × IsSound d' root h src ((blk + 1) * k_block_size)
  unfolding fetch_block fetch_remote
  fetch_missed d blk v serves missed =
      let off = blk * k_block_size in
      let buf = (BlockStore.read d root h (env.stack blk) k_block_size off).1 in
      let (whole, right) = serves buf in
      let block = (env.remote path buf k_block_size off).1 in
      let (wrote, healthy) = write_total d root h block k_block_size off v.healthy is_hash in
      let d' = (BlockStore.write d root h block k_block_size off).0 in
      let holds =
        (write-Holds d root h block k_block_size off k_block_size (block-InPart blk) wrote).1 in
      (
        d',
        block,
        ground (arith, missed, whole),
        right,
        record {
          healthy = healthy;
          coherent =
              write-Coherent d root h block src k_block_size off (block-InPart blk) v.coherent
                v.filled right;
          filled = λ o lt. elim (dec_lt o off) [
            | yes before ↦
                write-present d root h block k_block_size off o (block-InPart blk) wrote
                  (v.filled o before)
            | no ge ↦
                let back : off + (o - off) ≡ o = omega arith in
                (block (o - off), rw back at (holds (o - off) (omega arith)))
          ];
        },
      )

  -- Where the hash has 16 characters and no slash, the disk is healthy, the store
  -- has only right bytes of the file and no gap below a block, and the backend delivers that
  -- block whole and right, the fetch of the block yields the bytes of the file, cached or not,
  -- and leaves a store of the same kind without a gap up to the end of the block.
  pub fetch_block-IsSound :
      (d : Disk) (blk : ℕ)
      → IsSound d root h src (blk * k_block_size)
      → Serves env path src blk
      → (d' : Disk) × (block : Bytes) × (fetch_block env d root path h blk ≡ (d', some block))
        × Agree k_block_size block (λ i. src (blk * k_block_size + i))
        × IsSound d' root h src ((blk + 1) * k_block_size)
  fetch_block-IsSound d blk v serves =
      let r = (BlockStore.read d root h (env.stack blk) k_block_size (blk * k_block_size)).0 in
      elim (Bool-cases (is_count r k_block_size)) [
        | inl hit ↦
            let (block, e, right, sound) = fetch_cached d blk v (is_count_eq r k_block_size hit) in
            (d, block, e, right, sound)
        | inr miss ↦ fetch_missed d blk v serves miss
      ]
