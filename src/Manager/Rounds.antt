-- ===== src/Manager/Rounds.antt =====
-- One round of `CacheManager::write`, seen from the object that it stores into.
use cache_system_with_fuse.Files.{Disk, Syscall, file_at, above}
use cache_system_with_fuse.BlockStore.Delete.{IsHash}
use cache_system_with_fuse.Files.Keeping.{Keeps}
use cache_system_with_fuse.Layout.{k_max_part_size, data_part_path}
use cache_system_with_fuse.BlockStore.Contents.{byte_of, object_byte, KeepsByte}
use cache_system_with_fuse.BlockStore.Reads.{read_of_byte}
use cache_system_with_fuse.BlockStore.Transfer.{write-Holds, write-KeepsByte}
use cache_system_with_fuse.BlockStore.Absent.{write-file_at_other}
use cache_system_with_fuse.BlockStore.Total.{IsHealthy, shard_level1, shard_level2, write_total}
use cache_system_with_fuse.Manager.{k_block_size}
use cache_system_with_fuse.Manager.Fetch.{block-InPart}
use cache_system_with_fuse.Manager.Writing.{merge_block, store_block}
use cache_system_with_fuse.Base.{
  ℕ, ◌+◌, ◌-◌, ◌*◌, ◌/◌, ◌%◌, ◌≤◌, ◌<◌, ◌≡◌, refl, sym, ap, subst, ◌∙◌, ◌≢◌, ◌⊎◌, inl, inr, some,
  arith, dec_lt, length, Text, text_discrete, Bytes, memcpy,
}

-- Neither the file nor a directory above it is a part of the object, and the file has not the name
-- of a shard directory.
pub record Apart (p root h : Text) : Type 0 where
  pub parts : (k n : ℕ) → above k p ≢ data_part_path root h n
  pub shards : (g : Text) → IsHash g → (p ≢ shard_level1 root g) × (p ≢ shard_level2 root g)

pub Keeps-IsHealthy :
    (d d' : Disk) (p root h : Text)
    → Apart p root h
    → Keeps d d' p
    → IsHealthy d root
    → IsHealthy d' root
Keeps-IsHealthy d d' p root h apart k v = record {
  has_root = k.dirs root v.has_root;
  accepts = λ c q. ap (λ r. r c q) k.refuse ∙ v.accepts c q;
  clear = λ g n.
      let (other1, other2) = apart.shards g n in
      let (first, second) = v.clear g n in
      (k.files (shard_level1 root g) other1 ∙ first, k.files (shard_level2 root g) other2 ∙ second);
}

pub Keeps-object_byte :
    (d d' : Disk) (p root h : Text) (o : ℕ)
    → Apart p root h
    → Keeps d d' p
    → object_byte d' root h o ≡ object_byte d root h o
Keeps-object_byte d d' p root h o apart k =
    ap (λ f. byte_of f (o % k_max_part_size))
      (k.files (data_part_path root h (o / k_max_part_size))
        (unfold above in apart.parts 0 (o / k_max_part_size)))

-- The object has every byte of a block.
abbrev pub Whole : Disk → Text → Text → ℕ → Type 0
Whole d root h blk =
    (i : ℕ) → i < k_block_size → (b : ℕ) × (object_byte d root h (blk * k_block_size + i) ≡ some b)

merge_block_within :
    (d : Disk) (root h : Text) (buf : Bytes) (done blk within chunk i : ℕ)
    → within ≤ i
    → i < within + chunk
    → merge_block d root h buf done blk within chunk i ≡ buf (done + (i - within))
unfolding merge_block memcpy
merge_block_within d root h buf done blk within chunk i low high = ground arith

merge_block_outside :
    (d : Disk) (root h : Text) (buf : Bytes) (done blk within chunk i b : ℕ)
    → IsHealthy d root
    → (i < within) ⊎ (within + chunk ≤ i)
    → i < k_block_size
    → object_byte d root h (blk * k_block_size + i) ≡ some b
    → merge_block d root h buf done blk within chunk i ≡ b
unfolding merge_block memcpy
merge_block_outside d root h buf done blk within chunk i b v out lt e =
    let p = data_part_path root h (blk * k_block_size / k_max_part_size) in
    let old =
      read_of_byte d root h (λ i. 0) k_block_size (blk * k_block_size) i b (block-InPart blk)
        (v.accepts Syscall.sys_open p) (v.accepts Syscall.sys_read p) lt e in
    ground (arith, old, out)

module _ (d : Disk) (root h : Text) (v : IsHealthy d root) (is_hash : IsHash h) (buf : Bytes)
    (done blk within chunk : ℕ) where
  abbrev new_disk : Disk
  new_disk = store_block d root h buf done blk within chunk

  -- Bytes of the block outside of the part that is written stay.
  store_block_beside :
      (o b : ℕ)
      → (o < blk * k_block_size + within) ⊎ (blk * k_block_size + within + chunk ≤ o)
      → object_byte d root h o ≡ some b
      → object_byte new_disk root h o ≡ some b
  unfolding store_block
  store_block_beside o b out e =
      let new = merge_block d root h buf done blk within chunk in
      let off = blk * k_block_size in
      let (wrote, _) = write_total d root h new k_block_size off v is_hash in
      let (_, holds) =
        write-Holds d root h new k_block_size off k_block_size (block-InPart blk) wrote in
      elim (dec_lt o off) [
        | yes before ↦
            write-KeepsByte d root h new k_block_size off h o (block-InPart blk) refl
              (inr (inl before)) b e
        | no ge ↦ elim (dec_lt o (off + k_block_size)) [
          | no after ↦
              write-KeepsByte d root h new k_block_size off h o (block-InPart blk) refl
                (inr (inr (omega arith))) b e
          | yes inside ↦
              let at : off + (o - off) ≡ o = omega arith in
              let outside : (o - off < within) ⊎ (within + chunk ≤ o - off) = beside ge out in
              let old =
                merge_block_outside d root h buf done blk within chunk (o - off) b v outside
                  (omega arith) (rw at e) in
              subst (λ t. object_byte new_disk root h t ≡ some b) at
                (holds (o - off) (omega arith) ∙ ap some old)
        ]
      ]
    where
      beside :
          ¬ (o < blk * k_block_size)
          → (o < blk * k_block_size + within) ⊎ (blk * k_block_size + within + chunk ≤ o)
          → (o - blk * k_block_size < within) ⊎ (within + chunk ≤ o - blk * k_block_size)
      beside ge (inl before) = inl (omega arith)
      beside ge (inr after) = inr (omega arith)

  store_block_keeps :
      (g : Text) (o : ℕ)
      → length g ≡ length h
      → (g ≢ h) ⊎ ((o < blk * k_block_size + within) ⊎ (blk * k_block_size + within + chunk ≤ o))
      → KeepsByte d new_disk root g o
  unfolding store_block
  store_block_keeps g o same (inl other) b e =
      write-KeepsByte d root h (merge_block d root h buf done blk within chunk) k_block_size
        (blk * k_block_size) g o (block-InPart blk) same (inl other) b e
  store_block_keeps g o same (inr out) b e = elim (text_discrete g h) [
    | no other ↦ beside_other other
    | yes eq ↦
        subst (λ t. object_byte new_disk root t o ≡ some b) (sym eq)
          (store_block_beside o b out (subst (λ t. object_byte d root t o ≡ some b) eq e))
  ]
    where
      beside_other : g ≢ h → object_byte new_disk root g o ≡ some b
      beside_other other =
          write-KeepsByte d root h (merge_block d root h buf done blk within chunk) k_block_size
            (blk * k_block_size) g o (block-InPart blk) same (inl other) b e

  -- A round makes or changes no file but a part of the object.
  pub store_block-file_at :
      (q : Text) → ((n : ℕ) → data_part_path root h n ≢ q) → file_at new_disk q ≡ file_at d q
  unfolding store_block
  store_block-file_at q other =
      let new = merge_block d root h buf done blk within chunk in
      let off = blk * k_block_size in
      let (wrote, _) = write_total d root h new k_block_size off v is_hash in
      write-file_at_other d root h new k_block_size off k_block_size q wrote
        (other (off / k_max_part_size))

  -- A round leaves the whole block there, with the new bytes in place, and every other byte, in
  -- this object and in the others.
  pub store_block_stores :
      IsHealthy new_disk root
      × Whole new_disk root h blk
      × ((i : ℕ)
          → within ≤ i
          → i < within + chunk
          → i < k_block_size
          → object_byte new_disk root h (blk * k_block_size + i) ≡ some (buf (done + (i - within))))
      × ((g : Text) (o : ℕ)
          → length g ≡ length h
          → (g ≢ h)
            ⊎ ((o < blk * k_block_size + within) ⊎ (blk * k_block_size + within + chunk ≤ o))
          → KeepsByte d new_disk root g o)
  unfolding store_block
  store_block_stores =
      let new = merge_block d root h buf done blk within chunk in
      let off = blk * k_block_size in
      let (wrote, healthy) = write_total d root h new k_block_size off v is_hash in
      let (_, holds) =
        write-Holds d root h new k_block_size off k_block_size (block-InPart blk) wrote in
      (
        healthy,
        (λ i lt. (new i, holds i lt)),
        (λ i low high lt.
            holds i lt
            ∙ ap some (merge_block_within d root h buf done blk within chunk i low high)),
        store_block_keeps,
      )
