-- ===== src/Manager/JobLaws.antt =====
-- One block of a prefetch job for a file that is read in order.
use cache_system_with_fuse.Double.{Double}
use cache_system_with_fuse.Files.{Disk}
use cache_system_with_fuse.BlockStore
use cache_system_with_fuse.BlockStore.Prefix.{Filled}
use cache_system_with_fuse.Manager.{Env, Manager, CacheEntry, k_block_size, hash_hex, not_positive}
use cache_system_with_fuse.Manager.Hash.{hash_hex-IsHash}
use cache_system_with_fuse.Manager.Eviction.{prefetch_block}
use cache_system_with_fuse.Manager.Fetch.{IsSound, fetch_block-IsSound}
use cache_system_with_fuse.Manager.Growth.{Grows, fetch_block-Grows}
use cache_system_with_fuse.Manager.ReadLaws.{IsSound-down}
use cache_system_with_fuse.Manager.Prefetch.{prefetch_block-store}
use cache_system_with_fuse.Manager.Serving.{Backs}
use cache_system_with_fuse.Base.{
  ℕ, ◌+◌, ◌*◌, ◌≤◌, ◌<◌, ◌≡◌, ap, subst, ◌∙◌, ◌⊎◌, inl, inr, true, arith, dec_lt, Text, Bytes,
}

module _ (F : Double) (env : Env) (path root : Text) (src : Bytes) (last : ℕ) where
  pub IsSound-at :
      (d : Disk) (n : ℕ)
      → IsSound d root (hash_hex env path) src 0
      → Filled d root (hash_hex env path) n
      → IsSound d root (hash_hex env path) src n
  IsSound-at d n v filled = record { healthy = v.healthy; coherent = v.coherent; filled = filled }

  -- A block that a job may fetch: nothing is missing before it, or the file has ended.
  abbrev pub MayFetch : Disk → ℕ → Type 0
  MayFetch d blk = (last ≤ blk) ⊎ Filled d root (hash_hex env path) (blk * k_block_size)

  -- What one block of a job does to the store.
  abbrev pub Extends : Manager F.Carrier → CacheEntry → ℕ → Type 0
  Extends m ce blk =
      let d' = (prefetch_block F env m ce blk).store in
      IsSound d' root (hash_hex env path) src 0
      × Grows m.store d' root (hash_hex env path)
      × MayFetch d' (blk + 1)

  prefetch_block_ended :
      (m : Manager F.Carrier) (ce : CacheEntry) (blk : ℕ)
      → ((buf : Bytes)
          → not_positive (env.remote ce.path buf k_block_size (blk * k_block_size)).0 ≡ true)
      → (prefetch_block F env m ce blk).store ≡ m.store
  unfolding prefetch_block
  prefetch_block_ended m ce blk ended =
      let stored =
        BlockStore.read m.store m.root ce.hash_hex (env.stack blk) k_block_size
          (blk * k_block_size) in
      ground (arith, ended stored.1)

  pub prefetch_block-Extends :
      (m : Manager F.Carrier) (ce : CacheEntry) (blk : ℕ)
      → Backs env path src last
      → m.root ≡ root
      → ce.path ≡ path
      → ce.hash_hex ≡ hash_hex env path
      → IsSound m.store root (hash_hex env path) src 0
      → MayFetch m.store blk
      → Extends m ce blk
  prefetch_block-Extends m ce blk backs rooted of_path named v may = elim (dec_lt blk last) [
    | no ended ↦
        let same =
          prefetch_block_ended m ce blk (rw of_path (λ buf. backs.ends blk buf (omega arith))) in
        rw same (v, (λ o there. there), inl (omega arith))
    | yes more ↦
        let h = hash_hex env path in
        let is_hash = hash_hex-IsHash env path in
        let served = backs.serves blk more in
        let sound = IsSound-at m.store (blk * k_block_size) v (filled-now more may) in
        let (d, block, e, _, sound') =
          fetch_block-IsSound env root path h src is_hash m.store blk sound served in
        let stored : (prefetch_block F env m ce blk).store ≡ d =
          prefetch_block-store F env m ce src blk (rw of_path served)
          ∙ (rw (rooted, of_path, named) (ap (λ r. r.0) e)) in
        let grows : Grows m.store d root h =
          subst (λ t. Grows m.store t root h) (ap (λ r. r.0) e)
            (fetch_block-Grows env root path h src is_hash m.store blk (blk * k_block_size) sound
              served) in
        rw stored (
          IsSound-down d root h src ((blk + 1) * k_block_size) 0 (omega arith) sound',
          grows,
          inr sound'.filled,
        )
  ]
    where
      filled-now :
          blk < last
          → MayFetch m.store blk
          → Filled m.store root (hash_hex env path) (blk * k_block_size)
      filled-now more (inl ended) = absurd (omega arith)
      filled-now more (inr filled) = filled
