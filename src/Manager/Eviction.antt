-- ===== src/Manager/Eviction.antt =====
-- `CacheManager::evict_until_gb`, `flush_all` and the jobs of the prefetch pool.
use cache_system_with_fuse.Double.{Double}
use cache_system_with_fuse.Files.{File, Disk, slash}
use cache_system_with_fuse.BlockStore
use cache_system_with_fuse.Bitmap.{flush_bitmaps}
use cache_system_with_fuse.Lru
use cache_system_with_fuse.Manager.{
  ends_with_slash, Env, Manager, CacheEntry, k_block_size, size_max, prefetch_window, block_key,
  not_positive,
}
use cache_system_with_fuse.Base.{
  ◌>>=◌, ℕ, zero, suc, ◌+◌, ◌*◌, ◌/◌, ◌^◌, Bool, true, false, Option, none, some, List, [], ◌∷◌,
  ◌++◌, ◌==◌, if◌then◌else◌, to_ℕ, is_count, Outcome, returned, thrown, faulted, exhausted, length,
  Text, text_discrete, put, Table,
}

-- The bytes of the regular files below the root.
unfoldable pub used_bytes : Text → Table Text File → ℕ
used_bytes root [] = 0
used_bytes root ((p, f) ∷ files) =
    let below = if ends_with_slash root then root else root ++ slash ∷ [] in
    (if BlockStore.has_prefix below p then f.size else 0) + used_bytes root files

-- The entry at an address, under its path.
unfoldable pub entry_at : Env → ℕ → Table Text CacheEntry → Option (Text × CacheEntry)
entry_at env address [] = none
entry_at env address ((path, ce) ∷ entries) =
    if env.address path == address then some (path, ce) else entry_at env address entries

module _ (F : Double) (env : Env) where
  -- What a round does with the key that the policy gave up. An address that is no entry's is used
  -- all the same.
  unfoldable pub evict_entry : Manager F.Carrier → ℕ → Outcome (Manager F.Carrier)
  evict_entry m key =
      let address = key / 2 ^ 32 in
      if address == 0 then returned m else elim (entry_at env address m.entries) [
        | none ↦ faulted
        | some (path, ce) ↦
            if ce.evicted
            then returned m
            else (let deleted = (BlockStore.delete_object m.store m.root ce.hash_hex).0 in
                elim (flush_bitmaps deleted m.root m.meta ce.hash_hex) [
                  | none ↦ thrown
                  | some (d, _) ↦ returned (record m {
                    store = d;
                    entries = put text_discrete path (record ce { evicted = true }) m.entries;
                  })
                ])
      ]

  -- `over` is the test `used_gb() > free_gb` on the number of bytes used.
  unfoldable pub evict_loop : (ℕ → Bool) → ℕ → Manager F.Carrier → Outcome (Manager F.Carrier)
  evict_loop over zero m = exhausted
  evict_loop over (suc fuel) m = elim (over (used_bytes m.root m.store.files)) [
    | false ↦ returned m
    | true ↦
        let r = Lru.evict F m.lru in
        let m' : Manager F.Carrier = record m { lru = r.0 } in
        elim (r.1 == size_max) [
          | true ↦ returned m'
          | false ↦ do m'' ← evict_entry m' r.1; evict_loop over fuel m''
        ]
  ]

  -- Each round takes a node out of the policy.
  unfoldable pub evict_until_gb : (ℕ → Bool) → Manager F.Carrier → Outcome (Manager F.Carrier)
  unfolding evict_loop
  evict_until_gb over m = evict_loop over (length m.lru.order + 1) m

  -- One block of a prefetch job.
  unfoldable pub prefetch_block : Manager F.Carrier → CacheEntry → ℕ → Manager F.Carrier
  prefetch_block m ce blk =
      let blk_off = blk * k_block_size in
      let stored =
        BlockStore.read m.store m.root ce.hash_hex (env.stack blk) k_block_size blk_off in
      if is_count stored.0 k_block_size
      then m
      else (let got = env.remote ce.path stored.1 k_block_size blk_off in
          if not_positive got.0 then m else record m {
            store = (BlockStore.write m.store m.root ce.hash_hex got.1 (to_ℕ got.0) blk_off).0;
            lru =
                Lru.touch F m.lru (block_key (env.job_address ce.path) blk) k_block_size F.quarter;
          })

  unfoldable pub prefetch_from : ℕ → Manager F.Carrier → CacheEntry → ℕ → Manager F.Carrier
  prefetch_from zero m ce blk = m
  prefetch_from (suc rounds) m ce blk = prefetch_from rounds (prefetch_block m ce blk) ce (blk + 1)

  -- The oldest job of the queue.
  unfoldable pub run_prefetch : Manager F.Carrier → List (CacheEntry × ℕ) → Manager F.Carrier
  run_prefetch m [] = m
  run_prefetch m ((ce, first_blk) ∷ jobs) =
      prefetch_from prefetch_window (record m { prefetches = jobs }) ce first_blk

  unfoldable pub flush_entries :
      Disk → Text → Manager F.Carrier → Table Text CacheEntry → Option Disk
  flush_entries d root m [] = some d
  flush_entries d root m ((_, ce) ∷ entries) = elim (flush_bitmaps d root m.meta ce.hash_hex) [
    | none ↦ none
    | some (d', _) ↦ flush_entries d' root m entries
  ]

  unfoldable pub flush_all : Manager F.Carrier → Outcome (Manager F.Carrier)
  flush_all m = elim (flush_entries m.store m.root m m.entries) [
    | none ↦ thrown
    | some d ↦ returned (record m { store = d })
  ]
