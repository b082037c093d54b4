-- ===== src/Manager/Prefetch.antt =====
-- The jobs of the prefetch pool, and a read after one.
use cache_system_with_fuse.Double.{Double}
use cache_system_with_fuse.Files.{Disk}
use cache_system_with_fuse.BlockStore.Delete.{IsHash}
use cache_system_with_fuse.BlockStore
use cache_system_with_fuse.BlockStore.Contents.{Holds}
use cache_system_with_fuse.Manager.{
  Env, Manager, CacheEntry, k_block_size, prefetch_window, entry, fetch_block, fetch_remote,
}
use cache_system_with_fuse.Manager.Eviction.{prefetch_block, prefetch_from, run_prefetch}
use cache_system_with_fuse.Manager.Fetch.{Serves, IsSound, fetch_block-IsSound}
use cache_system_with_fuse.Manager.Gap.{fetch_held}
use cache_system_with_fuse.Manager.Reading.{read}
use cache_system_with_fuse.Manager.ReadLaws.{DiskYields, read_yields}
use cache_system_with_fuse.Manager.Entries.{entry-same}
use cache_system_with_fuse.Base.{
  ℕ, zero, suc, ◌+◌, ◌*◌, ◌≤◌, ◌<◌, ◌≡◌, refl, sym, ap, subst, ◌∙◌, false, some, List, ◌∷◌, arith,
  pos, returned, Text, Bytes, Agree,
}

-- The whole blocks below the end of a sound store are there with the bytes of the file.
IsSound-Holds :
    (d : Disk) (root h : Text) (src : Bytes) (n blk : ℕ)
    → IsSound d root h src n
    → (blk + 1) * k_block_size ≤ n
    → Holds d root h (λ i. src (blk * k_block_size + i)) k_block_size (blk * k_block_size)
IsSound-Holds d root h src n blk v below i lt =
    let (b, there) = v.filled (blk * k_block_size + i) (omega arith) in
    there ∙ ap some (v.coherent (blk * k_block_size + i) b there)

-- A sound store yields the blocks below its end, whatever the backend has, and stays as it is.
IsSound-DiskYields :
    (env : Env) (path : Text) (len off last : ℕ) (src : Bytes) (s : Disk) (root h : Text)
    → IsSound s root h src (last * k_block_size)
    → off + len ≤ last * k_block_size
    → DiskYields env path len off src root h (λ d n. d ≡ s)
IsSound-DiskYields env path len off last src s root h v fits d blk some_bytes low high same =
    let (block, e, right) =
      fetch_held env s root path h (λ i. src (blk * k_block_size + i)) blk v.healthy
        (IsSound-Holds s root h src (last * k_block_size) blk v (omega arith)) in
    (
      s,
      block,
      subst (λ t. fetch_block env t root path h blk ≡ (s, some block)) (sym same) e,
      right,
      refl,
    )

module _ (F : Double) (env : Env) where
  -- Where the backend delivers the block, a job leaves the disk that a read of it would leave.
  pub prefetch_block-store :
      (m : Manager F.Carrier) (ce : CacheEntry) (src : Bytes) (blk : ℕ)
      → Serves env ce.path src blk
      → (prefetch_block F env m ce blk).store
        ≡ (fetch_block env m.store m.root ce.path ce.hash_hex blk).0
  unfolding prefetch_block fetch_block fetch_remote
  prefetch_block-store m ce src blk serves =
      let stored =
        BlockStore.read m.store m.root ce.hash_hex (env.stack blk) k_block_size
          (blk * k_block_size) in
      ground (arith, (serves stored.1).0)

  pub prefetch_block_keeps :
      (m : Manager F.Carrier) (ce : CacheEntry) (blk : ℕ)
      → ((prefetch_block F env m ce blk).root ≡ m.root)
        × ((prefetch_block F env m ce blk).entries ≡ m.entries)
        × ((prefetch_block F env m ce blk).prefetches ≡ m.prefetches)
  unfolding prefetch_block
  prefetch_block_keeps m ce blk = ground arith

  prefetch_from_right :
      (rounds : ℕ) (m : Manager F.Carrier) (ce : CacheEntry) (src : Bytes) (first_blk : ℕ)
      → IsHash ce.hash_hex
      → IsSound m.store m.root ce.hash_hex src (first_blk * k_block_size)
      → ((blk : ℕ) → first_blk ≤ blk → blk < first_blk + rounds → Serves env ce.path src blk)
      → let m' = prefetch_from F env rounds m ce first_blk in
        (m'.root ≡ m.root)
        × (m'.entries ≡ m.entries)
        × IsSound m'.store m.root ce.hash_hex src ((first_blk + rounds) * k_block_size)
  unfolding prefetch_from
  prefetch_from_right zero m ce src first_blk is_hash v serves =
      let none_more : first_blk + 0 ≡ first_blk = omega arith in (refl, refl, rw none_more v)
  prefetch_from_right (suc rounds) m ce src first_blk is_hash v serves =
      let m' = prefetch_block F env m ce first_blk in
      let (root, entries, _) = prefetch_block_keeps m ce first_blk in
      let served = serves first_blk (omega arith) (omega arith) in
      let (d, block, e, _, sound) =
        fetch_block-IsSound env m.root ce.path ce.hash_hex src is_hash m.store first_blk v served in
      let stored : m'.store ≡ d =
        prefetch_block-store m ce src first_blk served ∙ ap (λ r. r.0) e in
      let (root', entries', v') =
        prefetch_from_right rounds m' ce src (first_blk + 1) is_hash (rw (root, stored) sound)
          (λ blk low high. serves blk (omega arith) (omega arith)) in
      let next : first_blk + 1 + rounds ≡ first_blk + suc rounds = omega arith in
      (
        root' ∙ root,
        entries' ∙ entries,
        subst
            (λ r.
              IsSound (prefetch_from F env rounds m' ce (first_blk + 1)).store r ce.hash_hex src
                ((first_blk + suc rounds) * k_block_size))
            root
            (subst
              (λ n.
                IsSound (prefetch_from F env rounds m' ce (first_blk + 1)).store m'.root ce.hash_hex
                  src (n * k_block_size))
              next v'),
      )

  -- Where the object has only right bytes of the file and no gap before the first block of the
  -- oldest prefetch job, the cache root is there, no file has the name of a shard directory, the
  -- system refuses nothing and cuts no write short, and the backend delivers the four blocks of
  -- the job whole and right: after the job a read that ends within them, through an entry that is
  -- not evicted and has the same hash, returns the whole length with the bytes of the file,
  -- whatever the backend answers then.
  pub read-run_prefetch :
      (env' : Env) (m : Manager F.Carrier) (ce : CacheEntry) (first_blk : ℕ)
      (jobs : List (CacheEntry × ℕ)) (src buf : Bytes) (path : Text) (len off : ℕ)
      → IsHash ce.hash_hex
      → IsSound m.store m.root ce.hash_hex src (first_blk * k_block_size)
      → ((blk : ℕ)
          → first_blk ≤ blk
          → blk < first_blk + prefetch_window
          → Serves env ce.path src blk)
      → (entry env' m path).1.evicted ≡ false
      → (entry env' m path).1.hash_hex ≡ ce.hash_hex
      → off + len ≤ (first_blk + prefetch_window) * k_block_size
      → let m' = run_prefetch F env m ((ce, first_blk) ∷ jobs) in
        (m'' : Manager F.Carrier) × (buf' : Bytes) × (read F env' path len off m' buf
          ≡ returned (m'', pos len, buf'))
        × Agree len buf' (λ i. src (off + i))
  unfolding run_prefetch
  read-run_prefetch env' m ce first_blk jobs src buf path len off is_hash v serves present named
        fits =
      let m' = run_prefetch F env m ((ce, first_blk) ∷ jobs) in
      let (root, entries, sound) =
        prefetch_from_right prefetch_window (record m { prefetches = jobs }) ce src first_blk
          is_hash v serves in
      let same : (entry env' m' path).1 ≡ (entry env' m path).1 =
        entry-same env' m' m path entries in
      read_yields F env' path len off src m' buf ce.hash_hex (λ d n. d ≡ m'.store) (λ d n k le e. e)
        (IsSound-DiskYields env' path len off (first_blk + prefetch_window) src m'.store m'.root
          ce.hash_hex (rw root sound) fits)
        (ap (λ ce. ce.evicted) same ∙ present) (ap (λ ce. ce.hash_hex) same ∙ named) refl
