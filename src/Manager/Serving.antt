-- ===== src/Manager/Serving.antt =====
-- A file that is read in order while the jobs of the prefetch pool run between the reads.
use cache_system_with_fuse.Double.{Double}
use cache_system_with_fuse.Files.{Disk}
use cache_system_with_fuse.Manager.{
  Env, Manager, CacheEntry, k_block_size, hash_hex, not_positive, entry, after_block,
}
use cache_system_with_fuse.Manager.Hash.{hash_hex-IsHash}
use cache_system_with_fuse.BlockStore.Prefix.{Filled}
use cache_system_with_fuse.Manager.Fetch.{Serves, IsSound, fetch_block-IsSound}
use cache_system_with_fuse.Manager.Growth.{Grows, Filled-Grows, fetch_block-Grows}
use cache_system_with_fuse.Manager.ReadLaws.{IsOpen, IsSound-down}
use cache_system_with_fuse.Manager.ReadLoop.{Yields}
use cache_system_with_fuse.Manager.Entries.{entry_there, entry-same}
use cache_system_with_fuse.Base.{
  ℕ, ◌+◌, ◌*◌, ◌≤◌, ◌<◌, ◌≡◌, refl, ap, subst, ◌∙◌, if_pos, Bool, true, false, some, List, [], ◌∷◌,
  ◌++◌, arith, if◌then◌else◌, Text, text_discrete, find, find-put, Bytes,
}

-- A backend with `last` blocks of the file `src`, and nothing behind them.
pub record Backs (env : Env) (path : Text) (src : Bytes) (last : ℕ) : Type 0 where
  pub serves : (blk : ℕ) → blk < last → Serves env path src blk
  pub ends :
      (blk : ℕ) (buf : Bytes)
      → last ≤ blk
      → not_positive (env.remote path buf k_block_size (blk * k_block_size)).0 ≡ true

module _ (env : Env) (path root : Text) where
  -- A job for the file, from a block before which nothing is missing.
  pub record IsJob (d : Disk) (ce : CacheEntry) (first_blk : ℕ) : Type 0 where
    pub of_path : ce.path ≡ path
    pub named : ce.hash_hex ≡ hash_hex env path
    pub reached : Filled d root (hash_hex env path) (first_blk * k_block_size)

  abbrev pub Jobs : Disk → List (CacheEntry × ℕ) → Type 0
  Jobs d [] = Unit {0}
  Jobs d ((ce, first_blk) ∷ jobs) = IsJob d ce first_blk × Jobs d jobs

  pub Jobs-Grows :
      (d d' : Disk) (jobs : List (CacheEntry × ℕ))
      → Grows d d' root (hash_hex env path)
      → Jobs d jobs
      → Jobs d' jobs
  Jobs-Grows d d' [] grows v = tt
  Jobs-Grows d d' ((ce, first_blk) ∷ jobs) grows v = (
    record {
      of_path = v.0.of_path;
      named = v.0.named;
      reached =
          Filled-Grows d d' root (hash_hex env path) (first_blk * k_block_size) grows v.0.reached;
    },
    Jobs-Grows d d' jobs grows v.1,
  )

  Jobs-append :
      (d : Disk) (jobs : List (CacheEntry × ℕ)) (ce : CacheEntry) (first_blk : ℕ)
      → Jobs d jobs
      → IsJob d ce first_blk
      → Jobs d (jobs ++ (ce, first_blk) ∷ [])
  Jobs-append d [] ce first_blk v j = (j, tt)
  Jobs-append d (_ ∷ jobs) ce first_blk v j = (v.0, Jobs-append d jobs ce first_blk v.1 j)

  Jobs-either :
      (d : Disk) (c : Bool) (new old : List (CacheEntry × ℕ))
      → Jobs d new
      → Jobs d old
      → Jobs d (if c then new else old)
  Jobs-either d true new old v w = v
  Jobs-either d false new old v w = w

  -- Between the calls: the entry of the path is open, the object has bytes of the file alone, and
  -- the queued jobs are for it.
  pub record Serving {A : Type 0} (src : Bytes) (m : Manager A) : Type 0 where
    pub rooted : m.root ≡ root
    pub is_open : IsOpen env m path
    pub of_path : (entry env m path).1.path ≡ path
    pub sound : IsSound m.store root (hash_hex env path) src 0
    pub queued : Jobs m.store m.prefetches

  -- Another state with the same root and entries.
  pub Serving-change :
      {A : Type 0} (src : Bytes) (m m' : Manager A)
      → Serving src m
      → m'.root ≡ m.root
      → m'.entries ≡ m.entries
      → IsSound m'.store root (hash_hex env path) src 0
      → Jobs m'.store m'.prefetches
      → Serving src m'
  Serving-change src m m' v same_root entries sound queued =
      let same = entry-same env m' m path entries in
      record {
        rooted = same_root ∙ v.rooted;
        is_open = record {
          present = ap (λ c. c.evicted) same ∙ v.is_open.present;
          named = ap (λ c. c.hash_hex) same ∙ v.is_open.named;
        };
        of_path = ap (λ c. c.path) same ∙ v.of_path;
        sound = sound;
        queued = queued;
      }

  -- In the loop of a read that began on the disk `start`.
  pub record Looping {A : Type 0} (src : Bytes) (start : Disk) (m : Manager A) (ce : CacheEntry)
      (n : ℕ) : Type 0 where
    pub rooted : m.root ≡ root
    pub there : find text_discrete path m.entries ≡ some ce
    pub present : ce.evicted ≡ false
    pub named : ce.hash_hex ≡ hash_hex env path
    pub of_path : ce.path ≡ path
    pub sound : IsSound m.store root (hash_hex env path) src (n * k_block_size)
    pub grows : Grows start m.store root (hash_hex env path)
    pub queued : Jobs m.store m.prefetches

  pub Looping-Serving :
      {A : Type 0} (src : Bytes) (start : Disk) (m : Manager A) (ce : CacheEntry) (n : ℕ)
      → Looping src start m ce n
      → Serving src m
  Looping-Serving src start m ce n v =
      let same : (entry env m path).1 ≡ ce = entry_there env m path ce v.there in
      record {
        rooted = v.rooted;
        is_open = record {
          present = ap (λ c. c.evicted) same ∙ v.present;
          named = ap (λ c. c.hash_hex) same ∙ v.named;
        };
        of_path = ap (λ c. c.path) same ∙ v.of_path;
        sound =
            IsSound-down m.store root (hash_hex env path) src (n * k_block_size) 0 (omega arith)
              v.sound;
        queued = v.queued;
      }

  pub Looping-down :
      {A : Type 0} (src : Bytes) (start : Disk) (m : Manager A) (ce : CacheEntry) (n k : ℕ)
      → k ≤ n
      → Looping src start m ce n
      → Looping src start m ce k
  Looping-down src start m ce n k le v = record {
    rooted = v.rooted;
    there = v.there;
    present = v.present;
    named = v.named;
    of_path = v.of_path;
    sound =
        IsSound-down m.store root (hash_hex env path) src (n * k_block_size) (k * k_block_size)
          (omega arith) v.sound;
    grows = v.grows;
    queued = v.queued;
  }

  module _ (F : Double) (src : Bytes) where
    -- The end of a round may queue a job, which begins where the block ends.
    after_block-Looping :
        (start d : Disk) (m : Manager F.Carrier) (ce : CacheEntry) (blk : ℕ)
        → Looping src start m ce blk
        → IsSound d root (hash_hex env path) src ((blk + 1) * k_block_size)
        → Grows m.store d root (hash_hex env path)
        → let next = after_block F env (record m { store = d }) path ce blk in
          Looping src start next.0 next.1 (blk + 1)
    unfolding after_block
    after_block-Looping start d m ce blk v sound grows =
        let ce' : CacheEntry = record ce { last_block = blk } in
        let jobs = Jobs-Grows m.store d m.prefetches grows v.queued in
        let job : IsJob d ce' (blk + 1) = record {
          of_path = v.of_path;
          named = v.named;
          reached = sound.filled;
        } in
        record {
          rooted = v.rooted;
          there =
              find-put text_discrete path path ce' m.entries
              ∙ if_pos (text_discrete path path) refl _ _;
          present = v.present;
          named = v.named;
          of_path = v.of_path;
          sound = sound;
          grows = λ o there. grows o (v.grows o there);
          queued =
              Jobs-either d _ (m.prefetches ++ (ce', blk + 1) ∷ []) m.prefetches
                (Jobs-append d m.prefetches ce' (blk + 1) jobs job) jobs;
        }

    pub Looping-Yields :
        (len off last : ℕ) (start : Disk)
        → Backs env path src last
        → off + len ≤ last * k_block_size
        → Yields F env path len off src (Looping src start)
    Looping-Yields len off last start backs fits m ce blk some_bytes low high v =
        let h = hash_hex env path in
        let is_hash = hash_hex-IsHash env path in
        let served = backs.serves blk (omega arith) in
        let (d, block, e, same, sound) =
          fetch_block-IsSound env root path h src is_hash m.store blk v.sound served in
        let grows : Grows m.store d root h =
          subst (λ t. Grows m.store t root h) (ap (λ r. r.0) e)
            (fetch_block-Grows env root path h src is_hash m.store blk (blk * k_block_size) v.sound
              served) in
        (
          d,
          block,
          rw (v.rooted, v.named) e,
          same,
          after_block-Looping start d m ce blk v sound grows,
        )
