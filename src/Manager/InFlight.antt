-- ===== src/Manager/InFlight.antt =====
-- Prefetch jobs that several workers have begun, each in the middle of its blocks.
use cache_system_with_fuse.Double.{Double}
use cache_system_with_fuse.Files.{Disk}
use cache_system_with_fuse.Manager.{Env, Manager, CacheEntry, hash_hex, prefetch_window}
use cache_system_with_fuse.Manager.Eviction.{prefetch_block}
use cache_system_with_fuse.Manager.Growth.{Grows, Filled-Grows}
use cache_system_with_fuse.Manager.Prefetch.{prefetch_block_keeps}
use cache_system_with_fuse.Manager.Serving.{Backs, Jobs, Jobs-Grows, Serving, Serving-change}
use cache_system_with_fuse.Manager.JobLaws.{MayFetch, prefetch_block-Extends}
use cache_system_with_fuse.Base.{ℕ, zero, suc, ◌+◌, ◌≡◌, refl, inl, inr, List, [], ◌∷◌, Text, Bytes}

-- A job: the copy of the entry, its next block and how many are left.
abbrev pub RunningJob : Type 0
RunningJob = CacheEntry × ℕ × ℕ

module _ (F : Double) (env : Env) where
  -- The `i`-th of the jobs goes on: to its next block, or to its end.
  unfoldable pub advance_job :
      Manager F.Carrier → List RunningJob → ℕ → Manager F.Carrier × List RunningJob
  advance_job m [] i = (m, [])
  advance_job m ((ce, blk, zero) ∷ running) zero = (m, running)
  advance_job m ((ce, blk, suc rounds) ∷ running) zero =
      (prefetch_block F env m ce blk, (ce, blk + 1, rounds) ∷ running)
  advance_job m (job ∷ running) (suc i) =
      let (m', running') = advance_job m running i in (m', job ∷ running')

  -- A worker takes the oldest job of the queue.
  unfoldable pub take_job :
      Manager F.Carrier
      → List RunningJob
      → List (CacheEntry × ℕ)
      → Manager F.Carrier × List RunningJob
  take_job m running [] = (m, running)
  take_job m running ((ce, first_blk) ∷ jobs) =
      (record m { prefetches = jobs }, (ce, first_blk, prefetch_window) ∷ running)

module _ (F : Double) (env : Env) (path root : Text) (src : Bytes) (last : ℕ) where
  -- Every running job is for the file, at a block that it may fetch.
  abbrev pub InFlight : Disk → List RunningJob → Type 0
  InFlight d [] = Unit {0}
  InFlight d ((ce, blk, rounds) ∷ running) =
      ((ce.path ≡ path)
        × (ce.hash_hex ≡ hash_hex env path)
        × MayFetch F env path root src last d blk)
      × InFlight d running

  MayFetch-Grows :
      (d d' : Disk) (blk : ℕ)
      → Grows d d' root (hash_hex env path)
      → MayFetch F env path root src last d blk
      → MayFetch F env path root src last d' blk
  MayFetch-Grows d d' blk grows (inl ended) = inl ended
  MayFetch-Grows d d' blk grows (inr filled) =
      inr (Filled-Grows d d' root (hash_hex env path) _ grows filled)

  pub InFlight-Grows :
      (d d' : Disk) (running : List RunningJob)
      → Grows d d' root (hash_hex env path)
      → InFlight d running
      → InFlight d' running
  InFlight-Grows d d' [] grows v = tt
  InFlight-Grows d d' ((ce, blk, rounds) ∷ running) grows v =
      ((v.0.0, v.0.1, MayFetch-Grows d d' blk grows v.0.2), InFlight-Grows d d' running grows v.1)

  -- Whichever job goes on, the invariant stays.
  pub advance_job-Serving :
      (m : Manager F.Carrier) (running : List RunningJob) (i : ℕ)
      → Backs env path src last
      → Serving env path root src m
      → InFlight m.store running
      → let (m', running') = advance_job F env m running i in
        Serving env path root src m'
        × InFlight m'.store running'
        × Grows m.store m'.store root (hash_hex env path)
  unfolding advance_job
  advance_job-Serving m [] i backs v w = (v, tt, λ o there. there)
  advance_job-Serving m ((ce, blk, zero) ∷ running) zero backs v w = (v, w.1, λ o there. there)
  advance_job-Serving m ((ce, blk, suc rounds) ∷ running) zero backs v w =
      let m' = prefetch_block F env m ce blk in
      let (same_root, entries, jobs) = prefetch_block_keeps F env m ce blk in
      let (sound, grows, more) =
        prefetch_block-Extends F env path root src last m ce blk backs v.rooted w.0.0 w.0.1 v.sound
          w.0.2 in
      (
        Serving-change env path root src m m' v same_root entries sound
            (rw jobs (Jobs-Grows env path root m.store m'.store m.prefetches grows v.queued)),
        ((w.0.0, w.0.1, more), InFlight-Grows m.store m'.store running grows w.1),
        grows,
      )
  advance_job-Serving m ((ce, blk, rounds) ∷ running) (suc i) backs v w =
      let (v', w', grows) = advance_job-Serving m running i backs v w.1 in
      let m' = (advance_job F env m running i).0 in
      (v', ((w.0.0, w.0.1, MayFetch-Grows m.store m'.store blk grows w.0.2), w'), grows)

  pub take_job-Serving :
      (m : Manager F.Carrier) (running : List RunningJob) (jobs : List (CacheEntry × ℕ))
      → Serving env path root src m
      → Jobs env path root m.store jobs
      → InFlight m.store running
      → let (m', running') = take_job F env m running jobs in
        Serving env path root src m' × InFlight m'.store running'
  unfolding take_job
  take_job-Serving m running [] v queued w = (v, w)
  take_job-Serving m running ((ce, first_blk) ∷ jobs) v queued w = (
    Serving-change env path root src m (record m { prefetches = jobs }) v refl refl v.sound
        queued.1,
    ((queued.0.of_path, queued.0.named, inr queued.0.reached), w),
  )
