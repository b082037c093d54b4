-- ===== src/Manager/Sequential.antt =====
-- Reads in order and prefetch jobs, as steps in any order.
use cache_system_with_fuse.Double.{Double}
use cache_system_with_fuse.Files.{Disk}
use cache_system_with_fuse.BlockStore.Contents.{object_byte}
use cache_system_with_fuse.BlockStore.Prefix.{Filled}
use cache_system_with_fuse.BlockStore.Total.{IsHealthy}
use cache_system_with_fuse.Manager.{Env, Manager, k_block_size, hash_hex, init_manager, entry}
use cache_system_with_fuse.Manager.Reading.{read}
use cache_system_with_fuse.Manager.ReadLoop.{read_loop-read}
use cache_system_with_fuse.Manager.Serving.{
  Backs, Serving, Looping, Looping-Serving, Looping-down, Looping-Yields,
}
use cache_system_with_fuse.Manager.JobLaws.{IsSound-at}
use cache_system_with_fuse.Manager.Growth.{Grows}
use cache_system_with_fuse.Manager.InFlight.{
  RunningJob, advance_job, take_job, InFlight, InFlight-Grows, advance_job-Serving,
  take_job-Serving,
}
use cache_system_with_fuse.Manager.Entries.{entry_keeps, entry-prefetches, find-entry}
use cache_system_with_fuse.Base.{
  ℕ, ◌+◌, ◌*◌, ◌/◌, ◌≤◌, ◌≡◌, refl, sym, subst, ◌∙◌, none, some, List, [], arith, ℤ, pos, Outcome,
  returned, Text, find, Bytes, Agree,
}

returned_state :
    {A : Type 0} (m m' : A) (rc rc' : ℤ) (got got' : Bytes)
    → ◌≡◌ {A = Outcome (A × ℤ × Bytes)} (returned (m, rc, got)) (returned (m', rc', got'))
    → m ≡ m'
returned_state m m' rc rc' got got' e = cc

module _ (F : Double) (env : Env) (path root : Text) (src : Bytes) (last : ℕ) where
  -- A read that leaves no gap before its first block; a worker that takes a job; a job that goes
  -- on. Beside the manager are the jobs that run.
  pub data Step (m : Manager F.Carrier) (running : List RunningJob)
      : Manager F.Carrier → List RunningJob → Type 0 where
    reads :
        (len off : ℕ) (buf got : Bytes) (rc : ℤ) (m' : Manager F.Carrier)
        → off + len ≤ last * k_block_size
        → Filled m.store root (hash_hex env path) (off / k_block_size * k_block_size)
        → read F env path len off m buf ≡ returned (m', rc, got)
        → Step m running m' running
    takes :
        Step m running
          (take_job F env m running m.prefetches).0
          (take_job F env m running m.prefetches).1
    advances :
        (i : ℕ) → Step m running (advance_job F env m running i).0 (advance_job F env m running i).1

  -- What can be reached from a manager without a running job.
  pub data Reach (m : Manager F.Carrier) : Manager F.Carrier → List RunningJob → Type 0 where
    start : Reach m m []
    next :
        (m' m'' : Manager F.Carrier) (running running' : List RunningJob)
        → Reach m m' running
        → Step m' running m'' running'
        → Reach m m'' running'

  -- A read returns the bytes of the file and keeps the invariant.
  read-Serving :
      (len off : ℕ) (buf : Bytes) (m : Manager F.Carrier)
      → Backs env path src last
      → Serving env path root src m
      → off + len ≤ last * k_block_size
      → Filled m.store root (hash_hex env path) (off / k_block_size * k_block_size)
      → (m' : Manager F.Carrier) × (got : Bytes) × (read F env path len off m buf
          ≡ returned (m', pos len, got))
        × Agree len got (λ i. src (off + i))
        × Serving env path root src m'
        × Grows m.store m'.store root (hash_hex env path)
  read-Serving len off buf m backs v fits gapless =
      let h = hash_hex env path in
      let (same_store, same_root) = entry_keeps env m path in
      let looping : Looping env path root src m.store (entry env m path).0 (entry env m path).1
          (off / k_block_size) =
        record {
          rooted = same_root ∙ v.rooted;
          there = find-entry env m path;
          present = v.is_open.present;
          named = v.is_open.named;
          of_path = v.of_path;
          sound = rw same_store (
              IsSound-at F env path root src last m.store (off / k_block_size * k_block_size)
                v.sound gapless);
          grows = rw same_store (λ o there. there);
          queued = rw (same_store, entry-prefetches env m path) v.queued;
        } in
      let (m', got, e, same, (ce, ended)) =
        read_loop-read F env path len off src (Looping env path root src m.store)
          (λ m' ce n k le inv. Looping-down env path root src m.store m' ce n k le inv)
          (Looping-Yields env path root F src len off last m.store backs fits) m buf
          v.is_open.present looping in
      (
        m',
        got,
        e,
        same,
        Looping-Serving env path root src m.store m' ce ((off + len) / k_block_size) ended,
        ended.grows,
      )

  Step-Serving :
      (m : Manager F.Carrier) (running : List RunningJob) (m' : Manager F.Carrier)
      (running' : List RunningJob)
      → Backs env path src last
      → Serving env path root src m
      → InFlight F env path root src last m.store running
      → Step m running m' running'
      → Serving env path root src m' × InFlight F env path root src last m'.store running'
  Step-Serving m running _ _ backs v w (reads len off buf got rc m' fits gapless e) =
      let (m1, got1, e1, _, served, grows) = read-Serving len off buf m backs v fits gapless in
      let same = returned_state m1 m' (pos len) rc got1 got (sym e1 ∙ e) in
      subst (λ t. Serving env path root src t × InFlight F env path root src last t.store running)
        same (served, InFlight-Grows F env path root src last m.store m1.store running grows w)
  Step-Serving m running _ _ backs v w takes =
      take_job-Serving F env path root src last m running m.prefetches v v.queued w
  Step-Serving m running _ _ backs v w (advances i) =
      let (v', w', _) = advance_job-Serving F env path root src last m running i backs v w in
      (v', w')

  Reach-Serving :
      (m m' : Manager F.Carrier) (running : List RunningJob)
      → Backs env path src last
      → Serving env path root src m
      → Reach m m' running
      → Serving env path root src m' × InFlight F env path root src last m'.store running
  Reach-Serving m _ _ backs v start = (v, tt)
  Reach-Serving m _ _ backs v (next m' m'' running running' r s) =
      let (v', w') = Reach-Serving m m' running backs v r in
      Step-Serving m' running m'' running' backs v' w' s

  init_manager-Serving :
      (d : Disk)
      → IsHealthy d root
      → ((o : ℕ) → object_byte d root (hash_hex env path) o ≡ none)
      → Serving env path root {A = F.Carrier} src (init_manager d root)
  unfolding init_manager entry find
  init_manager-Serving d v bare = record {
    rooted = refl;
    is_open = record { present = refl; named = refl };
    of_path = refl;
    sound = record {
      healthy = v;
      coherent = λ o b e. absurd (none≢some (sym (bare o) ∙ e));
      filled = λ o lt. absurd (omega arith);
    };
    queued = tt;
  }
    where
      none≢some : {b : ℕ} → ¬ (none ≡ some b)
      none≢some e = cc

  -- From a new manager on a disk with the cache root, no refused call and no byte of the path's
  -- object, after any sequence of reads of the path, of workers that take the oldest prefetch job
  -- and of running jobs that go on by one block, in any order and with any number of jobs at
  -- once, each read beginning in or before the first block that is not there and ending within
  -- the file: such a read returns the whole length with the bytes of the file. The backend
  -- delivers the blocks of the file whole and right, and no bytes behind its end; no file has the
  -- name of a shard directory and no write is cut short.
  pub sequential_reads :
      (d : Disk) (m : Manager F.Carrier) (running : List RunningJob) (len off : ℕ) (buf : Bytes)
      → IsHealthy d root
      → ((o : ℕ) → object_byte d root (hash_hex env path) o ≡ none)
      → Backs env path src last
      → Reach (init_manager d root) m running
      → off + len ≤ last * k_block_size
      → Filled m.store root (hash_hex env path) (off / k_block_size * k_block_size)
      → (m' : Manager F.Carrier) × (got : Bytes) × (read F env path len off m buf
          ≡ returned (m', pos len, got))
        × Agree len got (λ i. src (off + i))
  sequential_reads d m running len off buf v bare backs reach fits gapless =
      let (served, _) =
        Reach-Serving (init_manager d root) m running backs (init_manager-Serving d v bare) reach in
      let (m', got, e, same, _, _) = read-Serving len off buf m backs served fits gapless in
      (m', got, e, same)
