-- ===== src/Tests/Calls.antt =====
-- Calls of the cache one after the other, a job of the prefetch pool, an upload and a listing.
use cache_system_with_fuse.Tests.{whole, root, disk, disk-IsHealthy, env, path, manager}
use cache_system_with_fuse.Files.{parent, has_slash, above}
use cache_system_with_fuse.Files.Names.{length-above_le}
use cache_system_with_fuse.Files.Keeping.{Passable}
use cache_system_with_fuse.BlockStore.Total.{
  length-data_part_path, length-shard_level1, length-shard_level2,
}
use cache_system_with_fuse.BlockStore.Contents.{object_byte}
use cache_system_with_fuse.Manager.{
  Env, Manager, k_block_size, hash_hex, hex_digits, hex_digit, init_manager, entry, local_path,
  join_path, ends_with_slash,
}
use cache_system_with_fuse.Manager.Rounds.{Apart}
use cache_system_with_fuse.Manager.ReadLaws.{IsOpen}
use cache_system_with_fuse.Manager.Reading.{read}
use cache_system_with_fuse.Manager.RoundTrip.{cache_store_file-cache_read_file}
use cache_system_with_fuse.Manager.Overlay.{
  Store, IsSafe, LeavesWay, store_all, store_all-put_bytes,
}
use cache_system_with_fuse.Manager.Serving.{Backs}
use cache_system_with_fuse.Manager.Sequential.{
  Reach, start, next, reads, takes, advances, sequential_reads,
}
use cache_system_with_fuse.Manager.Api.{cache_init, cache_store_file, cache_read_file}
use cache_system_with_fuse.Http.{Chunk, UploadBuf}
use cache_system_with_fuse.Http.Slices.{body, body_length}
use cache_system_with_fuse.Http.Uploads.{upload_chunks, upload_chunks_right}
use cache_system_with_fuse.Manager.InFlight.{RunningJob, take_job, advance_job}
use cache_system_with_fuse.Base.{
  ℕ, suc, ◌+◌, ◌-◌, ◌*◌, ◌<◌, ◌≡◌, refl, ap, ◌∙◌, ◌≢◌, none, some, List, [], ◌∷◌, arith, ltb,
  if◌then◌else◌, pos, negsuc, returned, length, get_or, Text, codes, text_discrete, find, Bytes,
  Agree,
}

-- Files with a hash of their own, and a backend with eight blocks, the number of the byte in each.
abbrev eight : Env
eight = record env {
  hash = length;
  remote = λ path buf len off.
      if ltb off (8 * k_block_size) then (pos len, λ i. off + i) else (negsuc 0, buf);
}

-- No backend at all.
abbrev nowhere : Env
nowhere = record env { remote = λ path buf len off. (negsuc 0, buf) }

abbrev other : Text
other = codes "/ggg"

manager-IsOpen : IsOpen env manager path
unfolding entry init_manager find
manager-IsOpen = record { present = refl; named = refl }

-- A file below the root with a name of one, three or four characters.
short-Apart : (h p : Text) → length p < 8 → length p ≢ 4 → length p ≢ 7 → Apart p root h
short-Apart h p small ne1 ne2 = record {
  parts = λ k n e.
      omega (arith, ap length e, small, length-above_le k p, length-data_part_path root h n);
  shards = λ g v. (
    λ e. ne1 (ap length e ∙ length-shard_level1 root g v),
    λ e. ne2 (ap length e ∙ length-shard_level2 root g v),
  );
}

pub path-Apart : Apart (local_path root path) root (hash_hex env path)
unfolding local_path join_path ends_with_slash
path-Apart =
    short-Apart (hash_hex env path) (codes "r/f") (omega arith) (λ e. omega (arith, e))
      (λ e. omega (arith, e))

eight-Apart : Apart (local_path root path) root (hash_hex eight path)
unfolding local_path join_path ends_with_slash
eight-Apart =
    short-Apart (hash_hex eight path) (codes "r/f") (omega arith) (λ e. omega (arith, e))
      (λ e. omega (arith, e))

eight-Apart-other : Apart (local_path root path) root (hash_hex eight other)
unfolding local_path join_path ends_with_slash
eight-Apart-other =
    short-Apart (hash_hex eight other) (codes "r/f") (omega arith) (λ e. omega (arith, e))
      (λ e. omega (arith, e))

other-Apart : (h : Text) → Apart (local_path root other) root h
unfolding local_path join_path ends_with_slash
other-Apart h =
    short-Apart h (codes "r/ggg") (omega arith) (λ e. omega (arith, e)) (λ e. omega (arith, e))

-- The directories above both files are shorter than their names.
above_short : (p q : Text) → length (parent q) < length p → (k : ℕ) → p ≢ above (suc k) q
unfolding above
above_short p q short k e = omega (arith, ap length e, short, length-above_le k (parent q))

pub disk-Passable : (p : Text) → Passable disk p
unfolding find
disk-Passable p k = refl

last : (p q : Text) → p ≡ q → get_or p 15 0 ≡ get_or q 15 0
last p q e = ap (λ s. get_or s 15 0) e

other-distinct : hash_hex eight other ≢ hash_hex eight path
unfolding hash_hex hex_digits hex_digit
other-distinct e = omega (arith, last _ _ e)

cache_store_file-cache_read_file_example :
    (m' : Manager ℕ) × (m'' : Manager ℕ) × (got : Bytes) × (cache_store_file whole env
        (some manager)
        path
        (λ i. i + 1)
        100_000
        10
      ≡ returned (some m', pos 0))
    × (cache_read_file whole nowhere (some m') path (λ i. 0) 70_000 (10 + 20)
        ≡ returned (some m'', pos 70_000, got))
    × Agree 70_000 got (λ i. 20 + i + 1)
unfolding init_manager
cache_store_file-cache_read_file_example =
    cache_store_file-cache_read_file whole env nowhere path (λ i. i + 1) (λ i. 0) 100_000 10 70_000
      20 manager manager-IsOpen path-Apart disk-IsHealthy (disk-Passable _) (omega arith)

-- Two files, the first of which is written again in the middle.
abbrev first : Store
first = record { path = path; bytes = λ i. i + 1; len = 5; off = 0 }

abbrev second : Store
second = record { path = other; bytes = λ i. 9; len = 4; off = 2 }

abbrev third : Store
third = record { path = path; bytes = λ i. i + 100; len = 2; off = 2 }

abbrev calls : List Store
calls = first ∷ second ∷ third ∷ []

path-IsSafe : (c : Store) → c.path ≡ path → IsSafe whole eight disk root path c
path-IsSafe c e = record {
  free = disk-Passable _;
  own = rw e eight-Apart;
  from_path = rw e eight-Apart;
  distinct = λ ne. absurd (ne e);
}

other-IsSafe : IsSafe whole eight disk root path second
other-IsSafe = record {
  free = disk-Passable _;
  own = other-Apart _;
  from_path = other-Apart _;
  distinct = λ ne. other-distinct;
}

first-LeavesWay : LeavesWay whole eight root first second
unfolding local_path join_path ends_with_slash parent has_slash
first-LeavesWay = record {
  file = above_short (codes "r/f") (codes "r/ggg") (omega arith);
  parts = other-Apart _;
}

again-LeavesWay : LeavesWay whole eight root first third
unfolding local_path join_path ends_with_slash parent has_slash
again-LeavesWay = record {
  file = above_short (codes "r/f") (codes "r/f") (omega arith);
  parts = eight-Apart;
}

second-LeavesWay : LeavesWay whole eight root second third
unfolding local_path join_path ends_with_slash parent has_slash
second-LeavesWay = record {
  file = above_short (codes "r/ggg") (codes "r/f") (omega arith);
  parts = eight-Apart-other;
}

store_all-put_bytes_example :
    (m : Manager ℕ) × (store_all whole eight calls (cache_init disk root).0 ≡ returned (some m))
    × (object_byte m.store root (hash_hex eight path) 3 ≡ some 101)
unfolding text_discrete
store_all-put_bytes_example =
    store_all-put_bytes whole eight disk root path calls 3 101 disk-IsHealthy
      (
        path-IsSafe first refl,
        (first-LeavesWay, (again-LeavesWay, tt)),
        (other-IsSafe, (second-LeavesWay, tt), (path-IsSafe third refl, tt, tt)),
      )
      refl

eight-Backs : Backs eight path (λ i. i) 8
eight-Backs = record {
  serves = λ blk lt buf. (ground (arith, lt), ground (arith, lt));
  ends = λ blk buf ge. ground (arith, ge);
}

disk-bare : (o : ℕ) → object_byte disk root (hash_hex eight path) o ≡ none
unfolding find
disk-bare o = refl

-- A read from the start of the file, and the job that it queued.
first_read :
    (m : Manager ℕ) × (got : Bytes) × (read whole eight path 150_000 0
        (init_manager disk root)
        (λ i. 0)
      ≡ returned (m, pos 150_000, got))
    × Agree 150_000 got (λ i. 0 + i)
first_read =
    sequential_reads whole eight path root (λ i. i) 8 disk (init_manager disk root) [] 150_000 0
      (λ i. 0) disk-IsHealthy disk-bare eight-Backs start (omega arith)
      (λ o lt. absurd (omega arith))

abbrev read_once : Manager ℕ
read_once = first_read.0

-- A worker that takes the job and fetches its first block.
abbrev taken : Manager ℕ × List RunningJob
taken = take_job whole eight read_once [] read_once.prefetches

abbrev prefetched : Manager ℕ × List RunningJob
prefetched = advance_job whole eight taken.0 taken.1 0

prefetched-Reach :
    Reach whole eight path root (λ i. i) 8 (init_manager disk root) prefetched.0 prefetched.1
prefetched-Reach =
    next taken.0 prefetched.0 taken.1 prefetched.1
      (next read_once taken.0 [] taken.1
        (next (init_manager disk root) read_once [] [] start (
          reads 150_000 0 (λ i. 0) first_read.1 (pos 150_000) read_once (omega arith)
            (λ o lt. absurd (omega arith)) first_read.2))
        takes)
      (advances 0)

sequential_reads_example :
    (m' : Manager ℕ) × (got : Bytes) × (read whole eight path 300_000 1 prefetched.0 (λ i. 0)
      ≡ returned (m', pos 300_000, got))
    × Agree 300_000 got (λ i. 1 + i)
sequential_reads_example =
    sequential_reads whole eight path root (λ i. i) 8 disk prefetched.0 prefetched.1 300_000 1
      (λ i. 0) disk-IsHealthy disk-bare eight-Backs prefetched-Reach (omega arith)
      (λ o lt. absurd (omega arith))

upload_chunks_right_example :
    let up : UploadBuf = record { payload = λ i. i; total = 10; sent = 0 } in
    let calls : List Chunk = ((λ i. 0), 4) ∷ ((λ i. 0), 3) ∷ ((λ i. 0), 8) ∷ [] in
    let (up', chunks) = upload_chunks calls up in
    (up'.sent ≡ 10)
    × (body_length chunks ≡ up'.sent - 0)
    × Agree (body_length chunks) (body chunks) (λ i. 0 + i)
upload_chunks_right_example =
    upload_chunks_right (((λ i. 0), 4) ∷ ((λ i. 0), 3) ∷ ((λ i. 0), 8) ∷ [])
      (record { payload = λ i. i; total = 10; sent = 0 }) (omega arith)
