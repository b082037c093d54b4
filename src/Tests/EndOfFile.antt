-- ===== src/Tests/EndOfFile.antt =====
-- A read across the end of a file of one block.
use cache_system_with_fuse.Tests.{whole, root, disk-IsHealthy, env, path, manager}
use cache_system_with_fuse.Tests.Calls.{path-Apart}
use cache_system_with_fuse.Manager.{
  Env, Manager, k_block_size, hash_hex, init_manager, entry, local_path,
}
use cache_system_with_fuse.Manager.Rounds.{Apart}
use cache_system_with_fuse.Manager.Reading.{read}
use cache_system_with_fuse.Manager.ReadLaws.{IsOpen}
use cache_system_with_fuse.Manager.Serving.{Backs}
use cache_system_with_fuse.Manager.EndOfFile.{EndsAt, read-EndsAt}
use cache_system_with_fuse.Base.{
  ℕ, ◌+◌, ◌≡◌, refl, none, some, arith, ltb, if◌then◌else◌, pos, negsuc, returned, find, Bytes,
  Agree,
}

abbrev one : Env
one = record env {
  remote =
      λ path buf len off. if ltb off k_block_size then (pos len, λ i. off + i) else (negsuc 0, buf);
}

one-Backs : Backs one path (λ i. i) 1
one-Backs = record {
  serves = λ blk lt buf. (ground (arith, lt), ground (arith, lt));
  ends = λ blk buf ge. ground (arith, ge);
}

one-IsOpen : IsOpen one manager path
unfolding entry init_manager find
one-IsOpen = record { present = refl; named = refl }

one-Apart : Apart (local_path root path) root (hash_hex one path)
unfolding hash_hex
one-Apart = path-Apart

disk-EndsAt : EndsAt one path root (λ i. i) 1 manager.store 0
unfolding find init_manager
disk-EndsAt = record {
  sound = record {
    healthy = disk-IsHealthy;
    coherent = λ o b e. absurd (none≢some e);
    filled = λ o lt. absurd (omega arith);
  };
  bare = λ o ge. refl;
  no_file = refl;
}
  where
    none≢some : {b : ℕ} → ¬ (none ≡ some b)
    none≢some e = cc

read-EndsAt_example :
    (m' : Manager ℕ) × (buf' : Bytes) × (read whole one path 2000 65_000 manager (λ i. 0)
      ≡ returned (m', pos 536, buf'))
    × Agree 536 buf' (λ i. 65_000 + i)
unfolding init_manager
read-EndsAt_example =
    read-EndsAt whole one path 2000 65_000 root (λ i. i) 1 one-Backs one-Apart manager (λ i. 0)
      one-IsOpen refl disk-EndsAt (omega arith) (omega arith)
