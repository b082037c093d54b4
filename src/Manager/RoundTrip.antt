-- ===== src/Manager/RoundTrip.antt =====
-- A range that `cache_store_file` stored and `cache_read_file` reads.
use cache_system_with_fuse.Double.{Double}
use cache_system_with_fuse.Files.{Disk}
use cache_system_with_fuse.Files.Keeping.{Passable}
use cache_system_with_fuse.BlockStore.Contents.{object_byte}
use cache_system_with_fuse.BlockStore.Total.{IsHealthy}
use cache_system_with_fuse.Manager.{Env, Manager, k_block_size, hash_hex, local_path, fetch_block}
use cache_system_with_fuse.Manager.Rounds.{Apart}
use cache_system_with_fuse.Manager.Gap.{fetch_held}
use cache_system_with_fuse.Manager.Reading.{read}
use cache_system_with_fuse.Manager.ReadLaws.{IsOpen, DiskYields, read_yields}
use cache_system_with_fuse.Manager.Writing.{write}
use cache_system_with_fuse.Manager.Held.{HoldsUpTo}
use cache_system_with_fuse.Manager.Written.{write_stores}
use cache_system_with_fuse.Manager.Api.{cache_store_file, cache_read_file}
use cache_system_with_fuse.Manager.Entries.{entry_again}
use cache_system_with_fuse.Base.{
  ℕ, ◌+◌, ◌*◌, ◌≤◌, ◌≡◌, refl, sym, ap, subst, ◌∙◌, none, some, arith, pos, returned, Text, Bytes,
  Agree,
}

-- The bytes that an object has, and zeros elsewhere.
abbrev content : Disk → Text → Text → Bytes
content d root h o = elim (object_byte d root h o) [ none ↦ 0 | some b ↦ b ]

object_byte-content :
    (d : Disk) (root h : Text) (o b : ℕ) → object_byte d root h o ≡ some b → content d root h o ≡ b
object_byte-content d root h o b e = rw (content, e) refl

-- A disk with a range yields the blocks of each part of it, whatever the backend has, and stays as
-- it is.
HoldsUpTo-DiskYields :
    (env : Env) (path : Text) (len off n start : ℕ) (buf : Bytes) (s : Disk) (root h : Text)
    → HoldsUpTo s root h buf off len
    → off ≤ start
    → start + n ≤ off + len
    → DiskYields env path n start (content s root h) root h (λ d n. d ≡ s)
HoldsUpTo-DiskYields env path len off n start buf s root h v low_end high_end d blk some_bytes low
      high same =
    let src = content s root h in
    let (block, e, right) =
      fetch_held env s root path h (λ i. src (blk * k_block_size + i)) blk v.healthy
        (λ i lt.
          let (b, there) = v.filled blk (omega arith) (omega arith) (omega arith) i lt in
          there ∙ ap some (sym (object_byte-content s root h (blk * k_block_size + i) b there))) in
    (
      s,
      block,
      subst (λ t. fetch_block env t root path h blk ≡ (s, some block)) (sym same) e,
      right,
      refl,
    )

module _ (F : Double) (env env' : Env) (path : Text) (bytes buf : Bytes) (len off n skip : ℕ) where
  write_then_read :
      (m : Manager F.Carrier)
      → IsOpen env m path
      → Apart (local_path m.root path) m.root (hash_hex env path)
      → IsHealthy m.store m.root
      → Passable m.store (local_path m.root path)
      → skip + n ≤ len
      → (m' : Manager F.Carrier) × (m'' : Manager F.Carrier) × (got : Bytes) × (write F env path
            bytes len off m
          ≡ returned (m', pos len))
        × (read F env' path n (off + skip) m' buf ≡ returned (m'', pos n, got))
        × Agree n got (λ i. bytes (skip + i))
  write_then_read m v apart healthy free inside =
      let h = hash_hex env path in
      let (m', wrote, root, entries, stored, _, _) =
        write_stores F env path bytes len off m v apart healthy free in
      let again = entry_again env env' m m' path entries in
      let held = subst (λ r. HoldsUpTo m'.store r h bytes off len) (sym root) stored in
      let src = content m'.store m'.root h in
      let (m'', got, e, same) =
        read_yields F env' path n (off + skip) src m' buf h (λ d n. d ≡ m'.store) (λ d n k le e. e)
          (HoldsUpTo-DiskYields env' path len off n (off + skip) bytes m'.store m'.root h held
            (omega arith) (omega arith))
          (ap (λ ce. ce.evicted) again ∙ v.present) (ap (λ ce. ce.hash_hex) again ∙ v.named) refl in
      (
        m',
        m'',
        got,
        wrote,
        e,
        λ i lt.
            let place : off + (skip + i) ≡ off + skip + i = omega arith in
            let there = held.written (skip + i) (omega arith) in
            same i lt
            ∙ object_byte-content m'.store m'.root h (off + skip + i) (bytes (skip + i)) (
                subst (λ o. object_byte m'.store m'.root h o ≡ some (bytes (skip + i))) place
                  there),
      )

  -- Where the cache root is there, the system refuses nothing and cuts no write short, no file
  -- has the name of a shard directory, the entry of the path (the one there, or the new one) is
  -- not evicted and has the hash of the path, no regular file is in the way of the directories
  -- above the path's file below the root, neither that file nor a directory above it has the name
  -- of a part of the object, and the file has not that of a shard directory: `cache_store_file`
  -- of a buffer returns 0, and `cache_read_file` of any part of that range, whatever the backend
  -- answers then, returns the whole length with the bytes of the buffer.
  pub cache_store_file-cache_read_file :
      (m : Manager F.Carrier)
      → IsOpen env m path
      → Apart (local_path m.root path) m.root (hash_hex env path)
      → IsHealthy m.store m.root
      → Passable m.store (local_path m.root path)
      → skip + n ≤ len
      → (m' : Manager F.Carrier) × (m'' : Manager F.Carrier) × (got : Bytes) × (cache_store_file F
            env
            (some m)
            path
            bytes
            len
            off
          ≡ returned (some m', pos 0))
        × (cache_read_file F env' (some m') path buf n (off + skip)
            ≡ returned (some m'', pos n, got))
        × Agree n got (λ i. bytes (skip + i))
  unfolding cache_store_file cache_read_file
  cache_store_file-cache_read_file m v apart healthy free inside =
      let (m', m'', got, wrote, e, same) = write_then_read m v apart healthy free inside in
      (m', m'', got, rw wrote refl, rw e refl, same)
