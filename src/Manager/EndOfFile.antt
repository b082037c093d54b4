-- ===== src/Manager/EndOfFile.antt =====
-- `CacheManager::read` of a range that goes on behind the end of the file.
use cache_system_with_fuse.Double.{Double}
use cache_system_with_fuse.Files.{Disk, Syscall, file_at, open_file, above}
use cache_system_with_fuse.Layout.{k_max_part_size}
use cache_system_with_fuse.BlockStore
use cache_system_with_fuse.BlockStore.Contents.{object_byte}
use cache_system_with_fuse.BlockStore.Reads.{read-object_byte}
use cache_system_with_fuse.BlockStore.Total.{write_total}
use cache_system_with_fuse.BlockStore.Absent.{write-absent, write-file_at_other}
use cache_system_with_fuse.Manager.{
  Env, Manager, CacheEntry, k_block_size, hash_hex, local_path, entry, fetch_block, fetch_remote,
  read_local, after_block,
}
use cache_system_with_fuse.Manager.Hash.{hash_hex-IsHash}
use cache_system_with_fuse.Manager.Fetch.{block-InPart, IsSound, is_count_eq, fetch_block-IsSound}
use cache_system_with_fuse.Manager.Growth.{fetch_block_disk}
use cache_system_with_fuse.Manager.Rounds.{Apart}
use cache_system_with_fuse.Manager.Reading.{read_loop, read}
use cache_system_with_fuse.Manager.ReadLoop.{memcpy_right, read_loop_step}
use cache_system_with_fuse.Manager.ReadLaws.{IsOpen}
use cache_system_with_fuse.Manager.Serving.{Backs}
use cache_system_with_fuse.Manager.Entries.{entry_keeps}
use cache_system_with_fuse.Base.{
  ℕ, zero, suc, ◌+◌, ◌-◌, ◌*◌, ◌/◌, ◌≤◌, ◌<◌, min, ◌≡◌, sym, ap, subst, ◌∙◌, inl, inr, none, some,
  arith, dec_lt, ◌==◌, if◌then◌else◌, Bool-cases, pos, negsuc, is_count, returned, Text, Bytes,
  memcpy, Agree,
}

module _ (env : Env) (path root : Text) (src : Bytes) (last : ℕ) where
  -- A store with the file up to block `n`, nothing behind the file, and no local file of the path.
  pub record EndsAt (d : Disk) (n : ℕ) : Type 0 where
    pub sound : IsSound d root (hash_hex env path) src (n * k_block_size)
    pub bare : (o : ℕ) → last * k_block_size ≤ o → object_byte d root (hash_hex env path) o ≡ none
    pub no_file : file_at d (local_path root path) ≡ none

  fetch_block-EndsAt :
      (d : Disk) (blk : ℕ)
      → Backs env path src last
      → Apart (local_path root path) root (hash_hex env path)
      → blk < last
      → EndsAt d blk
      → (d' : Disk) × (block : Bytes) × (fetch_block env d root path (hash_hex env path) blk
          ≡ (d', some block))
        × Agree k_block_size block (λ i. src (blk * k_block_size + i))
        × EndsAt d' (blk + 1)
  fetch_block-EndsAt d blk backs apart before v =
      let h = hash_hex env path in
      let is_hash = hash_hex-IsHash env path in
      let served = backs.serves blk before in
      let (d', block, e, same, sound) =
        fetch_block-IsSound env root path h src is_hash d blk v.sound served in
      let is_d' : (fetch_block env d root path h blk).0 ≡ d' = ap (λ r. r.0) e in
      (
        d',
        block,
        e,
        same,
        elim (fetch_block_disk env root path h src is_hash d blk served) [
          | inl kept ↦
              let unchanged = sym is_d' ∙ kept in
              record {
                sound = sound;
                bare = λ o ge. rw unchanged (v.bare o ge);
                no_file = rw unchanged v.no_file;
              }
          | inr (buf, stored) ↦
              let off = blk * k_block_size in
              let (wrote, _) = write_total d root h buf k_block_size off v.sound.healthy is_hash in
              let changed = sym is_d' ∙ stored in
              record {
                sound = sound;
                bare = λ o ge. rw changed (
                    write-absent d root h buf k_block_size off k_block_size o (block-InPart blk)
                      wrote (omega arith) (v.bare o ge));
                no_file = rw changed (
                    write-file_at_other d root h buf k_block_size off k_block_size
                      (local_path root path) wrote
                      (λ p. unfold above in apart.parts 0 (off / k_max_part_size) (sym p))
                    ∙ v.no_file);
              }
        ],
      )

  fetch_block_end :
      (d : Disk)
      → Backs env path src last
      → EndsAt d last
      → fetch_block env d root path (hash_hex env path) last ≡ (d, none)
  unfolding fetch_block fetch_remote read_local open_file
  fetch_block_end d backs v =
      let h = hash_hex env path in
      let off = last * k_block_size in
      let stored = BlockStore.read d root h (env.stack last) k_block_size off in
      elim (Bool-cases (is_count stored.0 k_block_size)) [
        | inl hit ↦
            let (_, holds, _) =
              read-object_byte d root h (env.stack last) k_block_size off k_block_size
                (block-InPart last) (is_count_eq stored.0 k_block_size hit) in
            absurd (none≢some (sym (v.bare (off + 0) (omega arith)) ∙ holds 0 (omega arith)))
        | inr miss ↦ ground (
          arith,
          miss,
          backs.ends last stored.1 (omega arith),
          v.no_file,
          v.sound.healthy.accepts Syscall.sys_open (local_path root path),
        )
      ]
    where
      none≢some : {b : ℕ} → ¬ (none ≡ some b)
      none≢some e = cc

module _ (F : Double) (env : Env) (path : Text) (len off : ℕ) where
  read_loop_fails :
      (fuel : ℕ) (m : Manager F.Carrier) (ce : CacheEntry) (buf : Bytes) (done : ℕ) (d : Disk)
      → done < len
      → fetch_block env m.store m.root path ce.hash_hex ((off + done) / k_block_size) ≡ (d, none)
      → read_loop F env path len off (suc fuel) m ce buf done
        ≡ returned (record m { store = d }, (if done == 0 then negsuc 0 else pos done), buf)
  unfolding read_loop
  read_loop_fails fuel m ce buf done d lt e = ground (arith, lt, e)

  module _ (root : Text) (src : Bytes) (last : ℕ) (backs : Backs env path src last)
      (apart : Apart (local_path root path) root (hash_hex env path)) where
    -- The loop fetches the blocks up to the end of the file and fails there.
    read_loop_ends :
        (fuel : ℕ) (m : Manager F.Carrier) (ce : CacheEntry) (buf : Bytes) (done : ℕ)
        → m.root ≡ root
        → ce.hash_hex ≡ hash_hex env path
        → EndsAt env path root src last m.store ((off + done) / k_block_size)
        → off + done ≤ last * k_block_size
        → last * k_block_size < off + len
        → last * k_block_size < off + done + fuel
        → Agree done buf (λ i. src (off + i))
        → let n = last * k_block_size - off in
          (m' : Manager F.Carrier) × (buf' : Bytes) × (read_loop F env path len off fuel m ce buf
              done
            ≡ returned (m', (if n == 0 then negsuc 0 else pos n), buf'))
          × Agree n buf' (λ i. src (off + i))
    unfolding after_block
    read_loop_ends zero m ce buf done rooted named v below behind enough right =
        absurd (omega arith)
    read_loop_ends (suc fuel) m ce buf done rooted named v below behind enough right =
        let blk = (off + done) / k_block_size in
        elim (dec_lt (off + done) (last * k_block_size)) [
          | yes more ↦
              let within = off + done - blk * k_block_size in
              let want = min (k_block_size - within) (len - done) in
              let (d, block, e, same, v') =
                fetch_block-EndsAt env path root src last m.store blk backs apart (omega arith) v in
              let next = after_block F env (record m { store = d }) path ce blk in
              let reached : (off + (done + want)) / k_block_size ≡ blk + 1 = omega arith in
              let (m', buf', ends, whole) =
                read_loop_ends fuel next.0 next.1 (memcpy buf done block within want) (done + want)
                  rooted named (rw reached v') (omega arith) behind (omega arith)
                  (memcpy_right src buf block off done blk within want (omega arith) (omega arith)
                    right same) in
              (
                m',
                buf',
                read_loop_step F env path len off fuel m ce buf done d block (omega arith)
                      (rw (rooted, named) e)
                    ∙ ends,
                whole,
              )
          | no end ↦
              let at_end : blk ≡ last = omega arith in
              let all : done ≡ last * k_block_size - off = omega arith in
              let failed = fetch_block_end env path root src last m.store backs (rw at_end at v) in
              (
                record m { store = m.store },
                buf,
                subst
                    (λ n.
                      read_loop F env path len off (suc fuel) m ce buf done
                      ≡ returned (m, (if n == 0 then negsuc 0 else pos n), buf))
                    all
                    (read_loop_fails fuel m ce buf done m.store (omega arith)
                      (rw (at_end, rooted, named) failed)),
                λ i lt. right i (omega arith),
              )
        ]

    -- `CacheManager::read` of a range that begins within the file or at its end and goes on
    -- behind it: it returns how many bytes are left of the file, with those bytes in the buffer,
    -- and -1 where none is left. The backend delivers the blocks of the file whole and right and
    -- no bytes behind its end, the entry of the path is not evicted and has the hash of the path,
    -- the cache root is there, no file has the name of a shard directory, the system refuses
    -- nothing and cuts no write short; what the store has of the file is right, has no gap before
    -- the block where the read begins and nothing behind the file; and the file of the path below
    -- the root is not there, neither it nor a directory above it has the name of a part of the
    -- object, and it has not that of a shard directory.
    pub read-EndsAt :
        (m : Manager F.Carrier) (buf : Bytes)
        → IsOpen env m path
        → m.root ≡ root
        → EndsAt env path root src last m.store (off / k_block_size)
        → off ≤ last * k_block_size
        → last * k_block_size < off + len
        → let n = last * k_block_size - off in
          (m' : Manager F.Carrier) × (buf' : Bytes) × (read F env path len off m buf
            ≡ returned (m', (if n == 0 then negsuc 0 else pos n), buf'))
          × Agree n buf' (λ i. src (off + i))
    unfolding read
    read-EndsAt m buf v rooted ends below behind =
        let e = entry env m path in
        let (same_store, same_root) = entry_keeps env m path in
        let begin : off + 0 ≡ off = omega arith in
        rw v.present (
          read_loop_ends len e.0 e.1 buf 0 (same_root ∙ rooted) v.named
            (rw (same_store, begin) ends) (omega arith) behind (omega arith)
            (λ i lt. absurd (omega arith)))
