-- ===== src/Manager/ReadLoop.antt =====
-- The loop of `CacheManager::read`, where its blocks are fetched.
use cache_system_with_fuse.Double.{Double}
use cache_system_with_fuse.Files.{Disk}
use cache_system_with_fuse.Manager.{
  Env, Manager, CacheEntry, k_block_size, entry, fetch_block, after_block,
}
use cache_system_with_fuse.Manager.Reading.{read_loop, read}
use cache_system_with_fuse.Base.{
  ℕ, zero, suc, ◌+◌, ◌-◌, ◌*◌, ◌/◌, ◌≤◌, ◌<◌, min, ◌≡◌, ap, subst, ◌∙◌, false, some, arith, dec_lt,
  pos, returned, Text, Bytes, memcpy, Agree,
}

-- A buffer that gets a piece of a block: the bytes before stay, the new ones are those of the file.
pub memcpy_right :
    (src buf block : Bytes) (off done blk within want : ℕ)
    → off + done ≡ blk * k_block_size + within
    → within + want ≤ k_block_size
    → Agree done buf (λ i. src (off + i))
    → Agree k_block_size block (λ i. src (blk * k_block_size + i))
    → Agree (done + want) (memcpy buf done block within want) (λ i. src (off + i))
unfolding memcpy
memcpy_right src buf block off done blk within want place fits before right i lt =
    elim (dec_lt i done) [
      | yes old ↦ ground (arith, before i old)
      | no new ↦
          let at : blk * k_block_size + (within + (i - done)) ≡ off + i = omega arith in
          ground (arith, right (within + (i - done)) (omega arith), ap src at)
    ]

module _ (F : Double) (env : Env) (path : Text) (len off : ℕ) where
  read_loop_end :
      (fuel : ℕ) (m : Manager F.Carrier) (ce : CacheEntry) (buf : Bytes) (done : ℕ)
      → len ≤ done
      → read_loop F env path len off fuel m ce buf done ≡ returned (m, pos done, buf)
  unfolding read_loop
  read_loop_end zero m ce buf done h = ground arith
  read_loop_end (suc fuel) m ce buf done h = ground arith

  pub read_loop_step :
      (fuel : ℕ) (m : Manager F.Carrier) (ce : CacheEntry) (buf : Bytes) (done : ℕ) (d : Disk)
      (block : Bytes)
      → done < len
      → let blk = (off + done) / k_block_size in
        let within = off + done - blk * k_block_size in
        let want = min (k_block_size - within) (len - done) in
        fetch_block env m.store m.root path ce.hash_hex blk ≡ (d, some block)
        → let next = after_block F env (record m { store = d }) path ce blk in
          read_loop F env path len off (suc fuel) m ce buf done
          ≡ read_loop F env path len off fuel next.0 next.1
              (memcpy buf done block within want)
              (done + want)
  unfolding read_loop
  read_loop_step fuel m ce buf done d block lt e = ground (arith, lt, e)

module _ (F : Double) (env : Env) (path : Text) (len off : ℕ) (src : Bytes) where
  -- The manager, the entry and the next block of a loop whose blocks in the range are fetched.
  abbrev pub Yields : (Manager F.Carrier → CacheEntry → ℕ → Type 0) → Type 0
  Yields Inv =
      (m : Manager F.Carrier) (ce : CacheEntry) (blk : ℕ)
      → 0 < len
      → off / k_block_size ≤ blk
      → blk * k_block_size < off + len
      → Inv m ce blk
      → (d : Disk) × (block : Bytes) × (fetch_block env m.store m.root path ce.hash_hex blk
          ≡ (d, some block))
        × Agree k_block_size block (λ i. src (blk * k_block_size + i))
        × let next = after_block F env (record m { store = d }) path ce blk in
          Inv next.0 next.1 (blk + 1)

  module _ (Inv : Manager F.Carrier → CacheEntry → ℕ → Type 0)
      (weaken : (m : Manager F.Carrier) (ce : CacheEntry) (n k : ℕ)
        → k ≤ n
        → Inv m ce n
        → Inv m ce k)
      (yields : Yields Inv) where
    -- The loop ends within `len` rounds, fills the buffer and returns the length that was asked
    -- for.
    read_loop_right :
        (fuel : ℕ) (m : Manager F.Carrier) (ce : CacheEntry) (buf : Bytes) (done : ℕ)
        → Inv m ce ((off + done) / k_block_size)
        → done ≤ len
        → len ≤ done + fuel
        → Agree done buf (λ i. src (off + i))
        → (m' : Manager F.Carrier) × (buf' : Bytes) × (read_loop F env path len off fuel m ce buf
              done
            ≡ returned (m', pos len, buf'))
          × Agree len buf' (λ i. src (off + i))
          × ((ce' : CacheEntry) × Inv m' ce' ((off + len) / k_block_size))
    read_loop_right zero m ce buf done v start enough right =
        let all : done ≡ len = omega arith in
        (
          m,
          buf,
          read_loop_end F env path len off zero m ce buf done (omega arith)
              ∙ ap (λ n. returned (m, pos n, buf)) all,
          λ i lt. right i (omega arith),
          (ce, subst (λ n. Inv m ce ((off + n) / k_block_size)) all v),
        )
    read_loop_right (suc fuel) m ce buf done v start enough right = elim (dec_lt done len) [
      | yes more ↦
          let blk = (off + done) / k_block_size in
          let within = off + done - blk * k_block_size in
          let want = min (k_block_size - within) (len - done) in
          let (d, block, e, same, next_ready) =
            yields m ce blk (omega arith) (omega arith) (omega arith) v in
          let next = after_block F env (record m { store = d }) path ce blk in
          let (m', buf', ends, whole, last) =
            read_loop_right fuel next.0 next.1 (memcpy buf done block within want) (done + want)
              (weaken next.0 next.1 (blk + 1) ((off + (done + want)) / k_block_size) (omega arith)
                next_ready)
              (omega arith) (omega arith)
              (memcpy_right src buf block off done blk within want (omega arith) (omega arith) right
                same) in
          (
            m',
            buf',
            read_loop_step F env path len off fuel m ce buf done d block more e ∙ ends,
            whole,
            last,
          )
      | no end ↦
          let all : done ≡ len = omega arith in
          (
            m,
            buf,
            read_loop_end F env path len off (suc fuel) m ce buf done (omega arith)
                ∙ ap (λ n. returned (m, pos n, buf)) all,
            λ i lt. right i (omega arith),
            (ce, subst (λ n. Inv m ce ((off + n) / k_block_size)) all v),
          )
    ]

    -- `CacheManager::read` of an entry that is not evicted, where the loop's blocks are fetched.
    pub read_loop-read :
        (m : Manager F.Carrier) (buf : Bytes)
        → (entry env m path).1.evicted ≡ false
        → Inv (entry env m path).0 (entry env m path).1 (off / k_block_size)
        → (m' : Manager F.Carrier) × (buf' : Bytes) × (read F env path len off m buf
            ≡ returned (m', pos len, buf'))
          × Agree len buf' (λ i. src (off + i))
          × ((ce' : CacheEntry) × Inv m' ce' ((off + len) / k_block_size))
    unfolding read
    read_loop-read m buf present v =
        let e = entry env m path in
        let start : off + 0 ≡ off = omega arith in
        rw present (
          read_loop_right len e.0 e.1 buf 0 (rw start v) (omega arith) (omega arith)
            (λ i lt. elim lt [ ]))
