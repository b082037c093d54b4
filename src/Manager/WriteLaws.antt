-- ===== src/Manager/WriteLaws.antt =====
-- `CacheManager::write`: its rounds, and how it ends.
use cache_system_with_fuse.Double.{Double}
use cache_system_with_fuse.Files.{Disk, parent, open_file, create_directories, make_dirs, above}
use cache_system_with_fuse.Files.Contents.{Accepts, Opened-cases}
use cache_system_with_fuse.Files.Keeping.{
  Keeps, Keeps-refl, Keeps-trans, Passable, make_dirs-files, make_dirs-refuse, make_dirs-Keeps,
  open_file-Keeps, pwrite-Keeps,
}
use cache_system_with_fuse.Layout.{k_max_part_size}
use cache_system_with_fuse.Lru
use cache_system_with_fuse.Bitmap.{mark_dirty_block}
use cache_system_with_fuse.Manager.{
  Env, Manager, CacheEntry, k_block_size, entry, local_path, block_key,
}
use cache_system_with_fuse.Manager.Reading.{enoent}
use cache_system_with_fuse.Manager.Entries.{entry_keeps}
use cache_system_with_fuse.BlockStore.Transfer.{write-refuse}
use cache_system_with_fuse.Manager.Writing.{
  ensure_dst, merge_block, store_block, write_through, write_loop, write,
}
use cache_system_with_fuse.Base.{
  ℕ, zero, suc, ◌+◌, ◌-◌, ◌*◌, ◌/◌, ◌≤◌, ◌<◌, min, ◌≡◌, refl, ap, ◌∙◌, ◌⊎◌, inl, inr, Bool, true,
  false, none, some, arith, dec_lt, Bool-cases, Option-cases, pos, returned, thrown, length, Text,
  Bytes,
}

-- The file of the path is open, or its directories can be made.
abbrev pub Ready : Disk → Text → Bool → Type 0
Ready d dst has_dst = (has_dst ≡ true) ⊎ Passable d dst

pub ensure_dst-Keeps :
    (d : Disk) (dst : Text) (has_dst : Bool)
    → Accepts d
    → Ready d dst has_dst
    → (d' : Disk) × (ready : Bool) × (ensure_dst d dst has_dst ≡ some (d', ready))
      × Keeps d d' dst
      × Ready d' dst ready
unfolding ensure_dst create_directories above
ensure_dst-Keeps d dst true a way = (d, true, refl, Keeps-refl d dst, inl refl)
ensure_dst-Keeps d dst false a (inl e) = absurd (cc)
ensure_dst-Keeps d dst false a (inr free) =
    let (d', e, k) = make_dirs-Keeps (length (parent dst)) d (parent dst) dst a free in
    let same = make_dirs-files (length (parent dst)) d d' (parent dst) e in
    elim (Opened-cases (open_file d' dst true)) [
      | inl (n, f) ↦ (d', false, ground (arith, e, f), k, inr (λ n. rw same (free n)))
      | inr (d'', o) ↦ (
        d'',
        true,
        ground (arith, e, o),
        Keeps-trans d d' d'' dst k (open_file-Keeps d' d'' dst true o),
        inl refl,
      )
    ]

pub write_through-Ready :
    (d : Disk) (dst : Text) (has_dst : Bool) (buf : Bytes) (done chunk off : ℕ)
    → Ready d dst has_dst
    → Ready (write_through d dst has_dst buf done chunk off) dst has_dst
unfolding write_through
write_through-Ready d dst true buf done chunk off way = inl refl
write_through-Ready d dst false buf done chunk off way = way

pub write_through-Keeps :
    (d : Disk) (dst : Text) (has_dst : Bool) (buf : Bytes) (done chunk off : ℕ)
    → Keeps d (write_through d dst has_dst buf done chunk off) dst
unfolding write_through
write_through-Keeps d dst true buf done chunk off =
    pwrite-Keeps d dst (λ i. buf (done + i)) chunk (off + done)
write_through-Keeps d dst false buf done chunk off = Keeps-refl d dst

-- The system refuses as before, whatever becomes of the file.
ensure_dst-refuse :
    (d d' : Disk) (dst : Text) (has_dst ready : Bool)
    → ensure_dst d dst has_dst ≡ some (d', ready)
    → d'.refuse ≡ d.refuse
unfolding ensure_dst create_directories
ensure_dst-refuse d d' dst true ready e = ground (arith, e)
ensure_dst-refuse d d' dst false ready e =
    elim (Option-cases (make_dirs (length (parent dst)) d (parent dst))) [
      | inl p ↦ ground (arith, e, p)
      | inr (d1, p) ↦
          let kept = make_dirs-refuse (length (parent dst)) d d1 (parent dst) p in
          elim (Opened-cases (open_file d1 dst true)) [
            | inl (n, f) ↦ ground (arith, e, p, f, kept)
            | inr (d2, o) ↦ ground (arith, e, p, o, kept, (open_file-Keeps d1 d2 dst true o).refuse)
          ]
    ]

ensure_dst_throws :
    (d : Disk) (dst : Text) (has_dst : Bool)
    → ensure_dst d dst has_dst ≡ none
    → create_directories d (parent dst) ≡ none
unfolding ensure_dst
ensure_dst_throws d dst true e = ground (arith, e)
ensure_dst_throws d dst false e = elim (Option-cases (create_directories d (parent dst))) [
  | inl p ↦ p
  | inr (d1, p) ↦ elim (Opened-cases (open_file d1 dst true)) [
    | inl (n, f) ↦ ground (arith, e, p, f)
    | inr (d2, o) ↦ ground (arith, e, p, o)
  ]
]

store_block-refuse :
    (d : Disk) (root h : Text) (buf : Bytes) (done blk within chunk : ℕ)
    → (store_block d root h buf done blk within chunk).refuse ≡ d.refuse
unfolding store_block
store_block-refuse d root h buf done blk within chunk =
    write-refuse d root h (merge_block d root h buf done blk within chunk) k_block_size
      (blk * k_block_size)

-- On a disk where the system refuses as on `d`, the directories of the file cannot be made.
abbrev pub IsBlocked : Disk → Text → Type 0
IsBlocked d dst = (d' : Disk) × (d'.refuse ≡ d.refuse) × (create_directories d' (parent dst) ≡ none)

-- What is left of a block is not empty.
chunk_positive :
    (x len done : ℕ) → done < len → 0 < min (65536 - (x - x / 65536 * 65536)) (len - done)
chunk_positive x len done lt = omega arith

module _ (F : Double) (env : Env) (path : Text) (buf : Bytes) (len off : ℕ) where
  -- The manager after a round on block `blk`, with the disk that the round left.
  abbrev pub after_round : Manager F.Carrier → CacheEntry → ℕ → Disk → Manager F.Carrier
  after_round m ce blk d = record m {
    store = d;
    meta = mark_dirty_block m.meta ce.hash_hex (blk * k_block_size / k_max_part_size) blk;
    lru = Lru.touch F m.lru (block_key (env.address path) blk) k_block_size F.one;
  }

  pub write_loop_end :
      (fuel : ℕ) (m : Manager F.Carrier) (ce : CacheEntry) (has_dst : Bool) (done : ℕ)
      → len ≤ done
      → write_loop F env path buf len off fuel m ce has_dst done ≡ returned (m, pos done)
  unfolding write_loop
  write_loop_end zero m ce has_dst done h = ground arith
  write_loop_end (suc fuel) m ce has_dst done h = ground arith

  pub write_loop_step :
      (fuel : ℕ) (m : Manager F.Carrier) (ce : CacheEntry) (has_dst : Bool) (done : ℕ)
      → done < len
      → let blk = (off + done) / k_block_size in
        let within = off + done - blk * k_block_size in
        let chunk = min (k_block_size - within) (len - done) in
        let dst = local_path m.root path in
        let stored = store_block m.store m.root ce.hash_hex buf done blk within chunk in
        (d : Disk) (ready : Bool)
        → ensure_dst stored dst has_dst ≡ some (d, ready)
        → write_loop F env path buf len off (suc fuel) m ce has_dst done
          ≡ write_loop F env path buf len off fuel
              (after_round m ce blk (write_through d dst ready buf done chunk off))
              ce
              ready
              (done + chunk)
  unfolding write_loop
  write_loop_step fuel m ce has_dst done lt d ready e = ground (arith, lt, e)

  -- A round whose directories cannot be made throws.
  write_loop_throws :
      (fuel : ℕ) (m : Manager F.Carrier) (ce : CacheEntry) (has_dst : Bool) (done : ℕ)
      → done < len
      → let blk = (off + done) / k_block_size in
        let within = off + done - blk * k_block_size in
        let chunk = min (k_block_size - within) (len - done) in
        ensure_dst
            (store_block m.store m.root ce.hash_hex buf done blk within chunk)
            (local_path m.root path)
            has_dst
          ≡ none
        → write_loop F env path buf len off (suc fuel) m ce has_dst done ≡ thrown
  unfolding write_loop
  write_loop_throws fuel m ce has_dst done lt e = ground (arith, lt, e)

  write_loop_returns :
      (fuel : ℕ) (m : Manager F.Carrier) (ce : CacheEntry) (has_dst : Bool) (done : ℕ)
      → done ≤ len
      → len ≤ done + fuel
      → let run = write_loop F env path buf len off fuel m ce has_dst done in
        ((m' : Manager F.Carrier) × (run ≡ returned (m', pos len)))
        ⊎ ((run ≡ thrown) × IsBlocked m.store (local_path m.root path))
  write_loop_returns zero m ce has_dst done le enough =
      let all : done ≡ len = omega arith in
      inl
        (m, write_loop_end zero m ce has_dst done (omega arith) ∙ ap (λ n. returned (m, pos n)) all)
  write_loop_returns (suc fuel) m ce has_dst done le enough = elim (dec_lt done len) [
    | no ended ↦
        let all : done ≡ len = omega arith in
        inl (
          m,
          write_loop_end (suc fuel) m ce has_dst done (omega arith)
              ∙ ap (λ n. returned (m, pos n)) all,
        )
    | yes more ↦
        let blk = (off + done) / k_block_size in
        let within = off + done - blk * k_block_size in
        let chunk = min (k_block_size - within) (len - done) in
        let nonempty = chunk_positive (off + done) len done more in
        let dst = local_path m.root path in
        let stored = store_block m.store m.root ce.hash_hex buf done blk within chunk in
        let same = store_block-refuse m.store m.root ce.hash_hex buf done blk within chunk in
        elim (Option-cases (ensure_dst stored dst has_dst)) [
          | inl e ↦ inr (
            write_loop_throws fuel m ce has_dst done more e,
            (stored, same, ensure_dst_throws stored dst has_dst e),
          )
          | inr ((d, ready), e) ↦
              let put = write_through d dst ready buf done chunk off in
              let step = write_loop_step fuel m ce has_dst done more d ready e in
              elim (write_loop_returns fuel (after_round m ce blk put) ce ready (done + chunk)
                (omega arith) (omega arith)) [
                  | inl (m', r) ↦ inl (m', step ∙ r)
                  | inr (r, (d', refused, blocked)) ↦ inr (
                    step ∙ r,
                    (
                      d',
                      refused
                          ∙ ((write_through-Keeps d dst ready buf done chunk off).refuse
                              ∙ (ensure_dst-refuse stored d dst has_dst ready e ∙ same)),
                      blocked,
                    ),
                  )
                ]
        ]
  ]

pub write_returns :
    (F : Double) (env : Env) (path : Text) (buf : Bytes) (len off : ℕ) (m : Manager F.Carrier)
    → let e = entry env m path in
      let run = write F env path buf len off m in
      ((e.1.evicted ≡ true) × (run ≡ returned (e.0, enoent)))
      ⊎ (((e.1.evicted ≡ false) × (m' : Manager F.Carrier) × (run ≡ returned (m', pos len)))
          ⊎ ((e.1.evicted ≡ false) × (run ≡ thrown) × IsBlocked m.store (local_path m.root path)))
unfolding write
write_returns F env path buf len off m =
    let e = entry env m path in
    elim (Bool-cases e.1.evicted) [
      | inl gone ↦ inl (gone, ground (arith, gone))
      | inr kept ↦
          elim (write_loop_returns F env path buf len off len e.0 e.1 false 0 (omega arith)
            (omega arith)) [
              | inl (m', r) ↦ inr (inl (kept, m', ground (arith, kept, r)))
              | inr (r, (d, refused, blocked)) ↦
                  let (same_store, same_root) = entry_keeps env m path in
                  inr (
                    inr (
                      kept,
                      ground (arith, kept, r),
                      (d, refused ∙ ap (λ s. s.refuse) same_store, rw same_root at blocked),
                    ))
            ]
    ]
