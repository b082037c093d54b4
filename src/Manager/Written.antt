-- ===== src/Manager/Written.antt =====
-- What `CacheManager::write` leaves in the object of the path.
use cache_system_with_fuse.Double.{Double}
use cache_system_with_fuse.BlockStore.Delete.{IsHash}
use cache_system_with_fuse.Files.{Disk, file_at, above}
use cache_system_with_fuse.Files.Keeping.{Keeps-trans, Passable}
use cache_system_with_fuse.Layout.{data_part_path}
use cache_system_with_fuse.BlockStore.Total.{IsHealthy}
use cache_system_with_fuse.Manager.{
  Env, Manager, CacheEntry, k_block_size, entry, local_path, hash_hex,
}
use cache_system_with_fuse.Manager.Hash.{hash_hex-IsHash}
use cache_system_with_fuse.Manager.ReadLaws.{IsOpen}
use cache_system_with_fuse.Manager.Rounds.{Apart, store_block-file_at}
use cache_system_with_fuse.Manager.Writing.{store_block, write_through, write_loop, write}
use cache_system_with_fuse.Manager.WriteLaws.{
  Ready, ensure_dst-Keeps, write_through-Ready, write_through-Keeps, after_round, write_loop_end,
  write_loop_step,
}
use cache_system_with_fuse.Manager.Entries.{entry_keeps}
use cache_system_with_fuse.Manager.Held.{
  HoldsUpTo, Keeps-HoldsUpTo, store_block_extends, KeepsRest, store_block-KeepsRest,
}
use cache_system_with_fuse.Base.{
  ℕ, zero, suc, ◌+◌, ◌-◌, ◌*◌, ◌/◌, ◌≤◌, min, ◌≡◌, refl, sym, ap, subst, ◌∙◌, ◌≢◌, inl, inr, Bool,
  false, arith, dec_lt, pos, returned, Text, Bytes,
}

-- The loop leaves the root and the entries, the whole range in the object and the bytes elsewhere.
pub record Wrote {A : Type 0} (m m' : Manager A) (h dst : Text) (buf : Bytes) (len off : ℕ)
    : Type 0 where
  pub root : m'.root ≡ m.root
  pub entries : m'.entries ≡ m.entries
  pub held : HoldsUpTo m'.store m.root h buf off len
  pub rest : KeepsRest m.store m'.store m.root h dst off len
  pub others :
      (q : Text)
      → dst ≢ q
      → ((n : ℕ) → data_part_path m.root h n ≢ q)
      → file_at m'.store q ≡ file_at m.store q

Ready-same :
    (d d' : Disk) (dst : Text) (has_dst : Bool)
    → ((n : ℕ) → file_at d' (above (suc n) dst) ≡ file_at d (above (suc n) dst))
    → Ready d dst has_dst
    → Ready d' dst has_dst
Ready-same d d' dst has_dst same (inl opened) = inl opened
Ready-same d d' dst has_dst same (inr free) = inr (λ n. same n ∙ free n)

module _ (F : Double) (env : Env) (path : Text) (buf : Bytes) (len off : ℕ) where
  write_loop_holds :
      (fuel : ℕ) (m : Manager F.Carrier) (ce : CacheEntry) (has_dst : Bool) (done : ℕ)
      → IsHash ce.hash_hex
      → Apart (local_path m.root path) m.root ce.hash_hex
      → done ≤ len
      → len ≤ done + fuel
      → Ready m.store (local_path m.root path) has_dst
      → HoldsUpTo m.store m.root ce.hash_hex buf off done
      → (m' : Manager F.Carrier) × (write_loop F env path buf len off fuel m ce has_dst done
          ≡ returned (m', pos len))
        × Wrote m m' ce.hash_hex (local_path m.root path) buf len off
  write_loop_holds zero m ce has_dst done is_hash apart le enough way v =
      let all : done ≡ len = omega arith in
      (
        m,
        write_loop_end F env path buf len off zero m ce has_dst done (omega arith)
            ∙ ap (λ n. returned (m, pos n)) all,
        record {
          root = refl;
          entries = refl;
          held = subst (λ n. HoldsUpTo m.store m.root ce.hash_hex buf off n) all v;
          rest = λ g o same apart out b e. e;
          others = λ q ne other. refl;
        },
      )
  write_loop_holds (suc fuel) m ce has_dst done is_hash apart le enough way v =
      elim (dec_lt done len) [
        | no ended ↦
            let all : done ≡ len = omega arith in
            (
              m,
              write_loop_end F env path buf len off (suc fuel) m ce has_dst done (omega arith)
                  ∙ ap (λ n. returned (m, pos n)) all,
              record {
                root = refl;
                entries = refl;
                held = subst (λ n. HoldsUpTo m.store m.root ce.hash_hex buf off n) all v;
                rest = λ g o same apart out b e. e;
                others = λ q ne other. refl;
              },
            )
        | yes more ↦
            let blk = (off + done) / k_block_size in
            let within = off + done - blk * k_block_size in
            let chunk = min (k_block_size - within) (len - done) in
            let dst = local_path m.root path in
            let stored = store_block m.store m.root ce.hash_hex buf done blk within chunk in
            let now =
              store_block_extends m.store m.root ce.hash_hex buf off len done is_hash more v in
            let beside =
              store_block-file_at m.store m.root ce.hash_hex v.healthy is_hash buf done blk within
                chunk in
            let (d, ready, e, k, way') = ensure_dst-Keeps stored dst has_dst now.healthy.accepts (
              Ready-same m.store stored dst has_dst
                (λ n. beside (above (suc n) dst) (λ p s. apart.parts (suc n) p (sym s))) way) in
            let put = write_through d dst ready buf done chunk off in
            let through =
              Keeps-trans stored d put dst k (write_through-Keeps d dst ready buf done chunk off) in
            let (m', r, w) =
              write_loop_holds fuel (after_round F env path buf len off m ce blk put) ce ready
                (done + chunk) is_hash apart (omega arith) (omega arith)
                (write_through-Ready d dst ready buf done chunk off way')
                (Keeps-HoldsUpTo stored put dst m.root ce.hash_hex buf off (done + chunk) apart
                  through now) in
            (
              m',
              write_loop_step F env path buf len off fuel m ce has_dst done more d ready e ∙ r,
              record {
                root = w.root;
                entries = w.entries;
                held = w.held;
                rest = λ g o same apart out b e. w.rest g o same apart out b (
                    store_block-KeepsRest m.store put m.root ce.hash_hex dst v.healthy buf off len
                      done is_hash more through g o same apart out b e);
                others = λ q ne other. w.others q ne other ∙ (through.files q ne ∙ beside q other);
              },
            )
      ]

  -- On a healthy disk with nothing in the way of the file, a write through an open entry leaves the
  -- range in the object.
  pub write_holds :
      (m : Manager F.Carrier)
      → let e = entry env m path in
        e.1.evicted ≡ false
        → IsHash e.1.hash_hex
        → Apart (local_path m.root path) m.root e.1.hash_hex
        → IsHealthy m.store m.root
        → Passable m.store (local_path m.root path)
        → (m' : Manager F.Carrier) × (write F env path buf len off m ≡ returned (m', pos len))
          × Wrote e.0 m' e.1.hash_hex (local_path e.0.root path) buf len off
  unfolding write
  write_holds m present is_hash apart v free =
      let e = entry env m path in
      let (same_store, same_root) = entry_keeps env m path in
      rw present (
        write_loop_holds len e.0 e.1 false 0 is_hash (rw same_root apart) (omega arith)
          (omega arith) (inr (rw (same_store, same_root) free))
          (record {
            healthy = rw (same_store, same_root) v;
            written = λ i lt. absurd (omega arith);
            filled = λ blk some_bytes low high. absurd (omega arith);
          }))

  -- The same of the manager before and the hash of the path.
  pub write_stores :
      (m : Manager F.Carrier)
      → IsOpen env m path
      → Apart (local_path m.root path) m.root (hash_hex env path)
      → IsHealthy m.store m.root
      → Passable m.store (local_path m.root path)
      → (m' : Manager F.Carrier) × (write F env path buf len off m ≡ returned (m', pos len))
        × (m'.root ≡ m.root)
        × (m'.entries ≡ (entry env m path).0.entries)
        × HoldsUpTo m'.store m.root (hash_hex env path) buf off len
        × KeepsRest m.store m'.store m.root (hash_hex env path) (local_path m.root path) off len
        × ((q : Text)
            → local_path m.root path ≢ q
            → ((n : ℕ) → data_part_path m.root (hash_hex env path) n ≢ q)
            → file_at m'.store q ≡ file_at m.store q)
  write_stores m v apart healthy free =
      let (same_store, same_root) = entry_keeps env m path in
      let (m', wrote, w) =
        write_holds m v.present (rw v.named (hash_hex-IsHash env path)) (rw v.named apart) healthy
          free in
      (
        m',
        wrote,
        w.root ∙ same_root,
        w.entries,
        rw (v.named, same_root) at w.held,
        rw (v.named, same_root, same_store) at w.rest,
        rw (v.named, same_root, same_store) at w.others,
      )
