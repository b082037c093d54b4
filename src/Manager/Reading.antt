-- ===== src/Manager/Reading.antt =====
-- `CacheManager::read`. Each round advances by one byte at least, so `len` rounds are enough.
use cache_system_with_fuse.Double.{Double}
use cache_system_with_fuse.Manager.{
  Env, Manager, CacheEntry, k_block_size, entry, fetch_block, after_block,
}
use cache_system_with_fuse.Base.{
  ℕ, zero, suc, ◌+◌, ◌-◌, ◌*◌, ◌/◌, min, true, false, none, some, ltb, ◌==◌, if◌then◌else◌, ℤ, pos,
  negsuc, Outcome, returned, exhausted, Text, Bytes, memcpy,
}

-- ENOENT is 2.
abbrev pub enoent : ℤ
enoent = negsuc 1

module _ (F : Double) (env : Env) (path : Text) (len off : ℕ) where
  unfoldable pub read_loop :
      ℕ → Manager F.Carrier → CacheEntry → Bytes → ℕ → Outcome (Manager F.Carrier × ℤ × Bytes)
  read_loop zero m ce buf done = if ltb done len then exhausted else returned (m, pos done, buf)
  read_loop (suc fuel) m ce buf done = elim (ltb done len) [
    | false ↦ returned (m, pos done, buf)
    | true ↦
        let blk = (off + done) / k_block_size in
        let within = off + done - blk * k_block_size in
        let want = min (k_block_size - within) (len - done) in
        let r = fetch_block env m.store m.root path ce.hash_hex blk in
        let m' : Manager F.Carrier = record m { store = r.0 } in
        elim r.1 [
          | none ↦ returned (m', if done == 0 then negsuc 0 else pos done, buf)
          | some block ↦
              let next = after_block F env m' path ce blk in
              read_loop fuel next.0 next.1 (memcpy buf done block within want) (done + want)
        ]
  ]

  unfoldable pub read : Manager F.Carrier → Bytes → Outcome (Manager F.Carrier × ℤ × Bytes)
  unfolding read_loop
  read m buf =
      let e = entry env m path in
      if e.1.evicted then returned (e.0, enoent, buf) else read_loop len e.0 e.1 buf 0
