-- ===== src/Manager/Held.antt =====
-- One round of `CacheManager::write` as it adds to the range that is there.
use cache_system_with_fuse.Files.{Disk}
use cache_system_with_fuse.BlockStore.Delete.{IsHash}
use cache_system_with_fuse.Files.Keeping.{Keeps}
use cache_system_with_fuse.BlockStore.Contents.{object_byte, KeepsByte}
use cache_system_with_fuse.BlockStore.Total.{IsHealthy}
use cache_system_with_fuse.Manager.{k_block_size}
use cache_system_with_fuse.Manager.Rounds.{
  Apart, Whole, Keeps-IsHealthy, Keeps-object_byte, store_block_stores,
}
use cache_system_with_fuse.Manager.Writing.{store_block}
use cache_system_with_fuse.Base.{
  ℕ, ◌+◌, ◌-◌, ◌*◌, ◌/◌, ◌≤◌, ◌<◌, min, ◌≡◌, refl, sym, ap, subst, ◌∙◌, ◌≢◌, ◌⊎◌, inl, inr, some,
  arith, dec_lt, ℕ_discrete, length, Text, put, Bytes,
}

-- The first `done` bytes of a buffer are in the object from `off` on, in blocks that are whole.
pub record HoldsUpTo (d : Disk) (root h : Text) (buf : Bytes) (off done : ℕ) : Type 0 where
  pub healthy : IsHealthy d root
  pub written : (i : ℕ) → i < done → object_byte d root h (off + i) ≡ some (buf i)
  pub filled :
      (blk : ℕ)
      → 0 < done
      → off / k_block_size ≤ blk
      → blk * k_block_size < off + done
      → Whole d root h blk

pub Keeps-HoldsUpTo :
    (d d' : Disk) (p root h : Text) (buf : Bytes) (off done : ℕ)
    → Apart p root h
    → Keeps d d' p
    → HoldsUpTo d root h buf off done
    → HoldsUpTo d' root h buf off done
Keeps-HoldsUpTo d d' p root h buf off done apart k v =
    let same : (o : ℕ) → object_byte d' root h o ≡ object_byte d root h o =
      λ o. Keeps-object_byte d d' p root h o apart k in
    record {
      healthy = Keeps-IsHealthy d d' p root h apart k v.healthy;
      written = λ i lt. same (off + i) ∙ v.written i lt;
      filled = λ blk some_bytes low high i lt.
          let (b, e) = v.filled blk some_bytes low high i lt in
          (b, same (blk * k_block_size + i) ∙ e);
    }

pub store_block_extends :
    (d : Disk) (root h : Text) (buf : Bytes) (off len done : ℕ)
    → IsHash h
    → done < len
    → HoldsUpTo d root h buf off done
    → let blk = (off + done) / k_block_size in
      let within = off + done - blk * k_block_size in
      let chunk = min (k_block_size - within) (len - done) in
      HoldsUpTo (store_block d root h buf done blk within chunk) root h buf off (done + chunk)
store_block_extends d root h buf off len done is_hash more v =
    let blk = (off + done) / k_block_size in
    let within = off + done - blk * k_block_size in
    let chunk = min (k_block_size - within) (len - done) in
    let (healthy, new_whole, placed, kept) =
      store_block_stores d root h v.healthy is_hash buf done blk within chunk in
    record {
      healthy = healthy;
      written = λ i lt. elim (dec_lt i done) [
        | yes old ↦ kept h (off + i) refl (inr (inl (omega arith))) (buf i) (v.written i old)
        | no new ↦
            let at : blk * k_block_size + (within + (i - done)) ≡ off + i = omega arith in
            let from : done + (within + (i - done) - within) ≡ i = omega arith in
            subst
              (λ o.
                object_byte (store_block d root h buf done blk within chunk) root h o
                ≡ some (buf i))
              at
              (placed (within + (i - done)) (omega arith) (omega arith) (omega arith)
                ∙ ap (λ t. some (buf t)) from)
      ];
      filled = λ b positive low high. elim (ℕ_discrete b blk) [
        | yes same ↦
            subst (λ t. Whole (store_block d root h buf done blk within chunk) root h t) (sym same)
              new_whole
        | no other ↦ λ i lt.
            let before : b < blk = omega arith in
            let reached : b * k_block_size < off + done = omega arith in
            let (byte, e) = v.filled b (omega arith) low reached i lt in
            (byte, kept h (b * k_block_size + i) refl (inr (inl (omega arith))) byte e)
      ];
    }

-- Another object, or an offset outside of the range.
abbrev pub Untouched : Text → Text → ℕ → ℕ → ℕ → Type 0
Untouched g h off len o = (g ≢ h) ⊎ ((o < off) ⊎ (off + len ≤ o))

Untouched-block :
    (g h : Text) (off len done o : ℕ)
    → done < len
    → Untouched g h off len o
    → let blk = (off + done) / k_block_size in
      let within = off + done - blk * k_block_size in
      let chunk = min (k_block_size - within) (len - done) in
      (g ≢ h) ⊎ ((o < blk * k_block_size + within) ⊎ (blk * k_block_size + within + chunk ≤ o))
Untouched-block g h off len done o more (inl other) = inl other
Untouched-block g h off len done o more (inr (inl before)) = inr (inl (omega arith))
Untouched-block g h off len done o more (inr (inr after)) = inr (inr (omega arith))

-- Every byte that the store has outside of the range stays.
abbrev pub KeepsRest : Disk → Disk → Text → Text → Text → ℕ → ℕ → Type 0
KeepsRest d d' root h dst off len =
    (g : Text) (o : ℕ)
    → length g ≡ length h
    → Apart dst root g
    → Untouched g h off len o
    → KeepsByte d d' root g o

pub store_block-KeepsRest :
    (d put : Disk) (root h dst : Text) (v : IsHealthy d root) (buf : Bytes) (off len done : ℕ)
    → IsHash h
    → done < len
    → let blk = (off + done) / k_block_size in
      let within = off + done - blk * k_block_size in
      let chunk = min (k_block_size - within) (len - done) in
      Keeps (store_block d root h buf done blk within chunk) put dst
      → KeepsRest d put root h dst off len
store_block-KeepsRest d put root h dst v buf off len done is_hash more k g o same apart out b e =
    let blk = (off + done) / k_block_size in
    let within = off + done - blk * k_block_size in
    let chunk = min (k_block_size - within) (len - done) in
    let (_, _, _, kept) = store_block_stores d root h v is_hash buf done blk within chunk in
    Keeps-object_byte (store_block d root h buf done blk within chunk) put dst root g o apart k
    ∙ kept g o same (Untouched-block g h off len done o more out) b e
