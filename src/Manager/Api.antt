-- ===== src/Manager/Api.antt =====
-- The C functions of cache/cache_manager.cc. `none` is an empty `g_cache`; an exception of a method
-- leaves each function as it came.
use cache_system_with_fuse.Double.{Double}
use cache_system_with_fuse.Files.{Disk}
use cache_system_with_fuse.BlockStore
use cache_system_with_fuse.BlockStore.Contents.{object_byte}
use cache_system_with_fuse.BlockStore.Total.{IsHealthy}
use cache_system_with_fuse.Manager.{
  Env, Manager, CacheEntry, k_block_size, hash_hex, init_manager, entry, has_valid_entry, get_entry,
}
use cache_system_with_fuse.Manager.Reading.{read}
use cache_system_with_fuse.Manager.Writing.{write}
use cache_system_with_fuse.Manager.Eviction.{evict_until_gb, flush_all}
use cache_system_with_fuse.Manager.Fetch.{Serves, IsSound}
use cache_system_with_fuse.Manager.ReadLaws.{read_right}
use cache_system_with_fuse.Base.{
  ◌>>=◌, ltb, ◌^◌, ℕ, ◌+◌, ◌*◌, ◌/◌, ◌<◌, ◌≡◌, refl, sym, subst, ◌∙◌, Bool, false, Option, none,
  some, arith, if◌then◌else◌, ℤ, pos, negsuc, is_negative, Outcome, returned, Text, find, Bytes,
  Agree,
}

-- ENODEV is 19.
abbrev pub enodev : ℤ
enodev = negsuc 18

unfoldable pub cache_init : {A : Type 0} → Disk → Text → Option (Manager A) × ℤ
cache_init d root = (some (init_manager (BlockStore.init d root).0 root), pos 0)

unfoldable pub cache_has_valid_entry : {A : Type 0} → Option (Manager A) → Text → Bool
cache_has_valid_entry none path = false
cache_has_valid_entry (some m) path = has_valid_entry m path

unfoldable pub cache_get_entry : {A : Type 0} → Option (Manager A) → Text → Option CacheEntry
cache_get_entry none path = none
cache_get_entry (some m) path = get_entry m path

module _ (F : Double) (env : Env) where
  unfoldable pub cache_store_file :
      Option (Manager F.Carrier) → Text → Bytes → ℕ → ℕ → Outcome (Option (Manager F.Carrier) × ℤ)
  cache_store_file none path bytes len off = returned (none, enodev)
  cache_store_file (some m) path bytes len off = do
    (m', rc) ← write F env path bytes len off m
    returned (some m', if is_negative rc then rc else pos 0)

  unfoldable pub cache_read_file :
      Option (Manager F.Carrier)
      → Text
      → Bytes
      → ℕ
      → ℕ
      → Outcome (Option (Manager F.Carrier) × ℤ × Bytes)
  cache_read_file none path buf len off = returned (none, enodev, buf)
  cache_read_file (some m) path buf len off = do
    (m', rc, buf') ← read F env path len off m buf
    returned (some m', rc, buf')

  -- `over` is the test `used_gb() > gb`.
  unfoldable pub cache_evict_gb :
      (ℕ → Bool) → Option (Manager F.Carrier) → Outcome (Option (Manager F.Carrier) × ℤ)
  cache_evict_gb over none = returned (none, enodev)
  cache_evict_gb over (some m) = do m' ← evict_until_gb F env over m; returned (some m', pos 0)

  -- `bytes / 2 ^ 30 > 1.0`, which the conversion to `double` does not change.
  unfoldable pub cache_apply_eviction :
      Option (Manager F.Carrier) → Outcome (Option (Manager F.Carrier) × ℤ)
  unfolding cache_evict_gb
  cache_apply_eviction c = cache_evict_gb (λ used. ltb (2 ^ 30) used) c

  unfoldable pub cache_flush_all : Option (Manager F.Carrier) → Outcome (Option (Manager F.Carrier))
  cache_flush_all none = returned none
  cache_flush_all (some m) = do m' ← flush_all F env m; returned (some m')

  -- `g_cache.release()` gives the manager up without deleting it: what is left is the disk.
  unfoldable pub cache_cleanup :
      Option (Manager F.Carrier) → Outcome (Option (Manager F.Carrier) × Option Disk)
  cache_cleanup none = returned (none, none)
  cache_cleanup (some m) = do m' ← flush_all F env m; returned (none, some m'.store)

  read_returned :
      (path : Text) (len off : ℕ) (m m' : Manager F.Carrier) (buf buf' : Bytes) (rc : ℤ)
      → read F env path len off m buf ≡ returned (m', rc, buf')
      → cache_read_file (some m) path buf len off ≡ returned (some m', rc, buf')
  unfolding cache_read_file
  read_returned path len off m m' buf buf' rc e = rw (e, cache_read_file) refl

  -- After `cache_init` on a disk with the cache root, where no call is refused, no write is cut
  -- short, no file has the name of a shard directory and no byte of the path's object is there, a
  -- first `cache_read_file` that begins in the first block returns the whole length with the bytes
  -- of the file `src`, if the backend delivers whole, right blocks of it up to the end of the range
  -- whatever the buffer held.
  pub cache_read_file-cache_init :
      (d : Disk) (root path : Text) (src buf : Bytes) (len off : ℕ)
      → IsHealthy d root
      → ((o : ℕ) → object_byte d root (hash_hex env path) o ≡ none)
      → off < k_block_size
      → ((blk : ℕ) → blk * k_block_size < off + len → Serves env path src blk)
      → (m' : Manager F.Carrier) × (buf' : Bytes) × (cache_read_file
            (cache_init d root).0
            path
            buf
            len
            off
          ≡ returned (some m', pos len, buf'))
        × Agree len buf' (λ i. src (off + i))
  unfolding cache_read_file cache_init init_manager BlockStore.init entry find
  cache_read_file-cache_init d root path src buf len off v bare early serves =
      let m : Manager F.Carrier = init_manager d root in
      let there : (BlockStore.init d root).0 ≡ d = ground (arith, v.has_root) in
      let sound : IsSound d root (hash_hex env path) src (off / k_block_size * k_block_size) =
        record {
          healthy = v;
          coherent = λ o b e. absurd (none≢some (sym (bare o) ∙ e));
          filled = λ o lt. absurd (omega arith);
        } in
      let (m', buf', e, same) =
        read_right F env path len off src m buf (record { present = refl; named = refl }) sound
          serves in
      (
        m',
        buf',
        subst
            (λ d'.
              cache_read_file (some (init_manager d' root)) path buf len off
              ≡ returned (some m', pos len, buf'))
            (sym there) (read_returned path len off m m' buf buf' (pos len) e),
        same,
      )
    where
      none≢some : {b : ℕ} → ¬ (none ≡ some b)
      none≢some e = cc
