-- ===== src/Manager.antt =====
-- cache/cache_manager.cc: `CacheManager`, block by block. An operation is a function on the state
-- where no other runs beside it; its mutex sees to that for `read`, `write` and `flush_all`, not for
-- eviction and the jobs of the prefetch pool.

pub mod Reading
pub mod Writing
pub mod Eviction
pub mod Hash
pub mod Key
pub mod Fetch
pub mod Entries
pub mod ReadLoop
pub mod ReadLaws
pub mod Gap
pub mod EvictLaws
pub mod Api
pub mod WriteLaws
pub mod Rounds
pub mod Held
pub mod Written
pub mod RoundTrip
pub mod Prefetch
pub mod Growth
pub mod Serving
pub mod JobLaws
pub mod InFlight
pub mod Sequential
pub mod EndOfFile
pub mod Overlay
use Prim.Native.Nat.{bit_or}
use cache_system_with_fuse.Double.{Double}
use cache_system_with_fuse.Files.{
  File, Disk, failed, opened, slash, parent, open_file, pread, pwrite, create_directories,
}
use cache_system_with_fuse.Layout.{k_max_part_size}
use cache_system_with_fuse.BlockStore
use cache_system_with_fuse.Bitmap.{Bitmaps, mark_dirty_block, flush_bitmaps}
use cache_system_with_fuse.Lru.{Lru}
use cache_system_with_fuse.Lru
use cache_system_with_fuse.Base.{
  ℕ, zero, suc, ◌+◌, ◌-◌, ◌*◌, ◌/◌, ◌%◌, ◌^◌, ◌≤◌, ◌<◌, min, max, ◌≡◌, refl, sym, ap, subst, ◌∙◌,
  ◌≢◌, ◌↔◌, ◌⊎◌, inl, inr, ite, if_pos, if_neg, Bool, true, false, ◌&&◌, ◌||◌, not, Option, none,
  some, List, [], ◌∷◌, ◌++◌, map, arith, dec_lt, dec_le, ℕ_discrete, ltb, leb, ◌==◌, if◌then◌else◌,
  ltb→lt, lt→ltb, ==_iff, Bool-cases, Option-cases, ℤ, pos, negsuc, neg, is_negative, to_ℕ,
  is_count, length, get_or, set, take, drop, replicate, length-append, length-set, length-replicate,
  get_or-set_self, get_or-set_ne, get_or-append_left, get_or_past, Text, codes, text_discrete, find,
  put, erase, find-put, find-erase, table_laws, keys, has, Table, Bytes, memcpy, Agree,
  bit_or_disjoint,
}

-- `kBlockSize`, `kCacheBlocksCapacity` and `PREFETCH_WINDOW`.
abbrev pub k_block_size : ℕ
k_block_size = 64 * 1024

abbrev pub k_cache_blocks_capacity : ℕ
k_cache_blocks_capacity = 200_000

abbrev pub prefetch_window : ℕ
prefetch_window = 4

abbrev pub size_max : ℕ
size_max = 2 ^ 64 - 1

-- A digit of `std::hex`, and a number in `k` such digits, filled with zeros.
unfoldable pub hex_digit : ℕ → ℕ
hex_digit d = if ltb d 10 then 48 + d else 87 + d

unfoldable pub hex_digits : ℕ → ℕ → Text
hex_digits zero n = []
hex_digits (suc k) n = hex_digits k (n / 16) ++ hex_digit (n % 16) ∷ []

pub record CacheEntry : Type 0 where
  pub path : Text
  pub hash_hex : Text
  pub last_block : ℕ
  pub evicted : Bool

-- What the program does not decide: `std::hash` (a `size_t`, cut to 2 ^ 64 where it is used), the address of the entry of a path
-- and of the copy in a prefetch job, the backend of `backend_read_range` (result and buffer), and
-- what the stack holds where a block buffer is placed.
pub record Env : Type 0 where
  pub hash : Text → ℕ
  pub address : Text → ℕ
  pub job_address : Text → ℕ
  pub remote : Text → Bytes → ℕ → ℕ → ℤ × Bytes
  pub stack : ℕ → Bytes

-- A `size_t` has at most 16 digits, so `std::setw(16)` gives just as many.
unfoldable pub hash_hex : Env → Text → Text
hash_hex env s = hex_digits 16 (env.hash s % 2 ^ 64)

-- `prefetches` is the queue of the pool: the entry that a job copied, and its first block.
pub record Manager (A : Type 0) : Type 0 where
  pub root : Text
  pub store : Disk
  pub meta : Bitmaps
  pub lru : Lru A
  pub prefetches : List (CacheEntry × ℕ)
  pub entries : Table Text CacheEntry

-- `fs::path(root_) / fs::path(path[0] == '/' ? path.substr(1) : path)`.
abbrev pub starts_with_slash : Text → Bool
starts_with_slash [] = false
starts_with_slash (c ∷ s) = c == slash

unfoldable pub ends_with_slash : Text → Bool
ends_with_slash [] = false
ends_with_slash (c ∷ []) = c == slash
ends_with_slash (c ∷ c' ∷ s) = ends_with_slash (c' ∷ s)

unfoldable pub join_path : Text → Text → Text
join_path a b =
    if starts_with_slash b
    then b
    else if length a == 0 || ends_with_slash a
    then a ++ b
    else a ++ slash ∷ b

unfoldable pub local_path : Text → Text → Text
local_path root path = join_path root (if starts_with_slash path then drop 1 path else path)

-- `reinterpret_cast<std::uintptr_t>(&ce)<<32 | blk`.
unfoldable pub block_key : ℕ → ℕ → ℕ
block_key address blk = bit_or (address * 2 ^ 32 % 2 ^ 64) blk

abbrev pub not_positive : ℤ → Bool
not_positive (pos zero) = true
not_positive (pos (suc n)) = false
not_positive (negsuc n) = true

module _ {A : Type 0} where
  unfoldable pub init_manager : Disk → Text → Manager A
  init_manager disk root = record {
    root = root;
    store = disk;
    meta = [];
    lru = Lru.init k_cache_blocks_capacity;
    prefetches = [];
    entries = [];
  }

  -- `entry`: the entry of a path, which is added where there is none.
  unfoldable pub entry : Env → Manager A → Text → Manager A × CacheEntry
  entry env m path = elim (find text_discrete path m.entries) [
    | some ce ↦ (m, ce)
    | none ↦
        let ce : CacheEntry = record {
          path = path;
          hash_hex = hash_hex env path;
          last_block = size_max;
          evicted = false;
        } in
        (record m { entries = put text_discrete path ce m.entries }, ce)
  ]

  unfoldable pub has_valid_entry : Manager A → Text → Bool
  has_valid_entry m path = elim (find text_discrete path m.entries) [
    | none ↦ false
    | some ce ↦ not ce.evicted
  ]

  unfoldable pub get_entry : Manager A → Text → Option CacheEntry
  get_entry m path = elim (find text_discrete path m.entries) [
    | none ↦ none
    | some ce ↦ if not ce.evicted then some ce else none
  ]

-- The `if (got <= 0)` of `read`: the block from the file under the root.
unfoldable pub read_local : Disk → Text → Text → ℤ × Bytes → ℕ → ℤ × Bytes
read_local d root path got blk_off =
    let src = local_path root path in
    elim (open_file d src false) [
      | failed e ↦ got
      | opened d' ↦ pread d' src got.1 k_block_size blk_off
    ]

-- What is in the block buffer before the backend is asked, and after.
unfoldable pub fetch_remote : Env → Disk → Text → Text → Bytes → ℕ → ℤ × Bytes
fetch_remote env d root path block blk_off =
    let got = env.remote path block k_block_size blk_off in
    if not_positive got.0 then read_local d root path got blk_off else got

-- The first half of a round of `read`: the block from the store, or from the backend (then it is
-- stored); `none` is the early return.
unfoldable pub fetch_block : Env → Disk → Text → Text → Text → ℕ → Disk × Option Bytes
fetch_block env d root path hash blk =
    let blk_off = blk * k_block_size in
    let stored = BlockStore.read d root hash (env.stack blk) k_block_size blk_off in
    if is_count stored.0 k_block_size
    then (d, some stored.1)
    else (let got = fetch_remote env d root path stored.1 blk_off in
        if not_positive got.0
        then (d, none)
        else ((BlockStore.write d root hash got.1 (to_ℕ got.0) blk_off).0, some got.1))

module _ (F : Double) where
  -- The end of a round of `read`: the policy, the position of the entry, and the prefetch of the
  -- next blocks if the reads are sequential.
  unfoldable pub after_block :
      Env → Manager F.Carrier → Text → CacheEntry → ℕ → Manager F.Carrier × CacheEntry
  after_block env m path ce blk =
      let seq = not (ce.last_block == size_max) && blk == ce.last_block + 1 in
      let ce' : CacheEntry = record ce { last_block = blk } in
      (
        record m {
          lru = Lru.touch F m.lru (block_key (env.address path) blk) k_block_size F.one;
          prefetches = if seq then m.prefetches ++ (ce', blk + 1) ∷ [] else m.prefetches;
          entries = put text_discrete path ce' m.entries;
        },
        ce',
      )
