-- ===== src/Trials.antt =====
-- test_cache.cc, test_eviction.cc and test_read.cc: trials of the C functions of the cache, with the
-- lines that they print. `sleep` is left out: nothing reads the time.
use cache_system_with_fuse.Double.{Double}
use cache_system_with_fuse.Files.{Disk, file_at, squeeze}
use cache_system_with_fuse.Bitmap.{list_of}
use cache_system_with_fuse.Manager.{Env, Manager}
use cache_system_with_fuse.Manager.Api.{
  cache_init, cache_store_file, cache_read_file, cache_apply_eviction, cache_has_valid_entry,
  cache_cleanup,
}
use cache_system_with_fuse.Fuse.Search.{take_while}
use cache_system_with_fuse.Base.{
  ◌>>=◌, ℕ, Bool, not, Option, none, some, List, [], ◌∷◌, ◌++◌, ◌==◌, if◌then◌else◌, ℤ, pos,
  is_negative, is_count, Outcome, returned, length, get_or, Text, codes, Bytes,
}

-- A literal as memory, with the NUL behind it.
abbrev pub literal : Text → Bytes
literal s i = get_or s i 0

abbrev pub backing_dir : Text
backing_dir = codes "./cache_dir"

-- The text that `<<` prints of a `char*`.
unfoldable pub printed : ℕ → Bytes → Text
printed room buf = take_while (λ c. not (c == 0)) (list_of room 0 buf)

abbrev pub yes_or_no : Bool → Text
yes_or_no b = if b then codes "yes" else codes "no"

-- The first line of a file, as `std::getline` reads it.
unfoldable pub first_line : Disk → Text → Text
first_line d p = elim (file_at d (squeeze p)) [
  | none ↦ codes "ERROR: backing store file not found at " ++ p
  | some f ↦
      codes "Backing file contents: \""
      ++ (take_while (λ c. not (c == 10)) (list_of f.size 0 f.byte) ++ codes "\"")
]

-- The disk under `g_cache`.
abbrev pub disk_of : {A : Type 0} → Disk → Option (Manager A) → Disk
disk_of d none = d
disk_of d (some m) = m.store

module _ (F : Double) (env : Env) where
  -- A trial after `cache_init`, of which it said a line: the file is stored, and the rest runs.
  unfoldable pub store_then :
      Option (Manager F.Carrier)
      → Text
      → Text
      → Text
      → (Option (Manager F.Carrier) → Outcome (List Text × ℤ))
      → Outcome (List Text × ℤ)
  store_then c said path content rest = do
    (c', stored) ← cache_store_file F env c path (literal content) (length content) 0
    if is_count stored 0
        then rest c'
        else returned (said ∷ codes "cache_store_file failed" ∷ [], pos 1)

  unfoldable pub test_cache : Disk → Outcome (List Text × ℤ)
  test_cache d =
      let (c, rc) = cache_init {A = F.Carrier} d backing_dir in
      let path = codes "/foo/bar.txt" in
      if is_count rc 0
      then (store_then c (codes "cache_init OK") path (codes "hello, cache\n") (λ c1. do
        _ ← cache_cleanup F env c1
        returned (
          codes "cache_init OK"
              ∷ codes "cache_store_file OK"
              ∷ (codes "cache_has_valid_entry: " ++ yes_or_no (cache_has_valid_entry c1 path))
              ∷ codes "cache_cleanup OK"
              ∷ [],
          pos 0,
        )))
      else returned (codes "cache_init failed" ∷ [], pos 1)

  unfoldable pub test_eviction : Disk → Outcome (List Text × ℤ)
  test_eviction d =
      let (c, rc) = cache_init {A = F.Carrier} d backing_dir in
      let path = codes "/foo/bar.txt" in
      if is_count rc 0
      then (store_then c (codes "cache_init OK (timeout=1s)") path (codes "evict-me!") (λ c1. do
        (c2, _) ← cache_apply_eviction F env c1
        _ ← cache_cleanup F env c2
        returned (
          codes "cache_init OK (timeout=1s)"
              ∷ codes "cache_store_file OK"
              ∷ (codes "  has_valid_entry? " ++ yes_or_no (cache_has_valid_entry c1 path))
              ∷ codes "  slept for 2s"
              ∷ codes "cache_apply_eviction done"
              ∷ (codes "  has_valid_entry? " ++ yes_or_no (cache_has_valid_entry c2 path))
              ∷ first_line (disk_of d c2) (backing_dir ++ path)
              ∷ codes "cache_cleanup OK"
              ∷ [],
          pos 0,
        )))
      else returned (codes "cache_init failed" ∷ [], pos 1)

  -- The line for a read of 63 bytes into a buffer of zeros.
  unfoldable pub read_line : Text → ℤ × Bytes → Text
  read_line what (n, buf) =
      if is_negative n
      then codes "cache_read_file (" ++ (what ++ codes ") failed")
      else codes "Read (" ++ (what ++ (codes "): \"" ++ (printed 64 buf ++ codes "\"")))

  unfoldable pub test_read : Disk → Outcome (List Text × ℤ)
  test_read d =
      let (c, rc) = cache_init {A = F.Carrier} d backing_dir in
      let path = codes "/foo.txt" in
      if is_count rc 0
      then (store_then c (codes "cache_init OK") path (codes "Hello, Cache Read!") (λ c1. do
        (c2, n, buf) ← cache_read_file F env c1 path (λ i. 0) 63 0
        (c3, _) ← cache_apply_eviction F env c2
        (c4, n2, buf2) ← cache_read_file F env c3 path (λ i. 0) 63 0
        _ ← cache_cleanup F env c4
        returned (
          codes "cache_init OK"
              ∷ codes "cache_store_file OK"
              ∷ read_line (codes "in-cache") (n, buf)
              ∷ codes "cache_apply_eviction done"
              ∷ read_line (codes "read-through") (n2, buf2)
              ∷ codes "cache_cleanup OK"
              ∷ [],
          pos 0,
        )))
      else returned (codes "cache_init failed" ∷ [], pos 1)
