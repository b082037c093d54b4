-- ===== src/Fuse/Attributes.antt =====
-- fuse/fuse.cc: what the handlers say of files and directories.
pub mod Remote
use cache_system_with_fuse.Files.{squeeze}
use cache_system_with_fuse.Bitmap.{list_of}
use cache_system_with_fuse.Http.{HttpBackend, http_backend}
use cache_system_with_fuse.Manager.Api.{cache_has_valid_entry, cache_get_entry}
use cache_system_with_fuse.Fuse.{System, Mount, Stat, zero_stat, directory_mode, file_mode}
use cache_system_with_fuse.Fuse.Json.{insert_all, find_json_names, parse_info}
use cache_system_with_fuse.Fuse.Paths.{real_file_path}
use cache_system_with_fuse.Base.{
  ◌>>=◌, ℕ, zero, suc, ◌+◌, ◌-◌, ◌*◌, ◌/◌, ◌%◌, ◌^◌, ◌≤◌, ◌<◌, min, max, ◌≡◌, refl, sym, ap, subst,
  ◌∙◌, ◌≢◌, ◌↔◌, ◌⊎◌, inl, inr, ite, if_pos, if_neg, Bool, true, false, ◌&&◌, ◌||◌, not, Option,
  none, some, List, [], ◌∷◌, ◌++◌, map, arith, dec_lt, dec_le, ℕ_discrete, ltb, leb, ◌==◌,
  if◌then◌else◌, ltb→lt, lt→ltb, ==_iff, Bool-cases, Option-cases, ℤ, pos, negsuc, neg, is_negative,
  to_ℕ, is_count, Outcome, returned, thrown, faulted, exhausted, length, get_or, set, take, drop,
  replicate, length-append, length-set, length-replicate, get_or-set_self, get_or-set_ne,
  get_or-append_left, get_or_past, Text, codes, text_discrete, find, put, erase, find-put,
  find-erase, table_laws, keys, has, Table, Bytes, memcpy, Agree, bit_or_disjoint,
}

-- `backend->download`, where there is a backend.
unfoldable pub download_from :
    System → Option HttpBackend → Text → Bytes → ℕ → ℕ → Outcome (ℤ × Bytes)
download_from sys none path buf len off = faulted
download_from sys (some b) path buf len off =
    returned ((http_backend sys.curl).download b path buf len off)

-- `string(buf, buf + bytes)`.
abbrev pub text_of : ℤ → Bytes → Text
text_of bytes buf = list_of (to_ℕ bytes) 0 buf

-- A new buffer, of zeros.
abbrev pub zeros : Bytes
zeros i = 0

-- The names of a directory but for `.` and `..`; none where it cannot be opened.
unfoldable pub entries_of : Option (List Text) → List Text
entries_of none = []
entries_of (some []) = []
entries_of (some (name ∷ names)) =
    let rest = entries_of (some names) in
    ite (text_discrete name (codes ".")) rest
      (ite (text_discrete name (codes "..")) rest (name ∷ rest))

module _ {A : Type 0} (sys : System) where
  -- `getFileInfo`: `none` where it returns false.
  unfoldable pub get_file_info : Mount A → Text → Outcome (Option (ℕ × Bool))
  get_file_info s path = do
    (bytes, buf) ← download_from sys s.api_backend (codes "/info" ++ path) zeros 1024 0
    elim (is_negative bytes) [
      | true ↦ returned none
      | false ↦ do info ← parse_info (text_of bytes buf); returned (some info)
    ]

  -- The part of `getAttribute` for a local directory: `stat` leaves its buffer where it fails.
  unfoldable pub local_attribute : Mount A → Text → Mount A × ℤ × Stat
  local_attribute s path =
      let (s', rp) = real_file_path sys s path in
      elim (sys.stat s'.disk (squeeze rp)) [
        | none ↦ (s', negsuc 0, zero_stat)
        | some st ↦ (s', pos 0, st)
      ]

  -- The part for HTTP.
  unfoldable pub http_attribute : Mount A → Text → Outcome (Mount A × ℤ × Stat)
  http_attribute s path = elim (get_file_info s path) [
    | returned none ↦ returned (s, negsuc 0, zero_stat)
    | returned (some (size, is_directory)) ↦ returned (
      s,
      pos 0,
      (if is_directory
          then record { st_mode = directory_mode; st_nlink = 2; st_size = 0 }
          else record { st_mode = file_mode; st_nlink = 1; st_size = size }),
    )
    | thrown ↦ thrown
    | faulted ↦ faulted
    | exhausted ↦ exhausted
  ]

  -- The rest: the entry in the cache, if there is a valid one.
  unfoldable pub cached_attribute : Mount A → Text → Mount A × ℤ × Stat
  cached_attribute s path = elim (cache_get_entry s.cache path) [
    | none ↦ (s, negsuc 0, zero_stat)
    | some ce ↦ (
      s,
      pos 0,
      record { st_mode = file_mode; st_nlink = 1; st_size = (sys.as_c_cache_entry ce).size },
    )
  ]

  unfoldable pub remote_attribute : Mount A → Text → Outcome (Mount A × ℤ × Stat)
  remote_attribute s path = elim (cache_has_valid_entry s.cache path) [
    | true ↦ returned (cached_attribute s path)
    | false ↦ do
      (bytes, _) ← download_from sys s.data_backend path zeros 0 0
      returned (if is_negative bytes then (s, negsuc 0, zero_stat) else cached_attribute s path)
  ]

  unfoldable pub get_attribute : Mount A → Text → Outcome (Mount A × ℤ × Stat)
  get_attribute s path = elim (sys.is_literal path) [
    | true ↦ returned (s, pos 0, record { st_mode = directory_mode; st_nlink = 2; st_size = 0 })
    | false ↦ elim (length s.file_remote_directory == 0) [
      | false ↦ returned (local_attribute s path)
      | true ↦ elim s.http_mode [ true ↦ http_attribute s path | false ↦ remote_attribute s path ]
    ]
  ]

  unfoldable pub get_stats : Mount A → ℤ × Option Text
  get_stats s = elim (sys.statvfs s.disk s.cache_directory) [
    | none ↦ (negsuc 0, none)
    | some st ↦ (pos 0, some st)
  ]

  -- The names from the remote side.
  unfoldable pub remote_names : Mount A → Text → Outcome (List Text)
  remote_names s path = elim (length s.file_remote_directory == 0) [
    | false ↦ returned (insert_all (entries_of (sys.names_of s.disk s.file_remote_directory)) [])
    | true ↦ elim s.http_mode [
      | false ↦ returned []
      | true ↦ do
        (bytes, buf) ← download_from sys s.api_backend (codes "/list" ++ path) zeros (64 * 1024) 0
        if is_negative bytes || is_count bytes 0
            then returned []
            else find_json_names (text_of bytes buf) []
    ]
  ]

  -- `readDirectory`: the result, and the names that `filler` got.
  unfoldable pub read_directory : Mount A → Text → Outcome (ℤ × List Text)
  read_directory s path = elim (sys.is_literal path) [
    | false ↦ returned (negsuc 0, [])
    | true ↦ do
      names ← remote_names s path
      returned (
        pos 0,
        codes "."
            ∷ codes ".."
            ∷ insert_all (entries_of (sys.names_of s.disk s.cache_directory)) names,
      )
  ]
