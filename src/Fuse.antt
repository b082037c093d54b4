-- ===== src/Fuse.antt =====
-- fuse/fuse.cc: the file system that is mounted. Its global variables, and the handlers that libfuse
-- calls.
pub mod Search
pub mod Json
pub mod Paths
pub mod Attributes
pub mod Transfer
pub mod Main
use cache_system_with_fuse.Double.{Double}
use cache_system_with_fuse.Files.{Disk}
use cache_system_with_fuse.Http.{HttpBackend, Curl, backend_read_range}
use cache_system_with_fuse.Manager.{Env, Manager, CacheEntry}
use cache_system_with_fuse.Base.{
  ℕ, zero, suc, ◌+◌, ◌-◌, ◌*◌, ◌/◌, ◌%◌, ◌^◌, ◌≤◌, ◌<◌, min, max, ◌≡◌, refl, sym, ap, subst, ◌∙◌,
  ◌≢◌, ◌↔◌, ◌⊎◌, inl, inr, ite, if_pos, if_neg, Bool, true, false, ◌&&◌, ◌||◌, not, Option, none,
  some, List, [], ◌∷◌, ◌++◌, map, arith, dec_lt, dec_le, ℕ_discrete, ltb, leb, ◌==◌, if◌then◌else◌,
  ltb→lt, lt→ltb, ==_iff, Bool-cases, Option-cases, ℤ, pos, negsuc, neg, is_negative, to_ℕ,
  is_count, Outcome, returned, thrown, faulted, exhausted, length, get_or, set, take, drop,
  replicate, length-append, length-set, length-replicate, get_or-set_self, get_or-set_ne,
  get_or-append_left, get_or_past, Text, codes, text_discrete, find, put, erase, find-put,
  find-erase, table_laws, keys, has, Table, Bytes, memcpy, Agree, bit_or_disjoint,
}

-- `struct stat`, as far as the handlers fill it in themselves.
pub record Stat : Type 0 where
  pub st_mode : ℕ
  pub st_nlink : ℕ
  pub st_size : ℕ

abbrev pub zero_stat : Stat
zero_stat = record { st_mode = 0; st_nlink = 0; st_size = 0 }

-- `S_IFDIR | 0755` and `S_IFREG | 0644`.
abbrev pub directory_mode : ℕ
directory_mode = 0x4000 + 0x1ed

abbrev pub file_mode : ℕ
file_mode = 0x8000 + 0x1a4

-- `cache_entry` of the C header, with its pointers as addresses.
pub record CCacheEntry : Type 0 where
  pub path : ℕ
  pub local_path : ℕ
  pub size : ℕ
  pub timestamp : ℤ
  pub last_accessed : ℤ
  pub dirty : Bool
  pub next : ℕ

-- What the program calls beside libcurl and the files: `stat`, `statvfs` (its answer as a text), the
-- names that `readdir` yields, `realpath`, and what the manager takes from outside. `is_literal` says
-- of a path that libfuse hands over whether its pointer is that of the literal "/", and `as_c_cache_entry`
-- what stands in a `CacheEntry` where `cache_entry` has its size.
pub record System : Type 0 where
  pub curl : Curl
  pub stat : Disk → Text → Option Stat
  pub statvfs : Disk → Text → Option Text
  pub names_of : Disk → Text → Option (List Text)
  pub realpath : Disk → Text → Option Text
  pub is_literal : Text → Bool
  pub as_c_cache_entry : CacheEntry → CCacheEntry
  pub hash : Text → ℕ
  pub address : Text → ℕ
  pub job_address : Text → ℕ
  pub stack : ℕ → Bytes

-- The global variables of fuse.cc, `g_backend`, `g_cache` and the disk. The disk in `cache` is out of
-- date between calls of the cache: `disk` is the one there is.
pub record Mount (A : Type 0) : Type 0 where
  pub disk : Disk
  pub cache : Option (Manager A)
  pub g_backend : Option HttpBackend
  pub data_backend : Option HttpBackend
  pub api_backend : Option HttpBackend
  pub cache_directory : Text
  pub file_remote_directory : Text
  pub http_mode : Bool

module _ {A : Type 0} where
  -- The manager's surroundings: the backend it asks is `g_backend`.
  abbrev pub env_of : System → Mount A → Env
  env_of sys s = record {
    hash = sys.hash;
    address = sys.address;
    job_address = sys.job_address;
    remote = backend_read_range sys.curl s.g_backend;
    stack = sys.stack;
  }

  -- `g_cache` as a function of the cache finds it, and what is left when that returns.
  abbrev pub cache_of : Mount A → Option (Manager A)
  cache_of s = elim s.cache [ none ↦ none | some m ↦ some (record m { store = s.disk }) ]

  abbrev pub with_cache : Mount A → Option (Manager A) → Mount A
  with_cache s none = record s { cache = none }
  with_cache s (some m) = record s { cache = some m; disk = m.store }
