-- ===== src/Fuse/Main.antt =====
-- fuse/fuse.cc: `main`.
pub mod Url
use cache_system_with_fuse.Double.{Double}
use cache_system_with_fuse.Files.{Disk, squeeze, make_dir}
use cache_system_with_fuse.BlockStore.{has_prefix}
use cache_system_with_fuse.Http.{create_backend}
use cache_system_with_fuse.Manager.{Manager}
use cache_system_with_fuse.Manager.Api.{cache_init, cache_cleanup}
use cache_system_with_fuse.Fuse.{System, Mount, Stat, env_of, cache_of}
use cache_system_with_fuse.Fuse.Paths.{
  make_directory, remove_directory, remove_file, open_file, create_file,
}
use cache_system_with_fuse.Fuse.Attributes.{get_attribute, get_stats, read_directory}
use cache_system_with_fuse.Fuse.Transfer.{read_file, write_file, release_files}
use cache_system_with_fuse.Fuse.Search.{find_text}
use cache_system_with_fuse.Base.{
  ◌>>=◌, ℕ, zero, suc, ◌+◌, ◌-◌, ◌*◌, ◌/◌, ◌%◌, ◌^◌, ◌≤◌, ◌<◌, min, max, ◌≡◌, refl, sym, ap, subst,
  ◌∙◌, ◌≢◌, ◌↔◌, ◌⊎◌, inl, inr, ite, if_pos, if_neg, Bool, true, false, ◌&&◌, ◌||◌, not, Option,
  none, some, List, [], ◌∷◌, ◌++◌, map, arith, dec_lt, dec_le, ℕ_discrete, ltb, leb, ◌==◌,
  if◌then◌else◌, ltb→lt, lt→ltb, ==_iff, Bool-cases, Option-cases, ℤ, pos, negsuc, neg, is_negative,
  to_ℕ, is_count, Outcome, returned, thrown, faulted, exhausted, length, get_or, set, take, drop,
  replicate, length-append, length-set, length-replicate, get_or-set_self, get_or-set_ne,
  get_or-append_left, get_or_past, Text, codes, text_discrete, find, put, erase, find-put,
  find-erase, table_laws, keys, has, Table, Bytes, memcpy, Agree, bit_or_disjoint,
}

-- What the URL says: a local directory, or the address of the API, or neither.
pub data Scheme : Type 0 where
  local : Text → Scheme
  remote : Text → Scheme
  other : Scheme

-- `url.substr(0, pos)`, where `from` is the text from `pos` on.
abbrev pub text_before : Text → Text → Text
text_before url from = take (length url - length from) url

unfoldable pub api_base : Text → Text
api_base url = elim (find_text (codes "/api/data") url) [
  | none ↦ url
  | some from ↦ text_before url from ++ codes "/api"
]

unfoldable pub scheme_of : Text → Scheme
scheme_of url =
    if has_prefix (codes "file://") url
    then local (drop 7 url)
    else if has_prefix (codes "http://") url || has_prefix (codes "https://") url
    then remote (api_base url)
    else other

-- The cache directory, made where it is not there; `none` is the early return.
unfoldable pub cache_root : System → Disk → Text → Disk × Option Text
cache_root sys d dir = elim (sys.realpath d dir) [
  | some p ↦ (d, some p)
  | none ↦
      let (d', done) = make_dir d (squeeze dir) in (d', if done then sys.realpath d' dir else none)
]

-- The handlers that `main` sets in `fuse_operations`.
pub record Handlers (A : Type 0) : Type 0 where
  pub getattr : Mount A → Text → Outcome (Mount A × ℤ × Stat)
  pub mkdir : Mount A → Text → Mount A × ℤ
  pub unlink : Mount A → Text → Mount A × ℤ
  pub rmdir : Mount A → Text → Mount A × ℤ
  pub open_op : Mount A → Text → Mount A × ℤ
  pub read : Mount A → Text → Bytes → ℕ → ℕ → Outcome (Mount A × ℤ × Bytes)
  pub write : Mount A → Text → Bytes → ℕ → ℕ → Outcome (Mount A × ℤ)
  pub statfs : Mount A → ℤ × Option Text
  pub release : Mount A → Outcome (Mount A × ℤ)
  pub readdir : Mount A → Text → Outcome (ℤ × List Text)
  pub create : Mount A → Text → Mount A × ℤ

module _ (F : Double) (sys : System) where
  -- The state when libfuse starts, after `cache_init` and the parsing of the URL.
  unfoldable pub mount : Disk → Option (Manager F.Carrier) → Text → Text → Mount F.Carrier
  mount d cache directory url =
      let data_backend = create_backend url in
      let none_yet : Mount F.Carrier = record {
        disk = d;
        cache = cache;
        g_backend = data_backend.1;
        data_backend = data_backend.0;
        api_backend = none;
        cache_directory = directory;
        file_remote_directory = [];
        http_mode = false;
      } in
      elim (scheme_of url) [
        | local dir ↦ record none_yet { file_remote_directory = dir }
        | remote base ↦ record none_yet { http_mode = true; api_backend = (create_backend base).0 }
        | other ↦ none_yet
      ]

  -- `operations`.
  unfoldable pub operations : Handlers F.Carrier
  operations = record {
    getattr = get_attribute sys;
    mkdir = make_directory sys;
    unlink = remove_file sys;
    rmdir = remove_directory sys;
    open_op = open_file sys;
    read = read_file F sys;
    write = write_file F sys;
    statfs = get_stats sys;
    release = release_files F sys;
    readdir = read_directory sys;
    create = create_file sys;
  }

  -- `fuse_main` on the arguments from the URL on.
  unfoldable pub serve_and_clean :
      (Handlers F.Carrier → Mount F.Carrier → List Text → Outcome (Mount F.Carrier × ℤ))
      → Mount F.Carrier
      → List Text
      → Outcome (Disk × ℤ)
  serve_and_clean fuse_main s args = do
    (s', ret) ← fuse_main operations s args
    (_, left) ← cache_cleanup F (env_of sys s') (cache_of s')
    returned (elim left as (λ o. Disk) [ none ↦ s'.disk | some d ↦ d ], ret)

  -- `main` from the result of `cache_init` on.
  unfoldable pub main_from :
      (Handlers F.Carrier → Mount F.Carrier → List Text → Outcome (Mount F.Carrier × ℤ))
      → Option (Manager F.Carrier) × ℤ
      → Disk
      → Text
      → List Text
      → Outcome (Disk × ℤ)
  main_from fuse_main (cache, rc) d directory args =
      let d' = elim cache as (λ c. Disk) [ none ↦ d | some m ↦ m.store ] in
      elim (is_count rc 0) [
        | false ↦ returned (d', negsuc 0)
        | true ↦ elim args [
          | [] ↦ thrown
          | url ∷ rest ↦ serve_and_clean fuse_main (mount d' cache directory url) (url ∷ rest)
        ]
      ]

  -- `main` on `argv` from `argv[1]` on. Without that, `mkdir` fails on the null pointer; without
  -- `argv[2]` the constructor of `url` throws.
  unfoldable pub main :
      (Handlers F.Carrier → Mount F.Carrier → List Text → Outcome (Mount F.Carrier × ℤ))
      → Disk
      → List Text
      → Outcome (Disk × ℤ)
  main fuse_main d [] = returned (d, negsuc 0)
  main fuse_main d (dir ∷ args) =
      let (d', resolved) = cache_root sys d dir in
      elim resolved [
        | none ↦ returned (d', negsuc 0)
        | some directory ↦ main_from fuse_main (cache_init d' directory) d' directory args
      ]
