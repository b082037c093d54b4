-- ===== src/Tests/Mounted.antt =====
-- A file system over HTTP, one over a local directory, and the paths of both.
use cache_system_with_fuse.Files.{
  squeeze, parent, make_dir, has_text, has_child, has_slash, create_directories, make_dirs,
  open_file, mkdir, pwrite,
}
use cache_system_with_fuse.Layout.{shard_dir, data_part_path, to_string}
use cache_system_with_fuse.Http.{HttpBackend, Response, succeeded}
use cache_system_with_fuse.Http.Slices.{body}
use cache_system_with_fuse.Fuse.{System, Mount, file_mode, env_of, cache_of}
use cache_system_with_fuse.Fuse.Json.Server.{FileInfo, info_json, after_name}
use cache_system_with_fuse.Fuse.Json.Names.{lacks-Lacks}
use cache_system_with_fuse.Fuse.Attributes.{get_attribute}
use cache_system_with_fuse.Fuse.Attributes.Remote.{Begins, get_attribute-Answers}
use cache_system_with_fuse.Fuse.Paths.{
  real_path, slash_last, make_directory, remove_directory, real_cache_path,
}
use cache_system_with_fuse.Fuse.Paths.Collisions.{make_directory-remove_directory}
use cache_system_with_fuse.Fuse.Transfer.{write_file, read_file}
use cache_system_with_fuse.Fuse.Transfer.Local.{write_file-read_file}
use cache_system_with_fuse.Fuse.Main.{remote, scheme_of}
use cache_system_with_fuse.Fuse.Main.Url.{scheme_of-remote}
use cache_system_with_fuse.FuseOps.{FuseBufvec, FuseFs, Context}
use cache_system_with_fuse.Manager.{
  Manager, entry, init_manager, hash_hex, hex_digits, hex_digit, local_path, join_path,
  ends_with_slash,
}
use cache_system_with_fuse.Manager.Writing.{write, write_loop, ensure_dst, store_block}
use cache_system_with_fuse.Manager.Api.{cache_store_file}
use cache_system_with_fuse.BlockStore
use cache_system_with_fuse.Tests.{whole, disk, env, path, manager}
use cache_system_with_fuse.Base.{
  ◌⊎◌, thrown, ℕ, ◌+◌, ◌≡◌, refl, true, false, Option, none, some, [], ◌∷◌, arith, ℤ, pos, returned,
  length, get_or, Text, codes, text_discrete, find, put, Bytes, Agree,
}

abbrev pub info : FileInfo
info = record { name = codes "a b.txt"; size = 10_240; mtime = 1_700_000_000; is_directory = false }

abbrev pub folder : FileInfo
folder = record { name = codes "sub"; size = 0; mtime = 1_700_000_001; is_directory = true }

-- A response that brings a text in one chunk.
abbrev pub reply : Text → Response
reply s = record { ok = true; http_code = 200; chunks = ((λ i. get_or s i 0), length s) ∷ [] }

pub reply-Begins : (s : Text) → Begins (body (reply s).chunks) s
reply-Begins s i lt = ground (arith, lt)

abbrev pub api : HttpBackend
api = record { base_url = codes "http://h/api"; bearer_token = [] }

abbrev pub sys : System
sys = record {
  curl = λ request. some (reply (info_json info []));
  stat = λ d p. none;
  statvfs = λ d p. none;
  names_of = λ d p. none;
  realpath = λ d p. some p;
  is_literal = λ p. false;
  as_c_cache_entry = λ ce. record {
    path = 64;
    local_path = 0;
    size = 0;
    timestamp = pos 0;
    last_accessed = pos 0;
    dirty = false;
    next = 0;
  };
  hash = λ s. 77;
  address = λ s. 4096;
  job_address = λ s. 8192;
  stack = λ blk i. 0;
}

abbrev pub web : Mount ℕ
web = record {
  disk = disk;
  cache = some manager;
  g_backend = some api;
  data_backend = some api;
  api_backend = some api;
  cache_directory = codes "r/";
  file_remote_directory = [];
  http_mode = true;
}

get_attribute-Answers_example :
    get_attribute sys web path
    ≡ returned (web, pos 0, record { st_mode = file_mode; st_nlink = 1; st_size = 10_240 })
unfolding succeeded info_json after_name to_string
get_attribute-Answers_example =
    get_attribute-Answers sys web api path info refl refl refl refl
      (refl, (refl, (refl, (refl, (refl, (refl, (refl, tt)))))))
      (record {
        response = reply (info_json info []);
        given = refl;
        succeeds = refl;
        whole = omega arith;
        fits = omega arith;
        brings = reply-Begins (info_json info []);
      })

-- The same over the directory `d` of the disk.
abbrev pub home : Mount ℕ
home = record web {
  disk = record disk { dirs = codes "r" ∷ codes "d" ∷ [] };
  file_remote_directory = codes "d/";
  http_mode = false;
}

write_file-read_file_example :
    (s1 : Mount ℕ) × (got : Bytes) × (write_file whole sys home path (λ i. i + 1) 3 7
      ≡ returned (s1, pos 3))
    × Agree 3 got (λ i. i + 1)
    × (((s2 : Mount ℕ) × (read_file whole sys s1 path (λ i. 0) 3 7 ≡ returned (s2, pos 3, got)))
        ⊎ ((cache_store_file whole (env_of sys s1) (cache_of s1) path got 3 7 ≡ thrown)
            × (read_file whole sys s1 path (λ i. 0) 3 7 ≡ thrown)))
unfolding squeeze slash_last has_text parent text_discrete has_slash
write_file-read_file_example =
    write_file-read_file whole sys home path (λ i. i + 1) (λ i. 0) 3 7 refl (λ e. omega (arith, e))
      (λ c p. refl) refl refl (omega arith)

abbrev made : Mount ℕ
made = record web { disk = record disk { dirs = codes "r/f" ∷ codes "r" ∷ [] } }

make_directory-remove_directory_example :
    (s2 : Mount ℕ) × (remove_directory sys made path ≡ (s2, pos 0)) × (s2.disk ≡ disk)
unfolding make_directory real_cache_path real_path squeeze slash_last make_dir has_text parent
    has_slash has_child text_discrete find
make_directory-remove_directory_example =
    make_directory-remove_directory sys web made path refl refl refl refl refl

scheme_of-remote_example :
    scheme_of (codes "http://localhost:8080/api/data") ≡ remote (codes "http://localhost:8080/api")
scheme_of-remote_example =
    scheme_of-remote false (codes "localhost:8080") []
      (lacks-Lacks b'/' (codes "localhost:8080") refl)

-- A disk with a file in the way.
abbrev blocked : Manager ℕ
blocked =
    init_manager (record disk { files = (codes "r/f", record { size = 0; byte = λ i. 0 }) ∷ [] })
      (codes "r")

-- There the write throws.
write_throws : write whole env (codes "/f/g") (λ i. i) 10 0 blocked ≡ thrown
unfolding write write_loop ensure_dst create_directories make_dirs store_block BlockStore.write
    BlockStore.write_part BlockStore.ensure_shard_dirs entry find init_manager parent has_slash
    has_text text_discrete local_path join_path ends_with_slash open_file mkdir hash_hex hex_digits
    hex_digit data_part_path shard_dir to_string pwrite put
write_throws = refl

-- A handler that hands out two buffers, of which one is a descriptor.
abbrev vector : FuseBufvec
vector = record {
  address = 96;
  bufs = record { mem = 64; is_fd = false } ∷ record { mem = 80; is_fd = true } ∷ [];
}

abbrev hand_out : ℕ → ℕ → Text → ℕ → ℕ → ℕ → ℕ × ℤ × Option FuseBufvec
hand_out d w p size off fi = (w + 1, pos 0, some vector)

abbrev file_system : FuseFs ℕ ℕ ℕ
file_system = record {
  op = record {
    getattr = none;
    open_op = none;
    read = none;
    read_buf = some hand_out;
    release = none;
    mkdir = none;
    rmdir = none;
    link = none;
    unlink_op = none;
    rename = none;
  };
  user_data = 5;
  debug = true;
}

-- A copy that fills the buffer with sevens.
abbrev sevens : ℕ → Option FuseBufvec → Bytes → ℤ × Bytes
sevens size buf mem = (pos size, λ i. 7)

abbrev context : Context ℕ
context = record { private_data = 0; log = []; freed = 32 ∷ [] }
