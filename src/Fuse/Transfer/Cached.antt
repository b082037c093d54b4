-- ===== src/Fuse/Transfer/Cached.antt =====
-- fuse/fuse.cc: what `readFile` of a local directory leaves in the cache.
use cache_system_with_fuse.Double.{Double}
use cache_system_with_fuse.Files.{Disk, File, Syscall, file_at, pread}
use cache_system_with_fuse.Files.Contents.{open_file_opens}
use cache_system_with_fuse.Files.Keeping.{Passable}
use cache_system_with_fuse.BlockStore.Total.{IsHealthy}
use cache_system_with_fuse.Manager.{Env, Manager, hash_hex, local_path}
use cache_system_with_fuse.Manager.Rounds.{Apart}
use cache_system_with_fuse.Manager.ReadLaws.{IsOpen}
use cache_system_with_fuse.Manager.RoundTrip.{cache_store_file-cache_read_file}
use cache_system_with_fuse.Manager.Api.{cache_read_file}
use cache_system_with_fuse.Fuse.{System, Mount, env_of, cache_of, with_cache}
use cache_system_with_fuse.Fuse.Paths.{slash_last}
use cache_system_with_fuse.Fuse.Transfer.{read_local, read_file}
use cache_system_with_fuse.Fuse.Transfer.Local.{
  target, length-slash_last, real_file_path-local, to_int-pos,
}
use cache_system_with_fuse.Manager.Entries.{entry-same}
use cache_system_with_fuse.Base.{
  ℕ, ◌+◌, ◌-◌, ◌<◌, min, ◌≡◌, refl, ap, subst, ◌∙◌, ◌≢◌, false, none, some, arith, pos, returned,
  length, Text, Bytes, memcpy, Agree,
}

pread_file :
    (d : Disk) (p : Text) (f : File) (buf : Bytes) (len off : ℕ)
    → d.refuse Syscall.sys_read p ≡ none
    → file_at d p ≡ some f
    → (got : Bytes) × (pread d p buf len off ≡ (pos (min len (f.size - off)), got))
      × Agree (min len (f.size - off)) got (λ i. f.byte (off + i))
unfolding pread memcpy
pread_file d p f buf len off may at_p = (
  memcpy buf 0 f.byte off (min len (f.size - off)),
  ground (arith, may, at_p),
  λ i lt. ground (arith, lt),
)

module _ (F : Double) (sys : System) where
  -- Over a local directory that is not empty text, for a path that is not the literal "/" and
  -- whose file is there, with a cache whose entry of the path is not evicted and has its hash, on
  -- a disk with the cache root, where no call is refused, no write cut short, no file has the
  -- name of a shard directory, no regular file is in the way of the directories above the path's
  -- file below the root, neither that file nor a directory above it has the name of a part of the
  -- object, the file has not that of a shard directory, and fewer than 2 ^ 31 bytes are asked
  -- for: `readFile` returns the bytes of the file in the range, up to its end, and
  -- `cache_read_file` of what it returned then gives the same bytes, whatever the backend
  -- answers.
  pub read_file-cache_read_file :
      (s : Mount F.Carrier) (m : Manager F.Carrier) (env' : Env) (path : Text) (f : File)
      (buf again : Bytes) (sz off : ℕ)
      → sys.is_literal path ≡ false
      → length s.file_remote_directory ≢ 0
      → s.cache ≡ some m
      → IsHealthy s.disk m.root
      → file_at s.disk (target s.file_remote_directory path) ≡ some f
      → IsOpen (env_of sys s) m path
      → Apart (local_path m.root path) m.root (hash_hex (env_of sys s) path)
      → Passable s.disk (local_path m.root path)
      → sz < 2147483648
      → let n = min sz (f.size - off) in
        (s' : Mount F.Carrier) × (m' : Manager F.Carrier) × (got got' : Bytes) × (read_file F sys s
            path buf sz off
          ≡ returned (s', pos n, got))
        × Agree n got (λ i. f.byte (off + i))
        × (cache_read_file F env' (cache_of s') path again n off ≡ returned (some m', pos n, got'))
        × Agree n got' (λ i. f.byte (off + i))
  unfolding read_file read_local
  read_file-cache_read_file s m env' path f buf again sz off named is_local cached v at_p opened
        apart free small =
      let p = target s.file_remote_directory path in
      let n = min sz (f.size - off) in
      let s0 : Mount F.Carrier = record s {
        file_remote_directory = slash_last s.file_remote_directory;
      } in
      let m0 : Manager F.Carrier = record m { store = s.disk } in
      let o = open_file_opens s.disk p f v.accepts at_p in
      let (got, r, same) = pread_file s.disk p f buf sz off (v.accepts Syscall.sys_read p) at_p in
      let there = entry-same (env_of sys s) m0 m path refl in
      let opened0 : IsOpen (env_of sys s) m0 path = record {
        present = ap (λ e. e.evicted) there ∙ opened.present;
        named = ap (λ e. e.hash_hex) there ∙ opened.named;
      } in
      let (m1, m2, got', stored, read_back, same') =
        cache_store_file-cache_read_file F (env_of sys s) env' path got again n off n 0 m0 opened0
          apart v free (omega arith) in
      let start : off + 0 ≡ off = omega arith in
      (
        with_cache s0 (some m1),
        m2,
        got,
        got',
        ground (
          arith,
          real_file_path-local F sys s path named,
          is_local,
          o,
          r,
          stored,
          to_int-pos n (omega arith),
          cached,
          length-slash_last s.file_remote_directory is_local,
        ),
        same,
        subst
            (λ t. cache_read_file F env' (some m1) path again n t ≡ returned (some m2, pos n, got'))
            start read_back,
        λ i lt. let place : 0 + i ≡ i = omega arith in same' i lt ∙ (ap got place ∙ same i lt),
      )
