-- ===== src/Fuse/Transfer/Local.antt =====
-- fuse/fuse.cc: writing and reading a file of the local directory.
use cache_system_with_fuse.Double.{Double}
use cache_system_with_fuse.Files.{Disk, squeeze, parent, exists_dir, file_at, File, write_bytes}
use cache_system_with_fuse.Manager.{Manager, entry}
use cache_system_with_fuse.Manager.Reading.{enoent}
use cache_system_with_fuse.Manager.Api.{enodev, cache_store_file}
use cache_system_with_fuse.Files.Contents.{
  Accepts, Accepts-refuse, open_file_creates, open_file_opens, open_file-refuse, pwrite_writes,
  pwrite-refuse, pread_reads,
}
use cache_system_with_fuse.Manager.WriteLaws.{write_returns}
use cache_system_with_fuse.Fuse.{System, Mount, env_of, cache_of, with_cache}
use cache_system_with_fuse.Fuse.Paths.{slash_last, real_path, real_file_path}
use cache_system_with_fuse.Fuse.Paths.Collisions.{slash_last_twice}
use cache_system_with_fuse.Fuse.Transfer.{to_int, read_local, read_file, write_local, write_file}
use cache_system_with_fuse.Base.{
  ℕ, ◌<◌, ◌≡◌, refl, sym, ap, subst, ◌∙◌, ◌≢◌, ◌⊎◌, inl, inr, true, false, Option, none, some, [],
  ◌∷◌, ◌++◌, arith, Option-cases, ℤ, pos, returned, thrown, length, Text, Bytes, Agree,
}

pub length-slash_last : (s : Text) → length s ≢ 0 → length (slash_last s) ≢ 0
unfolding slash_last length
length-slash_last [] some_text = some_text
length-slash_last (c ∷ []) some_text = some_text
length-slash_last (c ∷ c' ∷ s) some_text = λ e. omega arith

-- A small count is an `int` as it is.
pub to_int-pos : (n : ℕ) → n < 2147483648 → to_int (pos n) ≡ pos n
unfolding to_int
to_int-pos n small = ground arith

module _ (F : Double) (sys : System) where
  -- `cache_store_file` returns or throws, whatever there is of a cache.
  store_returns :
      (s : Mount F.Carrier) (path : Text) (bytes : Bytes) (len off : ℕ)
      → let run = cache_store_file F (env_of sys s) (cache_of s) path bytes len off in
        ((c : Option (Manager F.Carrier)) × (rc : ℤ) × (run ≡ returned (c, rc))) ⊎ (run ≡ thrown)
  unfolding cache_store_file
  store_returns s path bytes len off = elim (Option-cases s.cache) [
    | inl e ↦ inl (none, enodev, ground (arith, e))
    | inr (m, e) ↦
        let m0 : Manager F.Carrier = record m { store = s.disk } in
        elim (write_returns F (env_of sys s) path bytes len off m0) [
          | inl (_, r) ↦ inl (some (entry (env_of sys s) m0 path).0, enoent, ground (arith, e, r))
          | inr (inl (_, m', r)) ↦ inl (some m', pos 0, ground (arith, e, r))
          | inr (inr (_, r, _)) ↦ inr (ground (arith, e, r))
        ]
  ]

-- Where a path of the local directory lies on the disk.
abbrev pub target : Text → Text → Text
target directory path = squeeze (slash_last directory ++ path)

module _ (F : Double) (sys : System) where
  pub real_file_path-local :
      (s : Mount F.Carrier) (path : Text)
      → sys.is_literal path ≡ false
      → real_file_path sys s path ≡ (
        record s { file_remote_directory = slash_last s.file_remote_directory },
        slash_last s.file_remote_directory ++ path,
      )
  unfolding real_file_path real_path
  real_file_path-local s path named = rw named refl

  write_local_writes :
      (s : Mount F.Carrier) (path : Text) (buf : Bytes) (sz off : ℕ)
      → sys.is_literal path ≡ false
      → Accepts s.disk
      → exists_dir s.disk (parent (target s.file_remote_directory path)) ≡ true
      → sz < 2147483648
      → (d : Disk) × (f : File) × (write_local F sys s path buf sz off ≡ (
        record s { file_remote_directory = slash_last s.file_remote_directory; disk = d },
        pos sz,
      ))
        × (file_at d (target s.file_remote_directory path) ≡ some (write_bytes f buf sz off))
        × Accepts d
  unfolding write_local
  write_local_writes s path buf sz off named a there small =
      let p = target s.file_remote_directory path in
      let (d1, f, o, at1) = open_file_creates s.disk p a there in
      let a1 = Accepts-refuse s.disk d1 (open_file-refuse s.disk d1 p true o) a in
      let (d2, w, at2) = pwrite_writes d1 p f buf sz off a1 at1 in
      let same = sym (ap (λ r. r.1.refuse) w) ∙ pwrite-refuse d1 p buf sz off in
      (
        d2,
        f,
        ground (arith, real_file_path-local s path named, o, w, to_int-pos sz small),
        at2,
        Accepts-refuse d1 d2 same a1,
      )

  read_local_reads :
      (s : Mount F.Carrier) (path : Text) (f : File) (src out : Bytes) (sz off : ℕ)
      → sys.is_literal path ≡ false
      → Accepts s.disk
      → file_at s.disk (target s.file_remote_directory path) ≡ some (write_bytes f src sz off)
      → sz < 2147483648
      → let s0 = record s { file_remote_directory = slash_last s.file_remote_directory } in
        (got : Bytes) × Agree sz got src
        × (((s' : Mount F.Carrier) × (read_local F sys s path out sz off
                ≡ returned (s', pos sz, got)))
            ⊎ ((cache_store_file F (env_of sys s0) (cache_of s0) path got sz off ≡ thrown)
                × (read_local F sys s path out sz off ≡ thrown)))
  unfolding read_local
  read_local_reads s path f src out sz off named a at_p small =
      let p = target s.file_remote_directory path in
      let s0 : Mount F.Carrier = record s {
        file_remote_directory = slash_last s.file_remote_directory;
      } in
      let o = open_file_opens s.disk p (write_bytes f src sz off) a at_p in
      let (got, r, same) = pread_reads s.disk p f src out sz off a at_p in
      let here = real_file_path-local s path named in
      (
        got,
        same,
        elim (store_returns F sys s0 path got sz off) [
          | inl (c, rc, stored) ↦
              inl (with_cache s0 c, ground (arith, here, o, r, stored, to_int-pos sz small))
          | inr e ↦ inr (e, ground (arith, here, o, r, e, to_int-pos sz small))
        ],
      )

  -- Over a local directory that is not empty text, on a disk that refuses nothing and cuts no
  -- write short, where the directory of the target is there, the target is no directory, the path
  -- is not the literal "/" and fewer than 2 ^ 31 bytes are written: `writeFile` returns their
  -- number, and `readFile` of the same range afterwards reads the same bytes: it returns their
  -- number with them, or the `cache_store_file` of what it read throws and `readFile` with it.
  pub write_file-read_file :
      (s : Mount F.Carrier) (path : Text) (buf out : Bytes) (sz off : ℕ)
      → sys.is_literal path ≡ false
      → length s.file_remote_directory ≢ 0
      → Accepts s.disk
      → exists_dir s.disk (parent (target s.file_remote_directory path)) ≡ true
      → exists_dir s.disk (target s.file_remote_directory path) ≡ false
      → sz < 2147483648
      → (s1 : Mount F.Carrier) × (got : Bytes) × (write_file F sys s path buf sz off
          ≡ returned (s1, pos sz))
        × Agree sz got buf
        × (((s2 : Mount F.Carrier) × (read_file F sys s1 path out sz off
                ≡ returned (s2, pos sz, got)))
            ⊎ ((cache_store_file F (env_of sys s1) (cache_of s1) path got sz off ≡ thrown)
                × (read_file F sys s1 path out sz off ≡ thrown)))
  unfolding write_file read_file
  write_file-read_file s path buf out sz off named is_local a there no_dir small =
      let dir = slash_last s.file_remote_directory in
      let (d, f, w, at_p, a') = write_local_writes s path buf sz off named a there small in
      let s1 : Mount F.Carrier = record s { file_remote_directory = dir; disk = d } in
      let again =
        subst (λ t. file_at d (squeeze (t ++ path)) ≡ some (write_bytes f buf sz off))
          (sym (slash_last_twice s.file_remote_directory)) at_p in
      let (got, same, outcome) = read_local_reads s1 path f buf out sz off named a' again small in
      let still_local = length-slash_last s.file_remote_directory is_local in
      (
        s1,
        got,
        ground (arith, is_local, w),
        same,
        elim outcome [
          | inl (s2, r) ↦ inl (s2, ground (arith, still_local, r))
          | inr (e, r) ↦ inr (e, ground (arith, still_local, r))
        ],
      )
