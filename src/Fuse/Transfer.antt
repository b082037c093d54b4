-- ===== src/Fuse/Transfer.antt =====
-- fuse/fuse.cc: `readFile`, `writeFile` and `releaseFiles`.
pub mod Local
pub mod Cached
use cache_system_with_fuse.Double.{Double}
use cache_system_with_fuse.Files.{Disk, failed, opened, squeeze, open_file, pread, pwrite}
use cache_system_with_fuse.Http.{http_backend}
use cache_system_with_fuse.Manager.Api.{cache_store_file, cache_apply_eviction}
use cache_system_with_fuse.Fuse.{System, Mount, env_of, cache_of, with_cache}
use cache_system_with_fuse.Fuse.Paths.{real_file_path}
use cache_system_with_fuse.Fuse.Attributes.{download_from}
use cache_system_with_fuse.Base.{
  ◌>>=◌, ℕ, zero, suc, ◌+◌, ◌-◌, ◌*◌, ◌/◌, ◌%◌, ◌^◌, ◌≤◌, ◌<◌, min, max, ◌≡◌, refl, sym, ap, subst,
  ◌∙◌, ◌≢◌, ◌↔◌, ◌⊎◌, inl, inr, ite, if_pos, if_neg, Bool, true, false, ◌&&◌, ◌||◌, not, Option,
  none, some, List, [], ◌∷◌, ◌++◌, map, arith, dec_lt, dec_le, ℕ_discrete, ltb, leb, ◌==◌,
  if◌then◌else◌, ltb→lt, lt→ltb, ==_iff, Bool-cases, Option-cases, ℤ, pos, negsuc, neg, is_negative,
  to_ℕ, is_count, Outcome, returned, thrown, faulted, exhausted, length, get_or, set, take, drop,
  replicate, length-append, length-set, length-replicate, get_or-set_self, get_or-set_ne,
  get_or-append_left, get_or_past, Text, codes, text_discrete, find, put, erase, find-put,
  find-erase, table_laws, keys, has, Table, Bytes, memcpy, Agree, bit_or_disjoint,
}

-- `(int)numBytes`: 32 bits.
unfoldable pub to_int : ℤ → ℤ
to_int (pos n) = let r = n % 2 ^ 32 in if ltb r (2 ^ 31) then pos r else negsuc (2 ^ 32 - 1 - r)
to_int (negsuc n) = let r = n % 2 ^ 32 in if ltb r (2 ^ 31) then negsuc r else pos (2 ^ 32 - 1 - r)

module _ (F : Double) (sys : System) where
  -- `readFile` from a local directory: what was read is also stored in the cache.
  unfoldable pub read_local :
      Mount F.Carrier → Text → Bytes → ℕ → ℕ → Outcome (Mount F.Carrier × ℤ × Bytes)
  read_local s path buf sz off =
      let (s', rp) = real_file_path sys s path in
      elim (open_file s'.disk (squeeze rp) false) [
        | failed e ↦ returned (s', negsuc 0, buf)
        | opened d ↦
            let got = pread d (squeeze rp) buf sz off in
            elim (is_negative got.0) [
              | true ↦ returned (s', negsuc 0, got.1)
              | false ↦ do
                (c, _) ←
                    cache_store_file F (env_of sys s') (cache_of s') path got.1 (to_ℕ got.0) off
                returned (with_cache s' c, to_int got.0, got.1)
            ]
      ]

  unfoldable pub read_file :
      Mount F.Carrier → Text → Bytes → ℕ → ℕ → Outcome (Mount F.Carrier × ℤ × Bytes)
  read_file s path buf sz off = elim (length s.file_remote_directory == 0) [
    | false ↦ read_local s path buf sz off
    | true ↦ do
      (bytes, buf') ← download_from sys s.data_backend path buf sz off
      returned (s, (if is_negative bytes then negsuc 0 else to_int bytes), buf')
  ]

  unfoldable pub write_local : Mount F.Carrier → Text → Bytes → ℕ → ℕ → Mount F.Carrier × ℤ
  write_local s path buf sz off =
      let (s', rp) = real_file_path sys s path in
      elim (open_file s'.disk (squeeze rp) true) [
        | failed e ↦ (s', negsuc 0)
        | opened d ↦
            let put = pwrite d (squeeze rp) buf sz off in
            (record s' { disk = put.1 }, if is_negative put.0 then negsuc 0 else to_int put.0)
      ]

  unfoldable pub write_file : Mount F.Carrier → Text → Bytes → ℕ → ℕ → Outcome (Mount F.Carrier × ℤ)
  write_file s path buf sz off = elim (length s.file_remote_directory == 0) [
    | false ↦ returned (write_local s path buf sz off)
    | true ↦ elim s.data_backend [
      | none ↦ faulted
      | some b ↦
          let bytes = (http_backend sys.curl).upload b path buf sz off in
          returned (s, if is_negative bytes then negsuc 0 else to_int bytes)
    ]
  ]

  unfoldable pub release_files : Mount F.Carrier → Outcome (Mount F.Carrier × ℤ)
  release_files s = do
    (c, _) ← cache_apply_eviction F (env_of sys s) (cache_of s)
    returned (with_cache s c, pos 0)
