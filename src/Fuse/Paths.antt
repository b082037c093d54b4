-- ===== src/Fuse/Paths.antt =====
-- fuse/fuse.cc: the paths on the disk, and the handlers that only change names there.
pub mod Collisions
use cache_system_with_fuse.Files.{Disk, slash, squeeze, make_dir, rmdir, unlink}
use cache_system_with_fuse.Fuse.{System, Mount}
use cache_system_with_fuse.Base.{
  ℕ, zero, suc, ◌+◌, ◌-◌, ◌*◌, ◌/◌, ◌%◌, ◌^◌, ◌≤◌, ◌<◌, min, max, ◌≡◌, refl, sym, ap, subst, ◌∙◌,
  ◌≢◌, ◌↔◌, ◌⊎◌, inl, inr, ite, if_pos, if_neg, Bool, true, false, ◌&&◌, ◌||◌, not, Option, none,
  some, List, [], ◌∷◌, ◌++◌, map, arith, dec_lt, dec_le, ℕ_discrete, ltb, leb, ◌==◌, if◌then◌else◌,
  ltb→lt, lt→ltb, ==_iff, Bool-cases, Option-cases, ℤ, pos, negsuc, neg, is_negative, to_ℕ,
  is_count, Outcome, returned, thrown, faulted, exhausted, length, get_or, set, take, drop,
  replicate, length-append, length-set, length-replicate, get_or-set_self, get_or-set_ne,
  get_or-append_left, get_or_past, Text, codes, text_discrete, find, put, erase, find-put,
  find-erase, table_laws, keys, has, Table, Bytes, memcpy, Agree, bit_or_disjoint,
}

-- `directory.back() = '/'` where the last character is another. All callers have one.
unfoldable pub slash_last : Text → Text
slash_last [] = []
slash_last (c ∷ []) = slash ∷ []
slash_last (c ∷ c' ∷ s) = c ∷ slash_last (c' ∷ s)

-- The directory, which may have changed, and the path on the disk. `path + 1;` does nothing.
unfoldable pub real_path : Bool → Text → Text → Text × Text
real_path is_literal directory path =
    if is_literal
    then (directory, directory)
    else (slash_last directory, slash_last directory ++ path)

-- A result of a system call as the handlers return it.
abbrev pub status : Bool → ℤ
status true = pos 0
status false = negsuc 0

module _ {A : Type 0} (sys : System) where
  unfoldable pub real_cache_path : Mount A → Text → Mount A × Text
  unfolding real_path
  real_cache_path s path =
      let r = real_path (sys.is_literal path) s.cache_directory path in
      (record s { cache_directory = r.0 }, r.1)

  unfoldable pub real_file_path : Mount A → Text → Mount A × Text
  unfolding real_path
  real_file_path s path =
      let r = real_path (sys.is_literal path) s.file_remote_directory path in
      (record s { file_remote_directory = r.0 }, r.1)

  unfoldable pub make_directory : Mount A → Text → Mount A × ℤ
  make_directory s path =
      let (s', rp) = real_cache_path s path in
      let (d, done) = make_dir s'.disk (squeeze rp) in (record s' { disk = d }, status done)

  unfoldable pub remove_directory : Mount A → Text → Mount A × ℤ
  remove_directory s path =
      let (s', rp) = real_cache_path s path in
      let (d, done) = rmdir s'.disk (squeeze rp) in (record s' { disk = d }, status done)

  unfoldable pub remove_file : Mount A → Text → Mount A × ℤ
  remove_file s path =
      let (s', rp) = real_cache_path s path in
      let (d, done) = unlink s'.disk (squeeze rp) in (record s' { disk = d }, status done)

  -- Both accept everything.
  unfoldable pub open_file : Mount A → Text → Mount A × ℤ
  open_file s path = (s, pos 0)

  unfoldable pub create_file : Mount A → Text → Mount A × ℤ
  create_file s path = (s, pos 0)
