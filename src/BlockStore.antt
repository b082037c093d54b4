-- ===== src/BlockStore.antt =====
-- cache/block_store.cc: the parts of cached objects on disk, in files of at most `kMaxPartSize`
-- bytes. Offsets are not negative, and a hash is 16 hexadecimal digits.
pub mod Contents
pub mod Transfer
pub mod Reads
pub mod Delete
pub mod Prefix
pub mod Total
pub mod Absent
use cache_system_with_fuse.Files.{
  create_directories, File, Disk, Opened, failed, opened, slash, parent, filename, exists_dir,
  pread, pwrite, mkdir, remove_file, remove_dir,
}
use cache_system_with_fuse.Files
use cache_system_with_fuse.Layout.{k_max_part_size, substr, shard_dir, data_part_path}
use cache_system_with_fuse.Base.{
  ℕ, zero, suc, ◌+◌, ◌-◌, ◌*◌, ◌/◌, ◌%◌, ◌^◌, ◌≤◌, ◌<◌, min, max, ◌≡◌, refl, sym, ap, subst, ◌∙◌,
  ◌≢◌, ◌↔◌, ◌⊎◌, inl, inr, ite, if_pos, if_neg, Bool, true, false, ◌&&◌, ◌||◌, not, Option, none,
  some, List, [], ◌∷◌, ◌++◌, map, arith, dec_lt, dec_le, ℕ_discrete, ltb, leb, ◌==◌, if◌then◌else◌,
  ltb→lt, lt→ltb, ==_iff, Bool-cases, Option-cases, ℤ, pos, negsuc, neg, is_negative, to_ℕ, length,
  get_or, set, take, drop, replicate, length-append, length-set, length-replicate, get_or-set_self,
  get_or-set_ne, get_or-append_left, get_or_past, Text, codes, text_discrete, find, put, erase,
  find-put, find-erase, table_laws, keys, has, Table, Bytes, memcpy, Agree, bit_or_disjoint,
}

-- `BlockStore::init`; directories that a failing `fs::create_directories` made are left out.
unfoldable pub init : Disk → Text → Disk × Bool
init d root =
    if exists_dir d root || has text_discrete root d.files
    then (d, true)
    else elim (create_directories d root) [ none ↦ (d, false) | some d' ↦ (d', true) ]

-- `::mkdir` on both shard levels; the results are ignored.
unfoldable pub ensure_shard_dirs : Disk → Text → Text → Disk
ensure_shard_dirs d root hash_hex =
    let lvl1 = root ++ slash ∷ substr hash_hex 0 2 in
    let lvl2 = lvl1 ++ slash ∷ substr hash_hex 2 2 in mkdir (mkdir d lvl1) lvl2

-- `open_file`: `failed` is -errno, `opened` a descriptor; the mode is left out.
abbrev pub open_file : Disk → Text → Bool → Opened
open_file d path create = Files.open_file d path create

-- `BlockStore::read`: the result and the buffer.
unfoldable pub read : Disk → Text → Text → Bytes → ℕ → ℕ → ℤ × Bytes
read d root hash_hex buf len off =
    let part_idx = off / k_max_part_size in
    let part_off = off % k_max_part_size in
    let path = data_part_path root hash_hex part_idx in
    elim (open_file d path false) [
      | failed e ↦ (negsuc e, buf)
      | opened d' ↦ pread d' path buf len part_off
    ]

-- The part of `BlockStore::write` below the shard directories.
unfoldable pub write_part : Disk → Text → Text → Bytes → ℕ → ℕ → Disk × ℤ
write_part d root hash_hex buf len off =
    let part_idx = off / k_max_part_size in
    let part_off = off % k_max_part_size in
    let path = data_part_path root hash_hex part_idx in
    elim (open_file d path true) [
      | failed e ↦ (d, negsuc e)
      | opened d' ↦ let (n, d'') = pwrite d' path buf len part_off in (d'', n)
    ]

unfoldable pub write : Disk → Text → Text → Bytes → ℕ → ℕ → Disk × ℤ
write d root hash_hex buf len off =
    write_part (ensure_shard_dirs d root hash_hex) root hash_hex buf len off

-- `s.rfind(prefix, 0) == 0`.
unfoldable pub has_prefix : Text → Text → Bool
has_prefix [] s = true
has_prefix (c ∷ p) [] = false
has_prefix (c ∷ p) (c' ∷ s) = c == c' && has_prefix p s

-- The test on an entry of the directory.
abbrev pub is_object_file : Text → Text → Text → Bool
is_object_file dir hash_hex p =
    ite (text_discrete (parent p) dir) (has_prefix hash_hex (filename p)) false

-- The loop over the entries of the shard directory.
unfoldable pub remove_entries : Text → Text → List Text → Disk × Bool → Disk × Bool
remove_entries dir hash_hex [] st = st
remove_entries dir hash_hex (p ∷ entries) (d, ok) =
    let rest = remove_entries dir hash_hex entries in
    if is_object_file dir hash_hex p
    then (let (d', done) = remove_file d p in rest (d', ok && done))
    else rest (d, ok)

unfoldable pub delete_object : Disk → Text → Text → Disk × Bool
delete_object d root hash_hex =
    let dir = root ++ slash ∷ shard_dir hash_hex in
    if exists_dir d dir
    then (let (d', ok) = remove_entries dir hash_hex (keys d.files) (d, true) in
        (remove_dir (remove_dir d' dir) (parent dir), ok))
    else (d, true)
