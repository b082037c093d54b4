-- ===== src/BlockStore/Total.antt =====
-- `BlockStore::write` on a healthy disk.
use mathlib.Core.List.{append_assoc}
use cache_system_with_fuse.Files.{
  Disk, Syscall, sys_mkdir, slash, exists_dir, file_at, empty_file, room, open_file, pwrite, mkdir,
}
use cache_system_with_fuse.Files.Names.{NoSlash, parent_join, NoSlash-take, NoSlash-drop}
use cache_system_with_fuse.Files.Laws.{mkdir_keeps, mkdir_makes, mkdir-refuse, mkdir-files}
use cache_system_with_fuse.Layout.{k_max_part_size, substr, shard_dir, data_part_path, to_string}
use cache_system_with_fuse.BlockStore.{write, write_part, ensure_shard_dirs}
use cache_system_with_fuse.BlockStore.Transfer.{write-refuse}
use cache_system_with_fuse.BlockStore.Absent.{write-file_at_other}
use cache_system_with_fuse.BlockStore.Delete.{IsHash, object_dir, parent-data_part_path}
use cache_system_with_fuse.Base.{
  refl, ℕ, ◌+◌, ◌/◌, ◌≤◌, ◌≡◌, ap, subst, ◌∙◌, ◌≢◌, true, none, [], ◌∷◌, ◌++◌, arith, pos, length,
  length-append, take, drop, Text, codes, text_discrete, find-put, Bytes,
}

-- The two levels of the shard directory.
abbrev pub shard_level1 : Text → Text → Text
shard_level1 root h = root ++ slash ∷ substr h 0 2

abbrev pub shard_level2 : Text → Text → Text
shard_level2 root h = shard_level1 root h ++ slash ∷ substr h 2 2

-- The cache root exists, no call is refused, no write stops short, and no file has the name of a shard directory.
pub record IsHealthy (d : Disk) (root : Text) : Type 0 where
  pub has_root : exists_dir d root ≡ true
  pub accepts : (c : Syscall) (p : Text) → d.refuse c p ≡ none
  pub clear :
      (g : Text)
      → IsHash g
      → (file_at d (shard_level1 root g) ≡ none) × (file_at d (shard_level2 root g) ≡ none)

-- The directories' names have two characters each.
take-IsHash : (g : Text) → IsHash g → (length (take 2 g) ≡ 2) × (length (take 2 (drop 2 g)) ≡ 2)
take-IsHash [] v = absurd (omega (arith, v.sixteen))
take-IsHash (a ∷ []) v = absurd (omega (arith, v.sixteen))
take-IsHash (a ∷ b ∷ []) v = absurd (omega (arith, v.sixteen))
take-IsHash (a ∷ b ∷ c ∷ []) v = absurd (omega (arith, v.sixteen))
take-IsHash (a ∷ b ∷ c ∷ d ∷ g) v = (refl, refl)

pub length-shard_level1 :
    (root g : Text) → IsHash g → length (shard_level1 root g) ≡ length root + 3
length-shard_level1 root g v =
    length-append root (slash ∷ substr g 0 2) ∙ omega (arith, (take-IsHash g v).0)

pub length-shard_level2 :
    (root g : Text) → IsHash g → length (shard_level2 root g) ≡ length root + 6
length-shard_level2 root g v =
    length-append (shard_level1 root g) (slash ∷ substr g 2 2)
    ∙ omega (arith, length-shard_level1 root g v, (take-IsHash g v).1)

pub length-data_part_path :
    (root h : Text) (i : ℕ) → length root + 7 ≤ length (data_part_path root h i)
unfolding data_part_path
length-data_part_path root h i =
    let ending = codes "." ++ (to_string i ++ codes ".blk") in
    omega (
      arith,
      length-append root (codes "/" ++ (shard_dir h ++ (codes "/" ++ (h ++ ending)))),
      length-append (shard_dir h) (codes "/" ++ (h ++ ending)),
      length-append h ending,
      length-append (to_string i) (codes ".blk"),
    )

-- A part's file lies deeper than the shard directories.
level1-ne : (root h g : Text) (i : ℕ) → IsHash g → data_part_path root h i ≢ shard_level1 root g
level1-ne root h g i v e =
    omega (arith, ap length e, length-shard_level1 root g v, length-data_part_path root h i)

level2-ne : (root h g : Text) (i : ℕ) → IsHash g → data_part_path root h i ≢ shard_level2 root g
level2-ne root h g i v e =
    omega (arith, ap length e, length-shard_level2 root g v, length-data_part_path root h i)

mkdir-IsHealthy : (d : Disk) (root p : Text) → IsHealthy d root → IsHealthy (mkdir d p) root
mkdir-IsHealthy d root p v = record {
  has_root = mkdir_keeps d p root v.has_root;
  accepts = λ c q. rw (mkdir-refuse d p) (v.accepts c q);
  clear = λ g n. rw (mkdir-files d p) (v.clear g n);
}

-- Both levels of the shard directory are there afterwards.
ensure_shard_dirs_makes :
    (d : Disk) (root h : Text)
    → IsHealthy d root
    → IsHash h
    → exists_dir (ensure_shard_dirs d root h) (object_dir root h) ≡ true
unfolding ensure_shard_dirs shard_dir
ensure_shard_dirs_makes d root h v is_hash =
    let n = is_hash.no_slash in
    let lvl1 = shard_level1 root h in
    let lvl2 = shard_level2 root h in
    let first : exists_dir (mkdir d lvl1) lvl1 ≡ true =
      mkdir_makes d lvl1 (v.accepts sys_mkdir lvl1) (v.clear h is_hash).0
        (rw (parent_join root (substr h 0 2) (NoSlash-take 2 h n)) v.has_root) in
    let second : exists_dir (mkdir (mkdir d lvl1) lvl2) lvl2 ≡ true =
      mkdir_makes (mkdir d lvl1) lvl2 ((mkdir-IsHealthy d root lvl1 v).accepts sys_mkdir lvl2)
        ((mkdir-IsHealthy d root lvl1 v).clear h is_hash).1
        (rw (parent_join lvl1 (substr h 2 2) (NoSlash-take 2 (drop 2 h) (NoSlash-drop 2 h n)))
          first) in
    subst (λ p. exists_dir (mkdir (mkdir d lvl1) lvl2) p ≡ true) (simp append_assoc) second

write_part_total :
    (d : Disk) (root h : Text) (src : Bytes) (len off : ℕ)
    → IsHealthy d root
    → exists_dir d (object_dir root h) ≡ true
    → NoSlash h
    → ((write_part d root h src len off).1 ≡ pos len)
      × ((write_part d root h src len off).0.dirs ≡ d.dirs)
unfolding write_part open_file pwrite room
write_part_total d root h src len off v there n =
    let p = data_part_path root h (off / k_max_part_size) in
    ground (
      arith,
      v.accepts Syscall.sys_open p,
      v.accepts Syscall.sys_write p,
      v.accepts Syscall.sys_full p,
      parent-data_part_path root h (off / k_max_part_size) n,
      find-put text_discrete p p empty_file d.files,
    )

-- On a healthy disk, a write at any offset makes its directories, writes the whole buffer, and
-- leaves the disk healthy.
pub write_total :
    (d : Disk) (root h : Text) (src : Bytes) (len off : ℕ)
    → IsHealthy d root
    → IsHash h
    → ((write d root h src len off).1 ≡ pos len) × IsHealthy (write d root h src len off).0 root
write_total d root h src len off v is_hash =
    let lvl1 = root ++ slash ∷ substr h 0 2 in
    let d' = ensure_shard_dirs d root h in
    let v' : IsHealthy d' root =
      unfold ensure_shard_dirs in mkdir-IsHealthy _ root _ (mkdir-IsHealthy d root lvl1 v) in
    let there = ensure_shard_dirs_makes d root h v is_hash in
    let (count, dirs) = write_part_total d' root h src len off v' there is_hash.no_slash in
    let part = off / k_max_part_size in
    let wrote : (write d root h src len off).1 ≡ pos len = unfold write in count in
    (
      wrote,
      record {
        has_root = unfold write in rw dirs v'.has_root;
        accepts = λ c p. rw (write-refuse d root h src len off) (v.accepts c p);
        clear = λ g n.
            let (first, second) = v.clear g n in
            (
              write-file_at_other d root h src len off len (shard_level1 root g) wrote
                    (level1-ne root h g part n)
                  ∙ first,
              write-file_at_other d root h src len off len (shard_level2 root g) wrote
                    (level2-ne root h g part n)
                  ∙ second,
            );
      },
    )
