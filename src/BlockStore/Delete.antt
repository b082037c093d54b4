-- ===== src/BlockStore/Delete.antt =====
-- `BlockStore::delete_object` against the files of this and of other objects.
use cache_system_with_fuse.Files.{
  File, Disk, slash, parent, filename, has_slash, has_text, exists_dir, file_at, remove_file,
  remove_dir,
}
use mathlib.Core.List.{append_assoc}
use cache_system_with_fuse.Files.Names.{NoSlash, has_slash-append, parent_join, filename_join}
use cache_system_with_fuse.Layout.{k_max_part_size, shard_dir, data_part_path, to_string}
use cache_system_with_fuse.Layout.Decimal.{AllDigits, to_string-AllDigits}
use cache_system_with_fuse.BlockStore.{has_prefix, is_object_file, remove_entries, delete_object}
use cache_system_with_fuse.BlockStore.Contents.{object_byte}
use cache_system_with_fuse.Base.{
  ℕ, ◌/◌, ◌≡◌, refl, sym, ◌∙◌, ◌≢◌, ◌⊎◌, inl, inr, ite, Bool, true, false, ◌&&◌, none, List, [],
  ◌∷◌, ◌++◌, arith, if◌then◌else◌, Bool-cases, length, Text, codes, text_discrete, find, find-erase,
  keys, Table,
}

-- The length of a hash as `hash_hex` makes it, and no slash.
pub record IsHash (h : Text) : Type 0 where
  pub sixteen : length h ≡ 16
  pub no_slash : NoSlash h

AllDigits-NoSlash : (s : Text) → AllDigits s → NoSlash s
unfolding has_slash
AllDigits-NoSlash [] a = refl
AllDigits-NoSlash (c ∷ s) a = ground (arith, AllDigits-NoSlash s a.1)

part_name : Text → ℕ → Text
part_name h i = h ++ (codes "." ++ (to_string i ++ codes ".blk"))

part_name-NoSlash : (h : Text) (i : ℕ) → NoSlash h → NoSlash (part_name h i)
unfolding part_name has_slash
part_name-NoSlash h i n = has_slash-append h _ n (
    has_slash-append (to_string i) (codes ".blk")
      (AllDigits-NoSlash (to_string i) (to_string-AllDigits i)) refl)

abbrev pub object_dir : Text → Text → Text
object_dir root h = root ++ slash ∷ shard_dir h

data_part_path_lem :
    (root h : Text) (i : ℕ) → data_part_path root h i ≡ object_dir root h ++ slash ∷ part_name h i
unfolding data_part_path part_name
data_part_path_lem root h i = simp append_assoc

pub parent-data_part_path :
    (root h : Text) (i : ℕ) → NoSlash h → parent (data_part_path root h i) ≡ object_dir root h
parent-data_part_path root h i n =
    rw (data_part_path_lem root h i) (parent_join _ _ (part_name-NoSlash h i n))

filename-data_part_path :
    (root h : Text) (i : ℕ) → NoSlash h → filename (data_part_path root h i) ≡ part_name h i
filename-data_part_path root h i n =
    rw (data_part_path_lem root h i) (filename_join _ _ (part_name-NoSlash h i n))

has_prefix-append : (h s : Text) → has_prefix h (h ++ s) ≡ true
unfolding has_prefix
has_prefix-append [] s = refl
has_prefix-append (c ∷ h) s = ground (arith, has_prefix-append h s)

-- Of two texts of one length, one begins a continuation of the other only if they are equal.
has_prefix_other : (h g s : Text) → length h ≡ length g → has_prefix h (g ++ s) ≡ true → h ≡ g
unfolding has_prefix
has_prefix_other [] [] s e p = refl
has_prefix_other [] (y ∷ g) s e p = absurd (omega arith)
has_prefix_other (x ∷ h) [] s e p = absurd (omega arith)
has_prefix_other (x ∷ h) (y ∷ g) s e p = ground (arith, has_prefix_other h g s (omega arith))

find-keys :
    (q : Text) (t : Table Text File)
    → (find text_discrete q t ≡ none) ⊎ (has_text q (keys t) ≡ true)
unfolding find has_text
find-keys q [] = inl refl
find-keys q ((p, f) ∷ t) = ground (arith, find-keys q t)

remove_dir-files : (d : Disk) (p : Text) → (remove_dir d p).files ≡ d.files
unfolding remove_dir
remove_dir-files d p = ground arith

remove_file-file_at :
    (d : Disk) (p q : Text)
    → file_at (remove_file d p).0 q
      ≡ (if (remove_file d p).1 then ite (text_discrete p q) none (file_at d q) else file_at d q)
unfolding remove_file
remove_file-file_at d p q = ground (arith, find-erase text_discrete p q d.files)

module _ (dir h q : Text) where
  -- The loop touches no other file.
  remove_entries_other :
      (entries : List Text) (d : Disk) (ok : Bool)
      → is_object_file dir h q ≡ false
      → file_at (remove_entries dir h entries (d, ok)).0 q ≡ file_at d q
  unfolding remove_entries
  remove_entries_other [] d ok other = refl
  remove_entries_other (p ∷ entries) d ok other = ground (
    arith,
    remove_file-file_at d p q,
    remove_entries_other entries d ok other,
    remove_entries_other entries (remove_file d p).0 (ok && (remove_file d p).1) other,
  )

  remove_entries_gone :
      (entries : List Text) (d : Disk) (ok : Bool)
      → file_at d q ≡ none
      → file_at (remove_entries dir h entries (d, ok)).0 q ≡ none
  unfolding remove_entries
  remove_entries_gone [] d ok gone = gone
  remove_entries_gone (p ∷ entries) d ok gone = ground (
    arith,
    remove_file-file_at d p q,
    remove_entries_gone entries d ok gone,
    remove_entries_gone entries (remove_file d p).0 (ok && (remove_file d p).1),
  )

  remove_entries_failed :
      (entries : List Text) (d : Disk) → (remove_entries dir h entries (d, false)).1 ≡ false
  unfolding remove_entries
  remove_entries_failed [] d = refl
  remove_entries_failed (p ∷ entries) d =
      ground
        (arith, remove_entries_failed entries d, remove_entries_failed entries (remove_file d p).0)

  -- Where the loop reports no error, each entry of the object is gone.
  remove_entries_all :
      (entries : List Text) (d : Disk) (ok : Bool)
      → is_object_file dir h q ≡ true
      → has_text q entries ≡ true
      → (remove_entries dir h entries (d, ok)).1 ≡ true
      → file_at (remove_entries dir h entries (d, ok)).0 q ≡ none
  unfolding remove_entries has_text
  remove_entries_all [] d ok mine listed done = cc
  remove_entries_all (p ∷ entries) d ok mine listed done = ground (
    arith,
    remove_file-file_at d p q,
    remove_entries_all entries d ok mine,
    remove_entries_all entries (remove_file d p).0 (ok && (remove_file d p).1) mine,
    remove_entries_gone entries (remove_file d p).0 (ok && (remove_file d p).1),
    remove_entries_failed entries (remove_file d p).0,
  )

-- The loop's test picks the parts of the one object.
is_object_file_self :
    (root h : Text) (i : ℕ)
    → IsHash h
    → is_object_file (object_dir root h) h (data_part_path root h i) ≡ true
unfolding part_name
is_object_file_self root h i v = rw (filename-data_part_path root h i v.no_slash) (
    ground (
      arith,
      parent-data_part_path root h i v.no_slash,
      has_prefix-append h (codes "." ++ (to_string i ++ codes ".blk")),
    ))

is_object_file_other :
    (root h g : Text) (i : ℕ)
    → IsHash h
    → IsHash g
    → g ≢ h
    → is_object_file (object_dir root h) h (data_part_path root g i) ≡ false
unfolding part_name
is_object_file_other root h g i vh vg ne = rw (filename-data_part_path root g i vg.no_slash) (
    ground (
      arith,
      has_prefix_other h g (codes "." ++ (to_string i ++ codes ".blk"))
          (vh.sixteen ∙ sym vg.sixteen),
    ))

module _ (d : Disk) (root h : Text) (v : IsHash h) where
  -- Where the hash has 16 characters and no slash, the object's shard directory is there and
  -- `delete_object` returns true, no byte of the object is left.
  pub delete_object-removes :
      exists_dir d (root ++ slash ∷ shard_dir h) ≡ true
      → (delete_object d root h).1 ≡ true
      → (o : ℕ) → object_byte (delete_object d root h).0 root h o ≡ none
  unfolding delete_object
  delete_object-removes there done o =
      let q = data_part_path root h (o / k_max_part_size) in
      let mine = is_object_file_self root h (o / k_max_part_size) v in
      let dir = object_dir root h in
      let counted : (remove_entries dir h (keys d.files) (d, true)).1 ≡ true = rw there at done in
      rw there (
        rw (remove_dir-files, remove_dir-files)
          (elim (find-keys q d.files) [
            | inl absent ↦ rw (remove_entries_gone dir h q (keys d.files) d true absent)
            | inr listed ↦ rw (remove_entries_all dir h q (keys d.files) d true mine listed counted)
          ]))

  -- `delete_object` leaves every byte of every other object as it was, where both hashes have 16
  -- characters and no slash.
  pub object_byte-delete_object :
      (g : Text) (o : ℕ)
      → IsHash g
      → g ≢ h
      → object_byte (delete_object d root h).0 root g o ≡ object_byte d root g o
  unfolding delete_object
  object_byte-delete_object g o vg ne = elim (Bool-cases (exists_dir d (object_dir root h))) [
    | inl there ↦ rw there (
        rw (
          remove_dir-files,
          remove_dir-files,
          remove_entries_other (object_dir root h) h _ (keys d.files) d true
              (is_object_file_other root h g (o / k_max_part_size) v vg ne),
        ))
    | inr absent ↦ rw absent
  ]
