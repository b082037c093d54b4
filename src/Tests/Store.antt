-- ===== src/Tests/Store.antt =====
-- An object of the store that is written, read and deleted.
use cache_system_with_fuse.Tests.{root, disk, disk-IsHealthy, env, path, name}
use cache_system_with_fuse.Files.{
  Disk, slash, parent, filename, has_slash, has_text, exists_dir, remove_file, remove_dir, sys_open,
  sys_read, sys_write, sys_full, sys_mkdir, sys_remove, open_file, pwrite, room, mkdir,
}
use cache_system_with_fuse.Layout.{shard_dir, data_part_path, to_string, digits_of}
use cache_system_with_fuse.BlockStore.{
  read, write, write_part, ensure_shard_dirs, delete_object, remove_entries, has_prefix,
}
use cache_system_with_fuse.BlockStore.Contents.{object_byte, KeepsByte}
use cache_system_with_fuse.BlockStore.Transfer.{write-KeepsByte}
use cache_system_with_fuse.BlockStore.Reads.{read-write}
use cache_system_with_fuse.BlockStore.Delete.{
  IsHash, delete_object-removes, object_byte-delete_object,
}
use cache_system_with_fuse.BlockStore.Prefix.{Coherent, Filled}
use cache_system_with_fuse.BlockStore.Total.{write_total}
use cache_system_with_fuse.Manager.{hash_hex, hex_digits, hex_digit}
use cache_system_with_fuse.Manager.Hash.{hash_hex-IsHash}
use cache_system_with_fuse.Base.{
  ◌≤◌, ◌≡◌, refl, sym, ◌≢◌, inl, inr, true, none, some, [], ◌∷◌, ◌++◌, arith, pos, Text, codes,
  text_discrete, find, put, Bytes, Agree,
}

abbrev bytes : Bytes
bytes = λ i. i

abbrev zeros : Bytes
zeros = λ i. 0

pub name-IsHash : IsHash name
name-IsHash = hash_hex-IsHash env path

abbrev written : Disk
written = (write disk root name bytes 8 5).0

-- A disk where every write stops after six bytes.
abbrev full : Disk
full = record disk {
  refuse = λ c p. elim c [
    | sys_open ↦ none
    | sys_read ↦ none
    | sys_write ↦ none
    | sys_full ↦ some 6
    | sys_mkdir ↦ none
    | sys_remove ↦ none
  ];
}

short_write : (write full root name bytes 8 5).1 ≡ pos 6
unfolding write write_part ensure_shard_dirs open_file pwrite room mkdir has_text text_discrete
    data_part_path shard_dir hash_hex hex_digits hex_digit parent has_slash find put to_string
short_write = refl

read-write_example :
    let d = (write full root name bytes 8 5).0 in
    (6 ≤ 8)
    × ((read d root name zeros 6 5).0 ≡ pos 6)
    × Agree 6 (read d root name zeros 6 5).1 bytes
read-write_example =
    read-write full root name bytes zeros 8 5 6 (omega arith) (omega arith) refl refl short_write

written_count : (read written root name zeros 8 5).0 ≡ pos 8
written_count =
    (read-write disk root name bytes zeros 8 5 8 (omega arith) (omega arith) refl refl
      (write_total disk root name bytes 8 5 disk-IsHealthy name-IsHash).0).1

write-KeepsByte_example : KeepsByte written (write written root name zeros 8 20).0 root name 6
write-KeepsByte_example =
    write-KeepsByte written root name zeros 8 20 name 6 (omega arith) refl (inr (inl (omega arith)))

pub disk-Coherent : Coherent disk root name bytes
unfolding find
disk-Coherent o b e = absurd (cc)

pub disk-Filled : Filled disk root name 0
disk-Filled o lt = elim lt [ ]

-- A disk with one file of one object.
abbrev one_file : Disk
one_file = record disk {
  files = (data_part_path root name 0, record { size = 3; byte = bytes }) ∷ [];
  dirs = (root ++ slash ∷ shard_dir name) ∷ (root ++ codes "/00") ∷ root ∷ [];
}

one_file_dir : exists_dir one_file (root ++ slash ∷ shard_dir name) ≡ true
unfolding has_text text_discrete shard_dir hash_hex hex_digits hex_digit
one_file_dir = refl

one_file_goes : (delete_object one_file root name).1 ≡ true
unfolding delete_object remove_entries remove_file has_text text_discrete shard_dir hash_hex
    hex_digits hex_digit data_part_path to_string digits_of parent filename has_slash has_prefix
    remove_dir
one_file_goes = refl

delete_object-removes_example : object_byte (delete_object one_file root name).0 root name 1 ≡ none
delete_object-removes_example =
    delete_object-removes one_file root name (hash_hex-IsHash env path) one_file_dir one_file_goes 1

abbrev other : Text
other = codes "00000000000000ff"

other-IsHash : IsHash other
unfolding has_slash
other-IsHash = record { sixteen = refl; no_slash = refl }

other-ne-name : other ≢ name
unfolding hash_hex hex_digits hex_digit
other-ne-name e = ground arith

object_byte-delete_object_example :
    object_byte (delete_object one_file root other).0 root name 1 ≡ object_byte one_file root name 1
object_byte-delete_object_example =
    object_byte-delete_object one_file root other other-IsHash name 1 (hash_hex-IsHash env path)
      (λ e. other-ne-name (sym e))
