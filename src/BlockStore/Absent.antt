-- ===== src/BlockStore/Absent.antt =====
-- What a fetch leaves absent: the bytes behind the end of a file, and a file below the root.
use cache_system_with_fuse.Files.{File, Disk, file_at, empty_file, write_bytes}
use cache_system_with_fuse.Layout.{k_max_part_size, data_part_path}
use cache_system_with_fuse.Layout.Paths.{data_part_path_injective}
use cache_system_with_fuse.BlockStore.{ensure_shard_dirs, write}
use cache_system_with_fuse.BlockStore.Contents.{byte_of, object_byte, InPart}
use cache_system_with_fuse.BlockStore.Transfer.{
  old_file, write_part-file_at, ensure_shard_dirs-file_at,
}
use mathlib.Core.Option
use cache_system_with_fuse.Base.{
  ℕ, ◌+◌, ◌/◌, ◌%◌, ◌≤◌, ◌≡◌, refl, sym, ap, subst, ◌∙◌, ◌≢◌, if_pos, if_neg, Option, none, some,
  arith, pos, Text, text_discrete, Bytes,
}

byte_of_absent :
    (o : Option File) (i : ℕ) → byte_of o i ≡ none → (Option.get_or o empty_file).size ≤ i
byte_of_absent none i e = omega arith
byte_of_absent (some f) i e = ground (arith, e)

byte_of-write_bytes_behind :
    (f : File) (src : Bytes) (len off i : ℕ)
    → f.size ≤ i
    → off + len ≤ i
    → byte_of (some (write_bytes f src len off)) i ≡ none
unfolding write_bytes
byte_of-write_bytes_behind f src len off i small before = ground arith

-- A write does not reach behind its end.
pub write-absent :
    (d : Disk) (root h : Text) (buf : Bytes) (len off r o : ℕ)
    → InPart len off
    → (write d root h buf len off).1 ≡ pos r
    → off + len ≤ o
    → object_byte d root h o ≡ none
    → object_byte (write d root h buf len off).0 root h o ≡ none
unfolding write
write-absent d root h buf len off r o fits done after absent =
    let p = data_part_path root h (off / k_max_part_size) in
    let q = data_part_path root h (o / k_max_part_size) in
    let (few, at_q) = write_part-file_at _ root h buf len off r q done in
    let old = ensure_shard_dirs-file_at d root h q in
    elim (text_discrete p q) [
      | no other ↦
          ap (λ f. byte_of f (o % k_max_part_size))
            (at_q ∙ (if_neg (text_discrete p q) other _ _ ∙ old))
          ∙ absent
      | yes same ↦
          let part = (data_part_path_injective root h h refl _ _ same).1 in
          let i = o % k_max_part_size in
          let sized = byte_of_absent (file_at d q) i absent in
          let small =
            subst (λ t. (old_file (ensure_shard_dirs d root h) t).size ≤ i) (sym same)
              (subst (λ f. (Option.get_or f empty_file).size ≤ i) (sym old) sized) in
          ap (λ f. byte_of f (o % k_max_part_size)) (at_q ∙ if_pos (text_discrete p q) same _ _)
          ∙ byte_of-write_bytes_behind _ buf r (off % k_max_part_size) (o % k_max_part_size) small
              (omega (arith, part, few))
    ]

-- Nor does it make a file that is no part of the object.
pub write-file_at_other :
    (d : Disk) (root h : Text) (buf : Bytes) (len off r : ℕ) (q : Text)
    → (write d root h buf len off).1 ≡ pos r
    → data_part_path root h (off / k_max_part_size) ≢ q
    → file_at (write d root h buf len off).0 q ≡ file_at d q
unfolding write
write-file_at_other d root h buf len off r q done other =
    (write_part-file_at _ root h buf len off r q done).1
    ∙ (if_neg (text_discrete (data_part_path root h (off / k_max_part_size)) q) other _ _
        ∙ ensure_shard_dirs-file_at d root h q)
