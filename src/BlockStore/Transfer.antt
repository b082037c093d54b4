-- ===== src/BlockStore/Transfer.antt =====
-- `BlockStore::read` and `BlockStore::write` against the bytes of objects.
use mathlib.Core.Option
use cache_system_with_fuse.Files.{
  File, Disk, Syscall, file_at, empty_file, open_file, pread, pwrite, write_bytes, room,
}
use cache_system_with_fuse.Files.Laws.{mkdir-files, mkdir-refuse}
use cache_system_with_fuse.Layout.{k_max_part_size, data_part_path}
use cache_system_with_fuse.Layout.Paths.{data_part_path_injective}
use cache_system_with_fuse.BlockStore.{write, write_part, ensure_shard_dirs}
use cache_system_with_fuse.BlockStore.Contents.{byte_of, InPart, Holds, KeepsByte}
use cache_system_with_fuse.Base.{
  ℕ, ◌+◌, ◌-◌, ◌/◌, ◌%◌, ◌≤◌, ◌<◌, ◌≡◌, refl, sym, ap, ◌≢◌, ◌⊎◌, inl, inr, ite, if_pos, Option,
  none, some, [], arith, ℕ_discrete, pos, length, Text, text_discrete, put, find-put, Bytes, memcpy,
}

-- Offsets of one transfer lie in one part.
pub within_part :
    (len off i : ℕ)
    → InPart len off
    → i < len
    → ((off + i) / k_max_part_size ≡ off / k_max_part_size)
      × ((off + i) % k_max_part_size ≡ off % k_max_part_size + i)
within_part len off i h lt = (omega arith, omega arith)

pub room_le : (o : Option ℕ) (len : ℕ) → room o len ≤ len
unfolding room
room_le none len = omega arith
room_le (some k) len = omega arith

abbrev pub old_file : Disk → Text → File
old_file d p = Option.get_or (file_at d p) empty_file

-- A write that succeeds changes the one file of its part.
pub write_part-file_at :
    (d : Disk) (root h : Text) (src : Bytes) (len off n : ℕ) (q : Text)
    → (write_part d root h src len off).1 ≡ pos n
    → let p = data_part_path root h (off / k_max_part_size) in
      (n ≤ len)
      × (file_at (write_part d root h src len off).0 q
          ≡ ite
              (text_discrete p q)
              (some (write_bytes (old_file d p) src n (off % k_max_part_size)))
              (file_at d q))
unfolding write_part open_file pwrite
write_part-file_at d root h src len off n q e =
    let p = data_part_path root h (off / k_max_part_size) in
    let new =
      write_bytes (old_file d p) src (room (d.refuse Syscall.sys_full p) len)
        (off % k_max_part_size) in
    ground (
      arith,
      room_le (d.refuse Syscall.sys_full p) len,
      find-put text_discrete p q new d.files,
      find-put text_discrete p q new (put text_discrete p empty_file d.files),
      find-put text_discrete p q empty_file d.files,
      find-put text_discrete p p empty_file d.files,
    )

pub ensure_shard_dirs-file_at :
    (d : Disk) (root h p : Text) → file_at (ensure_shard_dirs d root h) p ≡ file_at d p
unfolding ensure_shard_dirs
ensure_shard_dirs-file_at d root h p = rw (mkdir-files, mkdir-files)

-- The bytes of a file after a write, in the range and outside.
byte_of-write_bytes :
    (f : File) (src : Bytes) (len off i : ℕ)
    → i < len
    → byte_of (some (write_bytes f src len off)) (off + i) ≡ some (src i)
unfolding write_bytes memcpy
byte_of-write_bytes f src len off i h =
    let back : off + i - off ≡ i = omega arith in
    let zero_plus : 0 + i ≡ i = omega arith in
    ground (arith, ap src back, ap src zero_plus, ap (λ (t : ℕ). src (0 + t)) back)

byte_of-write_bytes_kept :
    (f : File) (src : Bytes) (len off i b : ℕ)
    → (i < off) ⊎ (off + len ≤ i)
    → byte_of (some f) i ≡ some b
    → byte_of (some (write_bytes f src len off)) i ≡ some b
unfolding write_bytes memcpy
byte_of-write_bytes_kept f src len off i b h e = ground arith

-- After a write within a part that reports n bytes, the object holds the first n of the buffer.
pub write-Holds :
    (d : Disk) (root h : Text) (src : Bytes) (len off n : ℕ)
    → InPart len off
    → (write d root h src len off).1 ≡ pos n
    → (n ≤ len) × Holds (write d root h src len off).0 root h src n off
unfolding write
write-Holds d root h src len off n fits e = (few, written)
  where
    few : n ≤ len
    few = (write_part-file_at _ root h src len off n [] e).0

    written : Holds (write d root h src len off).0 root h src n off
    written i lt =
        let (part, rest) = within_part len off i fits (omega (arith, few)) in
        let p = data_part_path root h (off / k_max_part_size) in
        rw
          (
            part,
            rest,
            (write_part-file_at _ root h src len off n p e).1,
            if_pos (text_discrete p p) refl,
          )
          (byte_of-write_bytes _ src n (off % k_max_part_size) i lt)

-- Whatever the outcome, a write leaves the bytes that a file has outside the range.
write_part_keeps :
    (d : Disk) (root h : Text) (src : Bytes) (len off : ℕ) (q : Text) (i b : ℕ)
    → let p = data_part_path root h (off / k_max_part_size) in
      let at = off % k_max_part_size in
      (p ≢ q) ⊎ ((i < at) ⊎ (at + len ≤ i))
      → byte_of (file_at d q) i ≡ some b
      → byte_of (file_at (write_part d root h src len off).0 q) i ≡ some b
unfolding write_part open_file pwrite
write_part_keeps d root h src len off q i b out e =
    let p = data_part_path root h (off / k_max_part_size) in
    let n = room (d.refuse Syscall.sys_full p) len in
    let few = room_le (d.refuse Syscall.sys_full p) len in
    let new = write_bytes (old_file d p) src n (off % k_max_part_size) in
    ground (
      arith,
      find-put text_discrete p q new d.files,
      find-put text_discrete p q new (put text_discrete p empty_file d.files),
      find-put text_discrete p q empty_file d.files,
      find-put text_discrete p p empty_file d.files,
      few,
      byte_of-write_bytes_kept (old_file d p) src n (off % k_max_part_size) i b,
    )

-- A write within one part, also one that fails, keeps every present byte that it does not
-- address: those of the same object outside the range, and those of every other object whose hash
-- has the same length.
pub write-KeepsByte :
    (d : Disk) (root h : Text) (src : Bytes) (len off : ℕ) (g : Text) (o : ℕ)
    → InPart len off
    → length g ≡ length h
    → (g ≢ h) ⊎ ((o < off) ⊎ (off + len ≤ o))
    → KeepsByte d (write d root h src len off).0 root g o
unfolding write
write-KeepsByte d root h src len off g o fits same out b e =
    write_part_keeps _ root h src len off (data_part_path root g (o / k_max_part_size))
      (o % k_max_part_size) b (elsewhere out) (rw (ensure_shard_dirs-file_at d root h) e)
  where
    other_part :
        o / k_max_part_size ≢ off / k_max_part_size
        → data_part_path root h (off / k_max_part_size)
          ≢ data_part_path root g (o / k_max_part_size)
    other_part ne e = ne (data_part_path_injective root g h same _ _ (sym e)).1

    elsewhere :
        (g ≢ h) ⊎ ((o < off) ⊎ (off + len ≤ o))
        → (data_part_path root h (off / k_max_part_size)
            ≢ data_part_path root g (o / k_max_part_size))
          ⊎ ((o % k_max_part_size < off % k_max_part_size)
              ⊎ (off % k_max_part_size + len ≤ o % k_max_part_size))
    elsewhere (inl ne) = inl (λ e. ne (data_part_path_injective root g h same _ _ (sym e)).0)
    elsewhere (inr range) = elim (ℕ_discrete (o / k_max_part_size) (off / k_max_part_size)) [
      | yes here ↦ inr (omega arith)
      | no there ↦ inl (other_part there)
    ]

-- The bytes that `pread` delivers.
pub pread_lem :
    (d : Disk) (p : Text) (buf : Bytes) (len off n : ℕ) (i : ℕ)
    → (pread d p buf len off).0 ≡ pos n
    → (n ≤ len)
      × (i < n → byte_of (file_at d p) (off + i) ≡ some ((pread d p buf len off).1 i))
      × (n < len → byte_of (file_at d p) (off + n) ≡ none)
unfolding pread memcpy
pread_lem d p buf len off n i e = ground arith

write_part-refuse :
    (d : Disk) (root h : Text) (src : Bytes) (len off : ℕ)
    → (write_part d root h src len off).0.refuse ≡ d.refuse
unfolding write_part open_file pwrite
write_part-refuse d root h src len off = ground arith

pub write-refuse :
    (d : Disk) (root h : Text) (src : Bytes) (len off : ℕ)
    → (write d root h src len off).0.refuse ≡ d.refuse
unfolding write ensure_shard_dirs
write-refuse d root h src len off = rw (write_part-refuse, mkdir-refuse, mkdir-refuse)
