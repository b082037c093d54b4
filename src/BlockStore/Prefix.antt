-- ===== src/BlockStore/Prefix.antt =====
-- Objects that are filled from their start, under `BlockStore::write`.
use mathlib.Core.Option
use cache_system_with_fuse.Files.{
  File, Disk, Syscall, file_at, empty_file, open_file, pwrite, write_bytes, room,
}
use cache_system_with_fuse.Layout.{k_max_part_size, data_part_path}
use cache_system_with_fuse.Layout.Paths.{data_part_path_injective}
use cache_system_with_fuse.BlockStore.{write, write_part, ensure_shard_dirs}
use cache_system_with_fuse.BlockStore.Contents.{byte_of, object_byte, InPart}
use cache_system_with_fuse.BlockStore.Transfer.{
  room_le, old_file, ensure_shard_dirs-file_at, write-KeepsByte, write-Holds,
}
use cache_system_with_fuse.Base.{
  ℕ, ◌+◌, ◌-◌, ◌/◌, ◌%◌, ◌≤◌, ◌<◌, ◌≡◌, refl, ap, ◌∙◌, ◌⊎◌, inl, inr, Option, none, some, arith,
  dec_lt, ℕ_discrete, pos, Text, text_discrete, put, find-put, Bytes, memcpy,
}

-- The bytes of an object that are present are those of `src`.
abbrev pub Coherent : Disk → Text → Text → Bytes → Type 0
Coherent d root h src = (o b : ℕ) → object_byte d root h o ≡ some b → b ≡ src o

-- All bytes of an object below `n` are present.
abbrev pub Filled : Disk → Text → Text → ℕ → Type 0
Filled d root h n = (o : ℕ) → o < n → (b : ℕ) × (object_byte d root h o ≡ some b)

-- Without a gap below the range, a byte that is there after a write was written or was there.
byte_of-write_bytes_back :
    (f : File) (src : Bytes) (len off i b : ℕ)
    → off ≤ f.size
    → byte_of (some (write_bytes f src len off)) i ≡ some b
    → ((off ≤ i) × (i < off + len) × (b ≡ src (i - off))) ⊎ (byte_of (some f) i ≡ some b)
unfolding write_bytes memcpy
byte_of-write_bytes_back f src len off i b h e =
    let z : 0 + (i - off) ≡ i - off = omega arith in ground (arith, ap src z)

write_part_back :
    (d : Disk) (root h : Text) (src : Bytes) (len off i b : ℕ)
    → let p = data_part_path root h (off / k_max_part_size) in
      let at = off % k_max_part_size in
      at ≤ (old_file d p).size
      → (q : Text) → byte_of (file_at (write_part d root h src len off).0 q) i ≡ some b
      → ((p ≡ q) × (at ≤ i) × (i < at + len) × (b ≡ src (i - at)))
        ⊎ (byte_of (file_at d q) i ≡ some b)
unfolding write_part open_file pwrite
write_part_back d root h src len off i b gapless q e =
    let p = data_part_path root h (off / k_max_part_size) in
    let n = room (d.refuse Syscall.sys_full p) len in
    let few = room_le (d.refuse Syscall.sys_full p) len in
    let new = write_bytes (old_file d p) src n (off % k_max_part_size) in
    ground (
      arith,
      find-put text_discrete p q new d.files,
      find-put text_discrete p q new (put text_discrete p empty_file d.files),
      find-put text_discrete p q empty_file d.files,
      find-put text_discrete p p empty_file d.files,
      few,
      byte_of-write_bytes_back (old_file d p) src n (off % k_max_part_size) i b gapless,
    )

-- A filled object's file reaches up to the part's offset.
size_of_byte :
    (o : Option File) (i b : ℕ) → byte_of o i ≡ some b → i < (Option.get_or o empty_file).size
size_of_byte none i b e = absurd (cc)
size_of_byte (some f) i b e = ground arith

Filled-gapless :
    (d : Disk) (root h : Text) (off : ℕ)
    → Filled d root h off
    → off % k_max_part_size ≤ (old_file d (data_part_path root h (off / k_max_part_size))).size
Filled-gapless d root h off filled = elim (ℕ_discrete (off % k_max_part_size) 0) [
  | yes start ↦ omega (arith, start)
  | no inside ↦
      let (b, e) = filled (off - 1) (omega arith) in
      let part : (off - 1) / k_max_part_size ≡ off / k_max_part_size = omega arith in
      omega (arith, size_of_byte _ ((off - 1) % k_max_part_size) b (rw part at e))
]

-- A write within one part of bytes of the file `src`, whatever its outcome, leaves an object with
-- bytes of `src` only, if it had only such bytes and none was missing below the offset.
pub write-Coherent :
    (d : Disk) (root h : Text) (buf src : Bytes) (len off : ℕ)
    → InPart len off
    → Coherent d root h src
    → Filled d root h off
    → ((i : ℕ) → i < len → buf i ≡ src (off + i))
    → Coherent (write d root h buf len off).0 root h src
unfolding write
write-Coherent d root h buf src len off fits coherent filled right o b e =
    elim (write_part_back (ensure_shard_dirs d root h) root h buf len off (o % k_max_part_size) b
      (rw (ensure_shard_dirs-file_at d root h (data_part_path root h (off / k_max_part_size)))
        (Filled-gapless d root h off filled))
      (data_part_path root h (o / k_max_part_size)) e) [
        | inl (same, low, high, v) ↦
            let part = (data_part_path_injective root h h refl _ _ same).1 in
            let i = o % k_max_part_size - off % k_max_part_size in
            let there : off + i ≡ o = omega (arith, part) in
            v ∙ (right i (omega arith) ∙ ap src there)
        | inr kept ↦ coherent o b (
            rw (ensure_shard_dirs-file_at d root h (data_part_path root h (o / k_max_part_size))) at
              kept)
      ]

-- A write of the whole range keeps every byte that an object has, though it may overwrite it.
pub write-present :
    (d : Disk) (root h : Text) (buf : Bytes) (len off o : ℕ)
    → InPart len off
    → (write d root h buf len off).1 ≡ pos len
    → (b : ℕ) × (object_byte d root h o ≡ some b)
    → (b : ℕ) × (object_byte (write d root h buf len off).0 root h o ≡ some b)
write-present d root h buf len off o fits done (b, e) = elim (dec_lt o off) [
  | yes before ↦ (b, write-KeepsByte d root h buf len off h o fits refl (inr (inl before)) b e)
  | no ge ↦ elim (dec_lt o (off + len)) [
    | yes inside ↦
        let back : off + (o - off) ≡ o = omega arith in
        (
          buf (o - off),
          rw back at ((write-Holds d root h buf len off len fits done).1 (o - off) (omega arith)),
        )
    | no after ↦
        (b, write-KeepsByte d root h buf len off h o fits refl (inr (inr (omega arith))) b e)
  ]
]
