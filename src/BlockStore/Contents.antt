-- ===== src/BlockStore/Contents.antt =====
-- What a store promises: each object is a sequence of bytes, some of them present.
use cache_system_with_fuse.Files.{File, Disk, file_at}
use cache_system_with_fuse.Layout.{k_max_part_size, data_part_path}
use cache_system_with_fuse.Base.{
  ℕ, ◌+◌, ◌/◌, ◌%◌, ◌≤◌, ◌<◌, ◌≡◌, Option, none, some, ltb, if◌then◌else◌, Text, Bytes,
}

abbrev pub byte_of : Option File → ℕ → Option ℕ
byte_of none i = none
byte_of (some f) i = if ltb i f.size then some (f.byte i) else none

-- The byte of an object at an offset, where the store has it.
abbrev pub object_byte : Disk → Text → Text → ℕ → Option ℕ
object_byte d root hash_hex o =
    byte_of (file_at d (data_part_path root hash_hex (o / k_max_part_size))) (o % k_max_part_size)

-- A transfer stays within one part.
abbrev pub InPart : ℕ → ℕ → Type 0
InPart len off = off % k_max_part_size + len ≤ k_max_part_size

-- The object has all the bytes of a range, and they are those of a buffer.
abbrev pub Holds : Disk → Text → Text → Bytes → ℕ → ℕ → Type 0
Holds d root hash_hex buf len off =
    (i : ℕ) → i < len → object_byte d root hash_hex (off + i) ≡ some (buf i)

-- The byte of an object at an offset, if it is present, is still there on another disk.
abbrev pub KeepsByte : Disk → Disk → Text → Text → ℕ → Type 0
KeepsByte d d' root hash_hex o =
    (b : ℕ) → object_byte d root hash_hex o ≡ some b → object_byte d' root hash_hex o ≡ some b
