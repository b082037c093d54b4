-- ===== src/BlockStore/Reads.antt =====
-- `BlockStore::read` against the bytes of the object, also after a write.
use cache_system_with_fuse.Files.{File, Disk, opened, sys_open, sys_read, file_at, open_file, pread}
use cache_system_with_fuse.Layout.{k_max_part_size, data_part_path}
use cache_system_with_fuse.BlockStore.{read, write}
use cache_system_with_fuse.BlockStore.Contents.{byte_of, object_byte, InPart, Holds}
use cache_system_with_fuse.BlockStore.Transfer.{within_part, pread_lem, write-Holds, write-refuse}
use cache_system_with_fuse.Base.{
  ℕ, ◌+◌, ◌-◌, ◌/◌, ◌%◌, ◌≤◌, ◌<◌, min, ◌≡◌, refl, sym, ap, ◌∙◌, false, Option, none, some, arith,
  dec_lt, pos, Text, Bytes, Agree,
}

none≢some {ℓ} : {A : Type ℓ} {a : A} → ¬ (none ≡ some a)
none≢some e = cc

-- Without `O_CREAT` an `open` changes nothing.
open_file_same : (d d' : Disk) (p : Text) → open_file d p false ≡ opened d' → d' ≡ d
unfolding open_file
open_file_same d d' p e = ground arith

read-pread :
    (d : Disk) (root h : Text) (buf : Bytes) (len off n : ℕ)
    → (read d root h buf len off).0 ≡ pos n
    → read d root h buf len off
      ≡ pread d (data_part_path root h (off / k_max_part_size)) buf len (off % k_max_part_size)
unfolding read open_file
read-pread d root h buf len off n e = ground arith

-- A read within one part that returns n delivers n bytes of the object, at most as many as asked
-- for, and stops short only where the object has no byte.
pub read-object_byte :
    (d : Disk) (root h : Text) (buf : Bytes) (len off n : ℕ)
    → InPart len off
    → (read d root h buf len off).0 ≡ pos n
    → (n ≤ len)
      × Holds d root h (read d root h buf len off).1 n off
      × (n < len → object_byte d root h (off + n) ≡ none)
read-object_byte d root h buf len off n fits e =
    let p = data_part_path root h (off / k_max_part_size) in
    let same = read-pread d root h buf len off n e in
    let counted = rw same at e in
    let facts = pread_lem d p buf len (off % k_max_part_size) n in
    let bound : n ≤ len = (facts 0 counted).0 in
    (
      bound,
      λ i lt.
          let (part, rest) = within_part len off i fits (omega arith) in
          rw (same, part, rest) ((facts i counted).1 lt),
      λ lt.
          let (part, rest) = within_part len off n fits lt in
          rw (part, rest) ((facts 0 counted).2 lt),
    )

file_of_byte : (o : Option File) (i b : ℕ) → byte_of o i ≡ some b → (f : File) × (o ≡ some f)
file_of_byte none i b e = cc
file_of_byte (some f) i b e = (f, refl)

read-count :
    (d : Disk) (root h : Text) (buf : Bytes) (len off : ℕ) (f : File)
    → let p = data_part_path root h (off / k_max_part_size) in
      d.refuse sys_open p ≡ none
      → d.refuse sys_read p ≡ none
      → file_at d p ≡ some f
      → (read d root h buf len off).0 ≡ pos (min len (f.size - off % k_max_part_size))
unfolding read open_file pread
read-count d root h buf len off f may_open may_read e = ground arith

-- A read of a range that the object holds cannot stop short.
read_of_Holds_count :
    (d : Disk) (root h : Text) (src buf : Bytes) (len off n : ℕ)
    → InPart len off
    → Holds d root h src len off
    → (read d root h buf len off).0 ≡ pos n
    → (n ≡ len) × Agree len (read d root h buf len off).1 src
read_of_Holds_count d root h src buf len off n fits held counted = (all, same)
  where
    all : n ≡ len
    all =
        let (bound, _, short) = read-object_byte d root h buf len off n fits counted in
        elim (dec_lt n len) [
          | yes lt ↦ absurd (none≢some (sym (short lt) ∙ held n lt))
          | no ge ↦ omega arith
        ]

    same : Agree len (read d root h buf len off).1 src
    same i lt =
        let (_, read_bytes, _) = read-object_byte d root h buf len off n fits counted in
        cc (read_bytes i (omega (arith, all)), held i lt)

-- A range that an object holds whole is read whole, unless the system refuses.
pub read_of_Holds :
    (d : Disk) (root h : Text) (src buf : Bytes) (len off : ℕ)
    → InPart len off
    → 0 < len
    → d.refuse sys_open (data_part_path root h (off / k_max_part_size)) ≡ none
    → d.refuse sys_read (data_part_path root h (off / k_max_part_size)) ≡ none
    → Holds d root h src len off
    → ((read d root h buf len off).0 ≡ pos len) × Agree len (read d root h buf len off).1 src
read_of_Holds d root h src buf len off fits some_bytes may_open may_read held =
    let p = data_part_path root h (off / k_max_part_size) in
    let start : off + 0 ≡ off = omega arith in
    let (f, e) =
      file_of_byte (file_at d p) (off % k_max_part_size) (src 0)
        (rw start at (held 0 some_bytes)) in
    let counted = read-count d root h buf len off f may_open may_read e in
    let (all, same) = read_of_Holds_count d root h src buf len off _ fits held counted in
    (counted ∙ ap pos all, same)

-- Where a write within one part reports n bytes, more than none, and the system refuses neither
-- to open nor to read the part's file, n is at most the length, and a read of n bytes at the same
-- offset on the new disk returns n with the first n bytes of the written buffer, also where the
-- write stopped short.
pub read-write :
    (d : Disk) (root h : Text) (src buf : Bytes) (len off n : ℕ)
    → InPart len off
    → 0 < n
    → d.refuse sys_open (data_part_path root h (off / k_max_part_size)) ≡ none
    → d.refuse sys_read (data_part_path root h (off / k_max_part_size)) ≡ none
    → (write d root h src len off).1 ≡ pos n
    → let d' = (write d root h src len off).0 in
      (n ≤ len) × ((read d' root h buf n off).0 ≡ pos n) × Agree n (read d' root h buf n off).1 src
read-write d root h src buf len off n fits some_bytes may_open may_read wrote =
    let (few, held) = write-Holds d root h src len off n fits wrote in
    let (counted, same) =
      read_of_Holds _ root h src buf n off (fits_less few) some_bytes
        (rw (write-refuse d root h src len off) may_open)
        (rw (write-refuse d root h src len off) may_read) held in
    (few, counted, same)
  where
    fits_less : n ≤ len → InPart n off
    fits_less few = omega (arith, fits)

byte_of_size : (f : File) (i b : ℕ) → byte_of (some f) i ≡ some b → i < f.size
byte_of_size f i b e = ground (arith, e)

-- A read brings each byte that the object has in its range, however far it gets.
pub read_of_byte :
    (d : Disk) (root h : Text) (buf : Bytes) (len off i b : ℕ)
    → InPart len off
    → d.refuse sys_open (data_part_path root h (off / k_max_part_size)) ≡ none
    → d.refuse sys_read (data_part_path root h (off / k_max_part_size)) ≡ none
    → i < len
    → object_byte d root h (off + i) ≡ some b
    → (read d root h buf len off).1 i ≡ b
read_of_byte d root h buf len off i b fits may_open may_read lt e =
    let p = data_part_path root h (off / k_max_part_size) in
    let (part, rest) = within_part len off i fits lt in
    let there : byte_of (file_at d p) (off % k_max_part_size + i) ≡ some b = rw (part, rest) at e in
    let (f, at_p) = file_of_byte (file_at d p) (off % k_max_part_size + i) b there in
    let inside = byte_of_size f (off % k_max_part_size + i) b (rw at_p at there) in
    let counted = read-count d root h buf len off f may_open may_read at_p in
    let (_, holds, _) = read-object_byte d root h buf len off _ fits counted in
    let same : some ((read d root h buf len off).1 i) ≡ some b =
      sym (holds i (omega (arith, inside))) ∙ e in
    ground (arith, same)
