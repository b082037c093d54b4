-- ===== src/Bitmap/RoundTrip.antt =====
-- A bitmap that is persisted and loaded again.
use cache_system_with_fuse.Files.{
  File, Disk, sys_open, sys_read, file_at, open_file, pread, pwrite, write_bytes, truncate,
  create_directories, parent, empty_file,
}
use cache_system_with_fuse.Layout.{bitmap_path}
use cache_system_with_fuse.Bitmap.{
  BitVec, Bitmaps, bits_of, put_bits, resize, pack, store_bytes, persist_bitmap, unpack, list_of,
  load_bitmap,
}
use cache_system_with_fuse.Bitmap.Mark.{length-resize, bits_of-put_bits}
use cache_system_with_fuse.Bitmap.Pack.{bit_at-pack}
use cache_system_with_fuse.Bitmap.Unpack.{get_or-unpack}
use cache_system_with_fuse.Base.{
  ℕ, ◌+◌, ◌-◌, ◌*◌, ◌/◌, ◌≤◌, ◌<◌, min, ◌≡◌, refl, ap, ◌∙◌, inl, inr, if_pos, Bool, true, false,
  none, some, ◌∷◌, arith, dec_lt, ℕ_discrete, ltb, if◌then◌else◌, Option-cases, length, get_or,
  replicate, Text, text_discrete, put, find-put, Bytes, memcpy,
}

-- The bytes of the file of a vector, and how many of them `loadBitmap` reads back.
abbrev pub file_bytes : BitVec → ℕ
file_bytes bits = (length bits + 7) / 8

abbrev pub loaded_bytes : BitVec → ℕ
loaded_bytes bits = (file_bytes bits + 7) / 8

store_bytes-file_at :
    (d : Disk) (p : Text) (bytes : Bytes) (size : ℕ)
    → (store_bytes d p bytes size).1 ≡ true
    → file_at (store_bytes d p bytes size).0 p ≡ some (write_bytes empty_file bytes size 0)
unfolding store_bytes open_file truncate pwrite
store_bytes-file_at d p bytes size e =
    let new = write_bytes empty_file bytes size 0 in
    ground (
      arith,
      find-put text_discrete p p empty_file d.files,
      find-put text_discrete p p empty_file (put text_discrete p empty_file d.files),
      find-put text_discrete p p new (put text_discrete p empty_file d.files),
      find-put text_discrete p p new
          (put text_discrete p empty_file (put text_discrete p empty_file d.files)),
    )

-- What `loadBitmap` makes of a file.
load_bitmap-file :
    (d : Disk) (root : Text) (m : Bitmaps) (h : Text) (part : ℕ) (f : File)
    → file_at d (bitmap_path root h part) ≡ some f
    → d.refuse sys_open (bitmap_path root h part) ≡ none
    → d.refuse sys_read (bitmap_path root h part) ≡ none
    → let count = (f.size + 7) / 8 in
      load_bitmap d root m h part ≡ (
        put_bits m h part (
            unpack
              (list_of count 0 (memcpy (λ i. 0) 0 f.byte 0 (min count (f.size - 0))))
              0
              (resize (bits_of m h part) (count * 8))),
        true,
      )
unfolding load_bitmap open_file pread
load_bitmap-file d root m h part f at may_open may_read = ground arith

file_size : (bytes : Bytes) (size : ℕ) → (write_bytes empty_file bytes size 0).size ≡ size
unfolding write_bytes
file_size bytes size = ground arith

file_byte :
    (bytes : Bytes) (size count k : ℕ)
    → k < count
    → count ≤ size
    → memcpy (λ i. 0) 0 (write_bytes empty_file bytes size 0).byte 0 (min count (size - 0)) k
      ≡ bytes k
unfolding write_bytes memcpy
file_byte bytes size count k lt le =
    let back : k - 0 ≡ k = omega arith in
    let plus : 0 + k ≡ k = omega arith in rw (back, plus, back, plus) (ground arith)

module _ (root h : Text) (part : ℕ) (bit : Bool) (bits : BitVec) where
  all_bits : BitVec
  all_bits = bit ∷ bits

  packed : ℕ → ℕ
  packed i = get_or (pack 0 (bit ∷ bits) (replicate (file_bytes (bit ∷ bits)) 0)) i 0

  -- A successful `persistBitmap` leaves a file of exactly the packed bytes.
  persisted :
      (d d' : Disk)
      → persist_bitmap d root h part (bit ∷ bits) ≡ some (d', true)
      → file_at d' (bitmap_path root h part)
        ≡ some (write_bytes empty_file packed (file_bytes (bit ∷ bits)) 0)
  unfolding persist_bitmap packed
  persisted d d' e = elim (Option-cases (create_directories d (parent (bitmap_path root h part)))) [
    | inl p ↦ ground (arith, e, p)
    | inr (d₁, p) ↦
        let p' = bitmap_path root h part in
        ground (arith, e, p, store_bytes-file_at d₁ p' packed (file_bytes (bit ∷ bits)))
  ]

  -- Where `persistBitmap` of a bitmap with at least one bit succeeded, and the system refuses
  -- neither to open nor to read the file, `loadBitmap` succeeds, and of the bits it leaves in
  -- memory those in the first (file size + 7) / 8 bytes of the file are the persisted ones; every
  -- later bit is clear, whatever was persisted.
  pub load-persist :
      (d d' : Disk) (m : Bitmaps)
      → persist_bitmap d root h part (bit ∷ bits) ≡ some (d', true)
      → d'.refuse sys_open (bitmap_path root h part) ≡ none
      → d'.refuse sys_read (bitmap_path root h part) ≡ none
      → let r = load_bitmap d' root m h part in
        (r.1 ≡ true)
        × ((j : ℕ)
            → get_or (bits_of r.0 h part) j false ≡ (
                if ltb j (loaded_bytes (bit ∷ bits) * 8)
                then get_or (bit ∷ bits) j false
                else false))
  unfolding packed
  load-persist d d' m saved may_open may_read = (ap (λ r. r.1) loaded, each)
    where
      size : ℕ
      size = file_bytes (bit ∷ bits)

      file : File
      file = write_bytes empty_file packed size 0

      buf : ℕ → Bytes
      buf n = memcpy (λ i. 0) 0 file.byte 0 (min n (size - 0))

      loaded : load_bitmap d' root m h part ≡ (
        put_bits m h part (
            unpack
              (list_of ((size + 7) / 8) 0 (buf ((size + 7) / 8)))
              0
              (resize (bits_of m h part) ((size + 7) / 8 * 8))),
        true,
      )
      loaded =
          rw (file_size packed size) at
            (load_bitmap-file d' root m h part file (persisted d d' saved) may_open may_read)

      each :
          (j : ℕ)
          → get_or (bits_of (load_bitmap d' root m h part).0 h part) j false
            ≡ (if ltb j (loaded_bytes (bit ∷ bits) * 8) then get_or (bit ∷ bits) j false else false)
      each j =
          let n = (size + 7) / 8 in
          let vec = resize (bits_of m h part) (n * 8) in
          let new = unpack (list_of n 0 (buf n)) 0 vec in
          rw
            (
              loaded,
              bits_of-put_bits m h h part part new,
              if_pos (text_discrete h h) refl,
              if_pos (ℕ_discrete part part) refl,
            )
            (get_or-unpack n (buf n) vec j (length-resize (bits_of m h part) (n * 8))
              ∙ elim (dec_lt j (n * 8)) [
                | yes lt ↦
                    rw (file_byte packed size n (j / 8) (omega arith) (omega arith))
                      (ground (arith, bit_at-pack (bit ∷ bits) j))
                | no ge ↦ ground arith
              ])
