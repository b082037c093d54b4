-- ===== src/Bitmap.antt =====
-- The bitmaps of dirty blocks in cache/policy/metadata/metadata_store.cc: one `BitVec` for each part
-- of an object, kept in memory and in a file beside the part.
pub mod Bits
pub mod Mark
pub mod Pack
pub mod Unpack
pub mod RoundTrip
use Prim.Native.Nat.{bit_and, bit_or}
use cache_system_with_fuse.Files.{
  File, Disk, failed, opened, file_at, open_file, pread, pwrite, parent, create_directories,
  truncate,
}
use cache_system_with_fuse.Layout.{bitmap_path}
use cache_system_with_fuse.Base.{
  ℕ, zero, suc, ◌+◌, ◌-◌, ◌*◌, ◌/◌, ◌%◌, ◌^◌, ◌≤◌, ◌<◌, min, max, ◌≡◌, refl, sym, ap, subst, ◌∙◌,
  ◌≢◌, ◌↔◌, ◌⊎◌, inl, inr, ite, if_pos, if_neg, Bool, true, false, ◌&&◌, ◌||◌, not, Option, none,
  some, List, [], ◌∷◌, ◌++◌, map, arith, dec_lt, dec_le, ℕ_discrete, ltb, leb, ◌==◌, if◌then◌else◌,
  ltb→lt, lt→ltb, ==_iff, Bool-cases, Option-cases, ℤ, pos, negsuc, neg, is_negative, to_ℕ,
  is_count, length, get_or, set, take, drop, replicate, length-append, length-set, length-replicate,
  get_or-set_self, get_or-set_ne, get_or-append_left, get_or_past, Text, codes, text_discrete, find,
  put, erase, find-put, find-erase, table_laws, keys, has, Table, Bytes, memcpy, Agree,
  bit_or_disjoint,
}

abbrev pub BitVec : Type 0
BitVec = List Bool

-- `bitmap_`.
abbrev pub Bitmaps : Type 0
Bitmaps = Table Text (Table ℕ BitVec)

-- `bitmap_[hash_hex][part_idx]`, which adds an empty vector under a new key.
unfoldable pub bits_of : Bitmaps → Text → ℕ → BitVec
bits_of m hash_hex part_idx = elim (find text_discrete hash_hex m) [
  | none ↦ []
  | some parts ↦ elim (find ℕ_discrete part_idx parts) [ none ↦ [] | some bits ↦ bits ]
]

unfoldable pub put_bits : Bitmaps → Text → ℕ → BitVec → Bitmaps
put_bits m hash_hex part_idx bits =
    put text_discrete hash_hex
      (put ℕ_discrete part_idx bits
        (elim (find text_discrete hash_hex m) [ none ↦ [] | some t ↦ t ]))
      m

-- `vec.resize(n, false)`.
unfoldable pub resize : BitVec → ℕ → BitVec
resize bits n = take n bits ++ replicate (n - length bits) false

unfoldable pub mark_bit : BitVec → ℕ → BitVec
mark_bit bits block_idx =
    set (if leb (length bits) block_idx then resize bits (block_idx + 1) else bits) block_idx true

unfoldable pub mark_dirty_block : Bitmaps → Text → ℕ → ℕ → Bitmaps
mark_dirty_block m hash_hex part_idx block_idx =
    put_bits m hash_hex part_idx (mark_bit (bits_of m hash_hex part_idx) block_idx)

-- `x | (1u << b)` stored in a byte, and `x & (1u << b)` as a condition.
unfoldable pub set_bit : ℕ → ℕ → ℕ
set_bit x b = bit_or x (2 ^ b) % 256

unfoldable pub test_bit : ℕ → ℕ → Bool
test_bit x b = not (bit_and x (2 ^ b) == 0)

-- The packing loop of `persistBitmap`, from bit `i` on.
unfoldable pub pack : ℕ → BitVec → List ℕ → List ℕ
pack i [] bytes = bytes
pack i (bit ∷ bits) bytes =
    pack (i + 1) bits
      (if bit then set bytes (i / 8) (set_bit (get_or bytes (i / 8) 0) (i % 8)) else bytes)

-- The last lines of `persistBitmap`: open and truncate the file, and write all of it.
unfoldable pub store_bytes : Disk → Text → Bytes → ℕ → Disk × Bool
store_bytes d path bytes size = elim (open_file d path true) [
  | failed e ↦ (d, false)
  | opened d' ↦ let r = pwrite (truncate d' path) path bytes size 0 in (r.1, is_count r.0 size)
]

-- `persistBitmap`: the disk and the result, or the exception of `fs::create_directories`.
unfoldable pub persist_bitmap : Disk → Text → Text → ℕ → BitVec → Option (Disk × Bool)
persist_bitmap d cache_root hash_hex part_idx [] = some (d, true)
persist_bitmap d cache_root hash_hex part_idx (bit ∷ bits) =
    let path = bitmap_path cache_root hash_hex part_idx in
    let size = (length (bit ∷ bits) + 7) / 8 in
    let bytes = pack 0 (bit ∷ bits) (replicate size 0) in
    elim (create_directories d (parent path)) [
      | none ↦ none
      | some d' ↦ some (store_bytes d' path (λ i. get_or bytes i 0) size)
    ]

-- The loop of `flushBitmaps` over the parts of an object.
unfoldable pub persist_parts : Disk → Text → Text → Table ℕ BitVec → Bool → Option (Disk × Bool)
persist_parts d cache_root hash_hex [] ok = some (d, ok)
persist_parts d cache_root hash_hex ((part_idx, bits) ∷ parts) ok =
    elim (persist_bitmap d cache_root hash_hex part_idx bits) [
      | none ↦ none
      | some (d', done) ↦ persist_parts d' cache_root hash_hex parts (ok && done)
    ]

unfoldable pub flush_bitmaps : Disk → Text → Bitmaps → Text → Option (Disk × Bool)
flush_bitmaps d cache_root m hash_hex = elim (find text_discrete hash_hex m) [
  | none ↦ some (d, true)
  | some parts ↦ persist_parts d cache_root hash_hex parts true
]

-- The inner loop of `loadBitmap`: `rounds` bits of byte `i`, from bit `b` on.
unfoldable pub unpack_byte : ℕ → ℕ → ℕ → ℕ → BitVec → BitVec
unpack_byte zero b i byte bits = bits
unpack_byte (suc rounds) b i byte bits =
    unpack_byte rounds (b + 1) i byte (set bits (i * 8 + b) (test_bit byte b))

unfoldable pub unpack : List ℕ → ℕ → BitVec → BitVec
unpack [] i bits = bits
unpack (byte ∷ bytes) i bits = unpack bytes (i + 1) (unpack_byte 8 0 i byte bits)

-- The first `n` bytes of a buffer, from index `i` on.
unfoldable pub list_of : ℕ → ℕ → Bytes → List ℕ
list_of zero i buf = []
list_of (suc n) i buf = buf i ∷ list_of n (i + 1) buf

-- `loadBitmap`.
unfoldable pub load_bitmap : Disk → Text → Bitmaps → Text → ℕ → Bitmaps × Bool
load_bitmap d cache_root m hash_hex part_idx =
    let path = bitmap_path cache_root hash_hex part_idx in
    elim (file_at d path) [
      | none ↦ (m, true)
      | some f ↦ elim (open_file d path false) [
        | failed e ↦ (m, false)
        | opened d' ↦
            let count = (f.size + 7) / 8 in
            let r = pread d' path (λ i. 0) count 0 in
            if is_negative r.0 then (m, false) else (
              put_bits m hash_hex part_idx (
                  unpack (list_of count 0 r.1) 0
                    (resize (bits_of m hash_hex part_idx) (count * 8))),
              true,
            )
      ]
    ]
