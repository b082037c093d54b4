-- ===== src/Tests/Bitmaps.antt =====
-- A bitmap of three blocks.
use cache_system_with_fuse.Tests.{root, disk, name}
use cache_system_with_fuse.Files.{
  room, Disk, slash, open_file, pwrite, create_directories, make_dirs, truncate, parent, has_slash,
  has_text,
}
use cache_system_with_fuse.Layout.{bitmap_path, shard_dir, to_string, digits_of}
use cache_system_with_fuse.Bitmap.{
  BitVec, bits_of, mark_dirty_block, pack, store_bytes, persist_bitmap, load_bitmap,
}
use cache_system_with_fuse.Bitmap.Mark.{mark_dirty_block_lem}
use cache_system_with_fuse.Bitmap.Pack.{bit_at, bit_at-pack}
use cache_system_with_fuse.Bitmap.RoundTrip.{loaded_bytes, load-persist}
use cache_system_with_fuse.Manager.{hash_hex, hex_digits, hex_digit}
use cache_system_with_fuse.Base.{
  ℕ, ◌+◌, ◌*◌, ◌/◌, max, ◌≡◌, refl, ◌≢◌, ◌⊎◌, true, false, ◌||◌, none, some, [], ◌∷◌, ◌++◌, ltb,
  ◌==◌, if◌then◌else◌, length, get_or, replicate, Text, text_discrete, find, put,
}

abbrev three_bits : BitVec
three_bits = true ∷ false ∷ true ∷ []

bit_at-pack_example :
    bit_at (pack 0 three_bits (replicate ((length three_bits + 7) / 8) 0)) 2
    ≡ get_or three_bits 2 false
bit_at-pack_example = bit_at-pack three_bits 2

mark_dirty_block_example :
    let m' = mark_dirty_block [] name 0 3 in
    ((j : ℕ) → get_or (bits_of m' name 0) j false ≡ (3 == j || get_or (bits_of [] name 0) j false))
    × (length (bits_of m' name 0) ≡ max (length (bits_of [] name 0)) (3 + 1))
    × ((g : Text) (q : ℕ) → (name ≢ g) ⊎ (0 ≢ q) → bits_of m' g q ≡ bits_of [] g q)
mark_dirty_block_example = mark_dirty_block_lem [] name 0 3

-- A disk with the directory of the object, and what saving the bitmap makes of it.
abbrev with_dir : Disk
with_dir = record disk { dirs = (root ++ slash ∷ shard_dir name) ∷ root ∷ [] }

abbrev saved : Disk
saved =
    (store_bytes with_dir (bitmap_path root name 0)
      (λ i. get_or (pack 0 three_bits (replicate 1 0)) i 0) 1).0

saved_lem : persist_bitmap with_dir root name 0 three_bits ≡ some (saved, true)
unfolding persist_bitmap create_directories make_dirs store_bytes open_file truncate pwrite room
    parent has_slash has_text text_discrete bitmap_path shard_dir to_string digits_of hash_hex
    hex_digits hex_digit find put
saved_lem = refl

saved_may : (c : _) (p : Text) → saved.refuse c p ≡ none
unfolding store_bytes open_file truncate pwrite parent has_slash has_text text_discrete bitmap_path
    shard_dir to_string digits_of hash_hex hex_digits hex_digit find put
saved_may c p = refl

load-persist_example :
    let r = load_bitmap saved root [] name 0 in
    (r.1 ≡ true)
    × ((j : ℕ)
        → get_or (bits_of r.0 name 0) j false
          ≡ (if ltb j (loaded_bytes three_bits * 8) then get_or three_bits j false else false))
load-persist_example =
    load-persist root name 0 true (false ∷ true ∷ []) with_dir saved [] saved_lem (saved_may _ _)
      (saved_may _ _)
