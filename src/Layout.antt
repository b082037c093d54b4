-- ===== src/Layout.antt =====
-- cache/fs_layout.h: the names of the files that hold a cached object.
pub mod Decimal
pub mod Paths
use cache_system_with_fuse.Base.{
  ℕ, zero, suc, ◌+◌, ◌-◌, ◌*◌, ◌/◌, ◌%◌, ◌^◌, ◌≤◌, ◌<◌, min, max, ◌≡◌, refl, sym, ap, subst, ◌∙◌,
  ◌≢◌, ◌↔◌, ◌⊎◌, inl, inr, ite, if_pos, if_neg, Bool, true, false, ◌&&◌, ◌||◌, not, Option, none,
  some, List, [], ◌∷◌, ◌++◌, map, arith, dec_lt, dec_le, ℕ_discrete, ltb, leb, ◌==◌, if◌then◌else◌,
  ltb→lt, lt→ltb, ==_iff, Bool-cases, Option-cases, ℤ, pos, negsuc, neg, is_negative, to_ℕ, length,
  get_or, set, take, drop, replicate, length-append, length-set, length-replicate, get_or-set_self,
  get_or-set_ne, get_or-append_left, get_or_past, Text, codes, text_discrete, find, put, erase,
  find-put, find-erase, table_laws, keys, has, Table, Bytes, memcpy, Agree, bit_or_disjoint,
}

-- `kMaxPartSize`.
abbrev pub k_max_part_size : ℕ
k_max_part_size = 2 * 1024 * 1024 * 1024

-- `kFilesPerDir`, which nothing reads.
abbrev pub k_files_per_dir : ℕ
k_files_per_dir = 256

-- `s.substr(pos, n)`, for a position within the text.
abbrev pub substr : Text → ℕ → ℕ → Text
substr s start n = take n (drop start s)

-- `std::to_string`: the digits of a number; `fuel` bounds their count.
unfoldable pub digits_of : ℕ → ℕ → Text
digits_of zero n = []
digits_of (suc fuel) n =
    let more = digits_of fuel (n / 10) in
    if ltb n 10 then (48 + n) ∷ [] else more ++ (48 + n % 10) ∷ []

unfoldable pub to_string : ℕ → Text
unfolding digits_of
to_string n = digits_of (suc n) n

unfoldable pub shard_dir : Text → Text
shard_dir hash_hex = substr hash_hex 0 2 ++ codes "/" ++ substr hash_hex 2 2

unfoldable pub data_part_path : Text → Text → ℕ → Text
data_part_path cache_root hash_hex part_idx =
    cache_root
    ++ (codes "/"
        ++ (shard_dir hash_hex
            ++ (codes "/" ++ (hash_hex ++ (codes "." ++ (to_string part_idx ++ codes ".blk"))))))

unfoldable pub bitmap_path : Text → Text → ℕ → Text
bitmap_path cache_root hash_hex part_idx =
    cache_root
    ++ (codes "/"
        ++ (shard_dir hash_hex
            ++ (codes "/" ++ (hash_hex ++ (codes "." ++ (to_string part_idx ++ codes ".dmap"))))))
