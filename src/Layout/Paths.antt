-- ===== src/Layout/Paths.antt =====
-- The paths of cache/fs_layout.h, taken apart again.
use mathlib.Core.List.{append_cancel_left, append_cancel_right}
use cache_system_with_fuse.Layout.{shard_dir, data_part_path, bitmap_path}
use cache_system_with_fuse.Layout.Decimal.{to_string_injective}
use cache_system_with_fuse.Base.{ℕ, ◌≡◌, refl, List, [], ◌∷◌, ◌++◌, arith, length, Text, codes}

module _ {ℓ} {A : Type ℓ} where
  -- Equal lists whose front parts have one length agree in both parts.
  append_inj :
      (xs ys us vs : List A) → length xs ≡ length ys → xs ++ us ≡ ys ++ vs → (xs ≡ ys) × (us ≡ vs)
  append_inj [] [] us vs h e = (refl, e)
  append_inj [] (y ∷ ys) us vs h e = absurd (omega arith)
  append_inj (x ∷ xs) [] us vs h e = absurd (omega arith)
  append_inj (x ∷ xs) (y ∷ ys) us vs h e =
      let (p, q) = append_inj xs ys us vs (omega arith) (cc) in (cc, q)

-- Only the length of the hash decides the length of its shard directory.
length-shard_dir : (g h : Text) → length g ≡ length h → length (shard_dir g) ≡ length (shard_dir h)
unfolding shard_dir
length-shard_dir [] [] e = refl
length-shard_dir (a ∷ []) (b ∷ []) e = refl
length-shard_dir (a ∷ a' ∷ []) (b ∷ b' ∷ []) e = refl
length-shard_dir (a ∷ a' ∷ c ∷ []) (b ∷ b' ∷ d ∷ []) e = refl
length-shard_dir (a ∷ a' ∷ c ∷ c' ∷ g) (b ∷ b' ∷ d ∷ d' ∷ h) e = refl
length-shard_dir g h e = absurd (omega arith)

module _ (root g h : Text) (same_length : length g ≡ length h) where
  -- What follows the object's directory.
  after_shard :
      (s t : Text)
      → root ++ (codes "/" ++ (shard_dir g ++ (codes "/" ++ (g ++ s))))
        ≡ root ++ (codes "/" ++ (shard_dir h ++ (codes "/" ++ (h ++ t))))
      → (g ≡ h) × (s ≡ t)
  after_shard s t e =
      let inner = append_cancel_left (codes "/") _ _ (append_cancel_left root _ _ e) in
      let (_, tail) =
        append_inj (shard_dir g) (shard_dir h) _ _ (length-shard_dir g h same_length) inner in
      append_inj g h s t same_length (append_cancel_left (codes "/") _ _ tail)

  -- Under one cache root, for hashes of one length, the path of a part's file determines the hash
  -- and the number of the part.
  pub data_part_path_injective :
      (i j : ℕ) → data_part_path root g i ≡ data_part_path root h j → (g ≡ h) × (i ≡ j)
  unfolding data_part_path
  data_part_path_injective i j e =
      let (same, rest) = after_shard _ _ e in
      let named =
        append_cancel_right _ _ (codes ".blk") (append_cancel_left (codes ".") _ _ rest) in
      (same, to_string_injective i j named)

  -- Under one cache root, for hashes of one length, the path of a part's bitmap determines the
  -- hash and the number of the part.
  pub bitmap_path_injective :
      (i j : ℕ) → bitmap_path root g i ≡ bitmap_path root h j → (g ≡ h) × (i ≡ j)
  unfolding bitmap_path
  bitmap_path_injective i j e =
      let (same, rest) = after_shard _ _ e in
      let named =
        append_cancel_right _ _ (codes ".dmap") (append_cancel_left (codes ".") _ _ rest) in
      (same, to_string_injective i j named)
