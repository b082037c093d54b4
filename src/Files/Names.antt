-- ===== src/Files/Names.antt =====
-- A path that is joined from a directory and a name comes apart again.
use cache_system_with_fuse.Files.{slash, has_slash, parent, above, filename}
use cache_system_with_fuse.Base.{
  ℕ, zero, suc, ◌≤◌, ◌≡◌, refl, true, false, [], ◌∷◌, ◌++◌, arith, length, take, drop, Text,
}

abbrev pub NoSlash : Text → Type 0
NoSlash s = has_slash s ≡ false

has_slash_join : (d n : Text) → has_slash (d ++ slash ∷ n) ≡ true
unfolding has_slash
has_slash_join [] n = refl
has_slash_join (c ∷ d) n = ground (arith, has_slash_join d n)

length-parent_le : (p : Text) → length (parent p) ≤ length p
unfolding parent
length-parent_le [] = omega arith
length-parent_le (c ∷ p) = ground (arith, length-parent_le p)

-- A directory above a path is no longer than the path.
pub length-above_le : (k : ℕ) (p : Text) → length (above k p) ≤ length p
unfolding above
length-above_le zero p = omega arith
length-above_le (suc k) p = omega (arith, length-above_le k (parent p), length-parent_le p)

pub has_slash-append : (s t : Text) → NoSlash s → NoSlash t → NoSlash (s ++ t)
unfolding has_slash
has_slash-append [] t hs ht = ht
has_slash-append (c ∷ s) t hs ht = ground (arith, has_slash-append s t)

pub parent_join : (d n : Text) → NoSlash n → parent (d ++ slash ∷ n) ≡ d
unfolding parent
parent_join [] n h = rw h
parent_join (c ∷ d) n h = rw (has_slash_join d n, parent_join d n h)

pub filename_join : (d n : Text) → NoSlash n → filename (d ++ slash ∷ n) ≡ n
unfolding filename
filename_join [] n h = rw h
filename_join (c ∷ d) n h = rw (has_slash_join d n, filename_join d n h)

pub NoSlash-take : (k : ℕ) (s : Text) → NoSlash s → NoSlash (take k s)
unfolding has_slash
NoSlash-take zero s h = refl
NoSlash-take (suc k) [] h = refl
NoSlash-take (suc k) (c ∷ s) h = ground (arith, NoSlash-take k s)

pub NoSlash-drop : (k : ℕ) (s : Text) → NoSlash s → NoSlash (drop k s)
unfolding has_slash
NoSlash-drop zero s h = h
NoSlash-drop (suc k) [] h = refl
NoSlash-drop (suc k) (c ∷ s) h = NoSlash-drop k s (ground arith)
