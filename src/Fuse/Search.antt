-- ===== src/Fuse/Search.antt =====
-- The searches that `std::string` offers. A position is given by the text from there on.
use cache_system_with_fuse.BlockStore.{has_prefix}
use cache_system_with_fuse.Base.{ℕ, Bool, Option, none, some, [], ◌∷◌, ◌==◌, if◌then◌else◌, Text}

-- `s.find(pattern)`: the text from the first occurrence on.
unfoldable pub find_text : Text → Text → Option Text
unfolding has_prefix
find_text pattern [] = if has_prefix pattern [] then some [] else none
find_text pattern (c ∷ s) = if has_prefix pattern (c ∷ s) then some (c ∷ s) else find_text pattern s

-- `s.find(c)`: what stands before the first such character, and after it.
unfoldable pub find_char : ℕ → Text → Option (Text × Text)
find_char c [] = none
find_char c (b ∷ s) =
    if b == c
    then some ([], s)
    else elim (find_char c s) [ none ↦ none | some (before, after) ↦ some (b ∷ before, after) ]

-- The text without the characters at its start that pass a test, and those characters.
unfoldable pub skip_while : (ℕ → Bool) → Text → Text
skip_while f [] = []
skip_while f (c ∷ s) = if f c then skip_while f s else c ∷ s

unfoldable pub take_while : (ℕ → Bool) → Text → Text
take_while f [] = []
take_while f (c ∷ s) = if f c then c ∷ take_while f s else []
