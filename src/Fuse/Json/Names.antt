-- ===== src/Fuse/Json/Names.antt =====
-- Searches in a text that is put together from pieces.
use cache_system_with_fuse.Layout.Decimal.{AllDigits, is_digit}
use cache_system_with_fuse.BlockStore.{has_prefix}
use cache_system_with_fuse.Fuse.Search.{find_text, find_char, skip_while, take_while}
use cache_system_with_fuse.Fuse.Json.{quote}
use cache_system_with_fuse.Base.{
  ℕ, ◌<◌, ◌≡◌, refl, ◌≢◌, Bool, true, false, ◌&&◌, not, some, [], ◌∷◌, ◌++◌, arith, ◌==◌, length,
  Text,
}

-- A text without a character.
abbrev pub Lacks : ℕ → Text → Type 0
Lacks c [] = Unit {0}
Lacks c (b ∷ s) = (b ≢ c) × Lacks c s

abbrev pub lacks : ℕ → Text → Bool
lacks c [] = true
lacks c (b ∷ s) = not (b == c) && lacks c s

pub lacks-Lacks : (c : ℕ) (s : Text) → lacks c s ≡ true → Lacks c s
lacks-Lacks c [] h = tt
lacks-Lacks c (b ∷ s) h = ((λ e. ground (arith, h, e)), lacks-Lacks c s (ground (arith, h)))

pub AllDigits-Lacks : (c : ℕ) (s : Text) → is_digit c ≡ false → AllDigits s → Lacks c s
AllDigits-Lacks c [] h a = tt
AllDigits-Lacks c (b ∷ s) h a = ((λ e. ground (arith, h, a.0, e)), AllDigits-Lacks c s h a.1)

-- A pattern is not found in a text without its first character.
pub find_text-append :
    (c : ℕ) (key w s : Text) → Lacks c w → find_text (c ∷ key) (w ++ s) ≡ find_text (c ∷ key) s
unfolding find_text has_prefix
find_text-append c key [] s h = refl
find_text-append c key (b ∷ w) s h = ground (arith, h.0, find_text-append c key w s h.1)

-- Two texts without quotes are equal, if one stands with a quote where the other does.
pub has_prefix_quoted :
    (k w s : Text)
    → Lacks quote k
    → Lacks quote w
    → has_prefix (k ++ quote ∷ []) (w ++ (quote ∷ s)) ≡ true
    → w ≡ k
unfolding has_prefix
has_prefix_quoted [] [] s hk hw e = refl
has_prefix_quoted [] (b ∷ w) s hk hw e = absurd (hw.0 (ground (arith, e)))
has_prefix_quoted (c ∷ k) [] s hk hw e = absurd (hk.0 (ground (arith, e)))
has_prefix_quoted (c ∷ k) (b ∷ w) s hk hw e = ground (arith, e, has_prefix_quoted k w s hk.1 hw.1)

pub find_char-append : (c : ℕ) (w s : Text) → Lacks c w → find_char c (w ++ (c ∷ s)) ≡ some (w, s)
unfolding find_char
find_char-append c [] s h = ground arith
find_char-append c (b ∷ w) s h = ground (arith, h.0, find_char-append c w s h.1)

-- The digits at the start of a text, up to another character.
pub take_while_digits :
    (w s : Text) (c : ℕ) → AllDigits w → is_digit c ≡ false → take_while is_digit (w ++ (c ∷ s)) ≡ w
unfolding take_while
take_while_digits [] s c a h = ground (arith, h)
take_while_digits (b ∷ w) s c a h = ground (arith, a.0, take_while_digits w s c a.1 h)

-- Nothing is skipped where the first character is a digit.
pub skip_to_digits :
    (w s : Text) → AllDigits w → 0 < length w → skip_while (λ c. not (is_digit c)) (w ++ s) ≡ w ++ s
unfolding skip_while
skip_to_digits [] s a h = absurd (omega arith)
skip_to_digits (b ∷ w) s a h = rw a.0 refl
