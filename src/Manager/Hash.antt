-- ===== src/Manager/Hash.antt =====
-- `hash_hex` gives names of 16 hexadecimal digits, which read back as the hash.
use cache_system_with_fuse.Files.{has_slash}
use cache_system_with_fuse.Files.Names.{NoSlash, has_slash-append}
use cache_system_with_fuse.BlockStore.Delete.{IsHash}
use cache_system_with_fuse.Manager.{Env, hex_digit, hex_digits, hash_hex}
use cache_system_with_fuse.Base.{
  ℕ, zero, suc, ◌+◌, ◌-◌, ◌*◌, ◌/◌, ◌%◌, ◌^◌, ◌<◌, ◌≡◌, refl, ◌∙◌, [], ◌∷◌, ◌++◌, arith, ltb,
  if◌then◌else◌, length, length-append, Text,
}

length-hex_digits : (k n : ℕ) → length (hex_digits k n) ≡ k
unfolding hex_digits
length-hex_digits zero n = refl
length-hex_digits (suc k) n = omega (
  arith,
  length-append (hex_digits k (n / 16)) (hex_digit (n % 16) ∷ []),
  length-hex_digits k (n / 16),
)

hex_digit-NoSlash : (d : ℕ) → d < 16 → NoSlash (hex_digit d ∷ [])
unfolding hex_digit has_slash
hex_digit-NoSlash d h = ground arith

hex_digits-NoSlash : (k n : ℕ) → NoSlash (hex_digits k n)
unfolding hex_digits
hex_digits-NoSlash zero n = unfold has_slash in refl
hex_digits-NoSlash (suc k) n =
    has_slash-append (hex_digits k (n / 16)) _ (hex_digits-NoSlash k (n / 16))
      (hex_digit-NoSlash (n % 16) (omega arith))

-- `hash_hex` of any path, whatever `std::hash` yields, has 16 characters and no slash.
pub hash_hex-IsHash : (env : Env) (s : Text) → IsHash (hash_hex env s)
unfolding hash_hex
hash_hex-IsHash env s = record {
  sixteen = length-hex_digits 16 (env.hash s % 2 ^ 64);
  no_slash = hex_digits-NoSlash 16 (env.hash s % 2 ^ 64);
}

-- The value of a hexadecimal number, read from the left: `0` to `9` and `a` to `f`.
unfoldable pub digit_value : ℕ → ℕ
digit_value c = if ltb c 58 then c - 48 else c - 87

unfoldable pub hex_value : ℕ → Text → ℕ
hex_value acc [] = acc
hex_value acc (c ∷ s) = hex_value (acc * 16 + digit_value c) s

digit_value-hex_digit : (d : ℕ) → d < 16 → digit_value (hex_digit d) ≡ d
unfolding digit_value hex_digit
digit_value-hex_digit d h = ground arith

hex_value-snoc :
    (acc : ℕ) (s : Text) (c : ℕ)
    → hex_value acc (s ++ c ∷ []) ≡ hex_value acc s * 16 + digit_value c
unfolding hex_value
hex_value-snoc acc [] c = refl
hex_value-snoc acc (d ∷ s) c = hex_value-snoc (acc * 16 + digit_value d) s c

sixteen_power : (k : ℕ) → 16 ^ suc k ≡ 16 ^ k * 16
sixteen_power k = omega arith

hex_value-hex_digits : (k n : ℕ) → n < 16 ^ k → hex_value 0 (hex_digits k n) ≡ n
unfolding hex_digits
hex_value-hex_digits zero n h = unfold hex_value in omega arith
hex_value-hex_digits (suc k) n h =
    let rest = hex_value-hex_digits k (n / 16) (omega (arith, sixteen_power k)) in
    hex_value-snoc 0 (hex_digits k (n / 16)) (hex_digit (n % 16))
    ∙ omega (arith, rest, digit_value-hex_digit (n % 16) (omega arith))

-- `hash_hex` of any path has 16 characters, which read as a number in the hexadecimal digits `0`
-- to `9` and `a` to `f` are the hash modulo 2 ^ 64.
pub hash_hex_lem :
    (env : Env) (s : Text)
    → (length (hash_hex env s) ≡ 16) × (hex_value 0 (hash_hex env s) ≡ env.hash s % 2 ^ 64)
unfolding hash_hex
hash_hex_lem env s = (
  length-hex_digits 16 (env.hash s % 2 ^ 64),
  hex_value-hex_digits 16 (env.hash s % 2 ^ 64) (omega arith),
)
