-- ===== src/Bitmap/Bits.antt =====
-- The bits of a byte: each of the 256 * 8 * 8 cases is evaluated.
use cache_system_with_fuse.Bitmap.{set_bit, test_bit}
use cache_system_with_fuse.Base.{
  ℕ, zero, suc, ◌<◌, ◌≡◌, refl, Bool, true, false, ◌&&◌, ◌||◌, not, arith, ltb, ◌==◌, if◌then◌else◌,
  ℕ_discrete, ap, ◌∙◌,
}

-- Whether a test holds of every number below a bound.
every : (ℕ → Bool) → ℕ → Bool
every f zero = true
every f (suc k) = if f k then every f k else false

every_here : (f : ℕ → Bool) (k i : ℕ) → every f k ≡ true → i < k → f i ≡ true
unfolding every
every_here f zero i e lt = elim lt [ ]
every_here f (suc k) i e lt = elim (ℕ_discrete i k) [
  | yes last ↦ ap f last ∙ ground (arith, e)
  | no other ↦ every_here f k i (ground (arith, e)) (omega (arith, other))
]

abbrev same : Bool → Bool → Bool
same true b = b
same false b = not b

-- Setting bit `b` of byte `x` sets that bit alone, and leaves a byte.
abbrev case_holds : ℕ → ℕ → ℕ → Bool
case_holds x b c = same (test_bit (set_bit x b) c) (b == c || test_bit x c) && ltb (set_bit x b) 256

cases_table : every (λ x. every (λ b. every (λ c. case_holds x b c) 8) 8) 256 ≡ true
unfolding every test_bit set_bit
cases_table = refl

case_lem : (x b c : ℕ) → x < 256 → b < 8 → c < 8 → case_holds x b c ≡ true
case_lem x b c hx hb hc =
    every_here (λ c. case_holds x b c) 8 c
      (every_here (λ b. every (λ c. case_holds x b c) 8) 8 b (every_here _ 256 x cases_table hx) hb)
      hc

same_iff : (a b : Bool) → same a b ≡ true → a ≡ b
same_iff a b h = ground arith

pub test_bit-set_bit :
    (x b c : ℕ) → x < 256 → b < 8 → c < 8 → test_bit (set_bit x b) c ≡ (b == c || test_bit x c)
test_bit-set_bit x b c hx hb hc = same_iff _ _ (ground (arith, case_lem x b c hx hb hc))

pub set_bit-lt : (x b : ℕ) → x < 256 → b < 8 → set_bit x b < 256
set_bit-lt x b hx hb = ground (arith, case_lem x b 0 hx hb (omega arith))

zero_table : every (λ c. not (test_bit 0 c)) 8 ≡ true
unfolding every test_bit
zero_table = refl

pub test_bit-zero : (c : ℕ) → c < 8 → test_bit 0 c ≡ false
test_bit-zero c h = ground (arith, every_here (λ c. not (test_bit 0 c)) 8 c zero_table h)
