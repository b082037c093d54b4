-- ===== src/Base/Bits.antt =====
-- `|` on machine words, as arithmetic: a field above `k` bits joined with one below.
use Prim.Native.Nat.{
  ℕ, zero, suc, ◌+◌, ◌*◌, ◌/◌, ◌%◌, ◌^◌, ◌≤◌, ◌<◌, max, bit_or, digits, bit_or-bitwise,
}
use mathlib.Core.Path.{◌≡◌, refl, ap}
use native.Mathlib.Nat.{pow-suc}
use native.Mathlib.Omega.{arith}
use native.Mathlib.Decide.{ℕ_discrete}

abbrev or_with : ℕ → ℕ → ℕ → ℕ
or_with fuel = digits (λ y. y) max fuel

-- Any fuel that covers the left operand gives the same digits.
or_with_enough : (m n a b : ℕ) → a ≤ m → a ≤ n → or_with m a b ≡ or_with n a b
or_with_enough m n zero b p q = or_with_zero m n b
  where
    or_with_zero : (m n b : ℕ) → or_with m 0 b ≡ or_with n 0 b
    or_with_zero zero zero b = refl
    or_with_zero zero (suc n) b = refl
    or_with_zero (suc m) zero b = refl
    or_with_zero (suc m) (suc n) b = refl
or_with_enough zero n (suc a) b p q = absurd (omega arith)
or_with_enough (suc m) zero (suc a) b p q = absurd (omega arith)
or_with_enough (suc m) (suc n) (suc a) b p q =
    ap (λ (t : ℕ). t * 2 + max (suc a % 2) (b % 2))
      (or_with_enough m n (suc a / 2) (b / 2) (omega arith) (omega arith))

zero-bit_or : (b : ℕ) → bit_or 0 b ≡ b
zero-bit_or b = bit_or-bitwise 0 b

bit_or-halve : (a b : ℕ) → bit_or a b ≡ bit_or (a / 2) (b / 2) * 2 + max (a % 2) (b % 2)
bit_or-halve zero b = omega (arith, zero-bit_or b, zero-bit_or (b / 2))
bit_or-halve (suc a) b =
    let half = suc a / 2 in
    let top = bit_or-bitwise (suc a) b in
    let lower = bit_or-bitwise half (b / 2) in
    let same = or_with_enough a half half (b / 2) (omega arith) (omega arith) in
    omega (arith, top, lower, same)

-- Zero is neutral on the right: by halving, which makes a number smaller.
bit_or-zero : (fuel a : ℕ) → a < fuel → bit_or a 0 ≡ a
bit_or-zero zero a h = elim h [ ]
bit_or-zero (suc fuel) a h = elim (ℕ_discrete a 0) [
  | yes e ↦ rw e (zero-bit_or 0)
  | no e ↦
      let rest : bit_or (a / 2) 0 ≡ a / 2 = bit_or-zero fuel (a / 2) (omega (arith, e)) in
      omega (arith, rest, bit_or-halve a 0)
]

pub bit_or_disjoint : (k q r : ℕ) → r < 2 ^ k → bit_or (q * 2 ^ k) r ≡ q * 2 ^ k + r
bit_or_disjoint zero q zero h = omega (arith, bit_or-zero (suc (q * 1)) (q * 1) (omega arith))
bit_or_disjoint zero q (suc r) h = absurd (omega arith)
bit_or_disjoint (suc k) q r h =
    let double : q * 2 ^ suc k ≡ 2 * (q * 2 ^ k) =
      omega (arith, ap (λ (t : ℕ). q * t) (pow-suc 2 k)) in
    ground (
      arith,
      double,
      bit_or-halve (q * 2 ^ suc k) r,
      bit_or_disjoint k q (r / 2) (omega (arith, pow-suc 2 k)),
    )
