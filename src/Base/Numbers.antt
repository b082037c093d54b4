-- ===== src/Base/Numbers.antt =====
-- Signed results (`ssize_t`, `int`) over the native numbers.
use Prim.Native.Nat.{ℕ, zero, suc, compare, Ordering}
use mathlib.Core.Bool.{Bool, true, false}

-- `negsuc n` is -(n + 1).
pub data ℤ : Type 0 where
  pos : ℕ → ℤ
  negsuc : ℕ → ℤ

-- `-e`, as the source returns an error number.
abbrev pub neg : ℕ → ℤ
neg zero = pos zero
neg (suc n) = negsuc n

abbrev pub is_negative : ℤ → Bool
is_negative (pos n) = false
is_negative (negsuc n) = true

-- A result as a count, where it is known not to be negative.
abbrev pub to_ℕ : ℤ → ℕ
to_ℕ (pos n) = n
to_ℕ (negsuc n) = 0

-- `n == static_cast<ssize_t>(k)`.
abbrev pub is_count : ℤ → ℕ → Bool
is_count (pos n) k = elim (compare n k) [ Ordering.eq ↦ true | _ ↦ false ]
is_count (negsuc n) k = false

-- How a call of the source ends: it returns, throws an exception, uses a pointer that is none, or
-- (in the model alone) runs out of the fuel that bounds its loop.
pub data Outcome (A : Type 0) : Type 0 where
  returned : A → Outcome A
  thrown faulted exhausted : Outcome A

-- What comes after a call runs where that returned.
infixl 5 ◌>>=◌
abbrev pub ◌>>=◌ : {A B : Type 0} → Outcome A → (A → Outcome B) → Outcome B
returned a >>= f = f a
thrown >>= f = thrown
faulted >>= f = faulted
exhausted >>= f = exhausted
