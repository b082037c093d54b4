-- ===== src/Bitmap/Pack.antt =====
-- The packing loop of `persistBitmap`.
use cache_system_with_fuse.Bitmap.{BitVec, set_bit, test_bit, pack}
use cache_system_with_fuse.Bitmap.Bits.{test_bit-set_bit, set_bit-lt, test_bit-zero}
use cache_system_with_fuse.Base.{
  ℕ, zero, suc, ◌+◌, ◌-◌, ◌*◌, ◌/◌, ◌%◌, ◌≤◌, ◌<◌, ◌≡◌, refl, ◌∙◌, Bool, true, false, ◌&&◌, ◌||◌,
  List, [], ◌∷◌, arith, dec_lt, ℕ_discrete, leb, ◌==◌, if◌then◌else◌, length, get_or, set,
  replicate, length-set, length-replicate, get_or-set_self, get_or-set_ne,
}

abbrev pub bit_at : List ℕ → ℕ → Bool
bit_at bytes j = test_bit (get_or bytes (j / 8) 0) (j % 8)

abbrev pub AllBytes : List ℕ → Type 0
AllBytes [] = Unit {0}
AllBytes (x ∷ xs) = (x < 256) × AllBytes xs

get_or-AllBytes : (xs : List ℕ) (i : ℕ) → AllBytes xs → get_or xs i 0 < 256
get_or-AllBytes [] i h = omega arith
get_or-AllBytes (x ∷ xs) zero h = h.0
get_or-AllBytes (x ∷ xs) (suc i) h = get_or-AllBytes xs i h.1

set-AllBytes : (xs : List ℕ) (i v : ℕ) → AllBytes xs → v < 256 → AllBytes (set xs i v)
set-AllBytes [] i v h lt = tt
set-AllBytes (x ∷ xs) zero v h lt = (lt, h.1)
set-AllBytes (x ∷ xs) (suc i) v h lt = (h.0, set-AllBytes xs i v h.1 lt)

replicate-AllBytes : (n : ℕ) → AllBytes (replicate n 0)
replicate-AllBytes zero = tt
replicate-AllBytes (suc n) = (omega arith, replicate-AllBytes n)

abbrev stored : ℕ → Bool → List ℕ → List ℕ
stored i bit bytes =
    if bit then set bytes (i / 8) (set_bit (get_or bytes (i / 8) 0) (i % 8)) else bytes

bit_at-stored :
    (i : ℕ) (bit : Bool) (bytes : List ℕ) (j : ℕ)
    → AllBytes bytes
    → i / 8 < length bytes
    → bit_at (stored i bit bytes) j ≡ ((bit && i == j) || bit_at bytes j)
bit_at-stored i false bytes j h lt = refl
bit_at-stored i true bytes j h lt = elim (ℕ_discrete (i / 8) (j / 8)) [
  | yes e ↦
      rw (← e, get_or-set_self bytes (i / 8) _ 0 lt)
        (rw
          (test_bit-set_bit (get_or bytes (i / 8) 0) (i % 8) (j % 8)
            (get_or-AllBytes bytes (i / 8) h) (omega arith) (omega arith))
          (ground arith))
  | no e ↦ rw (get_or-set_ne bytes (i / 8) (j / 8) _ 0 e) (ground arith)
]

stored-AllBytes :
    (i : ℕ) (bit : Bool) (bytes : List ℕ) → AllBytes bytes → AllBytes (stored i bit bytes)
stored-AllBytes i false bytes h = h
stored-AllBytes i true bytes h =
    set-AllBytes bytes (i / 8) _ h
      (set_bit-lt _ (i % 8) (get_or-AllBytes bytes (i / 8) h) (omega arith))

length-stored : (i : ℕ) (bit : Bool) (bytes : List ℕ) → length (stored i bit bytes) ≡ length bytes
length-stored i false bytes = refl
length-stored i true bytes = length-set bytes (i / 8) _

length-pack : (i : ℕ) (bits : BitVec) (bytes : List ℕ) → length (pack i bits bytes) ≡ length bytes
unfolding pack
length-pack i [] bytes = refl
length-pack i (bit ∷ bits) bytes = length-pack (i + 1) bits _ ∙ length-stored i bit bytes

get_or_uncons :
    (bit : Bool) (bits : BitVec) (i j : ℕ)
    → (leb i j && get_or (bit ∷ bits) (j - i) false)
      ≡ ((leb (i + 1) j && get_or bits (j - (i + 1)) false) || (bit && i == j))
get_or_uncons bit bits i j = elim (dec_lt i j) [
  | yes lt ↦ let e : j - i ≡ suc (j - (i + 1)) = omega arith in rw e (ground arith)
  | no ge ↦ elim (ℕ_discrete i j) [
    | yes e ↦ let z : j - i ≡ 0 = omega arith in rw z (ground arith)
    | no ne ↦ ground arith
  ]
]

bit_at-pack_from :
    (i : ℕ) (bits : BitVec) (bytes : List ℕ) (j : ℕ)
    → AllBytes bytes
    → i + length bits ≤ 8 * length bytes
    → bit_at (pack i bits bytes) j ≡ ((leb i j && get_or bits (j - i) false) || bit_at bytes j)
unfolding pack
bit_at-pack_from i [] bytes j h fits = ground arith
bit_at-pack_from i (bit ∷ bits) bytes j h fits =
    bit_at-pack_from (i + 1) bits (stored i bit bytes) j (stored-AllBytes i bit bytes h)
      (omega (arith, length-stored i bit bytes))
    ∙ rw (bit_at-stored i bit bytes j h (omega arith), get_or_uncons bit bits i j) (ground arith)

bit_at-replicate : (n j : ℕ) → bit_at (replicate n 0) j ≡ false
bit_at-replicate n j = rw (get_or_zero n (j / 8)) (test_bit-zero (j % 8) (omega arith))
  where
    get_or_zero : (n i : ℕ) → get_or {A = ℕ} (replicate n 0) i 0 ≡ 0
    get_or_zero zero i = refl
    get_or_zero (suc n) zero = refl
    get_or_zero (suc n) (suc i) = get_or_zero n i

-- In the bytes that `persistBitmap` packs, bit j % 8 of byte j / 8 is bit j of the bitmap, and it
-- is clear for every j past its end.
pub bit_at-pack :
    (bits : BitVec) (j : ℕ)
    → bit_at (pack 0 bits (replicate ((length bits + 7) / 8) 0)) j ≡ get_or bits j false
bit_at-pack bits j =
    let size = (length bits + 7) / 8 in
    let back : j - 0 ≡ j = omega arith in
    bit_at-pack_from 0 bits (replicate size 0) j (replicate-AllBytes size)
      (omega (arith, length-replicate {A = ℕ} size 0))
    ∙ rw (bit_at-replicate size j, back) (ground arith)
