-- ===== src/Bitmap/Unpack.antt =====
-- The loops of `loadBitmap`.
use cache_system_with_fuse.Bitmap.{BitVec, test_bit, unpack_byte, unpack, list_of}
use cache_system_with_fuse.Base.{
  ℕ, zero, suc, ◌+◌, ◌-◌, ◌*◌, ◌/◌, ◌%◌, ◌<◌, ◌≡◌, refl, sym, ap, ◌∙◌, false, ◌&&◌, List, [], ◌∷◌,
  arith, dec_lt, ℕ_discrete, ltb, leb, if◌then◌else◌, length, get_or, set, length-set,
  get_or-set_self, get_or-set_ne, get_or_past, Bytes,
}

length-unpack_byte :
    (rounds b i byte : ℕ) (bits : BitVec) → length (unpack_byte rounds b i byte bits) ≡ length bits
unfolding unpack_byte
length-unpack_byte zero b i byte bits = refl
length-unpack_byte (suc rounds) b i byte bits =
    length-unpack_byte rounds (b + 1) i byte _ ∙ length-set bits (i * 8 + b) _

pub length-unpack :
    (bytes : List ℕ) (i : ℕ) (bits : BitVec) → length (unpack bytes i bits) ≡ length bits
unfolding unpack
length-unpack [] i bits = refl
length-unpack (byte ∷ bytes) i bits =
    length-unpack bytes (i + 1) _ ∙ length-unpack_byte 8 0 i byte bits

-- The inner loop writes `rounds` bits from `i * 8 + b` on.
get_or-unpack_byte :
    (rounds b i byte : ℕ) (bits : BitVec) (j : ℕ)
    → j < length bits
    → get_or (unpack_byte rounds b i byte bits) j false ≡ (
        if leb (i * 8 + b) j && ltb j (i * 8 + b + rounds)
        then test_bit byte (j - i * 8)
        else get_or bits j false)
unfolding unpack_byte
get_or-unpack_byte zero b i byte bits j lt = ground arith
get_or-unpack_byte (suc rounds) b i byte bits j lt =
    get_or-unpack_byte rounds (b + 1) i byte (set bits (i * 8 + b) (test_bit byte b)) j
      (omega (arith, length-set bits (i * 8 + b) (test_bit byte b)))
    ∙ elim (ℕ_discrete (i * 8 + b) j) [
      | yes e ↦
          let here : j - i * 8 ≡ b = omega arith in
          let same = get_or-set_self bits (i * 8 + b) (test_bit byte b) false (omega arith) in
          ground (
            arith,
            same,
            e,
            here,
            ap (test_bit byte) here,
            ap (λ (t : ℕ). get_or (set bits (i * 8 + b) (test_bit byte b)) t false) e,
          )
      | no ne ↦ ground (arith, get_or-set_ne bits (i * 8 + b) j (test_bit byte b) false ne)
    ]

-- The outer loop covers the bytes from `i` on.
get_or-unpack_from :
    (bytes : List ℕ) (i : ℕ) (bits : BitVec) (j : ℕ)
    → j < length bits
    → get_or (unpack bytes i bits) j false ≡ (
        if leb (i * 8) j && ltb j ((i + length bytes) * 8)
        then test_bit (get_or bytes (j / 8 - i) 0) (j % 8)
        else get_or bits j false)
unfolding unpack
get_or-unpack_from [] i bits j lt = ground arith
get_or-unpack_from (byte ∷ bytes) i bits j lt =
    get_or-unpack_from bytes (i + 1) (unpack_byte 8 0 i byte bits) j
      (omega (arith, length-unpack_byte 8 0 i byte bits))
    ∙ rw (get_or-unpack_byte 8 0 i byte bits j lt) (elim (ℕ_discrete (j / 8) i) [
      | yes e ↦
          let z : j / 8 - i ≡ 0 = omega arith in
          let r : j - i * 8 ≡ j % 8 = omega arith in rw (z, r) (ground arith)
      | no ne ↦ elim (dec_lt (j / 8) i) [
        | yes before ↦ ground arith
        | no after ↦ let s : j / 8 - i ≡ suc (j / 8 - (i + 1)) = omega arith in rw s (ground arith)
      ]
    ])

get_or-list_of :
    (n i : ℕ) (buf : Bytes) (k : ℕ) → k < n → get_or (list_of n i buf) k 0 ≡ buf (i + k)
unfolding list_of
get_or-list_of zero i buf k lt = elim lt [ ]
get_or-list_of (suc n) i buf zero lt = let e : i + 0 ≡ i = omega arith in ap buf (sym e)
get_or-list_of (suc n) i buf (suc k) lt =
    let e : i + 1 + k ≡ i + suc k = omega arith in
    get_or-list_of n (i + 1) buf k (omega arith) ∙ ap buf e

length-list_of : (n i : ℕ) (buf : Bytes) → length (list_of n i buf) ≡ n
unfolding list_of
length-list_of zero i buf = refl
length-list_of (suc n) i buf = ap suc (length-list_of n (i + 1) buf)

-- A vector that is loaded from `n` bytes of a buffer has their bits.
pub get_or-unpack :
    (n : ℕ) (buf : Bytes) (bits : BitVec) (j : ℕ)
    → length bits ≡ n * 8
    → get_or (unpack (list_of n 0 buf) 0 bits) j false
      ≡ (if ltb j (n * 8) then test_bit (buf (j / 8)) (j % 8) else false)
get_or-unpack n buf bits j e = elim (dec_lt j (n * 8)) [
  | yes lt ↦
      let z : j / 8 - 0 ≡ j / 8 = omega arith in
      let z' : 0 + j / 8 ≡ j / 8 = omega arith in
      get_or-unpack_from (list_of n 0 buf) 0 bits j (omega (arith, e))
      ∙ rw (z, get_or-list_of n 0 buf (j / 8) (omega arith), z', length-list_of n 0 buf)
          (ground arith)
  | no ge ↦
      rw
        (get_or_past (unpack (list_of n 0 buf) 0 bits) j false
          (omega (arith, e, length-unpack (list_of n 0 buf) 0 bits)))
        (ground arith)
]
