-- ===== src/Bitmap/Mark.antt =====
-- `markDirtyBlock` on the bitmaps in memory.
use cache_system_with_fuse.Bitmap.{
  BitVec, Bitmaps, bits_of, put_bits, resize, mark_bit, mark_dirty_block,
}
use cache_system_with_fuse.Base.{
  ℕ, zero, suc, ◌+◌, ◌-◌, ◌≤◌, ◌<◌, min, max, ◌≡◌, refl, sym, ap, ◌∙◌, ◌≢◌, ◌⊎◌, inl, inr, ite,
  if_pos, if_neg, true, false, ◌||◌, Option, none, some, [], ◌∷◌, ◌++◌, arith, ℕ_discrete, ◌==◌,
  length, get_or, set, take, replicate, length-append, length-set, length-replicate,
  get_or-set_self, get_or-set_ne, Text, text_discrete, find, put, find-put, Table,
}

get_or-replicate : (n j : ℕ) → get_or (replicate n false) j false ≡ false
get_or-replicate zero j = refl
get_or-replicate (suc n) zero = refl
get_or-replicate (suc n) (suc j) = get_or-replicate n j

take_all : (bits : BitVec) (n : ℕ) → length bits ≤ n → take n bits ≡ bits
take_all [] zero h = refl
take_all [] (suc n) h = refl
take_all (b ∷ bits) zero h = absurd (omega arith)
take_all (b ∷ bits) (suc n) h = ap (◌∷◌ b) (take_all bits n (omega arith))

length-take : (n : ℕ) (bits : BitVec) → length (take n bits) ≡ min n (length bits)
length-take zero bits = omega arith
length-take (suc n) [] = omega arith
length-take (suc n) (b ∷ bits) = omega (arith, length-take n bits)

pub length-resize : (bits : BitVec) (n : ℕ) → length (resize bits n) ≡ n
unfolding resize
length-resize bits n = omega (
  arith,
  length-append (take n bits) (replicate (n - length bits) false),
  length-take n bits,
  length-replicate (n - length bits) false,
)

append_false :
    (bits : BitVec) (n j : ℕ) → get_or (bits ++ replicate n false) j false ≡ get_or bits j false
append_false [] n j = get_or-replicate n j
append_false (b ∷ bits) n zero = refl
append_false (b ∷ bits) n (suc j) = append_false bits n j

-- A vector that grows reads false where it is new.
grown :
    (bits : BitVec) (n j : ℕ)
    → length bits ≤ n
    → get_or (resize bits n) j false ≡ get_or bits j false
unfolding resize
grown bits n j h = rw (take_all bits n h) (append_false bits (n - length bits) j)

length-mark_bit : (bits : BitVec) (k : ℕ) → length (mark_bit bits k) ≡ max (length bits) (k + 1)
unfolding mark_bit
length-mark_bit bits k = ground (
  arith,
  length-set (resize bits (k + 1)) k true,
  length-set bits k true,
  length-resize bits (k + 1),
)

set-true :
    (bits : BitVec) (k j : ℕ)
    → k < length bits
    → get_or (set bits k true) j false ≡ (k == j || get_or bits j false)
set-true bits k j h = elim (ℕ_discrete k j) [
  | yes e ↦ ground (arith, e, get_or-set_self bits k true false h)
  | no e ↦ ground (arith, e, get_or-set_ne bits k j true false e)
]

get_or-mark_bit :
    (bits : BitVec) (k j : ℕ) → get_or (mark_bit bits k) j false ≡ (k == j || get_or bits j false)
unfolding mark_bit
get_or-mark_bit bits k j = ground (
  arith,
  set-true (resize bits (k + 1)) k j,
  set-true bits k j,
  length-resize bits (k + 1),
  grown bits (k + 1) j,
)

find-nil : {V : Type 0} (q : ℕ) → find {V = V} ℕ_discrete q [] ≡ none
unfolding find
find-nil q = refl

bits_in : Option (Table ℕ BitVec) → ℕ → BitVec
bits_in none q = []
bits_in (some t) q = elim (find ℕ_discrete q t) [ none ↦ [] | some bits ↦ bits ]

bits_in-put :
    (t : Table ℕ BitVec) (p q : ℕ) (bits : BitVec)
    → bits_in (some (put ℕ_discrete p bits t)) q ≡ ite (ℕ_discrete p q) bits (bits_in (some t) q)
unfolding bits_in
bits_in-put t p q bits = elim (ℕ_discrete p q) [
  | yes e ↦ ground (arith, e, find-put ℕ_discrete p q bits t)
  | no e ↦ ground (arith, e, find-put ℕ_discrete p q bits t)
]

bits_of_lem : (m : Bitmaps) (h : Text) (q : ℕ) → bits_of m h q ≡ bits_in (find text_discrete h m) q
unfolding bits_of bits_in
bits_of_lem m h q = ground arith

table_in : Option (Table ℕ BitVec) → Table ℕ BitVec
table_in none = []
table_in (some t) = t

bits_in-table_in :
    (o : Option (Table ℕ BitVec)) (q : ℕ) → bits_in (some (table_in o)) q ≡ bits_in o q
unfolding bits_in table_in find
bits_in-table_in none q = refl
bits_in-table_in (some t) q = refl

put_bits_lem :
    (m : Bitmaps) (h : Text) (p : ℕ) (bits : BitVec)
    → put_bits m h p bits
      ≡ put text_discrete h (put ℕ_discrete p bits (table_in (find text_discrete h m))) m
unfolding put_bits table_in
put_bits_lem m h p bits = ground arith

pub bits_of-put_bits :
    (m : Bitmaps) (h g : Text) (p q : ℕ) (bits : BitVec)
    → bits_of (put_bits m h p bits) g q
      ≡ ite (text_discrete h g) (ite (ℕ_discrete p q) bits (bits_of m g q)) (bits_of m g q)
bits_of-put_bits m h g p q bits =
    let t = table_in (find text_discrete h m) in
    let new = put ℕ_discrete p bits t in
    rw
      (
        bits_of_lem (put_bits m h p bits) g q,
        put_bits_lem m h p bits,
        find-put text_discrete h g new m,
      )
      (elim (text_discrete h g) [
        | yes e ↦
            rw (if_pos (text_discrete h g) e, if_pos (text_discrete h g) e, bits_in-put t p q bits)
              (rw (bits_in-table_in (find text_discrete h m) q, ← bits_of_lem m h q, e))
        | no e ↦
            rw (if_neg (text_discrete h g) e, if_neg (text_discrete h g) e)
              (sym (bits_of_lem m g q))
      ])

bits_of_marked :
    (m : Bitmaps) (h : Text) (p k : ℕ)
    → bits_of (mark_dirty_block m h p k) h p ≡ mark_bit (bits_of m h p) k
unfolding mark_dirty_block
bits_of_marked m h p k = rw (
  bits_of-put_bits m h h p p (mark_bit (bits_of m h p) k),
  if_pos (text_discrete h h) refl,
  if_pos (ℕ_discrete p p) refl,
)

-- `markDirtyBlock` sets the bit of the block and no other in the bitmap of the part, which it
-- makes just long enough, and leaves the bitmaps of other parts and objects alone.
pub mark_dirty_block_lem :
    (m : Bitmaps) (h : Text) (p k : ℕ)
    → let m' = mark_dirty_block m h p k in
      ((j : ℕ) → get_or (bits_of m' h p) j false ≡ (k == j || get_or (bits_of m h p) j false))
      × (length (bits_of m' h p) ≡ max (length (bits_of m h p)) (k + 1))
      × ((g : Text) (q : ℕ) → (h ≢ g) ⊎ (p ≢ q) → bits_of m' g q ≡ bits_of m g q)
unfolding mark_dirty_block
mark_dirty_block_lem m h p k = (
  λ j. rw (bits_of_marked m h p k) (get_or-mark_bit (bits_of m h p) k j),
  rw (bits_of_marked m h p k) (length-mark_bit (bits_of m h p) k),
  λ g q other. rw (bits_of-put_bits m h g p q (mark_bit (bits_of m h p) k)) (untouched g q other),
)
  where
    untouched :
        (g : Text) (q : ℕ)
        → (h ≢ g) ⊎ (p ≢ q)
        → ite
            (text_discrete h g)
            (ite (ℕ_discrete p q) (mark_bit (bits_of m h p) k) (bits_of m g q))
            (bits_of m g q)
          ≡ bits_of m g q
    untouched g q (inl ne) = if_neg (text_discrete h g) ne _ _
    untouched g q (inr ne) = elim (text_discrete h g) [
      | yes e ↦ if_pos (text_discrete h g) e _ _ ∙ if_neg (ℕ_discrete p q) ne _ _
      | no e ↦ if_neg (text_discrete h g) e _ _
    ]
