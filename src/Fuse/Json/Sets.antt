-- ===== src/Fuse/Json/Sets.antt =====
-- What `std::set<std::string>` holds after insertions, and in which order.
use cache_system_with_fuse.Fuse.Json.{text_lt, insert_text, insert_all}
use cache_system_with_fuse.Base.{
  ◌≡◌, refl, ◌∙◌, inl, inr, ite, Bool, true, false, ◌||◌, List, [], ◌∷◌, arith, Bool-cases, Text,
  text_discrete,
}

abbrev pub mem : Text → List Text → Bool
mem s [] = false
mem s (t ∷ ts) = ite (text_discrete s t) true (mem s ts)

-- Each text is below the next one.
abbrev pub Above : Text → List Text → Type 0
Above s [] = Unit {0}
Above s (t ∷ ts) = text_lt s t ≡ true

abbrev pub Ascending : List Text → Type 0
Ascending [] = Unit {0}
Ascending (s ∷ ts) = Above s ts × Ascending ts

text_lt_total : (s t : Text) → text_lt s t ≡ false → text_lt t s ≡ false → s ≡ t
unfolding text_lt
text_lt_total [] [] p q = refl
text_lt_total [] (d ∷ t) p q = cc
text_lt_total (c ∷ s) [] p q = cc
text_lt_total (c ∷ s) (d ∷ t) p q =
    let heads : c ≡ d = ground (arith, p, q) in
    let tails : s ≡ t =
      text_lt_total s t (ground (arith, p, q, heads)) (ground (arith, p, q, heads)) in
    cc (heads, tails)

mem-insert_text :
    (n s : Text) (ts : List Text)
    → mem n (insert_text s ts) ≡ ite (text_discrete n s) true (mem n ts)
unfolding insert_text
mem-insert_text n s [] = refl
mem-insert_text n s (t ∷ ts) = elim (Bool-cases (text_lt s t)) [
  | inl below ↦ ground (arith, below)
  | inr p ↦ elim (Bool-cases (text_lt t s)) [
    | inl above ↦ ground (arith, p, above, mem-insert_text n s ts)
    | inr q ↦ let same = text_lt_total s t p q in ground (arith, p, q, same)
  ]
]

Above-insert_text :
    (t s : Text) (ts : List Text) → text_lt t s ≡ true → Above t ts → Above t (insert_text s ts)
unfolding insert_text
Above-insert_text t s [] lt h = lt
Above-insert_text t s (u ∷ ts) lt h = elim (Bool-cases (text_lt s u)) [
  | inl below ↦ rw below lt
  | inr p ↦ elim (Bool-cases (text_lt u s)) [ inl above ↦ rw (p, above) h | inr q ↦ rw (p, q) h ]
]

insert_text-Ascending : (s : Text) (ts : List Text) → Ascending ts → Ascending (insert_text s ts)
unfolding insert_text
insert_text-Ascending s [] h = (tt, tt)
insert_text-Ascending s (t ∷ ts) h = elim (Bool-cases (text_lt s t)) [
  | inl below ↦ rw below (below, h)
  | inr p ↦ elim (Bool-cases (text_lt t s)) [
    | inl above ↦ rw (p, above) (Above-insert_text t s ts above h.0, insert_text-Ascending s ts h.1)
    | inr q ↦ rw (p, q) h
  ]
]

-- Insertions leave the texts in order, each once, and those that were there or were inserted.
pub insert_all_right :
    (names out : List Text)
    → Ascending out
    → Ascending (insert_all names out)
      × ((n : Text) → mem n (insert_all names out) ≡ (mem n names || mem n out))
unfolding insert_all
insert_all_right [] out h = (h, λ n. refl)
insert_all_right (name ∷ names) out h =
    let (sorted, same) =
      insert_all_right names (insert_text name out) (insert_text-Ascending name out h) in
    (sorted, λ n. same n ∙ ground (arith, mem-insert_text n name out))
