-- ===== src/Fuse/Json/Ends.antt =====
-- `findJsonNames` moves on with each round.
use cache_system_with_fuse.Fuse.Search.{find_text, find_char, skip_while}
use cache_system_with_fuse.Fuse.Json.{
  quote, colon, is_space, name_key, insert_text, find_names, find_json_names,
}
use cache_system_with_fuse.Base.{
  ℕ, zero, suc, ◌≤◌, ◌<◌, ◌≡◌, refl, ap, ◌⊎◌, inl, inr, Bool, some, List, [], ◌∷◌, arith, ◌==◌,
  Bool-cases, Option-cases, returned, length, Text,
}

-- What a search leaves is not longer than the text.
length-find_text : (pattern s t : Text) → find_text pattern s ≡ some t → length t ≤ length s
unfolding find_text
length-find_text pattern [] t e = ground (arith, e)
length-find_text pattern (c ∷ s) t e = ground (arith, e, length-find_text pattern s t)

length-find_char : (c : ℕ) (s a b : Text) → find_char c s ≡ some (a, b) → suc (length b) ≤ length s
unfolding find_char
length-find_char c [] a b e = cc
length-find_char c (d ∷ s) a b e = elim (Option-cases (find_char c s)) [
  | inl p ↦ ground (arith, e, p)
  | inr ((a', b'), p) ↦ ground (arith, e, p, length-find_char c s a' b' p)
]

length-skip_while : (f : ℕ → Bool) (s : Text) → length (skip_while f s) ≤ length s
unfolding skip_while
length-skip_while f [] = omega arith
length-skip_while f (c ∷ s) = ground (arith, length-skip_while f s)

Text-cases : (s : Text) → (s ≡ []) ⊎ ((c : ℕ) × (t : Text) × (s ≡ c ∷ t))
Text-cases [] = inl refl
Text-cases (c ∷ s) = inr (c, s, refl)

find_names_total :
    (fuel : ℕ) (json : Text) (out : List Text)
    → length json < fuel
    → (names : List Text) × (find_names fuel json out ≡ returned names)
unfolding find_names
find_names_total zero json out lt = elim lt [ ]
find_names_total (suc fuel) json out lt = elim (Option-cases (find_text name_key json)) [
  | inl p ↦ (out, ground (arith, p))
  | inr (key, p) ↦ elim (Option-cases (find_char colon key)) [
    | inl q ↦ (out, ground (arith, p, q))
    | inr ((before, after), q) ↦
        let shorter : suc (length after) ≤ length json = omega (
          arith,
          length-find_text name_key json key p,
          length-find_char colon key before after q,
        ) in
        elim (Text-cases (skip_while is_space after)) [
          | inl r ↦
              let (names, h) = find_names_total fuel [] out (omega (arith, shorter)) in
              (names, ground (arith, p, q, r, h))
          | inr (c, rest, r) ↦
              let left : suc (length rest) ≤ length after =
                omega (arith, length-skip_while is_space after, ap length r) in
              elim (Bool-cases (c == quote)) [
                | inr other ↦
                    let (names, h) =
                      find_names_total fuel (c ∷ rest) out (omega (arith, shorter, left)) in
                    (names, ground (arith, p, q, r, other, h))
                | inl quoted ↦ elim (Option-cases (find_char quote rest)) [
                  | inl u ↦ (out, ground (arith, p, q, r, quoted, u))
                  | inr ((name, behind), u) ↦
                      let (names, h) =
                        find_names_total fuel behind (insert_text name out) (
                          omega
                            (arith, shorter, left, length-find_char quote rest name behind u)) in
                      (names, ground (arith, p, q, r, quoted, u, h))
                ]
              ]
        ]
  ]
]

-- The search for names ends and returns, on every text.
pub find_json_names_total :
    (json : Text) (out : List Text)
    → (names : List Text) × (find_json_names json out ≡ returned names)
unfolding find_json_names
find_json_names_total json out = find_names_total (suc (length json)) json out (omega arith)
