-- ===== src/Fuse/Json.antt =====
-- fuse/fuse.cc: `findJsonNames`, and the parser of `getFileInfo`.
pub mod Names
pub mod Server
pub mod Listing
pub mod Info
pub mod Ends
pub mod Sets
pub mod Sorted
use cache_system_with_fuse.Layout.Decimal.{value_from, is_digit}
use cache_system_with_fuse.Fuse.Search.{find_text, find_char, skip_while, take_while}
use cache_system_with_fuse.Base.{
  ◌>>=◌, ℕ, zero, suc, ◌+◌, ◌-◌, ◌*◌, ◌/◌, ◌%◌, ◌^◌, ◌≤◌, ◌<◌, min, max, ◌≡◌, refl, sym, ap, subst,
  ◌∙◌, ◌≢◌, ◌↔◌, ◌⊎◌, inl, inr, ite, if_pos, if_neg, Bool, true, false, ◌&&◌, ◌||◌, not, Option,
  none, some, List, [], ◌∷◌, ◌++◌, map, arith, dec_lt, dec_le, ℕ_discrete, ltb, leb, ◌==◌,
  if◌then◌else◌, ltb→lt, lt→ltb, ==_iff, Bool-cases, Option-cases, ℤ, pos, negsuc, neg, is_negative,
  to_ℕ, is_count, Outcome, returned, thrown, faulted, exhausted, length, get_or, set, take, drop,
  replicate, length-append, length-set, length-replicate, get_or-set_self, get_or-set_ne,
  get_or-append_left, get_or_past, Text, codes, text_discrete, find, put, erase, find-put,
  find-erase, table_laws, keys, has, Table, Bytes, memcpy, Agree, bit_or_disjoint,
}

-- `std::set<std::string>`: its texts in the order of `<`, without repetition.
unfoldable pub text_lt : Text → Text → Bool
text_lt s [] = false
text_lt [] (d ∷ t) = true
text_lt (c ∷ s) (d ∷ t) = ltb c d || (c == d && text_lt s t)

unfoldable pub insert_text : Text → List Text → List Text
insert_text s [] = s ∷ []
insert_text s (t ∷ ts) =
    if text_lt s t then s ∷ t ∷ ts else if text_lt t s then t ∷ insert_text s ts else t ∷ ts

-- `std::set`, filled from a list.
unfoldable pub insert_all : List Text → List Text → List Text
insert_all [] out = out
insert_all (name ∷ names) out = insert_all names (insert_text name out)

-- `isspace` and `isdigit` of the C locale.
abbrev pub is_space : ℕ → Bool
is_space c = c == 32 || (leb 9 c && leb c 13)

abbrev pub quote : ℕ
quote = 34

abbrev pub colon : ℕ
colon = b':'

-- The keys that are searched for, with their quotes.
abbrev pub name_key : Text
name_key = codes "\"name\""

abbrev pub size_key : Text
size_key = codes "\"size\""

abbrev pub directory_key : Text
directory_key = codes "\"is_directory\""

-- `findJsonNames`, from a position on.
unfoldable pub find_names : ℕ → Text → List Text → Outcome (List Text)
find_names zero json out = exhausted
find_names (suc fuel) json out = elim (find_text name_key json) [
  | none ↦ returned out
  | some key ↦ elim (find_char colon key) [
    | none ↦ returned out
    | some (_, after) ↦ elim (skip_while is_space after) [
      | [] ↦ find_names fuel [] out
      | c ∷ rest ↦ elim (c == quote) [
        | false ↦ find_names fuel (c ∷ rest) out
        | true ↦ elim (find_char quote rest) [
          | none ↦ returned out
          | some (name, behind) ↦ find_names fuel behind (insert_text name out)
        ]
      ]
    ]
  ]
]

-- Each round moves the position on.
unfoldable pub find_json_names : Text → List Text → Outcome (List Text)
unfolding find_names
find_json_names json out = find_names (suc (length json)) json out

-- `stoi`, on digits or nothing: it throws where there is no digit, and above the largest `int`.
unfoldable pub stoi : Text → Outcome ℕ
stoi [] = thrown
stoi (c ∷ s) =
    if leb (2 ^ 31) (value_from 0 (c ∷ s)) then thrown else returned (value_from 0 (c ∷ s))

-- The size that `getFileInfo` reads.
unfoldable pub parse_size : Text → Outcome ℕ
parse_size json = elim (find_text size_key json) [
  | none ↦ returned 0
  | some key ↦ elim (find_char colon key) [
    | none ↦ returned 0
    | some (_, after) ↦ stoi (take_while is_digit (skip_while (λ c. not (is_digit c)) after))
  ]
]

unfoldable pub parse_directory : Text → Bool
parse_directory json = elim (find_text directory_key json) [
  | none ↦ false
  | some key ↦ elim (find_char colon key) [
    | none ↦ false
    | some (_, after) ↦ elim (find_text (codes "true") (colon ∷ after)) [
      | none ↦ false
      | some t ↦ true
    ]
  ]
]

-- What `getFileInfo` makes of the answer: the size and whether it is a directory.
unfoldable pub parse_info : Text → Outcome (ℕ × Bool)
parse_info json = do size ← parse_size json; returned (size, parse_directory json)
