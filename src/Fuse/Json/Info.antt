-- ===== src/Fuse/Json/Info.antt =====
-- `getFileInfo` on what the server answers about a file.
use cache_system_with_fuse.Layout.{to_string}
use cache_system_with_fuse.Layout.Decimal.{
  value_from, value-to_string, is_digit, to_string-AllDigits, to_string_nonempty,
}
use cache_system_with_fuse.BlockStore.{has_prefix}
use cache_system_with_fuse.Fuse.Search.{find_text, find_char, skip_while, take_while}
use cache_system_with_fuse.Fuse.Json.{
  quote, colon, size_key, directory_key, stoi, parse_size, parse_directory, parse_info,
}
use cache_system_with_fuse.Fuse.Json.Server.{
  FileInfo, IsPlain, after_size, after_mtime, after_name, info_json,
}
use cache_system_with_fuse.Fuse.Json.Names.{
  Lacks, lacks-Lacks, AllDigits-Lacks, find_text-append, has_prefix_quoted, take_while_digits,
  skip_to_digits,
}
use cache_system_with_fuse.Fuse.Json.Listing.{IsPlain-Lacks}
use cache_system_with_fuse.Base.{
  ℕ, ◌^◌, ◌<◌, ◌≡◌, refl, sym, ap, subst, ◌∙◌, ◌⊎◌, inl, inr, Bool, true, false, not, Option, none,
  some, [], ◌∷◌, ◌++◌, arith, leb, if◌then◌else◌, Bool-cases, returned, thrown, length, drop, Text,
  codes,
}

-- What `stoi` makes of a number.
stoi-to_string : (n : ℕ) → stoi (to_string n) ≡ (if leb (2 ^ 31) n then thrown else returned n)
stoi-to_string n =
    from_digits (to_string n) (to_string_nonempty n)
    ∙ ap (λ v. if leb (2 ^ 31) v then thrown else returned v) (value-to_string n)
  where
    from_digits :
        (s : Text)
        → 0 < length s
        → stoi s ≡ (if leb (2 ^ 31) (value_from 0 s) then thrown else returned (value_from 0 s))
    from_digits [] h = elim h [ ]
    from_digits (c ∷ s) h = unfold stoi in refl

-- The number behind a key.
digits_behind :
    (n : ℕ) (c : ℕ) (s : Text)
    → is_digit c ≡ false
    → take_while is_digit (skip_while (λ b. not (is_digit b)) (32 ∷ (to_string n ++ (c ∷ s))))
      ≡ to_string n
digits_behind n c s h =
    ap (take_while is_digit)
      (first ∙ skip_to_digits (to_string n) (c ∷ s) (to_string-AllDigits n) (to_string_nonempty n))
    ∙ take_while_digits (to_string n) s c (to_string-AllDigits n) h
  where
    first :
        skip_while (λ b. not (is_digit b)) (32 ∷ (to_string n ++ (c ∷ s)))
        ≡ skip_while (λ b. not (is_digit b)) (to_string n ++ (c ∷ s))
    first = unfold skip_while in refl

-- A key in front of a quoted name: it is the name itself, or behind it.
find_text-quoted :
    (word : Text) (e : FileInfo) (tail : Text)
    → IsPlain e.name
    → Lacks quote word
    → let key = quote ∷ (word ++ quote ∷ []) in
      let text = quote ∷ (e.name ++ after_name e tail) in
      ((e.name ≡ word) × (find_text key text ≡ some text))
      ⊎ (find_text key text ≡ find_text key (after_name e tail))
unfolding find_text has_prefix after_name
find_text-quoted word e tail plain lacks =
    elim (Bool-cases (has_prefix (word ++ quote ∷ []) (e.name ++ after_name e tail))) [
      | inl m ↦ inl (
        has_prefix_quoted word e.name (drop 1 (after_name e tail)) lacks
            (IsPlain-Lacks e.name plain) m,
        ground (arith, m),
      )
      | inr m ↦ inr (
          ground (
            arith,
            m,
            find_text-append quote (word ++ quote ∷ []) e.name (after_name e tail)
                (IsPlain-Lacks e.name plain),
          ))
    ]

-- Behind the key of the size stands the size, wherever the key is found.
size_behind :
    (e : FileInfo) (tail : Text)
    → IsPlain e.name
    → (key before : Text) × (find_text size_key (info_json e tail) ≡ some key)
      × (find_char colon key ≡ some (before, 32 ∷ (to_string e.size ++ after_size e tail)))
unfolding info_json find_text has_prefix after_name find_char
size_behind e tail plain =
    elim (find_text-quoted (codes "size") e tail plain (lacks-Lacks quote (codes "size") refl)) [
      | inl (same, at) ↦ (
        quote ∷ (e.name ++ after_name e tail),
        codes "\"size\", \"size\"",
        at,
        subst
            (λ n.
              find_char colon (quote ∷ (n ++ after_name e tail))
              ≡ some (codes "\"size\", \"size\"", 32 ∷ (to_string e.size ++ after_size e tail)))
            (sym same) refl,
      )
      | inr at ↦ (
        codes "\"size\": " ++ (to_string e.size ++ after_size e tail),
        codes "\"size\"",
        at,
        refl,
      )
    ]

parse_size-info_json :
    (e : FileInfo) (tail : Text)
    → IsPlain e.name
    → parse_size (info_json e tail) ≡ (if leb (2 ^ 31) e.size then thrown else returned e.size)
unfolding parse_size
parse_size-info_json e tail plain =
    let (key, before, at, behind) = size_behind e tail plain in
    rw (at, behind, parse_size)
      (ap stoi (digits_behind e.size b',' (drop 1 (after_size e tail)) refl)
        ∙ stoi-to_string e.size)

digits_lack_t : (n : ℕ) → Lacks b't' (to_string n)
digits_lack_t n = AllDigits-Lacks b't' (to_string n) refl (to_string-AllDigits n)

-- Whether `true` was found.
abbrev found : Option Text → Bool
found o = elim o [ none ↦ false | some t ↦ true ]

true-after_mtime :
    (e : FileInfo) → found (find_text (codes "true") (after_mtime e [])) ≡ e.is_directory
true-after_mtime e = end e.is_directory
  where
    end :
        (b : Bool)
        → found (
            find_text (codes "true") (
              codes ", \"is_directory\": "
              ++ ((if b then codes "true" else codes "false") ++ codes "}")))
          ≡ b
    end true = unfold find_text has_prefix in refl
    end false = unfold find_text has_prefix in refl

-- Nor does `true` stand in what is between.
true-after_size :
    (e : FileInfo)
    → found (find_text (codes "true") (to_string e.size ++ after_size e [])) ≡ e.is_directory
unfolding find_text has_prefix
true-after_size e =
    ap found (
      find_text-append b't' (codes "rue") (to_string e.size) (after_size e [])
        (digits_lack_t e.size)
      ∙ find_text-append b't' (codes "rue") (to_string e.mtime) (after_mtime e [])
          (digits_lack_t e.mtime))
    ∙ true-after_mtime e

find_text-directory :
    (e : FileInfo)
    → find_text directory_key (after_name e []) ≡ find_text directory_key (after_mtime e [])
unfolding find_text has_prefix after_name
find_text-directory e =
    find_text-append quote (drop 1 directory_key) (to_string e.size) (after_size e [])
      (AllDigits-Lacks quote _ refl (to_string-AllDigits e.size))
    ∙ find_text-append quote (drop 1 directory_key) (to_string e.mtime) (after_mtime e [])
        (AllDigits-Lacks quote _ refl (to_string-AllDigits e.mtime))

-- Behind the key of the kind `true` stands for a directory alone, wherever the key is found.
directory_behind :
    (e : FileInfo)
    → IsPlain e.name
    → (key before after : Text) × (find_text directory_key (info_json e []) ≡ some key)
      × (find_char colon key ≡ some (before, after))
      × (found (find_text (codes "true") (colon ∷ after)) ≡ e.is_directory)
unfolding info_json find_text has_prefix after_name find_char
directory_behind e plain =
    elim (find_text-quoted (codes "is_directory") e [] plain
      (lacks-Lacks quote (codes "is_directory") refl)) [
        | inl (same, at) ↦ (
          quote ∷ (e.name ++ after_name e []),
          codes "\"is_directory\", \"size\"",
          32 ∷ (to_string e.size ++ after_size e []),
          at,
          subst
              (λ n.
                find_char colon (quote ∷ (n ++ after_name e []))
                ≡ some (
                  codes "\"is_directory\", \"size\"",
                  32 ∷ (to_string e.size ++ after_size e []),
                ))
              (sym same) refl,
          true-after_size e,
        )
        | inr at ↦ (
          drop 2 (after_mtime e []),
          codes "\"is_directory\"",
          drop 17 (after_mtime e []),
          at ∙ find_text-directory e,
          refl,
          true-after_mtime e,
        )
      ]

parse_directory-info_json :
    (e : FileInfo) → IsPlain e.name → parse_directory (info_json e []) ≡ e.is_directory
unfolding parse_directory
parse_directory-info_json e plain =
    let (key, before, after, at, behind, truth) = directory_behind e plain in
    rw (at, behind, parse_directory) truth

-- The answer about a plainly named file is read as its size and its kind, below 2 ^ 31 bytes.
pub parse_info-info_json :
    (e : FileInfo)
    → IsPlain e.name
    → parse_info (info_json e [])
      ≡ (if leb (2 ^ 31) e.size then thrown else returned (e.size, e.is_directory))
unfolding parse_info
parse_info-info_json e plain = elim (Bool-cases (leb (2 ^ 31) e.size)) [
  | inl huge ↦ ground (arith, huge, parse_size-info_json e [] plain)
  | inr small ↦
      ground (arith, small, parse_size-info_json e [] plain, parse_directory-info_json e plain)
]
