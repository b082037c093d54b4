-- ===== src/Fuse/Json/Listing.antt =====
-- `findJsonNames` on any text, and on what the server answers about a directory.
use cache_system_with_fuse.Layout.{to_string}
use cache_system_with_fuse.Layout.Decimal.{to_string-AllDigits}
use cache_system_with_fuse.BlockStore.{has_prefix}
use cache_system_with_fuse.Fuse.Search.{find_text, find_char, skip_while}
use cache_system_with_fuse.Fuse.Json.{
  quote, name_key, insert_text, insert_all, find_names, find_json_names,
}
use cache_system_with_fuse.Fuse.Json.Server.{
  FileInfo, IsPlain, after_size, after_mtime, after_name, info_json, rest_json, list_json,
}
use cache_system_with_fuse.Fuse.Json.Names.{
  Lacks, AllDigits-Lacks, find_text-append, find_char-append,
}
use cache_system_with_fuse.Base.{
  ℕ, zero, suc, ◌≤◌, ◌<◌, ◌≡◌, refl, ◌∙◌, Bool, true, false, List, [], ◌∷◌, ◌++◌, map, arith,
  if◌then◌else◌, returned, length, drop, length-append, Text, codes,
}

pub IsPlain-Lacks : (s : Text) → IsPlain s → Lacks quote s
IsPlain-Lacks [] h = tt
IsPlain-Lacks (c ∷ s) h = ((λ e. ground (arith, h.0, e)), IsPlain-Lacks s h.1)

abbrev pub AllPlain : List FileInfo → Type 0
AllPlain [] = Unit {0}
AllPlain (e ∷ es) = IsPlain e.name × AllPlain es

-- What follows a name in an entry has no quotes that begin a name's key.
find_text-after_name :
    (e : FileInfo) (tail : Text)
    → find_text name_key (drop 1 (after_name e tail)) ≡ find_text name_key tail
unfolding after_name find_text has_prefix
find_text-after_name e tail =
    find_text-append quote (drop 1 name_key) (to_string e.size) (after_size e tail)
      (AllDigits-Lacks quote _ refl (to_string-AllDigits e.size))
    ∙ (find_text-append quote (drop 1 name_key) (to_string e.mtime) (after_mtime e tail)
          (AllDigits-Lacks quote _ refl (to_string-AllDigits e.mtime))
        ∙ end e.is_directory)
  where
    end :
        (b : Bool)
        → find_text name_key (
            codes ", \"is_directory\": "
            ++ ((if b then codes "true" else codes "false") ++ (codes "}" ++ tail)))
          ≡ find_text name_key tail
    end true = refl
    end false = refl

find_names-info_json :
    (fuel : ℕ) (e : FileInfo) (tail : Text) (out : List Text)
    → IsPlain e.name
    → find_names (suc fuel) (info_json e tail) out
      ≡ find_names fuel (drop 1 (after_name e tail)) (insert_text e.name out)
unfolding find_names info_json after_name find_text has_prefix find_char skip_while
find_names-info_json fuel e tail out plain =
    rw
      (
        find_char-append quote e.name (drop 1 (after_name e tail)) (IsPlain-Lacks e.name plain),
        find_names,
      )
      refl

-- A round depends on the text behind the next key alone.
find_names-same :
    (fuel : ℕ) (a b : Text) (out : List Text)
    → find_text name_key a ≡ find_text name_key b
    → find_names (suc fuel) a out ≡ find_names (suc fuel) b out
unfolding find_names
find_names-same fuel a b out e = rw (e, find_names) refl

find_names-list :
    (es : List FileInfo) (fuel : ℕ) (e : FileInfo) (out : List Text)
    → AllPlain (e ∷ es)
    → suc (length es) < fuel
    → find_names fuel (info_json e (rest_json es)) out
      ≡ returned (insert_all (map (λ e. e.name) (e ∷ es)) out)
unfolding rest_json insert_all find_names find_text has_prefix
find_names-list [] (suc (suc fuel)) e out plain lt =
    find_names-info_json (suc fuel) e (codes "]") out plain.0
    ∙ find_names-same fuel (drop 1 (after_name e (codes "]"))) (codes "]") (insert_text e.name out)
        (find_text-after_name e (codes "]"))
find_names-list (e' ∷ es) (suc (suc fuel)) e out plain lt =
    find_names-info_json (suc fuel) e (rest_json (e' ∷ es)) out plain.0
    ∙ (find_names-same fuel (drop 1 (after_name e (rest_json (e' ∷ es))))
          (info_json e' (rest_json es)) (insert_text e.name out)
          (find_text-after_name e (rest_json (e' ∷ es)))
        ∙ find_names-list es (suc fuel) e' (insert_text e.name out) plain.1 (omega arith))
find_names-list es zero e out plain lt = absurd (omega arith)
find_names-list es (suc zero) e out plain lt = absurd (omega arith)

length-info_json : (e : FileInfo) (tail : Text) → suc (length tail) ≤ length (info_json e tail)
unfolding info_json after_name
length-info_json e tail = omega (
  arith,
  length-append e.name (after_name e tail),
  length-append (to_string e.size) (after_size e tail),
  length-append (to_string e.mtime) (after_mtime e tail),
  length-append (if e.is_directory then codes "true" else codes "false") (codes "}" ++ tail),
)

length-rest_json : (es : List FileInfo) → suc (length es) ≤ length (rest_json es)
unfolding rest_json
length-rest_json [] = omega arith
length-rest_json (e ∷ es) = omega (arith, length-rest_json es, length-info_json e (rest_json es))

-- `findJsonNames` on the server's answer about a directory of plainly named files inserts their
-- names, all of them and no other, into the set, also where a name reads like a key of the
-- answer.
pub find_json_names-list_json :
    (es : List FileInfo) (out : List Text)
    → AllPlain es
    → find_json_names (list_json es) out ≡ returned (insert_all (map (λ e. e.name) es) out)
unfolding find_json_names list_json find_names find_text has_prefix
find_json_names-list_json [] out plain = unfold insert_all in refl
find_json_names-list_json (e ∷ es) out plain =
    find_names-list es (suc (length (list_json (e ∷ es)))) e out plain
      (omega (arith, length-rest_json es, length-info_json e (rest_json es)))
