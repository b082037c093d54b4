-- ===== src/Fuse/Json/Server.antt =====
-- backend/local_server.py: what the server answers about a file and about a directory, as
-- `json.dumps` prints it. A name of printable characters but for quotes and backslashes is printed as
-- it is.
use cache_system_with_fuse.Layout.{to_string}
use cache_system_with_fuse.Base.{
  ℕ, ◌≡◌, Bool, true, ◌&&◌, not, List, [], ◌∷◌, ◌++◌, leb, ◌==◌, if◌then◌else◌, Text, codes,
}

-- `_get_file_info`.
pub record FileInfo : Type 0 where
  pub name : Text
  pub size : ℕ
  pub mtime : ℕ
  pub is_directory : Bool

abbrev pub is_plain : ℕ → Bool
is_plain c = leb 32 c && (leb c 126 && (not (c == 34) && not (c == 92)))

abbrev pub IsPlain : Text → Type 0
IsPlain [] = Unit {0}
IsPlain (c ∷ s) = (is_plain c ≡ true) × IsPlain s

-- The answer about one file, in front of `tail`.
abbrev pub after_mtime : FileInfo → Text → Text
after_mtime e tail =
    codes ", \"is_directory\": "
    ++ ((if e.is_directory then codes "true" else codes "false") ++ (codes "}" ++ tail))

abbrev pub after_size : FileInfo → Text → Text
after_size e tail = codes ", \"mtime\": " ++ (to_string e.mtime ++ after_mtime e tail)

unfoldable pub after_name : FileInfo → Text → Text
after_name e tail = codes "\", \"size\": " ++ (to_string e.size ++ after_size e tail)

unfoldable pub info_json : FileInfo → Text → Text
info_json e tail = codes "{\"name\": \"" ++ (e.name ++ after_name e tail)

-- The answer about a directory.
unfoldable pub rest_json : List FileInfo → Text
rest_json [] = codes "]"
rest_json (e ∷ es) = codes ", " ++ info_json e (rest_json es)

unfoldable pub list_json : List FileInfo → Text
list_json [] = codes "[]"
list_json (e ∷ es) = codes "[" ++ info_json e (rest_json es)
