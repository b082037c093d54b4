-- ===== src/Fuse/Attributes/Remote.antt =====
-- `getAttribute` over HTTP, from the answer of the server to the `stat` of the file.
use cache_system_with_fuse.Bitmap.{list_of}
use cache_system_with_fuse.Http.{
  HttpBackend, http_backend, Response, succeeded, download_request, download,
}
use cache_system_with_fuse.Http.Slices.{body, body_length}
use cache_system_with_fuse.Http.Requests.{download_lem}
use cache_system_with_fuse.Fuse.{System, Mount, directory_mode, file_mode}
use cache_system_with_fuse.Fuse.Json.Server.{FileInfo, IsPlain, info_json}
use cache_system_with_fuse.Fuse.Json.Info.{parse_info-info_json}
use cache_system_with_fuse.Fuse.Attributes.{
  download_from, text_of, zeros, get_file_info, http_attribute, get_attribute,
}
use cache_system_with_fuse.Base.{
  ℕ, suc, ◌+◌, ◌^◌, ◌≤◌, ◌<◌, min, ◌≡◌, refl, sym, ap, ◌∙◌, inl, inr, true, false, some, [], ◌∷◌,
  ◌++◌, arith, leb, if◌then◌else◌, Bool-cases, pos, returned, thrown, length, get_or, Text, codes,
  Bytes,
}

-- A buffer that begins with a text.
abbrev pub Begins : Bytes → Text → Type 0
Begins buf s = (i : ℕ) → i < length s → buf i ≡ get_or s i 0

list_of-Begins :
    (s : Text) (start : ℕ) (buf : Bytes)
    → ((i : ℕ) → i < length s → buf (start + i) ≡ get_or s i 0)
    → list_of (length s) start buf ≡ s
unfolding list_of
list_of-Begins [] start buf h = refl
list_of-Begins (c ∷ s) start buf h =
    let first : start + 0 ≡ start = omega arith in
    let head : buf start ≡ c = rw first at (h 0 (omega arith)) in
    let tail = list_of-Begins s (start + 1) buf (λ i lt.
      let next : start + 1 + i ≡ start + suc i = omega arith in
      rw next (h (suc i) (omega arith))) in
    cc (head, tail)

-- The answer of libcurl brings a text, whole and with a code of the 200s.
pub record Answers (sys : System) (b : HttpBackend) (path : Text) (room : ℕ) (text : Text)
    : Type 0 where
  pub response : Response
  pub given : sys.curl (download_request b path room 0) ≡ some response
  pub succeeds : succeeded response ≡ true
  pub whole : body_length response.chunks ≡ length text
  pub fits : length text ≤ room
  pub brings : Begins (body response.chunks) text

pub download_text :
    (sys : System) (b : HttpBackend) (path : Text) (room : ℕ) (text : Text) (buf : Bytes)
    → Answers sys b path room text
    → (buf' : Bytes) × (download sys.curl b path buf room 0 ≡ (pos (length text), buf'))
      × (text_of (pos (length text)) buf' ≡ text)
download_text sys b path room text buf a = elim (download_lem sys.curl b path buf room 0).1 [
  | inl (r, given, ok, count, bytes) ↦
      let same : r ≡ a.response = cc (given, a.given) in
      let size : body_length r.chunks ≡ length text =
        ap (λ t. body_length t.chunks) same ∙ a.whole in
      let all : min room (body_length r.chunks) ≡ length text = omega (arith, size, a.fits) in
      let buf' = (download sys.curl b path buf room 0).1 in
      (
        buf',
        ap (λ n. (n, buf')) (count ∙ ap pos all),
        list_of-Begins text 0 buf' (λ i lt.
            let at : 0 + i ≡ i = omega arith in
            rw at
              (bytes i (omega (arith, all)) ∙ (ap (λ t. body t.chunks i) same ∙ a.brings i lt))),
      )
  | inr (fails, _) ↦ absurd (true≢false (sym a.succeeds ∙ fails a.response a.given))
]
  where
    true≢false : ¬ (true ≡ false)
    true≢false e = cc

module _ {A : Type 0} (sys : System) where
  get_file_info-Answers :
      (s : Mount A) (b : HttpBackend) (path : Text) (e : FileInfo)
      → IsPlain e.name
      → s.api_backend ≡ some b
      → Answers sys b (codes "/info" ++ path) 1024 (info_json e [])
      → get_file_info sys s path
        ≡ (if leb (2 ^ 31) e.size then thrown else returned (some (e.size, e.is_directory)))
  unfolding get_file_info download_from http_backend
  get_file_info-Answers s b path e plain known a =
      let (buf, got, text) =
        download_text sys b (codes "/info" ++ path) 1024 (info_json e []) zeros a in
      let parsed = rw (← text) at (parse_info-info_json e plain) in
      elim (Bool-cases (leb (2 ^ 31) e.size)) [
        | inl huge ↦ ground (arith, known, got, parsed, huge)
        | inr small ↦ ground (arith, known, got, parsed, small)
      ]

  -- Over HTTP, where the path is not the literal "/" and the server's whole answer about a
  -- plainly named file arrives within 1024 bytes, `getAttribute` returns 0 with the attributes of
  -- a directory, or of a file with the size that the server gave, whatever the name contains;
  -- where the size is 2 ^ 31 or more, `stoi` throws.
  pub get_attribute-Answers :
      (s : Mount A) (b : HttpBackend) (path : Text) (e : FileInfo)
      → sys.is_literal path ≡ false
      → s.file_remote_directory ≡ []
      → s.http_mode ≡ true
      → s.api_backend ≡ some b
      → IsPlain e.name
      → Answers sys b (codes "/info" ++ path) 1024 (info_json e [])
      → get_attribute sys s path ≡ (
          if leb (2 ^ 31) e.size
          then thrown
          else returned (
            s,
            pos 0,
            (if e.is_directory
                then record { st_mode = directory_mode; st_nlink = 2; st_size = 0 }
                else record { st_mode = file_mode; st_nlink = 1; st_size = e.size }),
          ))
  unfolding get_attribute http_attribute
  get_attribute-Answers s b path e other remote http known plain a =
      let info = get_file_info-Answers s b path e plain known a in
      elim (Bool-cases (leb (2 ^ 31) e.size)) [
        | inl huge ↦ ground (arith, other, remote, http, info, huge)
        | inr small ↦ ground (arith, other, remote, http, info, small)
      ]
