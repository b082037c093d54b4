-- ===== src/Http.antt =====
-- backend/http_backend.cc: the callbacks and the three requests. libcurl is a parameter: what it
-- answers to a request, and in which chunks the body arrives.
pub mod Slices
pub mod Requests
pub mod Uploads
use cache_system_with_fuse.Layout.{to_string}
use cache_system_with_fuse.Base.{
  ℕ, zero, suc, ◌+◌, ◌-◌, ◌*◌, ◌/◌, ◌%◌, ◌^◌, ◌≤◌, ◌<◌, min, max, ◌≡◌, refl, sym, ap, subst, ◌∙◌,
  ◌≢◌, ◌↔◌, ◌⊎◌, inl, inr, ite, if_pos, if_neg, Bool, true, false, ◌&&◌, ◌||◌, not, Option, none,
  some, List, [], ◌∷◌, ◌++◌, map, arith, dec_lt, dec_le, ℕ_discrete, ltb, leb, ◌==◌, if◌then◌else◌,
  ltb→lt, lt→ltb, ==_iff, Bool-cases, Option-cases, ℤ, pos, negsuc, neg, is_negative, to_ℕ,
  is_count, Outcome, returned, thrown, faulted, exhausted, length, get_or, set, take, drop,
  replicate, length-append, length-set, length-replicate, get_or-set_self, get_or-set_ne,
  get_or-append_left, get_or_past, Text, codes, text_discrete, find, put, erase, find-put,
  find-erase, table_laws, keys, has, Table, Bytes, memcpy, Agree, bit_or_disjoint,
}

-- `SliceWriter`.
pub record SliceWriter : Type 0 where
  pub dst : Bytes
  pub cap : ℕ
  pub filled : ℕ

-- A chunk of a body: its bytes and their number (`sz * nm`).
abbrev pub Chunk : Type 0
Chunk = Bytes × ℕ

-- `write_slice_cb`: the writer, and the number that it reports as taken.
unfoldable pub write_slice_cb : Chunk → SliceWriter → SliceWriter × ℕ
write_slice_cb (ptr, n) sw =
    let cpy = min n (sw.cap - sw.filled) in
    (
      if cpy == 0
          then sw
          else record sw { dst = memcpy sw.dst sw.filled ptr 0 cpy; filled = sw.filled + cpy },
      n,
    )

-- All chunks of a body, in order.
unfoldable pub write_slices : List Chunk → SliceWriter → SliceWriter
write_slices [] sw = sw
write_slices (c ∷ cs) sw = write_slices cs (write_slice_cb c sw).0

-- `UploadBuf`.
pub record UploadBuf : Type 0 where
  pub payload : Bytes
  pub total : ℕ
  pub sent : ℕ

-- `read_upload_cb` for a buffer of `room` bytes: the state, the buffer and the count.
unfoldable pub read_upload_cb : Bytes → ℕ → UploadBuf → UploadBuf × Bytes × ℕ
read_upload_cb ptr room up =
    let left = up.total - up.sent in
    let cpy = min left room in
    if cpy == 0
    then (up, ptr, cpy)
    else (record up { sent = up.sent + cpy }, memcpy ptr 0 up.payload up.sent cpy, cpy)

-- `ok_2xx`.
unfoldable pub ok_2xx : ℕ → Bool
ok_2xx code = code / 100 == 2

pub data Method : Type 0 where
  get_range put_range delete : Method

-- The options of a request that the source sets.
pub record Request : Type 0 where
  pub method : Method
  pub url : Text
  pub range : Option Text
  pub authorization : Option Text
  pub body : Bytes
  pub body_size : ℕ

-- `curl_easy_perform` and the response code; `ok` is `CURLE_OK`.
pub record Response : Type 0 where
  pub ok : Bool
  pub http_code : ℕ
  pub chunks : List Chunk

-- `none` where `curl_easy_init` fails.
abbrev pub Curl : Type 0
Curl = Request → Option Response

pub record HttpBackend : Type 0 where
  pub base_url : Text
  pub bearer_token : Text

-- `init`, whose result is always 0.
unfoldable pub init : Text → Text → HttpBackend × ℤ
init url bearer_token = (record { base_url = url; bearer_token = bearer_token }, pos 0)

unfoldable pub authorization_of : HttpBackend → Option Text
authorization_of b =
    if length b.bearer_token == 0
    then none
    else some (codes "Authorization: Bearer " ++ b.bearer_token)

-- `std::to_string(offset) + "-" + std::to_string(offset + size - 1)`, in 64 bits.
unfoldable pub range_text : ℕ → ℕ → Text
range_text offset size =
    to_string offset ++ (codes "-" ++ to_string ((offset + size + (2 ^ 64 - 1)) % 2 ^ 64))

unfoldable pub succeeded : Response → Bool
unfolding ok_2xx
succeeded r = r.ok && ok_2xx r.http_code

-- The options that `download` sets.
unfoldable pub download_request : HttpBackend → Text → ℕ → ℕ → Request
download_request b path size offset = record {
  method = get_range;
  url = b.base_url ++ path;
  range = if size == 0 then none else some (range_text offset size);
  authorization = authorization_of b;
  body = λ i. 0;
  body_size = 0;
}

unfoldable pub download : Curl → HttpBackend → Text → Bytes → ℕ → ℕ → ℤ × Bytes
download curl b path buffer size offset = elim (curl (download_request b path size offset)) [
  | none ↦ (negsuc 0, buffer)
  | some r ↦
      let sw = write_slices r.chunks (record { dst = buffer; cap = size; filled = 0 }) in
      (if succeeded r then pos sw.filled else negsuc 0, sw.dst)
]

unfoldable pub upload : Curl → HttpBackend → Text → Bytes → ℕ → ℕ → ℤ
upload curl b path buffer size offset =
    let request : Request = record {
      method = put_range;
      url = b.base_url ++ path;
      range = some (codes "Content-Range: bytes " ++ (range_text offset size ++ codes "/*"));
      authorization = authorization_of b;
      body = buffer;
      body_size = size;
    } in
    elim (curl request) [ none ↦ negsuc 0 | some r ↦ if succeeded r then pos size else negsuc 0 ]

unfoldable pub remove : Curl → HttpBackend → Text → ℤ
remove curl b path =
    let request : Request = record {
      method = delete;
      url = b.base_url ++ path;
      range = none;
      authorization = authorization_of b;
      body = λ i. 0;
      body_size = 0;
    } in
    elim (curl request) [ none ↦ negsuc 0 | some r ↦ if succeeded r then pos 0 else negsuc 0 ]

-- `Backend`: the calls of a backend whose state is `B`.
pub record Backend (B : Type 0) : Type 0 where
  pub init : Text → Text → B × ℤ
  pub download : B → Text → Bytes → ℕ → ℕ → ℤ × Bytes
  pub upload : B → Text → Bytes → ℕ → ℕ → ℤ
  pub remove : B → Text → ℤ

-- `HttpBackend` as a `Backend`.
unfoldable pub http_backend : Curl → Backend HttpBackend
unfolding init download upload remove
http_backend curl = record {
  init = init;
  download = download curl;
  upload = upload curl;
  remove = remove curl;
}

-- `create_backend` makes the new backend the one of the functions below.
unfoldable pub create_backend : Text → Option HttpBackend × Option HttpBackend
unfolding init
create_backend url = let b = (init url []).0 in (some b, some b)

-- ENODEV is 19.
abbrev pub enodev : ℤ
enodev = negsuc 18

unfoldable pub backend_read_range : Curl → Option HttpBackend → Text → Bytes → ℕ → ℕ → ℤ × Bytes
backend_read_range curl none path buf len off = (enodev, buf)
backend_read_range curl (some b) path buf len off = download curl b path buf len off

unfoldable pub backend_put_range : Curl → Option HttpBackend → Text → Bytes → ℕ → ℕ → ℤ
backend_put_range curl none path buf len off = enodev
backend_put_range curl (some b) path buf len off = upload curl b path buf len off

unfoldable pub backend_delete : Curl → Option HttpBackend → Text → ℤ
backend_delete curl none path = enodev
backend_delete curl (some b) path = remove curl b path
