-- ===== src/Fuse/Main/Url.antt =====
-- fuse/fuse.cc: the address of the API in the URL that `main` is given.
use cache_system_with_fuse.Files.{slash}
use cache_system_with_fuse.BlockStore.{has_prefix}
use cache_system_with_fuse.Fuse.Search.{find_text}
use cache_system_with_fuse.Fuse.Json.Names.{Lacks, lacks-Lacks, find_text-append}
use cache_system_with_fuse.Fuse.Main.{remote, text_before, api_base, scheme_of}
use cache_system_with_fuse.Base.{
  ◌-◌, ◌≡◌, refl, sym, ap, ◌∙◌, ◌≢◌, inl, inr, Bool, true, false, none, some, [], ◌∷◌, ◌++◌, arith,
  if◌then◌else◌, Bool-cases, length, take, drop, length-append, Text, codes,
}

-- Two texts are equal up to their first slashes, if one is found where the other stands.
has_prefix_segment :
    (k k' w s : Text)
    → Lacks slash k
    → Lacks slash w
    → has_prefix (k ++ slash ∷ k') (w ++ slash ∷ s) ≡ true
    → has_prefix k' s ≡ true
unfolding has_prefix
has_prefix_segment [] k' [] s hk hw e = ground (arith, e)
has_prefix_segment [] k' (b ∷ w) s hk hw e = absurd (hw.0 (ground (arith, e)))
has_prefix_segment (c ∷ k) k' [] s hk hw e = absurd (hk.0 (ground (arith, e)))
has_prefix_segment (c ∷ k) k' (b ∷ w) s hk hw e =
    has_prefix_segment k k' w s hk.1 hw.1 (ground (arith, e))

take-append : (a b : Text) → take (length a) (a ++ b) ≡ a
take-append [] b = refl
take-append (c ∷ a) b = ap (λ t. c ∷ t) (take-append a b)

-- What stands before the end of a text.
text_before-append : (a b : Text) → text_before (a ++ b) b ≡ a
text_before-append a b =
    let before : length (a ++ b) - length b ≡ length a = omega (arith, length-append a b) in
    ap (λ n. take n (a ++ b)) before ∙ take-append a b

abbrev pub protocol : Bool → Text
protocol true = codes "https:"
protocol false = codes "http:"

protocol-Lacks : (secure : Bool) → Lacks slash (protocol secure)
protocol-Lacks true = lacks-Lacks slash (codes "https:") refl
protocol-Lacks false = lacks-Lacks slash (codes "http:") refl

data_not_api : (rest : Text) → has_prefix (codes "data") (codes "api/data" ++ rest) ≢ true
unfolding has_prefix
data_not_api rest e = ground (arith, e)

-- The key does not begin at the slash before the host.
no_key :
    (host rest : Text)
    → Lacks slash host
    → has_prefix (codes "api/data") (host ++ (codes "/api/data" ++ rest)) ≡ false
no_key host rest plain =
    elim (Bool-cases (has_prefix (codes "api/data") (host ++ (codes "/api/data" ++ rest)))) [
      | inr absent ↦ absent
      | inl there ↦ absurd (
          data_not_api rest (
            has_prefix_segment (codes "api") (codes "data") host (codes "api/data" ++ rest)
              (lacks-Lacks slash (codes "api") refl) plain there))
    ]

-- The key is not found before the end of the host.
find_text-host :
    (host rest : Text)
    → Lacks slash host
    → find_text (codes "/api/data") (slash ∷ slash ∷ (host ++ (codes "/api/data" ++ rest)))
      ≡ some (codes "/api/data" ++ rest)
unfolding find_text has_prefix
find_text-host host rest plain =
    ap
      (λ b.
        if b
        then some (slash ∷ (host ++ (codes "/api/data" ++ rest)))
        else find_text (codes "/api/data") (host ++ (codes "/api/data" ++ rest)))
      (no_key host rest plain)
    ∙ find_text-append slash (drop 1 (codes "/api/data")) host (codes "/api/data" ++ rest) plain

url_splits :
    (secure : Bool) (host t : Text)
    → protocol secure ++ (slash ∷ slash ∷ (host ++ t))
      ≡ (protocol secure ++ (slash ∷ slash ∷ host)) ++ t
url_splits true host t = refl
url_splits false host t = refl

api_base-remote :
    (secure : Bool) (host rest : Text)
    → Lacks slash host
    → api_base (protocol secure ++ (slash ∷ slash ∷ (host ++ (codes "/api/data" ++ rest))))
      ≡ protocol secure ++ (slash ∷ slash ∷ (host ++ codes "/api"))
unfolding api_base
api_base-remote secure host rest plain =
    let from = codes "/api/data" ++ rest in
    let head = protocol secure ++ (slash ∷ slash ∷ host) in
    let at =
      find_text-append slash (drop 1 (codes "/api/data")) (protocol secure)
        (slash ∷ slash ∷ (host ++ from)) (protocol-Lacks secure)
      ∙ find_text-host host rest plain in
    let found =
      ap
        (λ o. elim o as (λ x. Text) [
          | none ↦ protocol secure ++ (slash ∷ slash ∷ (host ++ from))
          | some f ↦
              text_before (protocol secure ++ (slash ∷ slash ∷ (host ++ from))) f ++ codes "/api"
        ])
        at in
    found
    ∙ ap (λ u. text_before u from ++ codes "/api") (url_splits secure host from)
    ∙ ap (λ u. u ++ codes "/api") (text_before-append head from)
    ∙ sym (url_splits secure host (codes "/api"))

-- For a URL of http or https whose host, with its port, has no slash and which goes on with
-- /api/data, whatever follows, `main` takes the same protocol and host with /api as the address
-- of the API.
pub scheme_of-remote :
    (secure : Bool) (host rest : Text)
    → Lacks slash host
    → scheme_of (protocol secure ++ (slash ∷ slash ∷ (host ++ (codes "/api/data" ++ rest))))
      ≡ remote (protocol secure ++ (slash ∷ slash ∷ (host ++ codes "/api")))
unfolding scheme_of has_prefix
scheme_of-remote true host rest plain = ap remote (api_base-remote true host rest plain)
scheme_of-remote false host rest plain = ap remote (api_base-remote false host rest plain)
