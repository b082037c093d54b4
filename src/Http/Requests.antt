-- ===== src/Http/Requests.antt =====
-- What `download` leaves in the caller's buffer.
use cache_system_with_fuse.Http.{
  SliceWriter, Response, Curl, HttpBackend, write_slices, succeeded, download_request, download,
}
use cache_system_with_fuse.Http.Slices.{body, body_length, write_slices_lem}
use cache_system_with_fuse.Base.{
  ℕ, ◌-◌, ◌≤◌, ◌<◌, min, ◌≡◌, ap, subst, ◌⊎◌, inl, inr, true, false, some, arith, Bool-cases,
  Option-cases, pos, negsuc, Text, Bytes,
}

-- What a buffer is after a body was written into its first `size` bytes.
downloaded :
    (r : Response) (buffer : Bytes) (size i : ℕ)
    → let sw = write_slices r.chunks (record { dst = buffer; cap = size; filled = 0 }) in
      (sw.filled ≡ min size (body_length r.chunks))
      × (i < min size (body_length r.chunks) → sw.dst i ≡ body r.chunks i)
      × (size ≤ i → sw.dst i ≡ buffer i)
downloaded r buffer size i =
    let start : SliceWriter = record { dst = buffer; cap = size; filled = 0 } in
    let (filled, byte) = write_slices_lem r.chunks start i (omega arith) in
    let back : i - 0 ≡ i = omega arith in
    (
      omega (arith, filled),
      λ lt. ground (arith, byte, lt, ap (body r.chunks) back),
      λ le. ground (arith, byte, le),
    )

-- A download never writes behind the `size` bytes of the buffer. Where libcurl answers its
-- request without an error and with a code of the 200s, the result is the length of the body, at
-- most `size`, and that many bytes of the body are in the buffer, in order, however libcurl cut
-- it into chunks; otherwise the result is -1.
pub download_lem :
    (curl : Curl) (b : HttpBackend) (path : Text) (buffer : Bytes) (size offset : ℕ)
    → let d = download curl b path buffer size offset in
      ((i : ℕ) → size ≤ i → d.1 i ≡ buffer i)
      × (((r : Response) × (curl (download_request b path size offset) ≡ some r)
            × (succeeded r ≡ true)
            × (d.0 ≡ pos (min size (body_length r.chunks)))
            × ((i : ℕ) → i < min size (body_length r.chunks) → d.1 i ≡ body r.chunks i))
          ⊎ (((r : Response)
                → curl (download_request b path size offset) ≡ some r
                → succeeded r ≡ false)
              × (d.0 ≡ negsuc 0)))
unfolding download
download_lem curl b path buffer size offset =
    elim (Option-cases (curl (download_request b path size offset))) [
      | inl e ↦ (λ i le. ground (arith, e), inr (λ r p. absurd (cc (e, p)), ground (arith, e)))
      | inr (r, e) ↦
          let filled = (downloaded r buffer size 0).0 in
          (
            λ i le. ground (arith, e, (downloaded r buffer size i).2 le),
            elim (Bool-cases (succeeded r)) [
              | inl ok ↦ inl (
                r,
                e,
                ok,
                ground (arith, e, ok, filled),
                λ i lt. ground (arith, e, (downloaded r buffer size i).1 lt),
              )
              | inr bad ↦ inr (
                λ r' p. let same : r ≡ r' = cc (e, p) in subst (λ t. succeeded t ≡ false) same bad,
                ground (arith, e, bad),
              )
            ],
          )
    ]
