-- ===== src/Http/Uploads.antt =====
-- `read_upload_cb` over all the calls of an upload.
use cache_system_with_fuse.Http.{Chunk, UploadBuf, read_upload_cb}
use cache_system_with_fuse.Http.Slices.{body, body_length}
use cache_system_with_fuse.Base.{
  ℕ, ◌+◌, ◌-◌, ◌≤◌, min, ◌≡◌, ap, ◌∙◌, List, [], ◌∷◌, arith, dec_lt, Bytes, memcpy, Agree,
}

-- The calls of libcurl, each with a buffer and the room in it, and the chunks that they yield.
abbrev pub upload_chunks : List Chunk → UploadBuf → UploadBuf × List Chunk
upload_chunks [] up = (up, [])
upload_chunks ((ptr, room) ∷ calls) up =
    let (up', chunk, n) = read_upload_cb ptr room up in
    let (up'', chunks) = upload_chunks calls up' in (up'', (chunk, n) ∷ chunks)

read_upload_cb_lem :
    (ptr : Bytes) (room : ℕ) (up : UploadBuf)
    → up.sent ≤ up.total
    → let (up', chunk, n) = read_upload_cb ptr room up in
      (up'.payload ≡ up.payload)
      × (up'.total ≡ up.total)
      × (n ≡ min (up.total - up.sent) room)
      × (up'.sent ≡ up.sent + n)
      × Agree n chunk (λ i. up.payload (up.sent + i))
unfolding read_upload_cb memcpy
read_upload_cb_lem ptr room up h = (
  ground arith,
  ground arith,
  ground arith,
  ground arith,
  λ i lt.
      let z : up.sent + (i - 0) ≡ up.sent + i = omega arith in ground (arith, lt, ap up.payload z),
)

-- However much room libcurl gives in each call of `read_upload_cb`, the chunks that it gets put
-- together are the payload from where the upload stood, in order and without a gap, up to the
-- whole room or the end of the payload.
pub upload_chunks_right :
    (calls : List Chunk) (up : UploadBuf)
    → up.sent ≤ up.total
    → let (up', chunks) = upload_chunks calls up in
      (up'.sent ≡ min up.total (up.sent + body_length calls))
      × (body_length chunks ≡ up'.sent - up.sent)
      × Agree (body_length chunks) (body chunks) (λ i. up.payload (up.sent + i))
upload_chunks_right [] up h = (omega arith, omega arith, λ i lt. absurd (omega arith))
upload_chunks_right ((ptr, room) ∷ calls) up h =
    let (up', chunk, n) = read_upload_cb ptr room up in
    let (payload, total, count, sent, bytes) = read_upload_cb_lem ptr room up h in
    let (all, size, rest) = upload_chunks_right calls up' (omega (arith, total, count, sent)) in
    (
      omega (arith, total, count, sent, all),
      omega (arith, total, count, sent, all, size),
      λ i lt. elim (dec_lt i n) [
        | yes now ↦ ground (arith, now, bytes i now)
        | no later ↦
            let at : up'.sent + (i - n) ≡ up.sent + i = omega (arith, sent) in
            let byte = rest (i - n) (omega arith) in
            let value : up'.payload (up'.sent + (i - n)) ≡ up.payload (up.sent + i) =
              ap (λ p. p (up'.sent + (i - n))) payload ∙ ap up.payload at in
            ground (arith, later, byte, value)
      ],
    )
