-- ===== src/Http/Slices.antt =====
-- `write_slice_cb` over all the chunks of a body.
use cache_system_with_fuse.Http.{SliceWriter, Chunk, write_slice_cb, write_slices}
use cache_system_with_fuse.Base.{
  ℕ, ◌+◌, ◌-◌, ◌≤◌, min, ◌≡◌, ap, ◌&&◌, List, [], ◌∷◌, arith, dec_le, ltb, leb, if◌then◌else◌,
  Bytes, memcpy,
}

-- A body put together from its chunks, and its length.
abbrev pub body : List Chunk → Bytes
body [] i = 0
body ((b, n) ∷ cs) i = if ltb i n then b i else body cs (i - n)

abbrev pub body_length : List Chunk → ℕ
body_length [] = 0
body_length ((b, n) ∷ cs) = n + body_length cs

write_slice_cb_lem :
    (ptr : Bytes) (n : ℕ) (sw : SliceWriter) (i : ℕ)
    → sw.filled ≤ sw.cap
    → let sw' = (write_slice_cb (ptr, n) sw).0 in
      (sw'.cap ≡ sw.cap)
      × (sw'.filled ≡ min sw.cap (sw.filled + n))
      × (sw'.dst i ≡ (
          if leb sw.filled i && ltb i (min sw.cap (sw.filled + n))
          then ptr (i - sw.filled)
          else sw.dst i))
unfolding write_slice_cb memcpy
write_slice_cb_lem ptr n sw i h =
    let z : 0 + (i - sw.filled) ≡ i - sw.filled = omega arith in ground (arith, ap ptr z)

-- However a body is cut into chunks, the writer takes the start of it that fits, in order, and
-- leaves the bytes before and behind alone.
pub write_slices_lem :
    (cs : List Chunk) (sw : SliceWriter) (i : ℕ)
    → sw.filled ≤ sw.cap
    → let sw' = write_slices cs sw in
      (sw'.filled ≡ min sw.cap (sw.filled + body_length cs))
      × (sw'.dst i ≡ (
          if leb sw.filled i && ltb i (min sw.cap (sw.filled + body_length cs))
          then body cs (i - sw.filled)
          else sw.dst i))
unfolding write_slices
write_slices_lem [] sw i h = ground arith
write_slices_lem ((b, n) ∷ cs) sw i h =
    let sw' = (write_slice_cb (b, n) sw).0 in
    let (cap, filled, byte) = write_slice_cb_lem b n sw i h in
    let (all, bytes) = write_slices_lem cs sw' i (omega (arith, cap, filled)) in
    let rest : sw.filled + n ≤ sw.cap → i - sw'.filled ≡ i - sw.filled - n =
      λ fits. omega (arith, filled) in
    elim (dec_le (sw.filled + n) sw.cap) [
      | yes fits ↦ (
        omega (arith, cap, filled, all),
        ground (arith, cap, filled, byte, bytes, ap (body cs) (rest fits)),
      )
      | no full ↦ (omega (arith, cap, filled, all), ground (arith, cap, filled, byte, bytes))
    ]
