-- ===== src/Base/Memory.antt =====
-- Memory seen from a `char*`: the byte at each index. The length of a buffer is kept beside it, as
-- the source keeps it.
use Prim.Native.Nat.{ℕ, ◌+◌, ◌-◌, ◌<◌}
use mathlib.Core.Path.{◌≡◌}
use mathlib.Core.Bool.{◌&&◌}
use cache_system_with_fuse.Base.Tests.{leb, ltb, if◌then◌else◌}

abbrev pub Bytes : Type 0
Bytes = ℕ → ℕ

-- `memcpy(dst + at, src + start, n)`.
unfoldable pub memcpy : Bytes → ℕ → Bytes → ℕ → ℕ → Bytes
memcpy dst at src start n i = if leb at i && ltb i (at + n) then src (start + (i - at)) else dst i

-- Two buffers hold the same `n` bytes.
abbrev pub Agree : ℕ → Bytes → Bytes → Type 0
Agree n a b = (i : ℕ) → i < n → a i ≡ b i
