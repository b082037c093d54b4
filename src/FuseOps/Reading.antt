-- ===== src/FuseOps/Reading.antt =====
-- `fuse_fs_read` of a file system with a handler `read_buf`: its result, and what it frees.
use cache_system_with_fuse.FuseOps.{FuseBuf, FuseBufvec}
use cache_system_with_fuse.Base.{
  ℕ, ◌+◌, ◌&&◌, not, Option, none, some, List, [], ◌∷◌, ◌==◌, if◌then◌else◌,
}

abbrev pub occurrences : ℕ → List ℕ → ℕ
occurrences a [] = 0
occurrences a (b ∷ l) = (if b == a then 1 else 0) + occurrences a l

-- How often a vector has the address of a block that is its own.
abbrev pub blocks : ℕ → List FuseBuf → ℕ
blocks a [] = 0
blocks a (b ∷ bufs) = (if not b.is_fd && b.mem == a then 1 else 0) + blocks a bufs

abbrev pub owned : ℕ → Option FuseBufvec → ℕ
owned a none = 0
owned a (some v) = blocks a v.bufs + (if v.address == a then 1 else 0)
