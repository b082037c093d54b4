-- ===== src/Files/Contents.antt =====
-- What a file has after it was opened and written, where the system refuses nothing and cuts no write
-- short.
use cache_system_with_fuse.Files.{
  Disk, Syscall, File, Opened, failed, opened, parent, exists_dir, file_at, empty_file, open_file,
  pread, pwrite, write_bytes, room,
}
use cache_system_with_fuse.Base.{
  ℕ, ◌+◌, ◌-◌, ◌≤◌, ◌<◌, min, ◌≡◌, refl, ap, ◌∙◌, ◌⊎◌, inl, inr, Bool, true, false, none, some,
  arith, ltb, if◌then◌else◌, Option-cases, pos, Text, text_discrete, put, find-put, Bytes, memcpy,
  Agree,
}

-- No call is refused and no write stops short.
abbrev pub Accepts : Disk → Type 0
Accepts d = (c : Syscall) (p : Text) → d.refuse c p ≡ none

pub Opened-cases : (o : Opened) → ((e : ℕ) × (o ≡ failed e)) ⊎ ((d : Disk) × (o ≡ opened d))
Opened-cases (failed e) = inl (e, refl)
Opened-cases (opened d) = inr (d, refl)

pub Accepts-refuse : (d d' : Disk) → d'.refuse ≡ d.refuse → Accepts d → Accepts d'
Accepts-refuse d d' same a c p = ap (λ r. r c p) same ∙ a c p

pub open_file-refuse :
    (d d' : Disk) (p : Text) (create : Bool)
    → open_file d p create ≡ opened d'
    → d'.refuse ≡ d.refuse
unfolding open_file
open_file-refuse d d' p create e = ground (arith, e)

pub pwrite-refuse :
    (d : Disk) (p : Text) (src : Bytes) (n off : ℕ) → (pwrite d p src n off).1.refuse ≡ d.refuse
unfolding pwrite
pwrite-refuse d p src n off = ground arith

-- `O_CREAT` in a directory that is there.
pub open_file_creates :
    (d : Disk) (p : Text)
    → Accepts d
    → exists_dir d (parent p) ≡ true
    → (d' : Disk) × (f : File) × (open_file d p true ≡ opened d') × (file_at d' p ≡ some f)
unfolding open_file
open_file_creates d p a there = elim (Option-cases (file_at d p)) [
  | inr (f, e) ↦ (d, f, ground (arith, e, a Syscall.sys_open p), e)
  | inl e ↦ (
    record d { files = put text_discrete p empty_file d.files },
    empty_file,
    ground (arith, e, a Syscall.sys_open p, there),
    grind (arith, find-put),
  )
]

pub open_file_opens :
    (d : Disk) (p : Text) (f : File)
    → Accepts d
    → file_at d p ≡ some f
    → open_file d p false ≡ opened d
unfolding open_file
open_file_opens d p f a e = ground (arith, e, a Syscall.sys_open p)

pub pwrite_writes :
    (d : Disk) (p : Text) (f : File) (src : Bytes) (n off : ℕ)
    → Accepts d
    → file_at d p ≡ some f
    → (d' : Disk) × (pwrite d p src n off ≡ (pos n, d'))
      × (file_at d' p ≡ some (write_bytes f src n off))
unfolding pwrite room
pwrite_writes d p f src n off a e = (
  record d { files = put text_discrete p (write_bytes f src n off) d.files },
  ground (arith, e, a Syscall.sys_write p, a Syscall.sys_full p),
  grind (arith, find-put),
)

written_size :
    (f : File) (src : Bytes) (n off : ℕ) → min n ((write_bytes f src n off).size - off) ≡ n
unfolding write_bytes
written_size f src n off = ground arith

memcpy_within :
    (dst src : Bytes) (at start n j : ℕ)
    → at ≤ j
    → j < at + n
    → memcpy dst at src start n j ≡ src (start + (j - at))
unfolding memcpy
memcpy_within dst src at start n j low high = ground arith

copied_back :
    (f : File) (src buf : Bytes) (n off i : ℕ)
    → i < n
    → memcpy buf 0 (write_bytes f src n off).byte off n i ≡ src i
unfolding write_bytes
copied_back f src buf n off i lt =
    let base : Bytes = λ j. if ltb j f.size then f.byte j else 0 in
    let put = memcpy base off src 0 n in
    memcpy_within buf put 0 off n i (omega arith) (omega arith)
    ∙ memcpy_within base src off 0 n (off + (i - 0)) (omega arith) (omega arith)
    ∙ ap src (omega arith)

-- Reading where the bytes were written.
pub pread_reads :
    (d : Disk) (p : Text) (f : File) (src buf : Bytes) (n off : ℕ)
    → Accepts d
    → file_at d p ≡ some (write_bytes f src n off)
    → (got : Bytes) × (pread d p buf n off ≡ (pos n, got)) × Agree n got src
unfolding pread
pread_reads d p f src buf n off a e =
    let w = write_bytes f src n off in
    (
      memcpy buf 0 w.byte off (min n (w.size - off)),
      ground (arith, e, a Syscall.sys_read p, written_size f src n off),
      λ i lt. rw (written_size f src n off) (copied_back f src buf n off i lt),
    )
