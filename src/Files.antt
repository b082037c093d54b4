-- ===== src/Files.antt =====
-- The part of POSIX and `std::filesystem` that the cache calls: files under their whole paths, the
-- directories, and the calls that the system refuses.
pub mod Names
pub mod Laws
pub mod Contents
pub mod Keeping
use cache_system_with_fuse.Base.{
  ℕ, zero, suc, ◌+◌, ◌-◌, ◌*◌, ◌/◌, ◌%◌, ◌^◌, ◌≤◌, ◌<◌, min, max, ◌≡◌, refl, sym, ap, subst, ◌∙◌,
  ◌≢◌, ◌↔◌, ◌⊎◌, inl, inr, ite, if_pos, if_neg, Bool, true, false, ◌&&◌, ◌||◌, not, Option, none,
  some, List, [], ◌∷◌, ◌++◌, map, arith, dec_lt, dec_le, ℕ_discrete, ltb, leb, ◌==◌, if◌then◌else◌,
  ltb→lt, lt→ltb, ==_iff, Bool-cases, Option-cases, ℤ, pos, negsuc, neg, is_negative, to_ℕ,
  is_count, Outcome, returned, thrown, faulted, exhausted, length, get_or, set, take, drop,
  replicate, length-append, length-set, length-replicate, get_or-set_self, get_or-set_ne,
  get_or-append_left, get_or_past, Text, codes, text_discrete, find, put, erase, find-put,
  find-erase, table_laws, keys, has, Table, Bytes, memcpy, Agree, bit_or_disjoint,
}

pub record File : Type 0 where
  pub size : ℕ
  pub byte : Bytes

pub data Syscall : Type 0 where
  sys_open sys_read sys_write sys_full sys_mkdir sys_remove : Syscall

-- `refuse` says which call on which path fails, and how: `some e` is the error number e + 1. For
-- `sys_full` it says that a write to the path stops short, after so many bytes.
pub record Disk : Type 0 where
  pub files : Table Text File
  pub dirs : List Text
  pub refuse : Syscall → Text → Option ℕ

abbrev pub slash : ℕ
slash = b'/'

abbrev pub begins_with_slash : Text → Bool
begins_with_slash [] = false
begins_with_slash (c ∷ s) = c == slash

unfoldable pub has_slash : Text → Bool
has_slash [] = false
has_slash (c ∷ s) = c == slash || has_slash s

-- The path up to its last slash, and what follows that slash.
unfoldable pub parent : Text → Text
parent [] = []
parent (c ∷ s) = if has_slash s then c ∷ parent s else []

-- The directory `k` levels above a path.
unfoldable pub above : ℕ → Text → Text
above zero p = p
above (suc k) p = above k (parent p)

unfoldable pub filename : Text → Text
filename [] = []
filename (c ∷ s) = if has_slash s then filename s else if c == slash then s else c ∷ s

unfoldable pub has_text : Text → List Text → Bool
has_text t [] = false
has_text t (s ∷ l) = ite (text_discrete s t) true (has_text t l)

unfoldable pub without_text : Text → List Text → List Text
without_text t [] = []
without_text t (s ∷ l) = ite (text_discrete s t) (without_text t l) (s ∷ without_text t l)

abbrev pub exists_dir : Disk → Text → Bool
exists_dir d p = has_text p d.dirs

abbrev pub file_at : Disk → Text → Option File
file_at d p = find text_discrete p d.files

-- The result of an `open`: a refusal, or the disk with the file there.
pub data Opened : Type 0 where
  failed : ℕ → Opened
  opened : Disk → Opened

-- ENOENT is 2.
abbrev pub enoent : ℕ
enoent = 1

abbrev pub empty_file : File
empty_file = record { size = 0; byte = λ i. 0 }

-- No path that is opened is that of a directory. `open(path, O_RDONLY)`, and `open(path, O_RDWR | O_CREAT)` where `create` is true.
unfoldable pub open_file : Disk → Text → Bool → Opened
open_file d p create = elim (d.refuse sys_open p) [
  | some e ↦ failed e
  | none ↦ elim (file_at d p) [
    | some f ↦ opened d
    | none ↦
        if create && exists_dir d (parent p)
        then opened (record d { files = put text_discrete p empty_file d.files })
        else failed enoent
  ]
]

-- `pread` into `buf`, on a descriptor of the file `p`.
unfoldable pub pread : Disk → Text → Bytes → ℕ → ℕ → ℤ × Bytes
pread d p buf len off = elim (d.refuse sys_read p) [
  | some e ↦ (negsuc e, buf)
  | none ↦ elim (file_at d p) [
    | none ↦ (negsuc enoent, buf)
    | some f ↦ let n = min len (f.size - off) in (pos n, memcpy buf 0 f.byte off n)
  ]
]

-- The file after `len` bytes of `src` are written at `off`; a gap before them reads as zeros.
unfoldable pub write_bytes : File → Bytes → ℕ → ℕ → File
write_bytes f src len off = record {
  size = if len == 0 then f.size else max f.size (off + len);
  byte = memcpy (λ i. if ltb i f.size then f.byte i else 0) off src 0 len;
}

-- How many bytes of a write go through.
unfoldable pub room : Option ℕ → ℕ → ℕ
room none len = len
room (some k) len = min len k

unfoldable pub pwrite : Disk → Text → Bytes → ℕ → ℕ → ℤ × Disk
pwrite d p src len off = elim (d.refuse sys_write p) [
  | some e ↦ (negsuc e, d)
  | none ↦ elim (file_at d p) [
    | none ↦ (negsuc enoent, d)
    | some f ↦
        let n = room (d.refuse sys_full p) len in
        (pos n, record d { files = put text_discrete p (write_bytes f src n off) d.files })
  ]
]

-- `mkdir` makes one level, below a directory that is there, where the name is free.
unfoldable pub mkdir : Disk → Text → Disk
mkdir d p = elim (d.refuse sys_mkdir p) [
  | some e ↦ d
  | none ↦
      if exists_dir d p || has text_discrete p d.files
      then d
      else if exists_dir d (parent p)
      then record d { dirs = p ∷ d.dirs }
      else d
]

-- `mkdir` with its result: it fails also where the name is taken or the parent is not there.
unfoldable pub make_dir : Disk → Text → Disk × Bool
make_dir d p = elim (d.refuse sys_mkdir p) [
  | some e ↦ (d, false)
  | none ↦
      if exists_dir d p || has text_discrete p d.files || not (exists_dir d (parent p))
      then (d, false)
      else (record d { dirs = p ∷ d.dirs }, true)
]

-- `fs::remove` of a file: the disk, and whether it went without an error.
unfoldable pub remove_file : Disk → Text → Disk × Bool
remove_file d p = elim (d.refuse sys_remove p) [
  | some e ↦ (d, false)
  | none ↦ (record d { files = erase text_discrete p d.files }, true)
]

unfoldable pub has_child : Text → List Text → Bool
has_child p [] = false
has_child p (s ∷ l) = ite (text_discrete (parent s) p) true (has_child p l)

-- `fs::remove` of a directory succeeds on an empty one only.
unfoldable pub remove_dir : Disk → Text → Disk
remove_dir d p = elim (d.refuse sys_remove p) [
  | some e ↦ d
  | none ↦
      if has_child p (keys d.files) || has_child p d.dirs
      then d
      else record d { dirs = without_text p d.dirs }
]

-- `unlink` and `rmdir` with their results.
unfoldable pub unlink : Disk → Text → Disk × Bool
unlink d p = elim (d.refuse sys_remove p) [
  | some e ↦ (d, false)
  | none ↦
      if has text_discrete p d.files
      then (record d { files = erase text_discrete p d.files }, true)
      else (d, false)
]

unfoldable pub rmdir : Disk → Text → Disk × Bool
rmdir d p = elim (d.refuse sys_remove p) [
  | some e ↦ (d, false)
  | none ↦
      if not (exists_dir d p) || has_child p (keys d.files) || has_child p d.dirs
      then (d, false)
      else (record d { dirs = without_text p d.dirs }, true)
]

-- The kernel takes several slashes in a row for one.
unfoldable pub squeeze : Text → Text
squeeze [] = []
squeeze (c ∷ s) = if c == slash && begins_with_slash s then squeeze s else c ∷ squeeze s

-- `fs::create_directories`, which throws (`none`) where the system refuses and where a component of
-- the path is a regular file; `fuel` bounds the depth.
unfoldable pub make_dirs : ℕ → Disk → Text → Option Disk
make_dirs zero d p = some d
make_dirs (suc fuel) d p = elim (exists_dir d p) [
  | true ↦ some d
  | false ↦ elim (has text_discrete p d.files) [
    | true ↦ none
    | false ↦ elim (make_dirs fuel d (parent p)) [
      | none ↦ none
      | some d' ↦ elim (d'.refuse sys_mkdir p) [
        | some e ↦ none
        | none ↦ some (record d' { dirs = p ∷ d'.dirs })
      ]
    ]
  ]
]

unfoldable pub create_directories : Disk → Text → Option Disk
unfolding make_dirs
create_directories d p = make_dirs (length p) d p

-- `O_TRUNC` on a file that was opened.
unfoldable pub truncate : Disk → Text → Disk
truncate d p = record d { files = put text_discrete p empty_file d.files }
