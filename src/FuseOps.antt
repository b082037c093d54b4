-- ===== src/FuseOps.antt =====
-- fuse/fuse_ops.cc: the calls of the handlers of a file system, after libfuse's own file of that
-- name. libfuse's `fuse_buf_copy` is a parameter, a `fuse_file_info` what a handler makes of it, and a
-- line of the log the name of the function that writes it.
pub mod Reading
use cache_system_with_fuse.Fuse.{Stat}
use cache_system_with_fuse.Fuse.Transfer.{to_int}
use cache_system_with_fuse.Base.{
  ℕ, zero, suc, ◌+◌, ◌-◌, ◌*◌, ◌/◌, ◌%◌, ◌^◌, ◌≤◌, ◌<◌, min, max, ◌≡◌, refl, sym, ap, subst, ◌∙◌,
  ◌≢◌, ◌↔◌, ◌⊎◌, inl, inr, ite, if_pos, if_neg, Bool, true, false, ◌&&◌, ◌||◌, not, Option, none,
  some, List, [], ◌∷◌, ◌++◌, map, arith, dec_lt, dec_le, ℕ_discrete, ltb, leb, ◌==◌, if◌then◌else◌,
  ltb→lt, lt→ltb, ==_iff, Bool-cases, Option-cases, ℤ, pos, negsuc, neg, is_negative, to_ℕ,
  is_count, Outcome, returned, thrown, faulted, exhausted, length, get_or, set, take, drop,
  replicate, length-append, length-set, length-replicate, get_or-set_self, get_or-set_ne,
  get_or-append_left, get_or_past, Text, codes, text_discrete, find, put, erase, find-put,
  find-erase, table_laws, keys, has, Table, Bytes, memcpy, Agree, bit_or_disjoint,
}

-- One buffer of a `fuse_bufvec`: the address of its memory, and whether FUSE_BUF_IS_FD is set.
pub record FuseBuf : Type 0 where
  pub mem : ℕ
  pub is_fd : Bool

-- A vector on the heap, with its own address.
pub record FuseBufvec : Type 0 where
  pub address : ℕ
  pub bufs : List FuseBuf

pub data Log : Type 0 where
  log_debug : Text → Log
  log_err : Text → Log

-- What libfuse keeps: `private_data` of the context, the log, and the blocks given to `free`.
pub record Context (D : Type 0) : Type 0 where
  pub private_data : D
  pub log : List Log
  pub freed : List ℕ

-- The handlers that the file calls. A handler sees `private_data` and changes the world `W`, in which
-- the `fuse_file_info` that `I` points at is too.
pub record FuseOperations (W D I : Type 0) : Type 0 where
  pub getattr : Option (D → W → Text → Stat → I → W × ℤ × Stat)
  pub open_op : Option (D → W → Text → I → W × ℤ)
  pub read : Option (D → W → Text → Bytes → ℕ → ℕ → I → W × ℤ × Bytes)
  pub read_buf : Option (D → W → Text → ℕ → ℕ → I → W × ℤ × Option FuseBufvec)
  pub release : Option (D → W → Text → I → W × ℤ)
  pub mkdir : Option (D → W → Text → ℕ → W × ℤ)
  pub rmdir : Option (D → W → Text → W × ℤ)
  pub link : Option (D → W → Text → Text → W × ℤ)
  pub unlink_op : Option (D → W → Text → W × ℤ)
  pub rename : Option (D → W → Text → Text → ℕ → W × ℤ)

pub record FuseFs (W D I : Type 0) : Type 0 where
  pub op : FuseOperations W D I
  pub user_data : D
  pub debug : Bool

-- -ENOSYS.
abbrev pub enosys : ℤ
enosys = negsuc 37

-- `fuse_free_buf`, in the order of the calls of `free`.
unfoldable pub free_all : List FuseBuf → List ℕ
free_all [] = []
free_all (b ∷ bufs) = let rest = free_all bufs in if b.is_fd then rest else b.mem ∷ rest

unfoldable pub fuse_free_buf : Option FuseBufvec → List ℕ
fuse_free_buf none = []
fuse_free_buf (some v) = free_all v.bufs ++ v.address ∷ []

-- `res > (int)size`.
unfoldable pub exceeds : ℤ → ℤ → Bool
exceeds (pos n) (pos m) = ltb m n
exceeds (pos n) (negsuc m) = true
exceeds (negsuc n) (pos m) = false
exceeds (negsuc n) (negsuc m) = ltb n m

module _ {W D I : Type 0} (fs : FuseFs W D I) where
  -- `fuse_get_context()->private_data = fs->user_data`, and the line before the handler runs.
  unfoldable pub enter : Text → Context D → Context D
  enter name x = record x {
    private_data = fs.user_data;
    log = if fs.debug then x.log ++ log_debug name ∷ [] else x.log;
  }

  -- The same where there is no handler.
  abbrev pub set_private : Context D → Context D
  set_private x = record x { private_data = fs.user_data }

  unfoldable pub fuse_fs_getattr : Text → Stat → I → Context D → W → Context D × (W × ℤ × Stat)
  fuse_fs_getattr path buf fi x w = elim fs.op.getattr [
    | none ↦ (set_private x, (w, enosys, buf))
    | some f ↦ (enter (codes "getattr") x, f fs.user_data w path buf fi)
  ]

  unfoldable pub fuse_fs_open : Text → I → Context D → W → Context D × (W × ℤ)
  fuse_fs_open path fi x w = elim fs.op.open_op [
    | none ↦ (set_private x, (w, pos 0))
    | some f ↦
        let (w', err) = f fs.user_data w path fi in
        let x' = enter (codes "open") x in
        (
          if fs.debug && is_count err 0
              then record x' { log = x'.log ++ log_debug (codes "open") ∷ [] }
              else x',
          (w', err),
        )
  ]

  -- The part of `fuse_fs_read` that calls a handler.
  unfoldable pub read_handler :
      (ℕ → Option FuseBufvec → Bytes → ℤ × Bytes)
      → Text
      → Bytes
      → ℕ
      → ℕ
      → I
      → W
      → W × ℤ × Bytes × List ℕ
  read_handler buf_copy path mem size off fi w = elim fs.op.read_buf [
    | some f ↦
        let (w', res, buf) = f fs.user_data w path size off fi in
        let copied = buf_copy size buf mem in
        elim (is_count res 0) [
          | true ↦ (w', to_int copied.0, copied.1, fuse_free_buf buf)
          | false ↦ (w', res, mem, fuse_free_buf buf)
        ]
    | none ↦ elim fs.op.read [
      | some f ↦ let (w', res, mem') = f fs.user_data w path mem size off fi in (w', res, mem', [])
      | none ↦ (w, enosys, mem, [])
    ]
  ]

  unfoldable pub has_read : Bool
  has_read = elim fs.op.read as (λ o. Bool) [
    | some f ↦ true
    | none ↦ elim fs.op.read_buf as (λ o. Bool) [ some f ↦ true | none ↦ false ]
  ]

  -- The lines after the handler.
  unfoldable pub read_log : ℤ → ℕ → List Log
  read_log res size =
      (if fs.debug && not (is_negative res) then log_debug (codes "read") ∷ [] else [])
      ++ (if not (is_negative res) && exceeds res (to_int (pos size))
          then log_err (codes "read") ∷ []
          else [])

  unfoldable pub fuse_fs_read :
      (ℕ → Option FuseBufvec → Bytes → ℤ × Bytes)
      → Text
      → Bytes
      → ℕ
      → ℕ
      → I
      → Context D
      → W
      → Context D × (W × ℤ × Bytes)
  fuse_fs_read buf_copy path mem size off fi x w = elim has_read [
    | false ↦ (set_private x, (w, enosys, mem))
    | true ↦
        let (w', res, mem', freed) = read_handler buf_copy path mem size off fi w in
        let x' = enter (codes "read") x in
        (
          record x' { log = x'.log ++ read_log res size; freed = x'.freed ++ freed },
          (w', res, mem'),
        )
  ]

  unfoldable pub fuse_fs_release : Text → I → Context D → W → Context D × (W × ℤ)
  fuse_fs_release path fi x w = elim fs.op.release [
    | none ↦ (set_private x, (w, pos 0))
    | some f ↦ (enter (codes "release") x, f fs.user_data w path fi)
  ]

  unfoldable pub fuse_fs_mkdir : Text → ℕ → Context D → W → Context D × (W × ℤ)
  fuse_fs_mkdir path mode x w = elim fs.op.mkdir [
    | none ↦ (set_private x, (w, enosys))
    | some f ↦ (enter (codes "mkdir") x, f fs.user_data w path mode)
  ]

  unfoldable pub fuse_fs_rmdir : Text → Context D → W → Context D × (W × ℤ)
  fuse_fs_rmdir path x w = elim fs.op.rmdir [
    | none ↦ (set_private x, (w, enosys))
    | some f ↦ (enter (codes "rmdir") x, f fs.user_data w path)
  ]

  unfoldable pub fuse_fs_link : Text → Text → Context D → W → Context D × (W × ℤ)
  fuse_fs_link oldpath newpath x w = elim fs.op.link [
    | none ↦ (set_private x, (w, enosys))
    | some f ↦ (enter (codes "link") x, f fs.user_data w oldpath newpath)
  ]

  unfoldable pub fuse_fs_unlink : Text → Context D → W → Context D × (W × ℤ)
  fuse_fs_unlink path x w = elim fs.op.unlink_op [
    | none ↦ (set_private x, (w, enosys))
    | some f ↦ (enter (codes "unlink") x, f fs.user_data w path)
  ]

  unfoldable pub fuse_fs_rename : Text → Text → ℕ → Context D → W → Context D × (W × ℤ)
  fuse_fs_rename oldpath newpath flags x w = elim fs.op.rename [
    | none ↦ (set_private x, (w, enosys))
    | some f ↦ (enter (codes "rename") x, f fs.user_data w oldpath newpath flags)
  ]
