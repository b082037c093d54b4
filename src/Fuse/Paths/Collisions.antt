-- ===== src/Fuse/Paths/Collisions.antt =====
-- fuse/fuse.cc: where `realCachePath` puts a path, and a directory that is made and removed.
use cache_system_with_fuse.Files.{
  Disk, Syscall, slash, squeeze, make_dir, rmdir, has_text, without_text, has_child, exists_dir,
  parent,
}
use cache_system_with_fuse.Fuse.{System, Mount}
use cache_system_with_fuse.Fuse.Paths.{
  slash_last, real_path, real_cache_path, make_directory, remove_directory, status,
}
use cache_system_with_fuse.Base.{
  ℕ, ◌≡◌, refl, sym, ap, subst, ◌∙◌, true, false, none, List, [], ◌∷◌, ◌++◌, arith, pos, Text, keys,
}

pub slash_last-append : (s : Text) (c : ℕ) → slash_last (s ++ c ∷ []) ≡ s ++ slash ∷ []
unfolding slash_last
slash_last-append [] c = refl
slash_last-append (b ∷ []) c = refl
slash_last-append (b ∷ b' ∷ s) c = ap (λ t. b ∷ t) (slash_last-append (b' ∷ s) c)

pub slash_last_twice : (s : Text) → slash_last (slash_last s) ≡ slash_last s
unfolding slash_last
slash_last_twice [] = refl
slash_last_twice (c ∷ []) = refl
slash_last_twice (c ∷ c' ∷ []) = refl
slash_last_twice (c ∷ c' ∷ c'' ∷ s) = ap (λ t. c ∷ t) (slash_last_twice (c' ∷ c'' ∷ s))

-- Two directories that differ only in the last character lead to the same path.
pub real_path-collides :
    (s path : Text) (c c' : ℕ)
    → real_path false (s ++ c ∷ []) path ≡ real_path false (s ++ c' ∷ []) path
unfolding real_path
real_path-collides s path c c' = rw (slash_last-append, slash_last-append) refl

without_text_absent : (p : Text) (l : List Text) → has_text p l ≡ false → without_text p l ≡ l
unfolding has_text without_text
without_text_absent p [] absent = refl
without_text_absent p (q ∷ l) absent = ground (arith, without_text_absent p l, absent)

-- What `mkdir` found and did where it succeeds.
make_dir-made :
    (d d' : Disk) (p : Text)
    → make_dir d p ≡ (d', true)
    → (d' ≡ record d { dirs = p ∷ d.dirs })
      × (exists_dir d p ≡ false)
      × (exists_dir d (parent p) ≡ true)
unfolding make_dir
make_dir-made d d' p made = (ground (arith, made), ground (arith, made), ground (arith, made))

-- `rmdir` takes away a directory that has nothing below it.
rmdir_new :
    (d : Disk) (p : Text)
    → exists_dir d p ≡ false
    → exists_dir d (parent p) ≡ true
    → has_child p (keys d.files) ≡ false
    → has_child p d.dirs ≡ false
    → d.refuse Syscall.sys_remove p ≡ none
    → rmdir (record d { dirs = p ∷ d.dirs }) p ≡ (d, true)
unfolding rmdir has_text has_child without_text
rmdir_new d p fresh there no_file no_dir may =
    ground (arith, fresh, there, no_file, no_dir, may, without_text_absent p d.dirs fresh)

module _ {A : Type 0} (sys : System) where
  real_cache_path-named :
      (s : Mount A) (path : Text)
      → sys.is_literal path ≡ false
      → real_cache_path sys s path ≡ (
        record s { cache_directory = slash_last s.cache_directory },
        slash_last s.cache_directory ++ path,
      )
  unfolding real_cache_path real_path
  real_cache_path-named s path named = rw named refl

  make_directory-named :
      (s : Mount A) (path : Text)
      → sys.is_literal path ≡ false
      → make_directory sys s path ≡ (
        record s {
          cache_directory = slash_last s.cache_directory;
          disk = (make_dir s.disk (squeeze (slash_last s.cache_directory ++ path))).0;
        },
        status (make_dir s.disk (squeeze (slash_last s.cache_directory ++ path))).1,
      )
  unfolding make_directory
  make_directory-named s path named = rw (real_cache_path-named s path named) refl

  -- The same on a state whose directory ends in the slash already.
  remove_directory-named :
      (s : Mount A) (path dir : Text)
      → sys.is_literal path ≡ false
      → s.cache_directory ≡ slash_last dir
      → remove_directory sys s path ≡ (
        record s {
          cache_directory = slash_last dir;
          disk = (rmdir s.disk (squeeze (slash_last dir ++ path))).0;
        },
        status (rmdir s.disk (squeeze (slash_last dir ++ path))).1,
      )
  unfolding remove_directory
  remove_directory-named s path dir named slashed =
      rw (real_cache_path-named s path named, slashed, slash_last_twice) refl

  -- Where `makeDirectory` of a path that is not the literal "/" returned 0, nothing lay below the
  -- path and its removal is not refused, `removeDirectory` returns 0 and leaves the disk as it
  -- was before both.
  pub make_directory-remove_directory :
      (s s1 : Mount A) (path : Text)
      → sys.is_literal path ≡ false
      → make_directory sys s path ≡ (s1, pos 0)
      → has_child (squeeze (slash_last s.cache_directory ++ path)) (keys s.disk.files) ≡ false
      → has_child (squeeze (slash_last s.cache_directory ++ path)) s.disk.dirs ≡ false
      → s.disk.refuse Syscall.sys_remove (squeeze (slash_last s.cache_directory ++ path)) ≡ none
      → (s2 : Mount A) × (remove_directory sys s1 path ≡ (s2, pos 0)) × (s2.disk ≡ s.disk)
  make_directory-remove_directory s s1 path named made no_file no_dir may =
      let dir = slash_last s.cache_directory in
      let p = squeeze (dir ++ path) in
      let d1 = (make_dir s.disk p).0 in
      let made' = sym (make_directory-named s path named) ∙ made in
      let done : make_dir s.disk p ≡ (d1, true) = ground (arith, made') in
      let is_s1 : record s { cache_directory = dir; disk = d1 } ≡ s1 = ap (λ r. r.0) made' in
      let (is_d1, fresh, there) = make_dir-made s.disk d1 p done in
      let gone = ap (λ d. rmdir d p) is_d1 ∙ rmdir_new s.disk p fresh there no_file no_dir may in
      (
        record s { cache_directory = dir },
        subst (λ t. remove_directory sys t path ≡ (record s { cache_directory = dir }, pos 0)) is_s1
            (remove_directory-named (record s { cache_directory = dir; disk = d1 }) path
                s.cache_directory named refl
              ∙ ap (λ r. (record s { cache_directory = dir; disk = r.0 }, status r.1)) gone),
        refl,
      )
