-- ===== src/Files/Keeping.antt =====
-- What the calls leave of the other files, of the directories and of the refusals.
use cache_system_with_fuse.Files.{
  Disk, Syscall, opened, parent, above, exists_dir, has_text, file_at, empty_file, open_file,
  pwrite, make_dirs,
}
use cache_system_with_fuse.Files.Contents.{Accepts}
use cache_system_with_fuse.Base.{
  ℕ, zero, suc, ◌≡◌, refl, sym, ap, subst, ◌∙◌, ◌≢◌, ◌⊎◌, inl, inr, Bool, true, none, some, ◌∷◌,
  arith, Bool-cases, Option-cases, Text, text_discrete, put, find-put, Bytes,
}

-- One file at most is new or changed, and no directory is gone.
pub record Keeps (d d' : Disk) (p : Text) : Type 0 where
  pub refuse : d'.refuse ≡ d.refuse
  pub dirs : (q : Text) → exists_dir d q ≡ true → exists_dir d' q ≡ true
  pub files : (q : Text) → p ≢ q → file_at d' q ≡ file_at d q

pub Keeps-refl : (d : Disk) (p : Text) → Keeps d d p
Keeps-refl d p = record { refuse = refl; dirs = λ q h. h; files = λ q ne. refl }

pub Keeps-trans : (a b c : Disk) (p : Text) → Keeps a b p → Keeps b c p → Keeps a c p
Keeps-trans a b c p f g = record {
  refuse = g.refuse ∙ f.refuse;
  dirs = λ q h. g.dirs q (f.dirs q h);
  files = λ q ne. g.files q ne ∙ f.files q ne;
}

-- No regular file is in the way of the directories above a path.
abbrev pub Passable : Disk → Text → Type 0
Passable d p = (k : ℕ) → file_at d (above (suc k) p) ≡ none

pub Passable-Keeps :
    (d d' : Disk) (p q : Text)
    → Keeps d d' q
    → ((k : ℕ) → q ≢ above (suc k) p)
    → Passable d p
    → Passable d' p
Passable-Keeps d d' p q k ne free n = k.files (above (suc n) p) (ne n) ∙ free n

pub make_dirs-files :
    (fuel : ℕ) (d d' : Disk) (p : Text) → make_dirs fuel d p ≡ some d' → d'.files ≡ d.files
unfolding make_dirs
make_dirs-files zero d d' p e = ground (arith, e)
make_dirs-files (suc fuel) d d' p e = elim (Option-cases (make_dirs fuel d (parent p))) [
  | inl thrown ↦ ground (arith, e, thrown)
  | inr (d1, made) ↦ ground (arith, e, made, make_dirs-files fuel d d1 (parent p) made)
]

pub make_dirs-refuse :
    (fuel : ℕ) (d d' : Disk) (p : Text) → make_dirs fuel d p ≡ some d' → d'.refuse ≡ d.refuse
unfolding make_dirs
make_dirs-refuse zero d d' p e = ground (arith, e)
make_dirs-refuse (suc fuel) d d' p e = elim (Option-cases (make_dirs fuel d (parent p))) [
  | inl thrown ↦ ground (arith, e, thrown)
  | inr (d1, made) ↦ ground (arith, e, made, make_dirs-refuse fuel d d1 (parent p) made)
]

-- A new directory.
pub make_dirs-Keeps :
    (fuel : ℕ) (d : Disk) (p q : Text)
    → Accepts d
    → ((k : ℕ) → file_at d (above k p) ≡ none)
    → (d' : Disk) × (make_dirs fuel d p ≡ some d') × Keeps d d' q
unfolding make_dirs has_text above
make_dirs-Keeps zero d p q a free = (d, refl, Keeps-refl d q)
make_dirs-Keeps (suc fuel) d p q a free = elim (Bool-cases (exists_dir d p)) [
  | inl there ↦ (d, ground (arith, there), Keeps-refl d q)
  | inr missing ↦
      let (d', e, k) = make_dirs-Keeps fuel d (parent p) q a (λ k. free (suc k)) in
      let may : d'.refuse Syscall.sys_mkdir p ≡ none =
        ap (λ r. r Syscall.sys_mkdir p) k.refuse ∙ a Syscall.sys_mkdir p in
      (
        record d' { dirs = p ∷ d'.dirs },
        ground (arith, missing, free 0, e, may),
        record { refuse = k.refuse; dirs = λ t h. ground (arith, k.dirs t h); files = k.files },
      )
]

open_file_result :
    (d d' : Disk) (p : Text) (create : Bool)
    → open_file d p create ≡ opened d'
    → (d' ≡ d) ⊎ (d' ≡ record d { files = put text_discrete p empty_file d.files })
unfolding open_file
open_file_result d d' p create e = ground (arith, e)

pub open_file-Keeps :
    (d d' : Disk) (p : Text) (create : Bool) → open_file d p create ≡ opened d' → Keeps d d' p
open_file-Keeps d d' p create e = elim (open_file_result d d' p create e) [
  | inl same ↦ subst (λ t. Keeps d t p) (sym same) (Keeps-refl d p)
  | inr new ↦
      subst (λ t. Keeps d t p) (sym new)
        (record { refuse = refl; dirs = λ q h. h; files = λ q ne. grind (arith, find-put) })
]

pub pwrite-Keeps :
    (d : Disk) (p : Text) (src : Bytes) (n off : ℕ) → Keeps d (pwrite d p src n off).1 p
unfolding pwrite
pwrite-Keeps d p src n off = record {
  refuse = ground arith;
  dirs = λ q h. ground (arith, h);
  files = λ q ne. grind (arith, find-put);
}
