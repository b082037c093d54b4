-- ===== src/Files/Laws.antt =====
-- What the calls do to the files, as equations on `file_at`.
use cache_system_with_fuse.Files.{Disk, sys_mkdir, exists_dir, mkdir, parent, has_text, file_at}
use cache_system_with_fuse.Base.{◌≡◌, true, none, arith, Text}

pub mkdir-files : (d : Disk) (p : Text) → (mkdir d p).files ≡ d.files
unfolding mkdir
mkdir-files d p = ground arith

pub mkdir-refuse : (d : Disk) (p : Text) → (mkdir d p).refuse ≡ d.refuse
unfolding mkdir
mkdir-refuse d p = ground arith

-- A directory that is there stays, and the new one is there unless `mkdir` is refused or
-- the name is a file's.
pub mkdir_keeps : (d : Disk) (p q : Text) → exists_dir d q ≡ true → exists_dir (mkdir d p) q ≡ true
unfolding mkdir has_text
mkdir_keeps d p q h = ground arith

pub mkdir_makes :
    (d : Disk) (p : Text)
    → d.refuse sys_mkdir p ≡ none
    → file_at d p ≡ none
    → exists_dir d (parent p) ≡ true
    → exists_dir (mkdir d p) p ≡ true
unfolding mkdir has_text
mkdir_makes d p r free h = ground arith
