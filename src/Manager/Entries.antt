-- ===== src/Manager/Entries.antt =====
-- The entry of a path: `entry` finds it, or adds it.
use cache_system_with_fuse.Manager.{Env, Manager, CacheEntry, entry}
use cache_system_with_fuse.Base.{
  ◌≡◌, refl, ap, subst, ◌∙◌, ◌≢◌, inl, inr, if_pos, if_neg, some, arith, Option-cases, Text,
  text_discrete, find, find-put,
}

pub entry_keeps :
    {A : Type 0} (env : Env) (m : Manager A) (path : Text)
    → ((entry env m path).0.store ≡ m.store) × ((entry env m path).0.root ≡ m.root)
unfolding entry
entry_keeps env m path = ground arith

pub entry-prefetches :
    {A : Type 0} (env : Env) (m : Manager A) (path : Text)
    → (entry env m path).0.prefetches ≡ m.prefetches
unfolding entry
entry-prefetches env m path = ground arith

pub find-entry :
    {A : Type 0} (env : Env) (m : Manager A) (path : Text)
    → find text_discrete path (entry env m path).0.entries ≡ some (entry env m path).1
unfolding entry
find-entry env m path = elim (Option-cases (find text_discrete path m.entries)) [
  | inl fresh ↦
      rw (entry, fresh)
        (find-put text_discrete path path _ m.entries ∙ if_pos (text_discrete path path) refl _ _)
  | inr (ce, old) ↦ ground (arith, old)
]

pub entry_there :
    {A : Type 0} (env : Env) (m : Manager A) (path : Text) (ce : CacheEntry)
    → find text_discrete path m.entries ≡ some ce
    → (entry env m path).1 ≡ ce
unfolding entry
entry_there env m path ce e = rw (entry, e) refl

-- Once a path has an entry, each `entry` finds that one, in whatever surroundings.
pub entry_again :
    {A : Type 0} (env env' : Env) (m m' : Manager A) (path : Text)
    → m'.entries ≡ (entry env m path).0.entries
    → (entry env' m' path).1 ≡ (entry env m path).1
entry_again env env' m m' path e =
    entry_there env' m' path (entry env m path).1 (rw e (find-entry env m path))

-- What `entry` finds depends on the entry of the path alone.
pub entry_same_find :
    {A : Type 0} (env : Env) (m' m : Manager A) (path : Text)
    → find text_discrete path m'.entries ≡ find text_discrete path m.entries
    → (entry env m' path).1 ≡ (entry env m path).1
unfolding entry
entry_same_find env m' m path e = elim (Option-cases (find text_discrete path m.entries)) [
  | inl fresh ↦ rw (entry, e, fresh) refl
  | inr (ce, old) ↦ rw (entry, e, old) refl
]

pub entry-same :
    {A : Type 0} (env : Env) (m' m : Manager A) (path : Text)
    → m'.entries ≡ m.entries
    → (entry env m' path).1 ≡ (entry env m path).1
entry-same env m' m path e = entry_same_find env m' m path (ap (find text_discrete path) e)

find-entry_other :
    {A : Type 0} (env : Env) (m : Manager A) (path other : Text)
    → path ≢ other
    → find text_discrete other (entry env m path).0.entries ≡ find text_discrete other m.entries
unfolding entry
find-entry_other env m path other ne = elim (Option-cases (find text_discrete path m.entries)) [
  | inl fresh ↦
      rw (entry, fresh)
        (find-put text_discrete path other _ m.entries ∙ if_neg (text_discrete path other) ne _ _)
  | inr (ce, old) ↦ rw (entry, old) refl
]

-- Whichever entry is asked for, each path finds what it found.
pub entry_after :
    {A : Type 0} (env : Env) (m' m : Manager A) (path other : Text)
    → m'.entries ≡ (entry env m path).0.entries
    → (entry env m' other).1 ≡ (entry env m other).1
entry_after env m' m path other e = elim (text_discrete path other) [
  | no different ↦
      entry_same_find env m' m other (rw e (find-entry_other env m path other different))
  | yes same ↦
      subst (λ t. (entry env m' t).1 ≡ (entry env m t).1) same (entry_again env env m m' path e)
]
