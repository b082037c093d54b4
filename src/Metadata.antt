-- ===== src/Metadata.antt =====
-- cache/policy/metadata/metadata_store.cc: the records in the database. The bitmaps of the same class
-- are in Bitmap.
pub mod Statements
pub mod Records
pub mod Changes
pub mod Entries
use cache_system_with_fuse.Sqlite.{
  Sqlite, Statement, Step, sqlite_row, sqlite_done, sqlite_error, select_one, select_all, upsert,
  update_accessed, update_dirty, delete_one, sql, create_sql, drop_sql,
}
use cache_system_with_fuse.Fuse.Search.{take_while}
use cache_system_with_fuse.Base.{
  ◌>>=◌, ℕ, zero, suc, ◌+◌, ◌-◌, ◌*◌, ◌/◌, ◌%◌, ◌^◌, ◌≤◌, ◌<◌, min, max, ◌≡◌, refl, sym, ap, subst,
  ◌∙◌, ◌≢◌, ◌↔◌, ◌⊎◌, inl, inr, ite, if_pos, if_neg, Bool, true, false, ◌&&◌, ◌||◌, not, Option,
  none, some, List, [], ◌∷◌, ◌++◌, map, arith, dec_lt, dec_le, ℕ_discrete, ltb, leb, ◌==◌,
  if◌then◌else◌, ltb→lt, lt→ltb, ==_iff, Bool-cases, Option-cases, ℤ, pos, negsuc, neg, is_negative,
  to_ℕ, is_count, Outcome, returned, thrown, faulted, exhausted, length, get_or, set, take, drop,
  replicate, length-append, length-set, length-replicate, get_or-set_self, get_or-set_ne,
  get_or-append_left, get_or_past, Text, codes, text_discrete, find, put, erase, find-put,
  find-erase, table_laws, keys, has, Table, Bytes, memcpy, Agree, bit_or_disjoint,
}

pub record CacheMetadata : Type 0 where
  pub path : Text
  pub local_path : Text
  pub size : ℕ
  pub timestamp : ℤ
  pub last_accessed : ℤ
  pub dirty : Bool

-- `MetadataStore` without its bitmaps.
pub record MetadataStore (Db : Type 0) : Type 0 where
  pub db_path : Text
  pub db_handle : Option Db

-- The constructor; `cache_root` is for the bitmaps.
unfoldable pub metadata_store : {Db : Type 0} → Text → Text → MetadataStore Db
metadata_store db_path cache_root = record { db_path = db_path; db_handle = none }

-- `s.c_str()` as C reads it: up to the first NUL.
abbrev pub c_str : Text → Text
c_str s = take_while (λ c. not (c == 0)) s

-- `static_cast<sqlite3_int64>` of a `size_t`, and the way back.
unfoldable pub to_int64 : ℕ → ℤ
to_int64 n = if ltb n (2 ^ 63) then pos n else negsuc (2 ^ 64 - 1 - n)

unfoldable pub to_size : ℤ → ℕ
to_size (pos n) = n
to_size (negsuc n) = 2 ^ 64 - 1 - n

abbrev pub is_row : Step → Bool
is_row sqlite_row = true
is_row sqlite_done = false
is_row sqlite_error = false

abbrev pub is_done : Step → Bool
is_done sqlite_row = false
is_done sqlite_done = true
is_done sqlite_error = false

abbrev pub flag : Bool → ℤ
flag dirty = if dirty then pos 1 else pos 0

module _ (S : Sqlite) where
  -- A failed `init` may leave a handle.
  unfoldable pub init : S.World → MetadataStore S.Db → S.World × MetadataStore S.Db × Bool
  init w st =
      let (w', db, ok) = S.open_db w (c_str st.db_path) in
      if ok
      then (let st' : MetadataStore S.Db = record st { db_handle = some db } in
          let (w'', made) = S.exec w' db create_sql in (w'', st', made))
      else (w', st, false)

  -- `step` and `finalize` of a statement that yields no rows.
  unfoldable pub finish : S.World → S.Stmt → S.World × Bool
  finish w s = let (w', s', out) = S.step w s in (S.finalize w' s', is_done out)

  -- The columns of a row from the `i`-th on; assigning a null pointer to a string has no meaning.
  unfoldable pub read_row : S.Stmt → ℕ → Text → Outcome CacheMetadata
  read_row s i path = elim (S.column_text s i) [
    | none ↦ faulted
    | some local_path ↦ returned (record {
      path = path;
      local_path = local_path;
      size = to_size (S.column_int64 s (i + 1));
      timestamp = S.column_int64 s (i + 2);
      last_accessed = S.column_int64 s (i + 3);
      dirty = not (is_count (S.column_int s (i + 4)) 0);
    })
  ]

  unfoldable pub get :
      S.World → MetadataStore S.Db → Text → Outcome (S.World × Option CacheMetadata)
  get w st path = elim (S.prepare w st.db_handle (sql select_one)) [
    | none ↦ returned (w, none)
    | some s ↦
        let (w', s', out) = S.step w (S.bind_text s 1 (c_str path)) in
        elim (is_row out) [
          | false ↦ returned (S.finalize w' s', none)
          | true ↦ do meta ← read_row s' 0 path; returned (S.finalize w' s', some meta)
        ]
  ]

  -- A statement without rows: it is prepared, bound, stepped once and finalized.
  unfoldable pub execute :
      S.World → MetadataStore S.Db → Statement → (S.Stmt → S.Stmt) → S.World × Bool
  execute w st q binds = elim (S.prepare w st.db_handle (sql q)) [
    | none ↦ (w, false)
    | some s ↦ finish w (binds s)
  ]

  -- The six arguments of the upsert.
  unfoldable pub bind_metadata : CacheMetadata → S.Stmt → S.Stmt
  bind_metadata meta s =
      let s1 = S.bind_text s 1 (c_str meta.path) in
      let s2 = S.bind_text s1 2 (c_str meta.local_path) in
      let s3 = S.bind_int64 s2 3 (to_int64 meta.size) in
      let s4 = S.bind_int64 s3 4 meta.timestamp in
      let s5 = S.bind_int64 s4 5 meta.last_accessed in S.bind_int s5 6 (flag meta.dirty)

  unfoldable pub put_metadata : S.World → MetadataStore S.Db → CacheMetadata → S.World × Bool
  put_metadata w st meta = execute w st upsert (bind_metadata meta)

  unfoldable pub update_access_time : S.World → MetadataStore S.Db → Text → ℤ → S.World × Bool
  update_access_time w st path last_accessed =
      execute w st update_accessed
        (λ s. S.bind_text (S.bind_int64 s 1 last_accessed) 2 (c_str path))

  unfoldable pub mark_dirty : S.World → MetadataStore S.Db → Text → Bool → S.World × Bool
  mark_dirty w st path dirty =
      execute w st update_dirty (λ s. S.bind_text (S.bind_int s 1 (flag dirty)) 2 (c_str path))

  unfoldable pub remove_metadata : S.World → MetadataStore S.Db → Text → S.World × Bool
  remove_metadata w st path = execute w st delete_one (λ s. S.bind_text s 1 (c_str path))

  -- The loop over the rows. `path` is the first column.
  unfoldable pub rows_loop :
      ℕ → S.World → S.Stmt → List CacheMetadata → Outcome (S.World × S.Stmt × List CacheMetadata)
  rows_loop zero w s entries = exhausted
  rows_loop (suc fuel) w s entries =
      let (w', s', out) = S.step w s in
      elim (is_row out) [
        | false ↦ returned (w', s', entries)
        | true ↦ elim (S.column_text s' 0) [
          | none ↦ faulted
          | some path ↦ do meta ← read_row s' 1 path; rows_loop fuel w' s' (entries ++ meta ∷ [])
        ]
      ]

  -- `fuel` bounds the number of rows.
  unfoldable pub all_entries :
      ℕ → S.World → MetadataStore S.Db → Outcome (S.World × List CacheMetadata)
  all_entries fuel w st = elim (S.prepare w st.db_handle (sql select_all)) [
    | none ↦ returned (w, [])
    | some s ↦ do (w', s', entries) ← rows_loop fuel w s []; returned (S.finalize w' s', entries)
  ]

  unfoldable pub cleanup : S.World → MetadataStore S.Db → S.World × MetadataStore S.Db
  cleanup w st = elim st.db_handle [
    | none ↦ (w, st)
    | some db ↦ (S.close (S.exec w db drop_sql).0 db, record st { db_handle = none })
  ]

  -- The destructor.
  unfoldable pub destroy : S.World → MetadataStore S.Db → S.World
  destroy w st = elim st.db_handle [ none ↦ w | some db ↦ S.close w db ]
