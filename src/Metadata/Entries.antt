-- ===== src/Metadata/Entries.antt =====
-- `MetadataStore::allEntries`.
use mathlib.Core.List.{append-nil}
use cache_system_with_fuse.Sqlite.{
  Sqlite, IsSqlite, Content, Value, text, null, View, fresh, serve, advance, modified, answer, sql,
  value_at, select_all,
}
use cache_system_with_fuse.Metadata.{CacheMetadata, MetadataStore, c_str, rows_loop, all_entries}
use cache_system_with_fuse.Metadata.Statements.{Is, step-Is}
use cache_system_with_fuse.Metadata.Records.{values_of, IsPlain, read_row_right}
use cache_system_with_fuse.Base.{
  ℕ, zero, suc, ◌+◌, ◌<◌, ◌≡◌, refl, ap, ◌∙◌, some, List, [], ◌∷◌, ◌++◌, map, arith, returned,
  length, has,
}

-- The table of a list of records.
abbrev pub table_of : List CacheMetadata → Content
table_of = map (λ meta. (c_str meta.path, values_of meta))

abbrev pub rows_of : List CacheMetadata → List (List Value)
rows_of = map (λ meta. text (c_str meta.path) ∷ values_of meta)

-- Records that the database can hold, with no NUL in their paths.
abbrev pub AllPlain : List CacheMetadata → Type 0
AllPlain [] = Unit {0}
AllPlain (meta ∷ metas) = (IsPlain meta × (c_str meta.path ≡ meta.path)) × AllPlain metas

append_one : {A : Type 0} (l : List A) (a : A) (r : List A) → (l ++ a ∷ []) ++ r ≡ l ++ a ∷ r
append_one [] a r = refl
append_one (b ∷ l) a r = ap (λ t. b ∷ t) (append_one l a r)

answer_all :
    (metas : List CacheMetadata) → answer select_all (λ i. null) (table_of metas) ≡ rows_of metas
unfolding answer
answer_all [] = refl
answer_all (meta ∷ metas) =
    ap (λ t. (text (c_str meta.path) ∷ values_of meta) ∷ t) (answer_all metas)

advance_pending :
    (v : View) (c : Content) (rows : List (List Value))
    → v.pending ≡ some rows
    → advance v c ≡ serve v c rows
unfolding advance
advance_pending v c rows e = ground (arith, e)

module _ (S : Sqlite) (L : IsSqlite S) (db : S.Db) (c : Content) where
  rows_loop_right :
      (fuel : ℕ) (metas : List CacheMetadata) (w : S.World) (s : S.Stmt) (v : View)
      (before : List CacheMetadata)
      → Is S L s db v
      → L.content w db ≡ some c
      → advance v c ≡ serve v c (rows_of metas)
      → AllPlain metas
      → length metas < fuel
      → (w' : S.World) × (s' : S.Stmt) × (rows_loop S fuel w s before
          ≡ returned (w', s', before ++ metas))
  unfolding rows_loop serve
  rows_loop_right zero metas w s v before is has_c next plain enough = absurd (omega arith)
  rows_loop_right (suc fuel) [] w s v before is has_c next plain enough =
      let (has, after, out) = step-Is S L w s db v c is has_c in
      let st = S.step w s in (st.0, st.1, ground (arith, out, next, append-nil before))
  rows_loop_right (suc fuel) (meta ∷ metas) w s v before is has_c next plain enough =
      let (has, after, out) = step-Is S L w s db v c is has_c in
      let st = S.step w s in
      let values = ap (λ u. u.values) after.1 ∙ ap (λ r. r.1.values) next in
      let is_next : Is S L st.1 db (record v {
        pending = some (rows_of metas);
        values = text (c_str meta.path) ∷ values_of meta;
      }) =
        (after.0, after.1 ∙ ap (λ r. r.1) next) in
      let has_next = has ∙ ap (λ r. some r.0) next in
      let name = L.column_text_reads st.1 0 (c_str meta.path) (ap (value_at 0) values) in
      let row = read_row_right S L st.1 1 meta plain.0.0 (λ k value lt e.
        let start : 1 + k ≡ suc k = omega arith in
        ap (λ j. value_at j (L.view st.1).values) start ∙ ap (value_at (suc k)) values ∙ e) in
      let (w', s', r) =
        rows_loop_right fuel metas st.0 st.1 _ (before ++ meta ∷ []) is_next has_next
          (advance_pending _ c (rows_of metas) refl) plain.1 (omega arith) in
      (w', s', ground (arith, out, next, name, plain.0.1, row, r, append_one before meta metas))

-- On a connected database that behaves as SQLite documents and whose table is that of a list of
-- records without NULs and with sizes below 2 ^ 64, `allEntries` ends within one step more than
-- there are records and returns them, in the order of the table.
pub all_entries_right :
    (S : Sqlite) (L : IsSqlite S) (fuel : ℕ) (w : S.World) (st : MetadataStore S.Db) (db : S.Db)
    (metas : List CacheMetadata)
    → st.db_handle ≡ some db
    → L.content w db ≡ some (table_of metas)
    → AllPlain metas
    → length metas < fuel
    → (w' : S.World) × (all_entries S fuel w st ≡ returned (w', metas))
unfolding all_entries advance modified
all_entries_right S L fuel w st db metas connected has_c plain enough =
    let c = table_of metas in
    let (s, prepared, is_on, is_fresh) = L.prepare_known w db c select_all has_c in
    let found = ap (λ h. S.prepare w h (sql select_all)) connected ∙ prepared in
    let (w', s', r) =
      rows_loop_right S L db c fuel metas w s (fresh select_all) [] (is_on, is_fresh) has_c
        (ap (serve (fresh select_all) c) (answer_all metas)) plain enough in
    (S.finalize w' s', ground (arith, found, r))
