-- ===== src/Metadata/Records.antt =====
-- The operations of the metadata store on its records: what is put is found, until it is changed.
use cache_system_with_fuse.Sqlite.{
  Sqlite, IsSqlite, Content, Row, Value, integer, text, null, View, fresh, bind, serve, advance,
  modified, answer, sqlite_row, sqlite_done, sql, value_at, select_one, upsert,
}
use cache_system_with_fuse.Metadata.{
  CacheMetadata, MetadataStore, c_str, flag, to_int64, to_size, read_row, get, bind_metadata,
  put_metadata,
}
use cache_system_with_fuse.Metadata.Statements.{
  Is, bind_text-Is, bind_int64-Is, bind_int-Is, step-Is, execute_modifies,
}
use cache_system_with_fuse.Base.{
  ℕ, ◌+◌, ◌^◌, ◌<◌, ◌≡◌, refl, ap, ◌∙◌, Bool, true, false, not, none, some, List, [], ◌∷◌, arith,
  is_count, returned, get_or, Text, text_discrete, find, put, has,
}

-- The columns of a record as the store binds them.
abbrev pub values_of : CacheMetadata → List Value
values_of meta =
    text (c_str meta.local_path)
    ∷ integer (to_int64 meta.size)
    ∷ integer meta.timestamp
    ∷ integer meta.last_accessed
    ∷ integer (flag meta.dirty)
    ∷ []

-- The table has the record.
abbrev pub Stored : Content → CacheMetadata → Type 0
Stored c meta = find text_discrete (c_str meta.path) c ≡ some (values_of meta)

to_size-to_int64 : (n : ℕ) → n < 2 ^ 64 → to_size (to_int64 n) ≡ n
unfolding to_size to_int64
to_size-to_int64 n bound = ground arith

is_count-flag : (b : Bool) → not (is_count (flag b) 0) ≡ b
is_count-flag true = refl
is_count-flag false = refl

-- A record that the database can hold: no NUL inside its local path, and a `size_t`.
pub record IsPlain (meta : CacheMetadata) : Type 0 where
  pub no_nul : c_str meta.local_path ≡ meta.local_path
  pub bounded : meta.size < 2 ^ 64

-- The arguments of the upsert, and the table after it.
abbrev arguments : CacheMetadata → View
arguments meta =
    bind
      (bind
        (bind
          (bind
            (bind (bind (fresh upsert) 1 (text (c_str meta.path))) 2 (text (c_str meta.local_path)))
            3 (integer (to_int64 meta.size)))
          4 (integer meta.timestamp))
        5 (integer meta.last_accessed))
      6 (integer (flag meta.dirty))

abbrev pub upserted : Content → CacheMetadata → Content
upserted c meta = put text_discrete (c_str meta.path) (values_of meta) c

module _ (S : Sqlite) (L : IsSqlite S) where
  bind_metadata-Is :
      (meta : CacheMetadata) (s : S.Stmt) (db : S.Db)
      → Is S L s db (fresh upsert)
      → Is S L (bind_metadata S meta s) db (arguments meta)
  unfolding bind_metadata
  bind_metadata-Is meta s db is =
      let is1 = bind_text-Is S L s db (fresh upsert) 1 (c_str meta.path) is in
      let is2 = bind_text-Is S L _ db _ 2 (c_str meta.local_path) is1 in
      let is3 = bind_int64-Is S L _ db _ 3 (to_int64 meta.size) is2 in
      let is4 = bind_int64-Is S L _ db _ 4 meta.timestamp is3 in
      let is5 = bind_int64-Is S L _ db _ 5 meta.last_accessed is4 in
      bind_int-Is S L _ db _ 6 (flag meta.dirty) is5

  pub put_stores :
      (w : S.World) (st : MetadataStore S.Db) (db : S.Db) (c : Content) (meta : CacheMetadata)
      → st.db_handle ≡ some db
      → L.content w db ≡ some c
      → (w' : S.World) × (put_metadata S w st meta ≡ (w', true))
        × (L.content w' db ≡ some (upserted c meta))
  unfolding put_metadata modified
  put_stores w st db c meta connected has_c =
      execute_modifies S L w st db upsert (bind_metadata S meta) (arguments meta) c
        (upserted c meta) connected has_c (λ s. bind_metadata-Is meta s db) refl refl

  -- The row of a record from the `i`-th column on.
  abbrev pub RowAt : S.Stmt → ℕ → CacheMetadata → Type 0
  RowAt s i meta =
      (k : ℕ) (value : Value)
      → k < 5
      → get_or (values_of meta) k null ≡ value
      → value_at (i + k) (L.view s).values ≡ value

  column_int_flag :
      (s : S.Stmt) (i : ℕ) (b : Bool)
      → value_at i (L.view s).values ≡ integer (flag b)
      → S.column_int s i ≡ flag b
  column_int_flag s i true e = L.column_int_reads s i 1 (omega arith) e
  column_int_flag s i false e = L.column_int_reads s i 0 (omega arith) e

  advance_one :
      (p : Text) (values : Row) (c : Content)
      → find text_discrete p c ≡ some values
      → advance (bind (fresh select_one) 1 (text p)) c ≡ (
        c,
        record (bind (fresh select_one) 1 (text p)) { pending = some []; values = values },
        sqlite_row,
      )
  unfolding advance serve modified answer
  advance_one p values c e = ground (arith, e)

  advance-none :
      (p : Text) (c : Content)
      → find text_discrete p c ≡ none
      → (advance (bind (fresh select_one) 1 (text p)) c).2 ≡ sqlite_done
  unfolding advance serve modified answer
  advance-none p c e = ground (arith, e)

  pub read_row_right :
      (s : S.Stmt) (i : ℕ) (meta : CacheMetadata)
      → IsPlain meta
      → RowAt s i meta
      → read_row S s i meta.path ≡ returned meta
  unfolding read_row
  read_row_right s i meta plain at =
      let start : i ≡ i + 0 = omega arith in
      let local =
        ap (S.column_text s) start
        ∙ L.column_text_reads s (i + 0) meta.local_path
            (at 0 (text meta.local_path) (omega arith) (ap text (plain.no_nul))) in
      let size = L.column_int64_reads s (i + 1) (to_int64 meta.size) (at 1 _ (omega arith) refl) in
      let time = L.column_int64_reads s (i + 2) meta.timestamp (at 2 _ (omega arith) refl) in
      let last = L.column_int64_reads s (i + 3) meta.last_accessed (at 3 _ (omega arith) refl) in
      let dirty = column_int_flag s (i + 4) meta.dirty (at 4 _ (omega arith) refl) in
      ground (
        arith,
        local,
        size,
        time,
        last,
        dirty,
        to_size-to_int64 meta.size plain.bounded,
        is_count-flag meta.dirty,
      )

  pub get-Stored :
      (w : S.World) (st : MetadataStore S.Db) (db : S.Db) (c : Content) (meta : CacheMetadata)
      → st.db_handle ≡ some db
      → L.content w db ≡ some c
      → IsPlain meta
      → Stored c meta
      → (w' : S.World) × (get S w st meta.path ≡ returned (w', some meta))
        × (L.content w' db ≡ some c)
  unfolding get
  get-Stored w st db c meta connected has_c plain stored =
      let (s, prepared, is_on, is_fresh) = L.prepare_known w db c select_one has_c in
      let is = bind_text-Is S L s db (fresh select_one) 1 (c_str meta.path) (is_on, is_fresh) in
      let s1 = S.bind_text s 1 (c_str meta.path) in
      let v = bind (fresh select_one) 1 (text (c_str meta.path)) in
      let (has, after, out) = step-Is S L w s1 db v c is has_c in
      let next = advance_one (c_str meta.path) (values_of meta) c stored in
      let found = ap (λ h. S.prepare w h (sql select_one)) connected ∙ prepared in
      let st1 = S.step w s1 in
      let values = ap (λ u. u.values) after.1 ∙ ap (λ r. r.1.values) next in
      let row = read_row_right st1.1 0 meta plain (λ k value lt e.
        let start : 0 + k ≡ k = omega arith in
        ap (λ j. value_at j (L.view st1.1).values) start ∙ ap (value_at k) values ∙ e) in
      (
        S.finalize st1.0 st1.1,
        ground (arith, found, out, next, row),
        L.finalize_keeps st1.0 st1.1 db ∙ has ∙ ap (λ r. some r.0) next,
      )

  pub get_missing :
      (w : S.World) (st : MetadataStore S.Db) (db : S.Db) (c : Content) (path : Text)
      → st.db_handle ≡ some db
      → L.content w db ≡ some c
      → find text_discrete (c_str path) c ≡ none
      → (w' : S.World) × (get S w st path ≡ returned (w', none))
  unfolding get
  get_missing w st db c path connected has_c missing =
      let (s, prepared, is_on, is_fresh) = L.prepare_known w db c select_one has_c in
      let is = bind_text-Is S L s db (fresh select_one) 1 (c_str path) (is_on, is_fresh) in
      let s1 = S.bind_text s 1 (c_str path) in
      let v = bind (fresh select_one) 1 (text (c_str path)) in
      let (has, after, out) = step-Is S L w s1 db v c is has_c in
      let next = advance-none (c_str path) c missing in
      let found = ap (λ h. S.prepare w h (sql select_one)) connected ∙ prepared in
      let st1 = S.step w s1 in (S.finalize st1.0 st1.1, ground (arith, found, out, next))
