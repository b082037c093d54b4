-- ===== src/Sqlite.antt =====
-- SQLite as the metadata store calls it. Its functions are a parameter, and `IsSqlite` says what its
-- documentation promises of them: each statement of the store as SQL describes it.
pub mod Memory
use cache_system_with_fuse.Base.{
  ℕ, zero, suc, ◌+◌, ◌-◌, ◌*◌, ◌/◌, ◌%◌, ◌^◌, ◌≤◌, ◌<◌, min, max, ◌≡◌, refl, sym, ap, subst, ◌∙◌,
  ◌≢◌, ◌↔◌, ◌⊎◌, inl, inr, ite, if_pos, if_neg, Bool, true, false, ◌&&◌, ◌||◌, not, Option, none,
  some, List, [], ◌∷◌, ◌++◌, map, arith, dec_lt, dec_le, ℕ_discrete, ltb, leb, ◌==◌, if◌then◌else◌,
  ltb→lt, lt→ltb, ==_iff, Bool-cases, Option-cases, ℤ, pos, negsuc, neg, is_negative, to_ℕ,
  is_count, Outcome, returned, thrown, faulted, exhausted, length, get_or, set, take, drop,
  replicate, length-append, length-set, length-replicate, get_or-set_self, get_or-set_ne,
  get_or-append_left, get_or_past, Text, codes, text_discrete, find, put, erase, find-put,
  find-erase, table_laws, keys, has, Table, Bytes, memcpy, Agree, bit_or_disjoint,
}

pub data Value : Type 0 where
  integer : ℤ → Value
  text : Text → Value
  null : Value

-- The columns but for the key, in the order of the table, and the table by its primary key.
abbrev pub Row : Type 0
Row = List Value

abbrev pub Content : Type 0
Content = Table Text Row

-- SQLITE_ROW, SQLITE_DONE, and every other result of `sqlite3_step`.
pub data Step : Type 0 where
  sqlite_row sqlite_done sqlite_error : Step

pub data Statement : Type 0 where
  select_one select_all upsert update_accessed update_dirty delete_one : Statement

-- The texts of the statements.
abbrev pub select_one_sql : Text
select_one_sql =
    codes "SELECT local_path, size, timestamp, last_accessed, dirty FROM metadata WHERE path=?;"

abbrev pub select_all_sql : Text
select_all_sql =
    codes "SELECT path, local_path, size, timestamp, last_accessed, dirty FROM metadata;"

abbrev pub upsert_sql : Text
upsert_sql =
    codes "INSERT INTO metadata (path, local_path, size, timestamp, last_accessed, dirty) "
    ++ codes "VALUES (?, ?, ?, ?, ?, ?) ON CONFLICT(path) DO UPDATE SET "
    ++ codes "local_path=excluded.local_path, size=excluded.size, "
    ++ codes "timestamp=excluded.timestamp, last_accessed=excluded.last_accessed, "
    ++ codes "dirty=excluded.dirty;"

abbrev pub update_accessed_sql : Text
update_accessed_sql = codes "UPDATE metadata SET last_accessed=? WHERE path=?;"

abbrev pub update_dirty_sql : Text
update_dirty_sql = codes "UPDATE metadata SET dirty=? WHERE path=?;"

abbrev pub delete_one_sql : Text
delete_one_sql = codes "DELETE FROM metadata WHERE path=?;"

unfoldable pub sql : Statement → Text
sql select_one = select_one_sql
sql select_all = select_all_sql
sql upsert = upsert_sql
sql update_accessed = update_accessed_sql
sql update_dirty = update_dirty_sql
sql delete_one = delete_one_sql

-- `CREATE TABLE IF NOT EXISTS`, and `DROP TABLE IF EXISTS`.
abbrev pub create_sql : Text
create_sql =
    codes "CREATE TABLE IF NOT EXISTS metadata (path TEXT PRIMARY KEY,local_path TEXT,"
    ++ codes "size INTEGER,timestamp INTEGER,last_accessed INTEGER,dirty INTEGER);"

abbrev pub drop_sql : Text
drop_sql = codes "DROP TABLE IF EXISTS metadata;"

-- The key in an argument of a statement, which is a text in every call.
abbrev pub key_of : Value → Text
key_of (text t) = t
key_of (integer n) = []
key_of null = []

-- `UPDATE … SET column=?1 WHERE path=?2` on a column of the row.
unfoldable pub update_where : ℕ → (ℕ → Value) → Content → Content
update_where column bound c =
    let key = key_of (bound 2) in
    elim (find text_discrete key c) [
      | none ↦ c
      | some r ↦ put text_discrete key (set r column (bound 1)) c
    ]

-- The table after a statement that changes it.
unfoldable pub modified : Statement → (ℕ → Value) → Content → Option Content
modified select_one bound c = none
modified select_all bound c = none
modified upsert bound c =
    some (
      put text_discrete (key_of (bound 1)) (bound 2 ∷ bound 3 ∷ bound 4 ∷ bound 5 ∷ bound 6 ∷ []) c)
modified update_accessed bound c = some (update_where 3 bound c)
modified update_dirty bound c = some (update_where 4 bound c)
modified delete_one bound c = some (erase text_discrete (key_of (bound 1)) c)

-- The rows that a `SELECT` yields.
unfoldable pub answer : Statement → (ℕ → Value) → Content → List (List Value)
answer select_one bound c = elim (find text_discrete (key_of (bound 1)) c) [
  | none ↦ []
  | some r ↦ r ∷ []
]
answer select_all bound c = map (λ e. text e.0 ∷ e.1) c
answer upsert bound c = []
answer update_accessed bound c = []
answer update_dirty bound c = []
answer delete_one bound c = []

-- A prepared statement: its arguments, the rows still to come where it has begun, and the row it is at.
pub record View : Type 0 where
  pub statement : Statement
  pub bound : ℕ → Value
  pub pending : Option (List (List Value))
  pub values : List Value

abbrev pub fresh : Statement → View
fresh q = record { statement = q; bound = λ i. null; pending = none; values = [] }

abbrev pub bind : View → ℕ → Value → View
bind v i value = record v { bound = λ j. if j == i then value else v.bound j }

unfoldable pub serve : View → Content → List (List Value) → Content × View × Step
serve v c [] = (c, record v { pending = some []; values = [] }, sqlite_done)
serve v c (r ∷ rows) = (c, record v { pending = some rows; values = r }, sqlite_row)

-- `sqlite3_step` on a table that nothing else uses.
unfoldable pub advance : View → Content → Content × View × Step
advance v c = elim v.pending [
  | some rows ↦ serve v c rows
  | none ↦ elim (modified v.statement v.bound c) [
    | some c' ↦ serve v c' []
    | none ↦ serve v c (answer v.statement v.bound c)
  ]
]

abbrev pub value_at : ℕ → List Value → Value
value_at i values = get_or values i null

-- What the store calls. A database handle may be the null pointer; the results of the bindings and of
-- `sqlite3_finalize` are ignored.
pub record Sqlite : Type 1 where
  pub World : Type 0
  pub Db : Type 0
  pub Stmt : Type 0
  pub open_db : World → Text → World × Db × Bool
  pub exec : World → Db → Text → World × Bool
  pub prepare : World → Option Db → Text → Option Stmt
  pub bind_text : Stmt → ℕ → Text → Stmt
  pub bind_int64 : Stmt → ℕ → ℤ → Stmt
  pub bind_int : Stmt → ℕ → ℤ → Stmt
  pub step : World → Stmt → World × Stmt × Step
  pub column_text : Stmt → ℕ → Option Text
  pub column_int64 : Stmt → ℕ → ℤ
  pub column_int : Stmt → ℕ → ℤ
  pub finalize : World → Stmt → World
  pub close : World → Db → World

-- The behaviour on a database that answers: `content` is its table, `view` a statement on it.
pub record IsSqlite (S : Sqlite) : Type 1 where
  pub content : S.World → S.Db → Option Content
  pub on : S.Stmt → S.Db
  pub view : S.Stmt → View
  pub no_handle : (w : S.World) (t : Text) → S.prepare w none t ≡ none
  pub prepare_known :
      (w : S.World) (db : S.Db) (c : Content) (q : Statement)
      → content w db ≡ some c
      → (s : S.Stmt) × (S.prepare w (some db) (sql q) ≡ some s) × (on s ≡ db) × (view s ≡ fresh q)
  pub bind_text_binds :
      (s : S.Stmt) (i : ℕ) (t : Text)
      → (on (S.bind_text s i t) ≡ on s) × (view (S.bind_text s i t) ≡ bind (view s) i (text t))
  pub bind_int64_binds :
      (s : S.Stmt) (i : ℕ) (n : ℤ)
      → (on (S.bind_int64 s i n) ≡ on s) × (view (S.bind_int64 s i n) ≡ bind (view s) i (integer n))
  pub bind_int_binds :
      (s : S.Stmt) (i : ℕ) (n : ℤ)
      → (on (S.bind_int s i n) ≡ on s) × (view (S.bind_int s i n) ≡ bind (view s) i (integer n))
  pub step_advances :
      (w : S.World) (s : S.Stmt) (c : Content)
      → content w (on s) ≡ some c
      → (content (S.step w s).0 (on s) ≡ some (advance (view s) c).0)
        × (on (S.step w s).1 ≡ on s)
        × (view (S.step w s).1 ≡ (advance (view s) c).1)
        × ((S.step w s).2 ≡ (advance (view s) c).2)
  pub column_text_reads :
      (s : S.Stmt) (i : ℕ) (t : Text)
      → value_at i (view s).values ≡ text t
      → S.column_text s i ≡ some t
  pub column_int64_reads :
      (s : S.Stmt) (i : ℕ) (n : ℤ) → value_at i (view s).values ≡ integer n → S.column_int64 s i ≡ n
  pub column_int_reads :
      (s : S.Stmt) (i n : ℕ)
      → n < 2 ^ 31
      → value_at i (view s).values ≡ integer (pos n)
      → S.column_int s i ≡ pos n
  pub finalize_keeps :
      (w : S.World) (s : S.Stmt) (db : S.Db) → content (S.finalize w s) db ≡ content w db
