-- ===== src/Sqlite/Memory.antt =====
-- A database in memory that behaves as the documentation of SQLite says: it knows the statements of
-- the metadata store, and nothing fails. It shows that `IsSqlite` can hold.
use cache_system_with_fuse.Sqlite.{
  Sqlite, IsSqlite, Content, Value, integer, text, null, View, Statement, fresh, bind, advance,
  Step, sqlite_error, sql, value_at, create_sql, drop_sql, select_one, select_all, upsert,
  update_accessed, update_dirty, delete_one,
}
use cache_system_with_fuse.Base.{
  ◌≡◌, refl, ap, ◌∙◌, ite, Bool, true, false, Option, none, some, List, [], ◌∷◌, ℤ, pos, Text,
  text_discrete,
}

unfoldable pub parse_from : List Statement → Text → Option Statement
parse_from [] t = none
parse_from (q ∷ qs) t = ite (text_discrete (sql q) t) (some q) (parse_from qs t)

abbrev pub parse : Text → Option Statement
parse =
    parse_from (select_one ∷ select_all ∷ upsert ∷ update_accessed ∷ update_dirty ∷ delete_one ∷ [])

parse-sql : (q : Statement) → parse (sql q) ≡ some q
unfolding parse_from sql text_discrete
parse-sql select_one = refl
parse-sql select_all = refl
parse-sql upsert = refl
parse-sql update_accessed = refl
parse-sql update_dirty = refl
parse-sql delete_one = refl

abbrev pub text_or_null : Value → Option Text
text_or_null (text t) = some t
text_or_null (integer n) = none
text_or_null null = none

abbrev pub integer_or_zero : Value → ℤ
integer_or_zero (integer n) = n
integer_or_zero (text t) = pos 0
integer_or_zero null = pos 0

abbrev pub fresh_of : Option Statement → Option View
fresh_of none = none
fresh_of (some q) = some (fresh q)

abbrev pub prepare_memory : Option Content → Option (Unit {0}) → Text → Option View
prepare_memory none db t = none
prepare_memory (some c) none t = none
prepare_memory (some c) (some db) t = fresh_of (parse t)

abbrev pub step_memory : Option Content → View → Option Content × View × Step
step_memory none v = (none, v, sqlite_error)
step_memory (some c) v = let r = advance v c in (some r.0, r.1, r.2)

pub no_handle_memory : (w : Option Content) (t : Text) → prepare_memory w none t ≡ none
no_handle_memory none t = refl
no_handle_memory (some c) t = refl

pub prepare_known_memory :
    (w : Option Content) (db : Unit {0}) (c : Content) (q : Statement)
    → w ≡ some c
    → (v : View) × (prepare_memory w (some db) (sql q) ≡ some v) × (tt ≡ db) × (v ≡ fresh q)
prepare_known_memory w tt c q e = (
  fresh q,
  ap (λ u. prepare_memory u (some tt) (sql q)) e ∙ ap fresh_of (parse-sql q),
  refl,
  refl,
)

pub step_advances_memory :
    (w : Option Content) (v : View) (c : Content)
    → w ≡ some c
    → ((step_memory w v).0 ≡ some (advance v c).0)
      × (tt {0} ≡ tt {0})
      × ((step_memory w v).1 ≡ (advance v c).1)
      × ((step_memory w v).2 ≡ (advance v c).2)
step_advances_memory w v c e = (
  ap (λ u. (step_memory u v).0) e,
  refl,
  ap (λ u. (step_memory u v).1) e,
  ap (λ u. (step_memory u v).2) e,
)

-- Statements are views, and the world is the table where there is one.
abbrev pub memory : Sqlite
memory = record {
  World = Option Content;
  Db = Unit {0};
  Stmt = View;
  open_db = λ w path. (w, tt, true);
  exec = λ w db t.
      ite (text_discrete t create_sql)
        (elim w as (λ x. Option Content × Bool) [
          | none ↦ (some [], true)
          | some c ↦ (some c, true)
        ])
        (ite (text_discrete t drop_sql) (none, true) (w, false));
  prepare = prepare_memory;
  bind_text = λ v i t. bind v i (text t);
  bind_int64 = λ v i n. bind v i (integer n);
  bind_int = λ v i n. bind v i (integer n);
  step = step_memory;
  column_text = λ v i. text_or_null (value_at i v.values);
  column_int64 = λ v i. integer_or_zero (value_at i v.values);
  column_int = λ v i. integer_or_zero (value_at i v.values);
  finalize = λ w v. w;
  close = λ w db. w;
}

abbrev pub memory-IsSqlite : IsSqlite memory
memory-IsSqlite = record {
  content = λ w db. w;
  on = λ v. tt;
  view = λ v. v;
  no_handle = no_handle_memory;
  prepare_known = prepare_known_memory;
  bind_text_binds = λ s i t. (refl, refl);
  bind_int64_binds = λ s i n. (refl, refl);
  bind_int_binds = λ s i n. (refl, refl);
  step_advances = step_advances_memory;
  column_text_reads = λ s i t e. ap text_or_null e;
  column_int64_reads = λ s i n e. ap integer_or_zero e;
  column_int_reads = λ s i n lt e. ap integer_or_zero e;
  finalize_keeps = λ w s db. refl;
}
