-- ===== src/Metadata/Statements.antt =====
-- What the statements of the metadata store do, by what is promised of SQLite.
use cache_system_with_fuse.Sqlite.{
  Sqlite, IsSqlite, Content, integer, text, View, Statement, fresh, bind, serve, advance, modified,
  sqlite_done, sql,
}
use cache_system_with_fuse.Metadata.{MetadataStore, is_done, finish, execute}
use cache_system_with_fuse.Base.{ℕ, ◌≡◌, sym, ap, ◌∙◌, true, none, some, [], arith, ℤ, Text, has}

advance-modified :
    (v : View) (c c' : Content)
    → v.pending ≡ none
    → modified v.statement v.bound c ≡ some c'
    → advance v c ≡ (c', record v { pending = some []; values = [] }, sqlite_done)
unfolding advance serve
advance-modified v c c' first e = ground (arith, first, e)

module _ (S : Sqlite) (L : IsSqlite S) where
  -- A statement of a database, with its arguments and the rows it has still to give.
  abbrev pub Is : S.Stmt → S.Db → View → Type 0
  Is s db v = (L.on s ≡ db) × (L.view s ≡ v)

  pub bind_text-Is :
      (s : S.Stmt) (db : S.Db) (v : View) (i : ℕ) (t : Text)
      → Is s db v
      → Is (S.bind_text s i t) db (bind v i (text t))
  bind_text-Is s db v i t (o, e) =
      let (o', e') = L.bind_text_binds s i t in (o' ∙ o, e' ∙ ap (λ u. bind u i (text t)) e)

  pub bind_int64-Is :
      (s : S.Stmt) (db : S.Db) (v : View) (i : ℕ) (n : ℤ)
      → Is s db v
      → Is (S.bind_int64 s i n) db (bind v i (integer n))
  bind_int64-Is s db v i n (o, e) =
      let (o', e') = L.bind_int64_binds s i n in (o' ∙ o, e' ∙ ap (λ u. bind u i (integer n)) e)

  pub bind_int-Is :
      (s : S.Stmt) (db : S.Db) (v : View) (i : ℕ) (n : ℤ)
      → Is s db v
      → Is (S.bind_int s i n) db (bind v i (integer n))
  bind_int-Is s db v i n (o, e) =
      let (o', e') = L.bind_int_binds s i n in (o' ∙ o, e' ∙ ap (λ u. bind u i (integer n)) e)

  pub step-Is :
      (w : S.World) (s : S.Stmt) (db : S.Db) (v : View) (c : Content)
      → Is s db v
      → L.content w db ≡ some c
      → (L.content (S.step w s).0 db ≡ some (advance v c).0)
        × Is (S.step w s).1 db (advance v c).1
        × ((S.step w s).2 ≡ (advance v c).2)
  step-Is w s db v c (o, e) has_c =
      let (c', o', v', out) = L.step_advances w s c (ap (L.content w) o ∙ has_c) in
      (
        ap (λ d. L.content (S.step w s).0 d) (sym o) ∙ c' ∙ ap (λ u. some (advance u c).0) e,
        (o' ∙ o, v' ∙ ap (λ u. (advance u c).1) e),
        out ∙ ap (λ u. (advance u c).2) e,
      )

  -- A statement that changes the table.
  pub finish_modifies :
      (w : S.World) (s : S.Stmt) (db : S.Db) (v : View) (c c' : Content)
      → Is s db v
      → L.content w db ≡ some c
      → v.pending ≡ none
      → modified v.statement v.bound c ≡ some c'
      → (w' : S.World) × (finish S w s ≡ (w', true)) × (L.content w' db ≡ some c')
  unfolding finish
  finish_modifies w s db v c c' is has_c first e =
      let (c1, i1, out) = step-Is w s db v c is has_c in
      let next = advance-modified v c c' first e in
      let st = S.step w s in
      (
        S.finalize st.0 st.1,
        ap (λ o. (S.finalize st.0 st.1, is_done o)) (out ∙ ap (λ r. r.2) next),
        L.finalize_keeps st.0 st.1 db ∙ c1 ∙ ap (λ r. some r.0) next,
      )

  -- Such a statement, from the connection on.
  pub execute_modifies :
      (w : S.World) (st : MetadataStore S.Db) (db : S.Db) (q : Statement) (binds : S.Stmt → S.Stmt)
      (v : View) (c c' : Content)
      → st.db_handle ≡ some db
      → L.content w db ≡ some c
      → ((s : S.Stmt) → Is s db (fresh q) → Is (binds s) db v)
      → v.pending ≡ none
      → modified v.statement v.bound c ≡ some c'
      → (w' : S.World) × (execute S w st q binds ≡ (w', true)) × (L.content w' db ≡ some c')
  unfolding execute
  execute_modifies w st db q binds v c c' connected has_c bound first e =
      let (s, prepared, is_on, is_fresh) = L.prepare_known w db c q has_c in
      let (w', done, has) =
        finish_modifies w (binds s) db v c c' (bound s (is_on, is_fresh)) has_c first e in
      let found = ap (λ h. S.prepare w h (sql q)) connected ∙ prepared in
      (w', ground (arith, found, done), has)
