-- ===== src/Metadata/Changes.antt =====
-- What `get` finds after the store has changed a record.
use cache_system_with_fuse.Sqlite.{
  Sqlite, IsSqlite, Content, integer, text, fresh, bind, modified, update_where, update_accessed,
  update_dirty, delete_one,
}
use cache_system_with_fuse.Metadata.{
  CacheMetadata, MetadataStore, c_str, flag, get, put_metadata, update_access_time, mark_dirty,
  remove_metadata,
}
use cache_system_with_fuse.Metadata.Statements.{
  bind_text-Is, bind_int64-Is, bind_int-Is, execute_modifies,
}
use cache_system_with_fuse.Metadata.Records.{
  Stored, IsPlain, upserted, put_stores, get-Stored, get_missing,
}
use cache_system_with_fuse.Base.{
  ◌≡◌, refl, ◌≢◌, Bool, true, none, some, arith, ℤ, returned, Text, text_discrete, erase, find-put,
  find-erase, has,
}

-- On a connected database with the table that behaves as SQLite documents: for a record without a
-- NUL in its local path and with a size below 2 ^ 64, `put` succeeds, `get` of its path then
-- returns that record, and `get` of every other such record in the table still returns that one.
pub put_metadata-get :
    (S : Sqlite) (L : IsSqlite S) (w : S.World) (st : MetadataStore S.Db) (db : S.Db) (c : Content)
    (meta : CacheMetadata)
    → st.db_handle ≡ some db
    → L.content w db ≡ some c
    → IsPlain meta
    → (w' : S.World) × (put_metadata S w st meta ≡ (w', true))
      × ((w'' : S.World) × (get S w' st meta.path ≡ returned (w'', some meta)))
      × ((other : CacheMetadata)
          → c_str other.path ≢ c_str meta.path
          → IsPlain other
          → Stored c other
          → (w'' : S.World) × (get S w' st other.path ≡ returned (w'', some other)))
put_metadata-get S L w st db c meta connected has_c plain =
    let (w', done, has) = put_stores S L w st db c meta connected has_c in
    let (w1, got, _) =
      get-Stored S L w' st db (upserted c meta) meta connected has plain
        (grind (arith, find-put)) in
    (
      w',
      done,
      (w1, got),
      λ other ne plain' stored.
          let (w2, got', _) =
            get-Stored S L w' st db (upserted c meta) other connected has plain'
              (grind (arith, find-put)) in
          (w2, got'),
    )

-- On a database with the table and a record that it can hold, `updateAccessTime` succeeds and `get` then
-- returns the record with the new time and nothing else changed.
pub update_access_time-get :
    (S : Sqlite) (L : IsSqlite S) (w : S.World) (st : MetadataStore S.Db) (db : S.Db) (c : Content)
    (meta : CacheMetadata) (time : ℤ)
    → st.db_handle ≡ some db
    → L.content w db ≡ some c
    → IsPlain meta
    → Stored c meta
    → (w' w'' : S.World) × (update_access_time S w st meta.path time ≡ (w', true))
      × (get S w' st meta.path ≡ returned (w'', some (record meta { last_accessed = time })))
unfolding update_access_time modified update_where
update_access_time-get S L w st db c meta time connected has_c plain stored =
    let meta' : CacheMetadata = record meta { last_accessed = time } in
    let (w', done, has) =
      execute_modifies S L w st db update_accessed
        (λ s. S.bind_text (S.bind_int64 s 1 time) 2 (c_str meta.path))
        (bind (bind (fresh update_accessed) 1 (integer time)) 2 (text (c_str meta.path))) c
        (upserted c meta') connected has_c
        (λ s is. bind_text-Is S L _ db _ 2 (c_str meta.path) (bind_int64-Is S L s db _ 1 time is))
        refl (ground (arith, stored)) in
    let (w'', got, _) =
      get-Stored S L w' st db (upserted c meta') meta' connected has
        (record { no_nul = plain.no_nul; bounded = plain.bounded }) (grind (arith, find-put)) in
    (w', w'', done, got)

-- On a connected database with the table that behaves as SQLite documents, with a record in it
-- that has no NUL in its local path and a size below 2 ^ 64, `markDirty` succeeds and `get` then
-- returns the record with the new flag and nothing else changed.
pub mark_dirty-get :
    (S : Sqlite) (L : IsSqlite S) (w : S.World) (st : MetadataStore S.Db) (db : S.Db) (c : Content)
    (meta : CacheMetadata) (dirty : Bool)
    → st.db_handle ≡ some db
    → L.content w db ≡ some c
    → IsPlain meta
    → Stored c meta
    → (w' w'' : S.World) × (mark_dirty S w st meta.path dirty ≡ (w', true))
      × (get S w' st meta.path ≡ returned (w'', some (record meta { dirty = dirty })))
unfolding mark_dirty modified update_where
mark_dirty-get S L w st db c meta dirty connected has_c plain stored =
    let meta' : CacheMetadata = record meta { dirty = dirty } in
    let (w', done, has) =
      execute_modifies S L w st db update_dirty
        (λ s. S.bind_text (S.bind_int s 1 (flag dirty)) 2 (c_str meta.path))
        (bind (bind (fresh update_dirty) 1 (integer (flag dirty))) 2 (text (c_str meta.path))) c
        (upserted c meta') connected has_c
        (λ s is.
          bind_text-Is S L _ db _ 2 (c_str meta.path) (bind_int-Is S L s db _ 1 (flag dirty) is))
        refl (ground (arith, stored)) in
    let (w'', got, _) =
      get-Stored S L w' st db (upserted c meta') meta' connected has
        (record { no_nul = plain.no_nul; bounded = plain.bounded }) (grind (arith, find-put)) in
    (w', w'', done, got)

-- On a connected database with the table that behaves as SQLite documents, `remove` of any path
-- succeeds, also of one that is not there, and `get` of it then returns no record.
pub remove_metadata-get :
    (S : Sqlite) (L : IsSqlite S) (w : S.World) (st : MetadataStore S.Db) (db : S.Db) (c : Content)
    (path : Text)
    → st.db_handle ≡ some db
    → L.content w db ≡ some c
    → (w' w'' : S.World) × (remove_metadata S w st path ≡ (w', true))
      × (get S w' st path ≡ returned (w'', none))
unfolding remove_metadata modified
remove_metadata-get S L w st db c path connected has_c =
    let key = c_str path in
    let (w', done, has) =
      execute_modifies S L w st db delete_one (λ s. S.bind_text s 1 key)
        (bind (fresh delete_one) 1 (text key)) c (erase text_discrete key c) connected has_c
        (λ s is. bind_text-Is S L s db _ 1 key is) refl refl in
    let (w'', got) =
      get_missing S L w' st db (erase text_discrete key c) path connected has
        (grind (arith, find-erase)) in
    (w', w'', done, got)
