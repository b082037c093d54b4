-- ===== src/Program.antt =====
-- main.cc: the program over the block store, the policies and the metadata store. `init_fuse_ops`,
-- `BlockStore::cleanup` and a constructor of `MetadataStore` with one argument are used there and
-- defined nowhere, so they are parameters, as libfuse's `fuse_main` is.
use cache_system_with_fuse.Double.{Double}
use cache_system_with_fuse.Files.{Disk}
use cache_system_with_fuse.BlockStore
use cache_system_with_fuse.Lru
use cache_system_with_fuse.TimePolicy
use cache_system_with_fuse.TimePolicy.{TimePolicy}
use cache_system_with_fuse.Http.{HttpBackend, create_backend}
use cache_system_with_fuse.Manager.{Env, Manager}
use cache_system_with_fuse.Manager.Api.{cache_init, cache_cleanup}
use cache_system_with_fuse.Sqlite.{Sqlite}
use cache_system_with_fuse.Metadata
use cache_system_with_fuse.Metadata.{MetadataStore, destroy}
use cache_system_with_fuse.Base.{
  ◌>>=◌, true, false, Option, none, some, List, [], ◌∷◌, ◌++◌, ℤ, pos, is_count, Outcome, returned,
  Text, codes,
}

-- What the program holds while libfuse runs: the disk, `g_cache`, the databases and `metaStore`.
pub record ProgramState (A : Type 0) (S : Sqlite) : Type 0 where
  pub disk : Disk
  pub cache : Option (Manager A)
  pub world : S.World
  pub meta_store : MetadataStore S.Db

-- `g_cache` on the disk as it is now.
abbrev pub current : {A : Type 0} {S : Sqlite} → ProgramState A S → Option (Manager A)
current s = elim s.cache [ none ↦ none | some m ↦ some (record m { store = s.disk }) ]

-- The functions that the program calls and no file defines.
pub record Elsewhere (A : Type 0) (S : Sqlite) : Type 1 where
  pub Ops : Type 0
  pub metadata_store_at : Text → MetadataStore S.Db
  pub init_fuse_ops : Text → Lru.Lru A → TimePolicy → MetadataStore S.Db → HttpBackend → Option Ops
  pub fuse_main : Ops → List Text → ProgramState A S → Outcome (ProgramState A S × ℤ)
  pub block_store_cleanup : Text → Disk → Disk

module _ (F : Double) (S : Sqlite) (env : Env) (E : Elsewhere F.Carrier S) where
  -- `cache_cleanup`, both other cleanups, and the destructor of `metaStore`.
  unfoldable pub finish_main : Text → ProgramState F.Carrier S → ℤ → Outcome (Disk × S.World × ℤ)
  finish_main blocks s ret = do
    (_, left) ← cache_cleanup F env (current s)
    let d = elim left as (λ o. Disk) [ none ↦ s.disk | some d ↦ d ]
    let closed = Metadata.cleanup S s.world s.meta_store
    returned (E.block_store_cleanup blocks d, destroy S closed.0 closed.1, ret)

  -- From the backend on. A return before libfuse runs leaves `g_cache` as it is.
  unfoldable pub serve_main :
      Text → Text → List Text → ProgramState F.Carrier S → Outcome (Disk × S.World × ℤ)
  serve_main blocks url args s = elim (create_backend url).0 [
    | none ↦ returned (s.disk, destroy S s.world s.meta_store, pos 1)
    | some b ↦ elim (E.init_fuse_ops blocks (Lru.init 1000) (TimePolicy.init 3600) s.meta_store b) [
      | none ↦ returned (s.disk, destroy S s.world s.meta_store, pos 1)
      | some ops ↦ do (s', ret) ← E.fuse_main ops args s; finish_main blocks s' ret
    ]
  ]

  -- `main` on the arguments from `argv[1]` on.
  unfoldable pub main : Disk → S.World → List Text → Outcome (Disk × S.World × ℤ)
  main d w [] = returned (d, w, pos 1)
  main d w (mountpoint ∷ []) = returned (d, w, pos 1)
  main d w (mountpoint ∷ url ∷ rest) =
      let (cache, rc) = cache_init {A = F.Carrier} d mountpoint in
      let d1 = elim cache as (λ c. Disk) [ none ↦ d | some m ↦ m.store ] in
      let blocks = mountpoint ++ codes "/blocks" in
      elim (is_count rc 0) [
        | false ↦ returned (d1, w, pos 1)
        | true ↦
            let (d2, ready) = BlockStore.init d1 blocks in
            elim ready [
              | false ↦ returned (d2, w, pos 1)
              | true ↦
                  let (w', store, opened) =
                    Metadata.init S w
                      (E.metadata_store_at (mountpoint ++ codes "/cache_meta.db")) in
                  elim opened [
                    | false ↦ returned (d2, destroy S w' store, pos 1)
                    | true ↦
                        serve_main blocks url (mountpoint ∷ url ∷ rest)
                          (record { disk = d2; cache = cache; world = w'; meta_store = store })
                  ]
            ]
      ]
