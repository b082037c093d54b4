-- ===== src/Tests/Database.antt =====
-- Two records in a database in memory.
use cache_system_with_fuse.Sqlite.{Content}
use cache_system_with_fuse.Sqlite.Memory.{memory, memory-IsSqlite}
use cache_system_with_fuse.Metadata.{
  CacheMetadata, MetadataStore, c_str, get, put_metadata, mark_dirty, all_entries,
}
use cache_system_with_fuse.Metadata.Records.{IsPlain, Stored}
use cache_system_with_fuse.Metadata.Changes.{put_metadata-get, mark_dirty-get}
use cache_system_with_fuse.Metadata.Entries.{table_of, all_entries_right}
use cache_system_with_fuse.Fuse.Search.{take_while}
use cache_system_with_fuse.Base.{
  ◌+◌, ◌^◌, ◌≡◌, refl, ◌≢◌, true, false, Option, some, [], ◌∷◌, arith, pos, negsuc, returned, codes,
  text_discrete, find,
}

abbrev first : CacheMetadata
first = record {
  path = codes "/f";
  local_path = codes "r/f";
  size = 2 ^ 63 + 5;
  timestamp = pos 1_700_000_000;
  last_accessed = pos 1_700_000_009;
  dirty = false;
}

abbrev second : CacheMetadata
second = record {
  path = codes "/g";
  local_path = codes "r/g";
  size = 12;
  timestamp = pos 0;
  last_accessed = negsuc 0;
  dirty = true;
}

first-IsPlain : IsPlain first
unfolding take_while
first-IsPlain = record { no_nul = refl; bounded = omega arith }

second-IsPlain : IsPlain second
unfolding take_while
second-IsPlain = record { no_nul = refl; bounded = omega arith }

abbrev store : MetadataStore (Unit {0})
store = record { db_path = codes "r/meta.db"; db_handle = some tt }

-- The database with the second record.
abbrev world : Option Content
world = some (table_of (second ∷ []))

second-Stored : Stored (table_of (second ∷ [])) second
unfolding take_while find text_discrete
second-Stored = refl

put_metadata-get_example :
    (w' : Option Content) × (put_metadata memory world store first ≡ (w', true))
    × ((w'' : Option Content) × (get memory w' store (codes "/f") ≡ returned (w'', some first)))
    × ((other : CacheMetadata)
        → c_str other.path ≢ c_str first.path
        → IsPlain other
        → Stored (table_of (second ∷ [])) other
        → (w'' : Option Content) × (get memory w' store other.path ≡ returned (w'', some other)))
put_metadata-get_example =
    put_metadata-get memory memory-IsSqlite world store tt (table_of (second ∷ [])) first refl refl
      first-IsPlain

mark_dirty-get_example :
    (w' w'' : Option Content) × (mark_dirty memory world store (codes "/g") false ≡ (w', true))
    × (get memory w' store (codes "/g") ≡ returned (w'', some (record second { dirty = false })))
mark_dirty-get_example =
    mark_dirty-get memory memory-IsSqlite world store tt (table_of (second ∷ [])) second false refl
      refl second-IsPlain second-Stored

all_entries_right_example :
    (w' : Option Content) × (all_entries memory 3 (some (table_of (first ∷ second ∷ []))) store
      ≡ returned (w', first ∷ second ∷ []))
unfolding take_while
all_entries_right_example =
    all_entries_right memory memory-IsSqlite 3 (some (table_of (first ∷ second ∷ []))) store tt
      (first ∷ second ∷ []) refl refl ((first-IsPlain, refl), ((second-IsPlain, refl), tt))
      (omega arith)
