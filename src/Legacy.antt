-- ===== src/Legacy.antt =====
-- cache/legacy_shims.cc, an older interface that is not in the build and defines three functions of
-- cache_manager.cc again.
use cache_system_with_fuse.Double.{Double}
use cache_system_with_fuse.Manager.{CacheEntry}
use cache_system_with_fuse.Base.{Bool, false, Option, none, some, ℤ, pos, Outcome, returned, Text}

unfoldable pub cache_has_valid_entry : Text → Bool
cache_has_valid_entry path = false

-- A null pointer for every path.
unfoldable pub cache_get_entry : Text → Option CacheEntry
cache_get_entry path = none

-- `evict` is the function `cache_evict_gb`, if its address is not null, on the state `C`.
unfoldable pub cache_apply_eviction :
    (F : Double) → {C : Type 0} → Option (F.Carrier → C → Outcome (C × ℤ)) → C → Outcome (C × ℤ)
cache_apply_eviction F none c = returned (c, pos 0)
cache_apply_eviction F (some evict) c = evict F.one c
