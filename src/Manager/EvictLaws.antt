-- ===== src/Manager/EvictLaws.antt =====
-- The loop of `evict_until_gb`, and an entry after its round.
use cache_system_with_fuse.Double.{Double}
use cache_system_with_fuse.Lru
use cache_system_with_fuse.Lru.{Lru}
use cache_system_with_fuse.Manager.{Env, Manager, size_max}
use cache_system_with_fuse.Manager.Eviction.{used_bytes}
use cache_system_with_fuse.Base.{
  ℕ, ◌≡◌, ◌⊎◌, Bool, false, Outcome, returned, thrown, faulted, exhausted,
}

module _ (F : Double) (env : Env) where
  -- A run that is not cut off: where it returns, the test fails, or the policy gave up no block.
  abbrev pub Ends : (ℕ → Bool) → Outcome (Manager F.Carrier) → Type 0
  Ends over (returned m) =
      (over (used_bytes m.root m.store.files) ≡ false)
      ⊎ ((l : Lru F.Carrier) × ((Lru.evict F l).1 ≡ size_max) × (m.lru ≡ (Lru.evict F l).0))
  Ends over thrown = Unit {0}
  Ends over faulted = Unit {0}
  Ends over exhausted = ⊥
