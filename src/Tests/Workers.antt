-- ===== src/Tests/Workers.antt =====
-- A pool of two workers, and blocks that expire.
use cache_system_with_fuse.Lru.{size_max}
use cache_system_with_fuse.TimePolicy.{TimePolicy, age, evict}
use cache_system_with_fuse.TimePolicy.Expiry.{evict_oldest}
use cache_system_with_fuse.ThreadPool.{init, all_gone}
use cache_system_with_fuse.ThreadPool.Totals.{count, running}
use cache_system_with_fuse.ThreadPool.Jobs.{
  Event, enqueues, stops, advances, run, queued, run_accounts,
}
use cache_system_with_fuse.Base.{
  ℕ, ◌+◌, ◌≤◌, ◌<◌, ◌≡◌, refl, ◌≢◌, ◌⊎◌, ite, true, none, some, List, [], ◌∷◌, arith, ℕ_discrete,
  ◌==◌, find,
}

-- Two jobs, of which one is queued when the destructor begins; all workers return.
abbrev events : List (Event ℕ)
events =
    enqueues 7
    ∷ enqueues 8
    ∷ advances 0
    ∷ stops
    ∷ advances 0
    ∷ advances 1
    ∷ advances 0
    ∷ advances 1
    ∷ advances 1
    ∷ []

run_accounts_example :
    let q = run (init 2) events in
    (count (λ j. j == 8) q.tasks + running (λ j. j == 8) q.workers + count (λ j. j == 8) q.done
      ≡ count (λ j. j == 8) (queued events))
    × (all_gone q.workers ≡ true
        → (q.tasks ≡ []) × (count (λ j. j == 8) q.done ≡ count (λ j. j == 8) (queued events)))
run_accounts_example = run_accounts (λ j. j == 8) 2 events (refl, (refl, tt))

abbrev policy : TimePolicy
policy = record { ttl_seconds = 5; timestamps = (1, 9_000_000_000) ∷ (2, 1_000_000_000) ∷ [] }

abbrev now : ℕ
now = 10_000_000_000

evict_oldest_example :
    let r = evict now policy in
    ((r.1 ≢ size_max)
      × ((ts : ℕ) × (find ℕ_discrete r.1 policy.timestamps ≡ some ts) × (5 ≤ age now ts))
      × ((id : ℕ)
          → find ℕ_discrete id r.0.timestamps
            ≡ ite (ℕ_discrete r.1 id) none (find ℕ_discrete id policy.timestamps)))
    ⊎ ((r ≡ (policy, size_max))
        × ((id ts : ℕ) → find ℕ_discrete id policy.timestamps ≡ some ts → age now ts < 5))
unfolding find ℕ_discrete
evict_oldest_example =
    evict_oldest now policy ((λ e. omega (arith, e)), refl, ((λ e. omega (arith, e)), refl, tt))
