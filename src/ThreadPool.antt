-- ===== src/ThreadPool.antt =====
-- cache/thread_pool.h, .inl and .cc, as steps of its threads. A step is what a thread does while it
-- holds the mutex, or the end of a job; the operating system chooses their order.
pub mod Totals
pub mod Jobs
use cache_system_with_fuse.Base.{
  ℕ, zero, suc, ◌+◌, ◌-◌, ◌*◌, ◌/◌, ◌%◌, ◌^◌, ◌≤◌, ◌<◌, min, max, ◌≡◌, refl, sym, ap, subst, ◌∙◌,
  ◌≢◌, ◌↔◌, ◌⊎◌, inl, inr, ite, if_pos, if_neg, Bool, true, false, ◌&&◌, ◌||◌, not, Option, none,
  some, List, [], ◌∷◌, ◌++◌, map, arith, dec_lt, dec_le, ℕ_discrete, ltb, leb, ◌==◌, if◌then◌else◌,
  ltb→lt, lt→ltb, ==_iff, Bool-cases, Option-cases, ℤ, pos, negsuc, neg, is_negative, to_ℕ,
  is_count, Outcome, returned, thrown, faulted, exhausted, length, get_or, set, take, drop,
  replicate, length-append, length-set, length-replicate, get_or-set_self, get_or-set_ne,
  get_or-append_left, get_or_past, Text, codes, text_discrete, find, put, erase, find-put,
  find-erase, table_laws, keys, has, Table, Bytes, memcpy, Agree, bit_or_disjoint,
}

-- What a worker does: it waits for or is about to take a job, runs one, or has returned.
pub data Worker (J : Type 0) : Type 0 where
  waiting : Worker J
  busy : J → Worker J
  gone : Worker J

-- `tasks_`, `workers_` and `stop_`; `done` lists the jobs that ran to their end, the latest first.
pub record Pool (J : Type 0) : Type 0 where
  pub tasks : List J
  pub workers : List (Worker J)
  pub stop : Bool
  pub done : List J

module _ {J : Type 0} where
  -- The constructor: at least one worker.
  unfoldable pub init : ℕ → Pool J
  init num_threads = record {
    tasks = [];
    workers = replicate (if num_threads == 0 then 1 else num_threads) waiting;
    stop = false;
    done = [];
  }

  -- `enqueue`.
  unfoldable pub enqueue : Pool J → J → Pool J
  enqueue p job = record p { tasks = p.tasks ++ job ∷ [] }

  -- The first lines of the destructor.
  unfoldable pub request_stop : Pool J → Pool J
  request_stop p = record p { stop = true }

  -- One worker goes on: from its wait to a job, to its return, or nowhere; or to the end of its job.
  unfoldable pub advance : Pool J → ℕ → Pool J
  advance p i = elim (get_or p.workers i gone) [
    | gone ↦ p
    | busy job ↦ record p { workers = set p.workers i waiting; done = job ∷ p.done }
    | waiting ↦ elim p.tasks [
      | [] ↦ if p.stop then record p { workers = set p.workers i gone } else p
      | job ∷ tasks ↦ record p { tasks = tasks; workers = set p.workers i (busy job) }
    ]
  ]

  -- `th.join()` has come back for every worker.
  unfoldable pub all_gone : List (Worker J) → Bool
  all_gone [] = true
  all_gone (gone ∷ ws) = all_gone ws
  all_gone (waiting ∷ ws) = false
  all_gone (busy job ∷ ws) = false
