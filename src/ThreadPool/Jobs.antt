-- ===== src/ThreadPool/Jobs.antt =====
-- Runs of the pool: no job is lost.
use cache_system_with_fuse.ThreadPool.{
  Worker, waiting, busy, gone, Pool, init, enqueue, request_stop, advance, all_gone,
}
use cache_system_with_fuse.ThreadPool.Totals.{
  count, weight, running, total, waiting≢gone, busy≢gone, advance_cases, total-advance,
  total-enqueue, total-request_stop, total-init,
}
use cache_system_with_fuse.Base.{
  ℕ, zero, suc, ◌+◌, ◌<◌, ◌≡◌, refl, sym, ap, subst, ◌∙◌, ◌⊎◌, inl, inr, Bool, true, false, List,
  [], ◌∷◌, arith, ◌==◌, if◌then◌else◌, length, set, replicate, length-set, length-replicate,
}

-- What happens to a pool: a job is queued, the destructor begins, or a worker goes on.
pub data Event (J : Type 0) : Type 0 where
  enqueues : J → Event J
  stops : Event J
  advances : ℕ → Event J

true≢false : ¬ (true ≡ false)
true≢false e = cc

module _ {J : Type 0} where
  unfoldable pub step : Pool J → Event J → Pool J
  step q (enqueues job) = enqueue q job
  step q stops = request_stop q
  step q (advances i) = advance q i

  unfoldable pub run : Pool J → List (Event J) → Pool J
  run q [] = q
  run q (e ∷ es) = run (step q e) es

  -- The jobs that were queued, and that none is after the destructor began.
  abbrev pub queued : List (Event J) → List J
  queued [] = []
  queued (enqueues job ∷ es) = job ∷ queued es
  queued (stops ∷ es) = queued es
  queued (advances i ∷ es) = queued es

  abbrev pub NoneLate : Bool → List (Event J) → Type 0
  NoneLate stopped [] = Unit {0}
  NoneLate stopped (enqueues job ∷ es) = (stopped ≡ false) × NoneLate stopped es
  NoneLate stopped (stops ∷ es) = NoneLate true es
  NoneLate stopped (advances i ∷ es) = NoneLate stopped es

  -- A worker returned only after the destructor began, with no job left.
  has_gone : List (Worker J) → Bool
  has_gone [] = false
  has_gone (gone ∷ ws) = true
  has_gone (waiting ∷ ws) = has_gone ws
  has_gone (busy job ∷ ws) = has_gone ws

  has_gone-set :
      (ws : List (Worker J)) (i : ℕ) (w : Worker J)
      → has_gone (set ws i w) ≡ true
      → (has_gone ws ≡ true) ⊎ (w ≡ gone)
  unfolding has_gone
  has_gone-set [] i w e = inl e
  has_gone-set (v ∷ ws) zero gone e = inr refl
  has_gone-set (gone ∷ ws) zero w e = inl refl
  has_gone-set (waiting ∷ ws) zero waiting e = inl e
  has_gone-set (waiting ∷ ws) zero (busy job) e = inl e
  has_gone-set (busy b ∷ ws) zero waiting e = inl e
  has_gone-set (busy b ∷ ws) zero (busy job) e = inl e
  has_gone-set (gone ∷ ws) (suc i) w e = inl refl
  has_gone-set (waiting ∷ ws) (suc i) w e = has_gone-set ws i w e
  has_gone-set (busy b ∷ ws) (suc i) w e = has_gone-set ws i w e

  all_gone_none : (ws : List (Worker J)) → all_gone ws ≡ true → 0 < length ws → has_gone ws ≡ true
  unfolding all_gone has_gone
  all_gone_none [] e h = absurd (omega arith)
  all_gone_none (gone ∷ ws) e h = refl
  all_gone_none (waiting ∷ ws) e h = cc
  all_gone_none (busy job ∷ ws) e h = cc

  all_gone_idle : (f : J → Bool) (ws : List (Worker J)) → all_gone ws ≡ true → running f ws ≡ 0
  unfolding all_gone running weight
  all_gone_idle f [] e = refl
  all_gone_idle f (gone ∷ ws) e = omega (arith, all_gone_idle f ws e)
  all_gone_idle f (waiting ∷ ws) e = cc
  all_gone_idle f (busy job ∷ ws) e = cc

  -- The state of a pool between steps, with a flag that says whether the destructor began.
  record IsSafe (stopped : Bool) (q : Pool J) : Type 0 where
    flagged : q.stop ≡ stopped
    manned : 0 < length q.workers
    empty : has_gone q.workers ≡ true → (stopped ≡ true) × (q.tasks ≡ [])

  advance-IsSafe :
      (stopped : Bool) (q : Pool J) (i : ℕ) → IsSafe stopped q → IsSafe stopped (advance q i)
  advance-IsSafe stopped q i v = elim (advance_cases q i) [
    | inl e ↦ subst (IsSafe stopped) (sym e) v
    | inr (inl (job, at, e)) ↦ subst (IsSafe stopped) (sym e) (record {
      flagged = v.flagged;
      manned = omega (arith, v.manned, length-set q.workers i waiting);
      empty = λ g. elim (has_gone-set q.workers i waiting g) [
        | inl old ↦ v.empty old
        | inr p ↦ absurd (waiting≢gone p)
      ];
    })
    | inr (inr (inl (job, jobs, at, next, e))) ↦ subst (IsSafe stopped) (sym e) (record {
      flagged = v.flagged;
      manned = omega (arith, v.manned, length-set q.workers i (busy job));
      empty = λ g. elim (has_gone-set q.workers i (busy job) g) [
        | inl old ↦ absurd (cons≢nil (sym next ∙ (v.empty old).1))
        | inr p ↦ absurd (busy≢gone p)
      ];
    })
    | inr (inr (inr (at, none_left, stop, e))) ↦ subst (IsSafe stopped) (sym e) (record {
      flagged = v.flagged;
      manned = omega (arith, v.manned, length-set q.workers i gone);
      empty = λ g. (sym v.flagged ∙ stop, none_left);
    })
  ]
    where
      cons≢nil : {j : J} {js : List J} → ¬ (j ∷ js ≡ [])
      cons≢nil e = cc

  init-IsSafe : (n : ℕ) → IsSafe false (init n)
  unfolding init has_gone
  init-IsSafe n =
      let size = if n == 0 then 1 else n in
      record {
        flagged = refl;
        manned = ground (arith, length-replicate {A = Worker J} size waiting);
        empty = λ g. absurd (true≢false (sym g ∙ fresh size));
      }
    where
      fresh : (k : ℕ) → has_gone (replicate k waiting) ≡ false
      fresh zero = refl
      fresh (suc k) = fresh k

  run-IsSafe :
      (f : J → Bool) (es : List (Event J)) (stopped : Bool) (q : Pool J)
      → NoneLate stopped es
      → IsSafe stopped q
      → ((s : Bool) × IsSafe s (run q es)) × (total f (run q es) ≡ total f q + count f (queued es))
  unfolding run step
  run-IsSafe f [] stopped q late v = ((stopped, v), omega arith)
  run-IsSafe f (enqueues job ∷ es) stopped q (early, late) v =
      let v' : IsSafe stopped (enqueue q job) =
        unfold enqueue in
        record {
          flagged = v.flagged;
          manned = v.manned;
          empty = λ g. absurd (true≢false (sym (v.empty g).0 ∙ early));
        } in
      let (safe, same) = run-IsSafe f es stopped (enqueue q job) late v' in
      (safe, omega (arith, same, total-enqueue f q job))
  run-IsSafe f (stops ∷ es) stopped q late v =
      let v' : IsSafe true (request_stop q) =
        unfold request_stop in
        record { flagged = refl; manned = v.manned; empty = λ g. (refl, (v.empty g).1) } in
      let (safe, same) = run-IsSafe f es true (request_stop q) late v' in
      (safe, same ∙ ap (λ k. k + count f (queued es)) (total-request_stop f q))
  run-IsSafe f (advances i ∷ es) stopped q late v =
      let (safe, same) =
        run-IsSafe f es stopped (advance q i) late (advance-IsSafe stopped q i v) in
      (safe, omega (arith, same, total-advance f q i))

  -- In any run of a new pool in which no job is queued after the destructor began, and for any
  -- test on jobs, the jobs that pass it are as many in the queue, at work and done together as
  -- were queued: none is lost and none taken twice. Where all workers have returned, the queue is
  -- empty and all those jobs are done.
  pub run_accounts :
      (f : J → Bool) (n : ℕ) (es : List (Event J))
      → NoneLate false es
      → let q = run (init n) es in
        (count f q.tasks + running f q.workers + count f q.done ≡ count f (queued es))
        × (all_gone q.workers ≡ true → (q.tasks ≡ []) × (count f q.done ≡ count f (queued es)))
  unfolding total
  run_accounts f n es late =
      let q = run (init n) es in
      let ((stopped, v), same) = run-IsSafe f es false (init n) late (init-IsSafe n) in
      let all = same ∙ ap (λ k. k + count f (queued es)) (total-init f n) in
      (
        omega (arith, all),
        λ joined.
            let none_left = (v.empty (all_gone_none q.workers joined v.manned)).1 in
            (
              none_left,
              omega (arith, all, ap (count f) none_left, all_gone_idle f q.workers joined),
            ),
      )
