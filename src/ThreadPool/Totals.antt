-- ===== src/ThreadPool/Totals.antt =====
-- The jobs in the queue, at work and done, and what each step does of their numbers.
use cache_system_with_fuse.ThreadPool.{
  Worker, waiting, busy, gone, Pool, init, enqueue, request_stop, advance,
}
use cache_system_with_fuse.Base.{
  ℕ, zero, suc, ◌+◌, ◌≡◌, refl, sym, ap, ◌∙◌, ◌≢◌, ◌⊎◌, inl, inr, Bool, true, List, [], ◌∷◌, ◌++◌,
  arith, ◌==◌, if◌then◌else◌, Bool-cases, get_or, set, replicate,
}

module _ {J : Type 0} where
  -- How many jobs pass a test: in a list, and among those that run.
  abbrev pub count : (J → Bool) → List J → ℕ
  count f [] = 0
  count f (job ∷ jobs) = (if f job then 1 else 0) + count f jobs

  -- The jobs at work.
  unfoldable pub weight : (J → Bool) → Worker J → ℕ
  weight f waiting = 0
  weight f gone = 0
  weight f (busy job) = if f job then 1 else 0

  unfoldable pub running : (J → Bool) → List (Worker J) → ℕ
  running f [] = 0
  running f (w ∷ ws) = weight f w + running f ws

  unfoldable pub total : (J → Bool) → Pool J → ℕ
  total f q = count f q.tasks + running f q.workers + count f q.done

  pub Worker-cases : (w : Worker J) → (w ≡ waiting) ⊎ (((job : J) × (w ≡ busy job)) ⊎ (w ≡ gone))
  Worker-cases waiting = inl refl
  Worker-cases (busy job) = inr (inl (job, refl))
  Worker-cases gone = inr (inr refl)

  pub List-cases : (xs : List J) → (xs ≡ []) ⊎ ((job : J) × (jobs : List J) × (xs ≡ job ∷ jobs))
  List-cases [] = inl refl
  List-cases (job ∷ jobs) = inr (job, jobs, refl)

  count-append : (f : J → Bool) (xs ys : List J) → count f (xs ++ ys) ≡ count f xs + count f ys
  count-append f [] ys = omega arith
  count-append f (x ∷ xs) ys = omega (arith, count-append f xs ys)

  running-set :
      (f : J → Bool) (ws : List (Worker J)) (i : ℕ) (w : Worker J)
      → get_or ws i gone ≢ gone
      → running f (set ws i w) + weight f (get_or ws i gone) ≡ running f ws + weight f w
  unfolding running
  running-set f [] i w h = absurd (h refl)
  running-set f (v ∷ ws) zero w h = omega arith
  running-set f (v ∷ ws) (suc i) w h = omega (arith, running-set f ws i w h)

  pub waiting≢gone : ¬ (◌≡◌ {A = Worker J} waiting gone)
  waiting≢gone e = cc

  pub busy≢gone : {job : J} → ¬ (busy job ≡ gone)
  busy≢gone e = cc

  -- The four ways a worker goes on.
  pub advance_cases :
      (q : Pool J) (i : ℕ)
      → let at = get_or q.workers i gone in
        (advance q i ≡ q)
        ⊎ (((job : J) × (at ≡ busy job)
              × (advance q i ≡ record q { workers = set q.workers i waiting; done = job ∷ q.done }))
            ⊎ (((job : J) × (jobs : List J) × (at ≡ waiting)
                  × (q.tasks ≡ job ∷ jobs)
                  × (advance q i ≡ record q { tasks = jobs; workers = set q.workers i (busy job) }))
                ⊎ ((at ≡ waiting)
                    × (q.tasks ≡ [])
                    × (q.stop ≡ true)
                    × (advance q i ≡ record q { workers = set q.workers i gone }))))
  unfolding advance
  advance_cases q i = elim (Worker-cases (get_or q.workers i gone)) [
    | inl e ↦ elim (List-cases q.tasks) [
      | inl none_left ↦ elim (Bool-cases q.stop) [
        | inl stopped ↦
            inr (inr (inr (e, none_left, stopped, ground (arith, e, none_left, stopped))))
        | inr open_still ↦ inl (ground (arith, e, none_left, open_still))
      ]
      | inr (job, jobs, next) ↦ inr (inr (inl (job, jobs, e, next, ground (arith, e, next))))
    ]
    | inr (inl (job, e)) ↦ inr (inl (job, e, ground (arith, e)))
    | inr (inr e) ↦ inl (ground (arith, e))
  ]

  pub total-advance : (f : J → Bool) (q : Pool J) (i : ℕ) → total f (advance q i) ≡ total f q
  unfolding total weight
  total-advance f q i = elim (advance_cases q i) [
    | inl e ↦ ap (total f) e
    | inr (inl (job, at, e)) ↦
        let moved = rw at at (running-set f q.workers i waiting (λ p. busy≢gone (sym at ∙ p))) in
        ap (total f) e ∙ omega (arith, moved)
    | inr (inr (inl (job, jobs, at, next, e))) ↦
        let moved =
          rw at at (running-set f q.workers i (busy job) (λ p. waiting≢gone (sym at ∙ p))) in
        ap (total f) e ∙ omega (arith, moved, ap (count f) next)
    | inr (inr (inr (at, none_left, stopped, e))) ↦
        let moved = rw at at (running-set f q.workers i gone (λ p. waiting≢gone (sym at ∙ p))) in
        ap (total f) e ∙ omega (arith, moved)
  ]

  pub total-enqueue :
      (f : J → Bool) (q : Pool J) (job : J)
      → total f (enqueue q job) ≡ total f q + (if f job then 1 else 0)
  unfolding total enqueue
  total-enqueue f q job = omega (arith, count-append f q.tasks (job ∷ []))

  pub total-request_stop : (f : J → Bool) (q : Pool J) → total f (request_stop q) ≡ total f q
  unfolding total request_stop
  total-request_stop f q = refl

  running-waiting : (f : J → Bool) (n : ℕ) → running f (replicate n waiting) ≡ 0
  unfolding running weight
  running-waiting f zero = refl
  running-waiting f (suc n) = omega (arith, running-waiting f n)

  pub total-init : (f : J → Bool) (n : ℕ) → total f (init n) ≡ 0
  unfolding total init
  total-init f n = omega (arith, running-waiting f (if n == 0 then 1 else n))
