-- ===== src/RemoteExecutor/Termination.antt =====
-- The polls of the remote executor come to an end.
use gitlab_copilot_agent.Prelude.{
  ℕ, zero, suc, ◌+◌, ◌*◌, ◌/◌, ◌≤◌, Text, ltb, Option, none, some, ◌≡◌, refl, inl, inr, Bool-cases,
  arith, ltb→lt,
}
use gitlab_copilot_agent.Effects.{Result, ok, raised, Py, pure, lift, continue}
use gitlab_copilot_agent.Concurrency.Protocols.{TaskQueue, ResultStore}
use gitlab_copilot_agent.Tasks.{TaskParams, TaskResult}
use gitlab_copilot_agent.RemoteExecutor.{
  RemoteWorld, parse_result, poll_interval, found_or, poll_round, poll, poll_result, dispatch,
  dispatch_if, cached_or, execute, lock_key, lock_expiry, is_live,
}

-- A result or an error: the fuel was enough.
abbrev pub Ends : {W : Type 0} → Result (Option TaskResult) × W → Type 0
Ends (ok (some result), s) = Unit
Ends (ok none, s) = ⊥
Ends (raised e, s) = Unit

module _ {W : Type 0} where
  -- The loop's clock does not run backwards in the store's `get`, and a pause that is over has lasted.
  abbrev pub IsMonotone : RemoteWorld W → ResultStore W → Type 0
  IsMonotone world store = (s : W) (key : Text) → world.now s ≤ world.now (store.get key s).1

  abbrev pub Pauses : RemoteWorld W → Type 0
  Pauses world =
      (s : W) (n : ℕ)
      → (world.sleep n s).0 ≡ ok tt
      → world.now s + n ≤ world.now (world.sleep n s).1

  continue-Ends :
      {A : Type 0} (r : Result A × W) (f : A → Py W (Option TaskResult))
      → ((a : A) → r.0 ≡ ok a → Ends (f a r.1))
      → Ends (continue f r)
  continue-Ends (ok a, s) f h = h a refl
  continue-Ends (raised e, s) f h = tt

module _ {W : Type 0} (world : RemoteWorld W) (store : ResultStore W) (queue : TaskQueue W)
    (job_timeout : ℕ) (monotone : IsMonotone world store) (pauses : Pauses world) where
  result-Ends :
      (r : Result TaskResult) (s : W) → Ends (continue (λ result. pure (some result)) (lift r s))
  result-Ends (ok result) s = tt
  result-Ends (raised e) s = tt

  found_or-Ends :
      (task : TaskParams) (next : Py W (Option TaskResult)) (o : Option Text) (s : W)
      → ((s' : W) → world.now s + poll_interval ≤ world.now s' → Ends (next s'))
      → Ends (found_or world store queue job_timeout task next o s)
  unfolding found_or
  found_or-Ends task next (some raw) s h =
      result-Ends (parse_result world.json_loads raw task.task_type) s
  found_or-Ends task next none s h =
      continue-Ends (world.sleep poll_interval s) (λ _. next)
        (λ u e. h _ (pauses s poll_interval e))

  -- With a round for each interval that is left, the loop ends.
  poll-Ends :
      (task : TaskParams) (deadline fuel : ℕ) (s : W)
      → deadline ≤ world.now s + poll_interval * fuel
      → Ends (poll world store queue job_timeout task deadline (suc fuel) s)
  unfolding poll poll_round
  poll-Ends task deadline zero s h = elim (Bool-cases (ltb (world.now s) deadline)) [
    | inl early ↦ absurd (omega (arith, ltb→lt (world.now s) deadline early))
    | inr late ↦ rw late tt
  ]
  poll-Ends task deadline (suc fuel) s h = elim (Bool-cases (ltb (world.now s) deadline)) [
    | inl early ↦ rw early (
        continue-Ends (store.get task.task_id s) _ (λ o _. found_or-Ends task _ o _ (λ s' later.
          poll-Ends task deadline fuel s' (omega (arith, h, later, monotone s task.task_id)))))
    | inr late ↦ rw late tt
  ]

  poll_result-Ends :
      (task : TaskParams) (s : W) → Ends (poll_result world store queue job_timeout task s)
  unfolding poll_result
  poll_result-Ends task s =
      poll-Ends task (world.now s + job_timeout * 1000) (suc (job_timeout * 1000 / poll_interval)) s
        (omega arith)

  dispatch_if-Ends :
      (task : TaskParams) (existing : Option Text) (s : W)
      → Ends (dispatch_if world store queue job_timeout task existing s)
  unfolding dispatch_if
  dispatch_if-Ends task existing s =
      elim (Bool-cases (is_live (world.wall s) (lock_expiry world.int_of existing))) [
        | inl live ↦ rw live (poll_result-Ends task s)
        | inr free ↦ rw free (
            continue-Ends (dispatch world store queue job_timeout task s) (λ _. _)
              (λ _ _. poll_result-Ends task _))
      ]

  cached_or-Ends :
      (task : TaskParams) (o : Option Text) (s : W)
      → Ends (cached_or world store queue job_timeout task o s)
  unfolding cached_or
  cached_or-Ends task (some raw) s =
      result-Ends (parse_result world.json_loads raw task.task_type) s
  cached_or-Ends task none s =
      continue-Ends (store.get (lock_key task.task_id) s) _
        (λ existing _. dispatch_if-Ends task existing _)

  -- Where the loop's clock does not run backwards in a `get` and a pause that is over has lasted as long as asked, an execution ends
  -- with a result or an error: the polls that fit in the timeout, and two, are enough, whatever the store and the queue answer.
  pub execute-Ends :
      (task : TaskParams) (s : W) → Ends (execute world store queue job_timeout task s)
  unfolding execute
  execute-Ends task s = continue-Ends (store.get task.task_id s) _ (λ o _. cached_or-Ends task o _)
