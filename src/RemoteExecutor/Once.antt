-- ===== src/RemoteExecutor/Once.antt =====
-- The lock of the remote executor keeps a task from being enqueued twice.
use gitlab_copilot_agent.Prelude.{
  ℕ, ◌+◌, ◌*◌, ◌/◌, ◌<◌, nat_eq, Text, text_eq, show, lt→ltb, Option, none, some, ◌≡◌, refl, ap,
  ◌∙◌, zero, suc, ltb, Bool-cases, inl, inr,
}
use gitlab_copilot_agent.Effects.{Result, ok, raised, Py, pure, lift, continue}
use gitlab_copilot_agent.Incremental.{strip_prefix}
use gitlab_copilot_agent.Concurrency.Protocols.{TaskQueue, ResultStore}
use gitlab_copilot_agent.Tasks.{TaskParams, TaskResult}
use gitlab_copilot_agent.RemoteExecutor.{
  RemoteWorld, poll_result, parse_result, poll_interval, found_or, poll_round, poll, lock_key,
  lock_prefix, lock_value, expiry_of, lock_expiry, is_live, dispatch_if, cached_or, execute,
}

-- `int` reads back what `str` writes of a natural number.
abbrev pub ReadsNumbers : (Text → Option ℕ) → Type 0
ReadsNumbers int_of = (n : ℕ) → int_of (show n) ≡ some n

module _ {W : Type 0} (world : RemoteWorld W) (store : ResultStore W) (queue : TaskQueue W)
    (job_timeout : ℕ) (reads : ReadsNumbers world.int_of) where
  lock_value-expiry :
      (wall : ℕ)
      → lock_expiry world.int_of (some (lock_value world store queue job_timeout wall))
        ≡ some (wall / 1000 + job_timeout)
  unfolding lock_expiry lock_value lock_prefix strip_prefix expiry_of
  lock_value-expiry wall = reads (wall / 1000 + job_timeout)

  -- Where the lock of the task is live, which was written at `wall`, an execution goes straight to the polls.
  polls_only :
      (task : TaskParams) (s s₁ s₂ : W) (wall : ℕ)
      → store.get task.task_id s ≡ (ok none, s₁)
      → store.get (lock_key task.task_id) s₁
        ≡ (ok (some (lock_value world store queue job_timeout wall)), s₂)
      → world.wall s₂ < (wall / 1000 + job_timeout) * 1000
      → execute world store queue job_timeout task s
        ≡ poll_result world store queue job_timeout task s₂
  unfolding execute cached_or dispatch_if is_live
  polls_only task s s₁ s₂ wall missing locked early =
      rw
        (
          missing,
          locked,
          lock_value-expiry wall,
          lt→ltb (world.wall s₂) ((wall / 1000 + job_timeout) * 1000) early,
        )
        refl

-- What `enqueued` tells of a state is changed neither by a look at the results nor by a pause.
abbrev pub IsUntouched : {W A : Type 0} → RemoteWorld W → ResultStore W → (W → A) → Type 0
IsUntouched {W} world store enqueued =
    ((key : Text) (s : W) → enqueued (store.get key s).1 ≡ enqueued s)
    × ((n : ℕ) (s : W) → enqueued (world.sleep n s).1 ≡ enqueued s)

module _ {W A : Type 0} (world : RemoteWorld W) (store : ResultStore W) (queue : TaskQueue W)
    (job_timeout : ℕ) (enqueued : W → A) (untouched : IsUntouched world store enqueued) where
  continue_untouched :
      {B C : Type 0} (r : Result B × W) (f : B → Py W C)
      → ((b : B) (s : W) → enqueued (f b s).1 ≡ enqueued s)
      → enqueued (continue f r).1 ≡ enqueued r.1
  continue_untouched (ok b, s) f h = h b s
  continue_untouched (raised e, s) f h = refl

  lift_untouched : {B : Type 0} (r : Result B) (s : W) → (lift r s).1 ≡ s
  lift_untouched (ok b) s = refl
  lift_untouched (raised e) s = refl

  found_or_untouched :
      (task : TaskParams) (next : Py W (Option TaskResult)) (o : Option Text) (s : W)
      → ((s' : W) → enqueued (next s').1 ≡ enqueued s')
      → enqueued (found_or world store queue job_timeout task next o s).1 ≡ enqueued s
  unfolding found_or
  found_or_untouched task next (some raw) s h =
      let r = parse_result world.json_loads raw task.task_type in
      continue_untouched (lift r s) (λ result. pure (some result)) (λ b s'. refl)
      ∙ ap enqueued (lift_untouched r s)
  found_or_untouched task next none s h =
      continue_untouched (world.sleep poll_interval s) (λ _. next) (λ _ s'. h s')
      ∙ untouched.1 poll_interval s

  poll_untouched :
      (task : TaskParams) (deadline fuel : ℕ) (s : W)
      → enqueued (poll world store queue job_timeout task deadline fuel s).1 ≡ enqueued s
  unfolding poll poll_round
  poll_untouched task deadline zero s = refl
  poll_untouched task deadline (suc fuel) s = elim (Bool-cases (ltb (world.now s) deadline)) [
    | inr late ↦ rw late refl
    | inl early ↦
        let next = poll world store queue job_timeout task deadline fuel in
        rw early (
          continue_untouched (store.get task.task_id s)
            (found_or world store queue job_timeout task next)
            (λ o s'. found_or_untouched task next o s' (poll_untouched task deadline fuel))
          ∙ untouched.0 task.task_id s)
  ]

  -- Let `enqueued` be what a state says of the queue, such as the tasks on it, which neither a look at the
  -- results nor a pause changes, and let `int` read what `str` writes. While a lock that was written at `wall` is live, which
  -- is until the job's timeout has passed since the second of `wall`, an execution of the same task that finds no
  -- result leaves what is enqueued as it is, however it ends and whatever the queue's own operations would do to
  -- it, and polls for the result.
  pub locked_task_polls :
      ReadsNumbers world.int_of
      → (task : TaskParams) (s s₁ s₂ : W) (wall : ℕ) → store.get task.task_id s ≡ (ok none, s₁)
      → store.get (lock_key task.task_id) s₁
        ≡ (ok (some (lock_value world store queue job_timeout wall)), s₂)
      → world.wall s₂ < (wall / 1000 + job_timeout) * 1000
      → (enqueued (execute world store queue job_timeout task s).1 ≡ enqueued s)
        × (execute world store queue job_timeout task s
            ≡ poll_result world store queue job_timeout task s₂)
  unfolding poll_result
  locked_task_polls reads task s s₁ s₂ wall missing locked early =
      let polls =
        polls_only world store queue job_timeout reads task s s₁ s₂ wall missing locked early in
      let first : enqueued s₁ ≡ enqueued s =
        rw⁻¹ (ap (λ r. r.1) missing) (untouched.0 task.task_id s) in
      let second : enqueued s₂ ≡ enqueued s₁ =
        rw⁻¹ (ap (λ r. r.1) locked) (untouched.0 (lock_key task.task_id) s₁) in
      (ap (λ r. enqueued r.1) polls ∙ (poll_untouched task _ _ s₂ ∙ (second ∙ first)), polls)
