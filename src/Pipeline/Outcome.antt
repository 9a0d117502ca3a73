-- ===== src/Pipeline/Outcome.antt =====
-- How `run_pipeline` ends.
use gitlab_copilot_agent.Prelude.{
  text_eq, Bool, true, false, ◌&&◌, if◌then◌else◌, Option, none, some, ◌≡◌, refl, inl, inr,
  Bool-cases, ap, ◌∙◌, arith,
}
use gitlab_copilot_agent.Effects.{Result, ok, raised, Exn, is_exception, Py}
use gitlab_copilot_agent.Pipeline.{
  PipelineContext, Run, Pipeline, stages, after_handler, caught, after_cleanup, finish, guarded,
  run_pipeline,
}

-- A coroutine that raises `Exception`s only.
abbrev pub IsGuarded : {S A : Type 0} → Py S A → Type 0
IsGuarded {S = S} m = (s : S) (e : Exn) → (m s).0 ≡ raised e → is_exception e ≡ true

module _ {S : Type 0} (pipeline : Pipeline S) where
  -- The state in which `cleanup` starts.
  pub data Reaches (s : Run S) : Run S → Type 0 where
    completed : {s' : Run S} → stages pipeline s ≡ (ok tt, s') → Reaches s s'
    failed :
        {e : Exn} {s' : Run S}
        → stages pipeline s ≡ (raised e, s')
        → is_exception e ≡ true
        → Reaches s (pipeline.handle_error e s').1
    interrupted :
        {e : Exn} {s' : Run S}
        → stages pipeline s ≡ (raised e, s')
        → is_exception e ≡ false
        → Reaches s s'

  pub after_handler-state :
      (e : Exn) (r : Result (Unit {0}) × Run S) → (after_handler pipeline e r).1 ≡ r.1
  unfolding after_handler
  after_handler-state e (ok _, s) = refl
  after_handler-state e (raised e', s) = ground arith

  pub after_cleanup-state :
      (r : Result (Option Exn)) (c : Result (Unit {0}) × Run S)
      → (after_cleanup pipeline r c).1 ≡ c.1
  unfolding after_cleanup
  after_cleanup-state r (ok _, s) = refl
  after_cleanup-state r (raised e, s) = ground arith

  pub finish-state : (r : Result (Option Exn) × Run S) → (finish pipeline r).1 ≡ r.1
  unfolding finish
  finish-state (raised e, s) = refl
  finish-state (ok none, s) = refl
  finish-state (ok (some e), s) = ground arith

  caught-Reaches :
      (s : Run S) (r : Result (Unit {0}) × Run S)
      → stages pipeline s ≡ r
      → Reaches s (caught pipeline r).1
  unfolding caught
  caught-Reaches s (ok a, s') e = completed e
  caught-Reaches s (raised exc, s') e = elim (Bool-cases (is_exception exc)) [
    | inl caught_one ↦
        rw (caught_one, after_handler-state exc (pipeline.handle_error exc s'))
          (failed e caught_one)
    | inr passed ↦ rw passed (interrupted e passed)
  ]

  -- `cleanup` runs exactly once and last, however the stages end, and whatever `handle_error` raises:
  -- after the stages where they complete, after `handle_error` where they raise an `Exception`, and
  -- without `handle_error` where they are interrupted by anything else.
  pub cleanup_runs_last :
      (s : Run S)
      → (s' : Run S) × Reaches s s' × ((run_pipeline pipeline s).1 ≡ (pipeline.cleanup s').1)
  unfolding run_pipeline guarded
  cleanup_runs_last s =
      let r = caught pipeline (stages pipeline s) in
      (
        r.1,
        caught-Reaches s (stages pipeline s) refl,
        finish-state (guarded pipeline s) ∙ after_cleanup-state r.0 (pipeline.cleanup r.1),
      )

  -- What the runner makes of the stages' result, where neither `cleanup` nor `handle_error` is
  -- interrupted: `c` is the context that the run ends with.
  abbrev pub Settles : Result (Unit {0}) → PipelineContext → Result PipelineContext → Type 0
  Settles (ok _) c r = r ≡ ok c
  Settles (raised e) c r = r ≡ (if is_exception e && c.suppress_exception then ok c else raised e)

  after_cleanup-result :
      (r : Result (Option Exn)) (c : Result (Unit {0}) × Run S)
      → ((e : Exn) → c.0 ≡ raised e → is_exception e ≡ true)
      → (after_cleanup pipeline r c).0 ≡ r
  unfolding after_cleanup
  after_cleanup-result r (ok _, s) calm = refl
  after_cleanup-result r (raised e, s) calm = rw (calm e refl) refl

  after_handler-result :
      (exc : Exn) (r : Result (Unit {0}) × Run S)
      → ((e : Exn) → r.0 ≡ raised e → is_exception e ≡ true)
      → (after_handler pipeline exc r).0 ≡ ok (some exc)
  unfolding after_handler
  after_handler-result exc (ok _, s) calm = refl
  after_handler-result exc (raised e, s) calm = rw (calm e refl) refl

  abbrev pub IsCalmHandler : Type 0
  IsCalmHandler =
      (exc : Exn) (s : Run S) (e : Exn)
      → (pipeline.handle_error exc s).0 ≡ raised e
      → is_exception e ≡ true

  abbrev primary : Result (Unit {0}) → Option Exn
  primary (ok _) = none
  primary (raised e) = some e

  caught-result :
      IsCalmHandler → (r : Result (Unit {0}) × Run S) → (caught pipeline r).0 ≡ ok (primary r.0)
  unfolding caught
  caught-result calm (ok _, s) = refl
  caught-result calm (raised exc, s) = elim (Bool-cases (is_exception exc)) [
    | inl caught_one ↦
        rw (caught_one, after_handler-result exc (pipeline.handle_error exc s) (calm exc s)) refl
    | inr passed ↦ rw passed refl
  ]

  finish-Settles :
      (r : Result (Unit {0})) (x : Result (Option Exn)) (s : Run S)
      → x ≡ ok (primary r)
      → Settles r (finish pipeline (x, s)).1.context (finish pipeline (x, s)).0
  unfolding finish
  finish-Settles (ok _) x s e = rw e refl
  finish-Settles (raised exc) x s e =
      elim (Bool-cases (is_exception exc && s.context.suppress_exception)) [
        | inl quiet ↦ rw (e, quiet) (rw quiet refl)
        | inr loud ↦ rw (e, loud) (rw loud refl)
      ]

  -- Where `cleanup` and `handle_error` raise `Exception`s only, these never mask the stages' own result:
  -- the run returns the context where the stages completed, and otherwise raises what they raised,
  -- except for an `Exception` that the context says is suppressed.
  pub run_pipeline-Settles :
      IsGuarded pipeline.cleanup
      → IsCalmHandler
      → (s : Run S)
      → Settles
          (stages pipeline s).0
          (run_pipeline pipeline s).1.context
          (run_pipeline pipeline s).0
  unfolding run_pipeline guarded
  run_pipeline-Settles calm handler s =
      let r = caught pipeline (stages pipeline s) in
      let e =
        after_cleanup-result r.0 (pipeline.cleanup r.1) (calm r.1)
        ∙ caught-result handler (stages pipeline s) in
      finish-Settles (stages pipeline s).0 (guarded pipeline s).0 (guarded pipeline s).1 e

  and_right : (a b : Bool) → (a && b) ≡ true → b ≡ true
  and_right true b h = h
  and_right false b h = cc h

  -- A raise is pending or under way.
  abbrev fails : Result (Option Exn) → Bool
  fails (ok none) = false
  fails (ok (some _)) = true
  fails (raised _) = true

  after_cleanup-fails :
      (r : Result (Option Exn)) (c : Result (Unit {0}) × Run S)
      → fails r ≡ true
      → fails (after_cleanup pipeline r c).0 ≡ true
  unfolding after_cleanup
  after_cleanup-fails r (ok _, s) h = h
  after_cleanup-fails r (raised e, s) h = elim (Bool-cases (is_exception e)) [
    | inl a ↦ rw a h
    | inr b ↦ rw b refl
  ]

  caught-fails : (exc : Exn) (s : Run S) → fails (caught pipeline (raised exc, s)).0 ≡ true
  unfolding caught after_handler
  caught-fails exc s = elim (Bool-cases (is_exception exc)) [
    | inl a ↦ rw a (handled (pipeline.handle_error exc s))
    | inr b ↦ rw b refl
  ]
    where
      handled : (r : Result (Unit {0}) × Run S) → fails (after_handler pipeline exc r).0 ≡ true
      handled (ok _, s') = refl
      handled (raised e, s') = elim (Bool-cases (is_exception e)) [
        | inl a ↦ rw a refl
        | inr b ↦ rw b refl
      ]

  -- The context that a failing run returns says that exceptions are suppressed.
  abbrev suppressed : Result PipelineContext → Bool
  suppressed (ok c) = c.suppress_exception
  suppressed (raised _) = true

  finish-fails :
      (x : Result (Option Exn)) (s : Run S)
      → fails x ≡ true
      → suppressed (finish pipeline (x, s)).0 ≡ true
  unfolding finish
  finish-fails (ok none) s h = cc h
  finish-fails (ok (some exc)) s h =
      elim (Bool-cases (is_exception exc && s.context.suppress_exception)) [
        | inl a ↦ rw (a, and_right (is_exception exc) s.context.suppress_exception a) refl
        | inr b ↦ rw b refl
      ]
  finish-fails (raised e) s h = refl

  -- A run that returns a context that does not say that exceptions are suppressed has completed
  -- `prepare`, `execute` and `process`.
  pub returns_only_when_completed :
      (s s' : Run S) (c : PipelineContext)
      → run_pipeline pipeline s ≡ (ok c, s')
      → c.suppress_exception ≡ false
      → (done : Run S) × (stages pipeline s ≡ (ok tt, done))
  unfolding run_pipeline guarded
  returns_only_when_completed s s' c e loud = by_stages (stages pipeline s) refl
    where
      by_stages :
          (r : Result (Unit {0}) × Run S)
          → stages pipeline s ≡ r
          → (done : Run S) × (stages pipeline s ≡ (ok tt, done))
      by_stages (ok a, done) h = (done, h)
      by_stages (raised exc, s₁) h =
          let r = caught pipeline (raised exc, s₁) in
          let pending = after_cleanup-fails r.0 (pipeline.cleanup r.1) (caught-fails exc s₁) in
          let end = after_cleanup pipeline r.0 (pipeline.cleanup r.1) in
          let on = finish-fails end.0 end.1 pending in cc (ap (λ t. suppressed t.0) e, on, loud)
