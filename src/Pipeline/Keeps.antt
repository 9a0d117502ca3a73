-- ===== src/Pipeline/Keeps.antt =====
-- What every stage keeps, the run keeps.
use gitlab_copilot_agent.Prelude.{
  Text, text_eq, Option, none, some, ◌≡◌, refl, inl, inr, Bool-cases,
}
use gitlab_copilot_agent.Effects.{Result, ok, raised, Exn, is_exception}
use gitlab_copilot_agent.Effects.Ensures.{Ensures, Keeps, after-Ensures, Post-state, forget}
use gitlab_copilot_agent.Pipeline.{
  Run, Pipeline, set_success, stages, caught, guarded, run_pipeline, stage_requires,
}
use gitlab_copilot_agent.Pipeline.Outcome.{after_handler-state, after_cleanup-state, finish-state}

module _ {S : Type 0} (I : Run S → Type 0) where
  -- Each part of the pipeline keeps `I`.
  pub record AllKeep (pipeline : Pipeline S) : Type 0 where
    pub prepare : Keeps I pipeline.prepare
    pub execute : Keeps I pipeline.execute
    pub process : Keeps I pipeline.process
    pub cleanup : Keeps I pipeline.cleanup
    pub handle_error : (e : Exn) → Keeps I (pipeline.handle_error e)
    pub success : (s : Run S) → I s → I (set_success pipeline s)

  pub stage_requires-Ensures :
      {A : Type 0} (value : Option A) (name : Text)
      → Ensures I (stage_requires value name) (λ a. value ≡ some a)
  unfolding stage_requires
  stage_requires-Ensures none name s i = i
  stage_requires-Ensures (some a) name s i = (i, refl)

  pub stage_requires-Keeps :
      {A : Type 0} (value : Option A) (name : Text) → Keeps I (stage_requires value name)
  stage_requires-Keeps {A = A} value name =
      forget I (λ (a : A). value ≡ some a) (stage_requires value name)
        (stage_requires-Ensures value name)

  stages-Keeps : (pipeline : Pipeline S) → AllKeep pipeline → Keeps I (stages pipeline)
  unfolding stages
  stages-Keeps pipeline k =
      after-Ensures I (λ _. Unit) (λ _. Unit) pipeline.prepare _ k.prepare
        (after-Ensures I (λ _. Unit) (λ _. Unit) pipeline.execute _ k.execute
          (after-Ensures I (λ _. Unit) (λ _. Unit) pipeline.process _ k.process
            (λ s i. (k.success s i, tt))))

  caught-keeps :
      (pipeline : Pipeline S)
      → AllKeep pipeline
      → (r : Result (Unit {0}) × Run S) → I r.1
      → I (caught pipeline r).1
  unfolding caught
  caught-keeps pipeline k (ok a, s) i = i
  caught-keeps pipeline k (raised e, s) i = elim (Bool-cases (is_exception e)) [
    | inl one ↦
        rw (one, after_handler-state pipeline e (pipeline.handle_error e s))
          (Post-state I (λ _. Unit) (pipeline.handle_error e s) (k.handle_error e s i))
    | inr through ↦ rw through i
  ]

  -- Whatever the stages, the clean-up and the error handler keep holds when the run is over, however it ends.
  pub run_pipeline-keeps :
      (pipeline : Pipeline S) → AllKeep pipeline → (s : Run S) → I s → I (run_pipeline pipeline s).1
  unfolding run_pipeline guarded
  run_pipeline-keeps pipeline k s i =
      let r = caught pipeline (stages pipeline s) in
      let before : I r.1 =
        caught-keeps pipeline k (stages pipeline s)
          (Post-state I (λ _. Unit) (stages pipeline s) (stages-Keeps pipeline k s i)) in
      let cleaned : I (pipeline.cleanup r.1).1 =
        Post-state I (λ _. Unit) (pipeline.cleanup r.1) (k.cleanup r.1 before) in
      rw
        (
          finish-state pipeline (guarded pipeline s),
          after_cleanup-state pipeline r.0 (pipeline.cleanup r.1),
        )
        cleaned
