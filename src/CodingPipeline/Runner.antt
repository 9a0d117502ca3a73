-- ===== src/CodingPipeline/Runner.antt =====
-- `CodingTaskRunner` of coding_pipeline.py.
use gitlab_copilot_agent.Prelude.{
  ℕ, Text, text_eq, codes, [], ◌∷◌, ◌++◌, true, some, ◌≡◌, refl, inl, inr,
}
use gitlab_copilot_agent.Effects.{
  ok, raised, Exn, is_exception, transient_clone_error, Py, continue, ◌>>◌, Result-cases,
}
use gitlab_copilot_agent.Registry.{ResolvedProject}
use gitlab_copilot_agent.Pipeline.{
  new_context, run_pipeline, guarded, stages, caught, after_handler, after_cleanup, finish,
}
use gitlab_copilot_agent.Outside.{
  cloned, transitioned, commented, Log, Environment, perform, set_context,
}
use gitlab_copilot_agent.Outside.Files.{remove_clone, remove_repo, remove_context}
use gitlab_copilot_agent.Webhook.Background.{finally}
use gitlab_copilot_agent.CodingPipeline.{JiraIssue, new_coding, State, CodingSettings}
use gitlab_copilot_agent.CodingPipeline.Stages.{
  transition, comment, prepare, transient_comment, transient_failure, error_of, handle_error,
  coding_pipeline,
}

-- `DistributedLock.acquire`: how the `async with` begins and ends.
pub record RepoLock : Type 0 where
  pub acquire : Text → Py Log (Unit {0})
  pub release : Text → Py Log (Unit {0})

module _ (env : Environment) (to_lower strip_json_block : Text → Text) (settings : CodingSettings)
    (lock : RepoLock) (issue : JiraIssue) (mapping : ResolvedProject) where
  -- `run_pipeline(pipeline, CodingContext())`, which returns the context to nobody.
  unfoldable pub run_coding : Py Log (Unit {0})
  run_coding log =
      let begin : State = record {
        context = new_context;
        world = record { fields = new_coding; log = log };
      } in
      let (r, s) =
        run_pipeline (coding_pipeline env to_lower strip_json_block settings issue mapping) begin in
      continue (λ c log'. (ok tt, log')) (r, s.world.log)

  -- `CodingTaskRunner.handle`
  unfoldable pub handle_issue : Py Log (Unit {0})
  handle_issue =
      lock.acquire mapping.clone_url
      >> (λ log. finally (run_coding log) (lock.release mapping.clone_url))

  abbrev begin_run : Log → State
  begin_run log = record {
    context = new_context;
    world = record { fields = new_coding; log = log };
  }

  -- The steps up to the clone.
  abbrev tried : Log → Log
  tried log =
      (log ++ transitioned issue.key mapping.in_progress_status ∷ [])
      ++ cloned mapping.clone_url mapping.target_branch ∷ []

  stages-of-transient :
      (log : Log) (e : Exn)
      → env.transition_issue log ≡ ok tt
      → env.clone_repo (log ++ transitioned issue.key mapping.in_progress_status ∷ []) ≡ raised e
      → stages
          (coding_pipeline env to_lower strip_json_block settings issue mapping)
          (begin_run log)
        ≡ (raised e, begin_run (tried log))
  unfolding stages coding_pipeline prepare transition perform
  stages-of-transient log e moved failed = rw (moved, failed) refl

  -- The state that the error handler leaves.
  abbrev suppressed : Log → Text → State
  suppressed log text = record {
    context = record new_context { outcome = codes "transient_failure"; suppress_exception = true };
    world = record { fields = new_coding; log = log ++ commented issue.key text ∷ [] };
  }

  handle_error-of-transient :
      (log : Log) (attempts : ℕ) (message : Text)
      → ((l : Log) (e : Exn) → env.add_comment l ≡ raised e → is_exception e ≡ true)
      → handle_error env to_lower strip_json_block settings issue mapping
          (record { kind = transient_clone_error attempts; message = message })
          (begin_run log)
        ≡ (
          ok tt,
          suppressed log (
              transient_comment env to_lower strip_json_block settings issue mapping attempts
                message),
        )
  unfolding handle_error error_of transient_failure comment perform set_context
  handle_error-of-transient log attempts message calm = elim (Result-cases (env.add_comment log)) [
    | inl (u, said) ↦ rw said refl
    | inr (e, unsaid) ↦ rw (unsaid, calm log e unsaid) refl
  ]

  -- A clone that fails by a transient error lets the run return as if it had succeeded, after a comment on the issue: the
  -- issue was moved to its in-progress status before.
  pub run_coding-of-transient :
      (log : Log) (attempts : ℕ) (message : Text)
      → env.transition_issue log ≡ ok tt
      → env.clone_repo (log ++ transitioned issue.key mapping.in_progress_status ∷ [])
        ≡ raised (record { kind = transient_clone_error attempts; message = message })
      → ((l : Log) (e : Exn) → env.add_comment l ≡ raised e → is_exception e ≡ true)
      → (run_coding log).0 ≡ ok tt
  unfolding run_coding run_pipeline guarded caught after_handler after_cleanup finish remove_clone
      remove_repo remove_context is_exception coding_pipeline transient_comment
  run_coding-of-transient log attempts message moved failed calm =
      let e : Exn = record { kind = transient_clone_error attempts; message = message } in
      let pipeline = coding_pipeline env to_lower strip_json_block settings issue mapping in
      let text =
        transient_comment env to_lower strip_json_block settings issue mapping attempts message in
      let ended : guarded pipeline (begin_run log) ≡ (ok (some e), suppressed (tried log) text) =
        rw
          (
            stages-of-transient log e moved failed,
            handle_error-of-transient (tried log) attempts message calm,
          )
          refl in
      rw ended refl
