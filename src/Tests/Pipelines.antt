-- ===== src/Tests/Pipelines.antt =====
-- Instances of the theorems on pipeline.py, error_messages.py, prompt_sanitizer.py and
-- project_registry.py.
use gitlab_copilot_agent.Prelude.{
  nat_eq, Text, text_eq, codes, List, [], ◌∷◌, ◌++◌, true, some, ◌≡◌, refl, ◌⊎◌, Any, list_beq,
}
use gitlab_copilot_agent.Effects.{
  ok, raised, Exn, is_exception, task_execution_error, Py, pure, raise,
}
use gitlab_copilot_agent.ErrorMessages.{public_messages}
use gitlab_copilot_agent.Concurrency.OrderedDict.{lookup, insert}
use gitlab_copilot_agent.Comments.Parsed.{Behavior}
use gitlab_copilot_agent.Pipeline.{
  PipelineContext, new_context, Run, Pipeline, stages, run_pipeline, set_success, guarded, caught,
  after_cleanup, finish,
}
use gitlab_copilot_agent.Pipeline.Outcome.{
  Reaches, Settles, IsGuarded, IsCalmHandler, cleanup_runs_last, run_pipeline-Settles,
}
use gitlab_copilot_agent.Pipeline.Errors.{post_pipeline_error, post_pipeline_error_is_safe}
use gitlab_copilot_agent.Registry.{
  ResolvedProject, ProjectRegistry, new_registry, jira_loop, id_loop,
}

abbrev failure : Exn
failure = record { kind = task_execution_error; message = codes "clone failed" }

-- A pipeline whose second stage fails, and one that goes through.
abbrev failing : Pipeline (Unit {0})
failing = record {
  prepare = pure tt;
  execute = raise failure;
  process = pure tt;
  cleanup = pure tt;
  handle_error = λ e. pure tt;
}

abbrev smooth : Pipeline (Unit {0})
smooth = record {
  prepare = pure tt;
  execute = pure tt;
  process = pure tt;
  cleanup = pure tt;
  handle_error = λ e. pure tt;
}

abbrev begin_run : Run (Unit {0})
begin_run = record { context = new_context; world = tt }

cleanup_runs_last_example :
    (s' : Run (Unit {0})) × Reaches failing begin_run s'
    × ((run_pipeline failing begin_run).1 ≡ (failing.cleanup s').1)
cleanup_runs_last_example = cleanup_runs_last failing begin_run

cleanup-IsGuarded : IsGuarded failing.cleanup
cleanup-IsGuarded s e h = absurd (cc h)

handler-IsCalm : IsCalmHandler failing
handler-IsCalm exc s e h = absurd (cc h)

run_pipeline-Settles_example :
    Settles failing
      (stages failing begin_run).0
      (run_pipeline failing begin_run).1.context
      (run_pipeline failing begin_run).0
run_pipeline-Settles_example =
    run_pipeline-Settles failing cleanup-IsGuarded handler-IsCalm begin_run

abbrev done_context : PipelineContext
done_context = record new_context { outcome = codes "success" }

smooth_run :
    run_pipeline smooth begin_run ≡ (ok done_context, record begin_run { context = done_context })
unfolding run_pipeline guarded caught after_cleanup finish stages set_success list_beq
smooth_run = refl

abbrev post_note : Text → Py (List Text) (Unit {0})
post_note text notes = (ok tt, notes ++ text ∷ [])

posting_is_calm : (text : Text) (e : Exn) → (post_note text []).0 ≡ raised e → is_exception e ≡ true
posting_is_calm text e h = absurd (cc h)

post_pipeline_error_example :
    (text : Text) × ((text ≡ codes "generic")
      ⊎ Any (λ m. text ≡ codes "prefix" ++ (codes "\n\n" ++ m)) public_messages)
    × (post_pipeline_error (λ s. s) failure post_note (codes "prefix") (codes "generic") []
        ≡ (ok tt, (post_note text []).1))
post_pipeline_error_example =
    post_pipeline_error_is_safe (λ s. s) failure post_note (codes "prefix") (codes "generic") []
      posting_is_calm

abbrev project : ResolvedProject
project = record {
  jira_project = some (codes "KEY");
  repo = codes "group/app";
  gitlab_project_id = 7;
  clone_url = codes "https://gitlab.example.com/group/app.git";
  target_branch = codes "main";
  credential_ref = codes "default";
  token = codes "t";
  plugins = [];
  trigger_status = codes "AI Ready";
  in_progress_status = codes "In Progress";
  in_review_status = codes "In Review";
  resolution_behavior = Behavior.suggest;
}

abbrev registry : ProjectRegistry
registry = record { by_jira = (codes "KEY", project) ∷ []; by_project_id = (7, project) ∷ [] }

registry_built : new_registry (project ∷ []) ≡ ok registry
unfolding new_registry jira_loop id_loop insert lookup
registry_built = refl
