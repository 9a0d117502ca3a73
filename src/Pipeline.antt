-- ===== src/Pipeline.antt =====
-- pipeline.py: the runner of the four stages. Logging, timing and tracing spans are left out.
pub mod Outcome
pub mod Errors
pub mod Keeps
use gitlab_copilot_agent.Prelude.{
  Text, text_eq, codes, ◌++◌, ◌==◌, Bool, true, false, ◌&&◌, if◌then◌else◌, Option, none, some,
}
use gitlab_copilot_agent.Effects.{
  Result, ok, raised, Exn, is_exception, runtime_error, Py, pure, raise, modify, ◌>>=◌, ◌>>◌,
}

-- `BasePipelineContext`
pub record PipelineContext : Type 0 where
  pub repo_path : Option Text
  pub context_dir : Option Text
  pub outcome : Text
  pub suppress_exception : Bool

abbrev pub new_context : PipelineContext
new_context = record {
  repo_path = none;
  context_dir = none;
  outcome = codes "error";
  suppress_exception = false;
}

-- `stage_requires`
unfoldable pub stage_requires : {A S : Type 0} → Option A → Text → Py S A
stage_requires none name = raise (record {
  kind = runtime_error;
  message =
      codes "Pipeline stage requires '" ++ (name ++ codes "' but it was not set by a prior stage");
})
stage_requires (some value) name = pure value

-- What the runner and the stages change: the context, and the world outside.
pub record Run (S : Type 0) : Type 0 where
  pub context : PipelineContext
  pub world : S

-- `Pipeline`
pub record Pipeline (S : Type 0) : Type 0 where
  pub prepare : Py (Run S) (Unit {0})
  pub execute : Py (Run S) (Unit {0})
  pub process : Py (Run S) (Unit {0})
  pub cleanup : Py (Run S) (Unit {0})
  pub handle_error : Exn → Py (Run S) (Unit {0})

module _ {S : Type 0} (pipeline : Pipeline S) where
  -- `if pipeline_context.outcome == "error": pipeline_context.outcome = "success"`
  unfoldable pub set_success : Run S → Run S
  set_success s =
      if s.context.outcome == codes "error"
      then record s { context = record s.context { outcome = codes "success" } }
      else s

  -- The `try` block.
  unfoldable pub stages : Py (Run S) (Unit {0})
  stages = do pipeline.prepare; pipeline.execute; pipeline.process; modify set_success

  -- `handle_error` is done: its `Exception`s are logged, anything else goes on up.
  unfoldable pub after_handler : Exn → Result (Unit {0}) × Run S → Result (Option Exn) × Run S
  after_handler exc (ok _, s) = (ok (some exc), s)
  after_handler exc (raised e, s) = if is_exception e then (ok (some exc), s) else (raised e, s)

  -- The `except` clauses: what becomes of `primary_exc`.
  unfoldable pub caught : Result (Unit {0}) × Run S → Result (Option Exn) × Run S
  caught (ok _, s) = (ok none, s)
  caught (raised exc, s) =
      let handled = after_handler exc (pipeline.handle_error exc s) in
      if is_exception exc then handled else (ok (some exc), s)

  -- The `finally` block, behind what it interrupts.
  unfoldable pub after_cleanup :
      Result (Option Exn) → Result (Unit {0}) × Run S → Result (Option Exn) × Run S
  after_cleanup r (ok _, s) = (r, s)
  after_cleanup r (raised e, s) = if is_exception e then (r, s) else (raised e, s)

  -- The end: raise `primary_exc`, unless it is suppressed.
  unfoldable pub finish : Result (Option Exn) × Run S → Result PipelineContext × Run S
  finish (raised e, s) = (raised e, s)
  finish (ok none, s) = (ok s.context, s)
  finish (ok (some exc), s) =
      if is_exception exc && s.context.suppress_exception
      then (ok s.context, s)
      else (raised exc, s)

  -- The `try` statement with its `finally`.
  unfoldable pub guarded : Py (Run S) (Option Exn)
  guarded s = let (r, s') = caught (stages s) in after_cleanup r (pipeline.cleanup s')

  unfoldable pub run_pipeline : Py (Run S) PipelineContext
  run_pipeline s = finish (guarded s)
