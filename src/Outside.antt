-- ===== src/Outside.antt =====
-- What a pipeline does outside of its context: git, files, the executor and GitLab, in order.
-- The clients are given: each answer is any function of the steps so far.
pub mod Files
pub mod Patches
pub mod Keeps
use gitlab_copilot_agent.Prelude.{ℕ, Text, List, [], ◌∷◌, ◌++◌, map, Bool, Option, none, some}
use gitlab_copilot_agent.Effects.{Result, ok, Py}
use gitlab_copilot_agent.Gitlab.{DiffRef, Change, Call, Trace, Gitlab}
use gitlab_copilot_agent.Discussions.{Discussion, AgentIdentity}
use gitlab_copilot_agent.Tasks.{TaskParams, TaskResult}
use gitlab_copilot_agent.Pipeline.{PipelineContext, Run}

-- `MRDetails`
pub record MrDetails : Type 0 where
  pub title : Text
  pub description : Option Text
  pub diff_refs : DiffRef
  pub changes : List Change

pub data Step : Type 0 where
  cloned : Text → Text → Step
  asked : Step
  fetched : Text → Step
  wrote : Text → Text → Step
  executed : TaskParams → Step
  applied : Text → Step
  committed : Text → Step
  pushed : Text → Step
  called : Call → Step
  removed : Text → Step
  branched : Text → Step
  opened : ℕ → Text → Text → Text → Text → Step
  transitioned : Text → Text → Step
  commented : Text → Text → Step

abbrev pub Log : Type 0
Log = List Step

pub record Environment : Type 0 where
  pub validate_clone_url_host : Text → Text → Result (Unit {0})
  pub clone_repo : Log → Result Text
  pub get_mr_details : Log → Result MrDetails
  pub get_mr_commits : Log → Result (List Text)
  pub list_mr_discussions : Log → Result (List Discussion)
  pub resolve_identity : Log → Result AgentIdentity
  pub compare_commits : Log → Text → Text → Result (List Change)
  pub git_fetch : Log → Result Bool
  pub write : Log → Result (Unit {0})
  pub execute : Log → TaskParams → Result TaskResult
  pub git_head_sha : Log → Result Text
  pub git_apply_patch : Log → Result (Unit {0})
  pub git_commit : Log → Result Bool
  pub git_push : Log → Result (Unit {0})
  pub git_unique_branch : Log → Text → Result Text
  pub create_merge_request : Log → Result ℕ
  pub transition_issue : Log → Result (Unit {0})
  pub add_comment : Log → Result (Unit {0})
  pub gitlab : Log → Call → Result (Unit {0})
  pub exists : Log → Text → Bool
  pub remove : Log → Result (Unit {0})

-- A pipeline's own part of the context, and the steps so far.
pub record Outside (C : Type 0) : Type 0 where
  pub fields : C
  pub log : Log

module _ {C : Type 0} where
  -- An awaited call: it is on record, whatever comes back.
  unfoldable pub perform : {A : Type 0} → Step → (Log → Result A) → Py (Run (Outside C)) A
  perform x f s =
      (f s.world.log, record s { world = record s.world { log = s.world.log ++ x ∷ [] } })

  -- A change of the pipeline's own context, and one of the common context.
  unfoldable pub set_fields : (C → C) → Py (Run (Outside C)) (Unit {0})
  set_fields f s = (ok tt, record s { world = record s.world { fields = f s.world.fields } })

  unfoldable pub set_context : (PipelineContext → PipelineContext) → Py (Run (Outside C)) (Unit {0})
  set_context f s = (ok tt, record s { context = f s.context })

  -- A part of comment_poster.py, which calls GitLab only.
  unfoldable pub with_gitlab :
      {A : Type 0} → Environment → (Gitlab → Py Trace A) → Py (Run (Outside C)) A
  with_gitlab env m s =
      let done = m (λ trace c. env.gitlab (s.world.log ++ map called trace) c) [] in
      (done.0, record s { world = record s.world { log = s.world.log ++ map called done.1 } })
