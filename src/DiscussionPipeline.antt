-- ===== src/DiscussionPipeline.antt =====
-- `DiscussionPipeline` of discussion_pipeline.py. The numbers of the MR and the note are the event's, which its
-- validation makes sure of. Logging is left out.
pub mod Prepare
pub mod Process
pub mod Permitted
use gitlab_copilot_agent.Prelude.{
  ℕ, nat_eq, Text, text_eq, codes, length, take, List, [], ◌∷◌, ◌++◌, Bool, true, false, ◌&&◌, ◌||◌,
  not, Option, none, some, ◌==◌, if◌then◌else◌, text_or, show,
}
use gitlab_copilot_agent.Effects.{
  Result, ok, raised, Exn, ExnKind, is_task_execution_error, runtime_error, Py, pure, raise, gets,
  lift, continue, ◌>>=◌, ◌>>◌, try_except,
}
use gitlab_copilot_agent.Gitlab.{post_mr_comment, reply_to_discussion, resolve_discussion}
use gitlab_copilot_agent.Discussions.{DiscussionNote, Discussion, AgentIdentity, DiscussionHistory}
use gitlab_copilot_agent.Events.{TaskEvent}
use gitlab_copilot_agent.ErrorMessages.{occurs, branch_deleted_message, user_error_message}
use gitlab_copilot_agent.Comments.Parsed.{Resolution, Status, Behavior}
use gitlab_copilot_agent.Tasks.{
  TaskParams, TaskResult, review_result, coding_result, summary, has_patch,
}
use gitlab_copilot_agent.Pipeline.{PipelineContext, Run, Pipeline, stage_requires}
use gitlab_copilot_agent.Pipeline.Errors.{post_pipeline_error}
use gitlab_copilot_agent.Outside.{
  MrDetails, Step, cloned, asked, executed, applied, committed, pushed, called, Environment,
  Outside, perform, set_fields, set_context,
}
use gitlab_copilot_agent.Outside.Files.{write_context_file, remove_clone, fetch_base}
use gitlab_copilot_agent.Threads.{
  AnswerBlock, DiscussionResponse, find_triggering_discussion, format_current_thread,
  format_other_discussions, first_note, parse_discussion_response,
}
use gitlab_copilot_agent.Threads.Prompt.{build_discussion_prompt}

-- What the pipelines read of the settings; `system_prompt` is what `get_prompt` gives.
pub record PipelineSettings : Type 0 where
  pub gitlab_url : Text
  pub prompt_strategy : Text
  pub system_prompt : Text

-- `DiscussionContext`
pub record DiscussionContext : Type 0 where
  pub mr_details : Option MrDetails
  pub discussions : Option (List Discussion)
  pub discussion_history : Option DiscussionHistory
  pub triggering : Option Discussion
  pub branch_deleted : Bool
  pub base_sha : Option Text
  pub raw_result : Option TaskResult
  pub response : Option DiscussionResponse
  pub reply_posted : Bool

abbrev pub new_discussion : DiscussionContext
new_discussion = record {
  mr_details = none;
  discussions = none;
  discussion_history = none;
  triggering = none;
  branch_deleted = false;
  base_sha = none;
  raw_result = none;
  response = none;
  reply_posted = false;
}

-- What the stages change.
abbrev pub State : Type 0
State = Run (Outside DiscussionContext)

-- `isinstance(exc, (RuntimeError, TransientCloneError))`
unfoldable pub is_clone_error : ExnKind → Bool
is_clone_error ExnKind.runtime_error = true
is_clone_error ExnKind.task_execution_error = true
is_clone_error (ExnKind.transient_clone_error attempts) = true
is_clone_error ExnKind.value_error = false
is_clone_error ExnKind.key_error = false
is_clone_error ExnKind.timeout_error = false
is_clone_error ExnKind.transport_error = false
is_clone_error ExnKind.http_status_error = false
is_clone_error ExnKind.not_found_error = false
is_clone_error ExnKind.cancelled = false
is_clone_error ExnKind.other = false
is_clone_error (ExnKind.http_exception status) = false

-- `"not found" in clone_err or "not allowed" in clone_err`
unfoldable pub is_deleted : Text → Bool
is_deleted clone_err =
    occurs (codes "not found") clone_err || occurs (codes "not allowed") clone_err

-- `triggering.notes[0]` is the agent's, and the thread is on a line.
unfoldable pub is_agent_thread : ℕ → Bool → Option DiscussionNote → Bool
is_agent_thread agent_user_id is_inline none = false
is_agent_thread agent_user_id is_inline (some note) = is_inline && note.author_id == agent_user_id

unfoldable pub generic_msg : Text
generic_msg =
    codes
      "❌ Unable to process your request. The service encountered an unexpected error. Please try again or contact the project administrator."
