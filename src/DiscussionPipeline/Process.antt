-- ===== src/DiscussionPipeline/Process.antt =====
-- `DiscussionPipeline`: `execute`, `process` and `handle_error`.
use gitlab_copilot_agent.Prelude.{
  ℕ, nat_eq, Text, text_eq, codes, take, [], ◌++◌, Bool, true, false, Option, none, some,
  if◌then◌else◌, text_or, show,
}
use gitlab_copilot_agent.Effects.{
  Exn, is_task_execution_error, Py, pure, gets, ◌>>=◌, ◌>>◌, try_except,
}
use gitlab_copilot_agent.Gitlab.{post_mr_comment}
use gitlab_copilot_agent.Discussions.{Discussion, AgentIdentity}
use gitlab_copilot_agent.Events.{TaskEvent}
use gitlab_copilot_agent.ErrorMessages.{user_error_message}
use gitlab_copilot_agent.Comments.Parsed.{Resolution, Status, Behavior}
use gitlab_copilot_agent.Tasks.{TaskParams, TaskResult, summary, has_patch}
use gitlab_copilot_agent.Pipeline.{Pipeline, stage_requires}
use gitlab_copilot_agent.Pipeline.Errors.{post_pipeline_error}
use gitlab_copilot_agent.Outside.{
  executed, committed, pushed, called, Environment, Outside, perform, set_fields,
}
use gitlab_copilot_agent.Outside.Files.{remove_clone}
use gitlab_copilot_agent.Threads.{
  AnswerBlock, DiscussionResponse, first_note, parse_discussion_response,
}
use gitlab_copilot_agent.Threads.Prompt.{build_discussion_prompt}
use gitlab_copilot_agent.DiscussionPipeline.{
  PipelineSettings, DiscussionContext, State, is_agent_thread, generic_msg,
}
use gitlab_copilot_agent.DiscussionPipeline.Prepare.{reply, resolve, prepare}
use gitlab_copilot_agent.Outside.Patches.{apply_coding_result}

module _ (env : Environment) (to_lower : Text → Text)
    (find_block : Text → Option (Text × AnswerBlock)) (settings : PipelineSettings)
    (event : TaskEvent) (mr_iid note_id : ℕ) (agent : AgentIdentity) where
  -- `run_discussion`
  unfoldable pub run_discussion : Option Text → Text → Py State TaskResult
  run_discussion repo_path user_prompt =
      let task : TaskParams = record {
        task_type = codes "discussion";
        task_id = codes "discussion-" ++ (event.branch ++ (codes "-" ++ show note_id));
        repo_url = event.clone_url;
        branch = event.branch;
        system_prompt = settings.system_prompt;
        user_prompt = user_prompt;
        repo_path = repo_path;
        plugins = [];
      } in
      perform (executed task) (λ log. env.execute log task)

  unfoldable pub answer : Discussion → Py State (Unit {0})
  answer triggering = do
    fields ← gets (λ s. s.world.fields)
    context ← gets (λ s. s.context)
    mr_details ← stage_requires fields.mr_details (codes "mr_details")
    history ← stage_requires fields.discussion_history (codes "discussion_history")
    raw_result ← run_discussion context.repo_path (
        build_discussion_prompt mr_details history triggering settings.prompt_strategy
          fields.base_sha context.context_dir)
    set_fields (λ f. record f { raw_result = some raw_result })
    set_fields (λ f. record f {
      response = some (parse_discussion_response find_block (summary raw_result));
    })

  -- The guard that `execute` and `process` share.
  unfoldable pub unless_gone :
      (Discussion → Py State (Unit {0})) → Bool → Option Discussion → Py State (Unit {0})
  unless_gone go true triggering = pure tt
  unless_gone go false none = pure tt
  unless_gone go false (some d) = go d

  unfoldable pub execute : Py State (Unit {0})
  execute s = unless_gone answer s.world.fields.branch_deleted s.world.fields.triggering s

  -- `response.model_copy(update={"reply": ...})`, if the changes were pushed
  unfoldable pub with_pushed : Bool → DiscussionResponse → DiscussionResponse
  with_pushed false response = response
  with_pushed true response = record response {
    reply = response.reply ++ codes "\n\n✅ Changes pushed.";
  }

  unfoldable pub push : Bool → Py State Bool
  push false = pure false
  push true = perform (pushed event.branch) env.git_push >> pure true

  -- The branch under `has_patch`: whether the changes were pushed.
  unfoldable pub publish : TaskResult → Py State Bool
  publish raw_result = do
    apply_coding_result env raw_result
    let commit_subject = take 50 (text_or event.note_body (codes "discussion fix"))
    has_changes ← perform (committed (codes "fix: " ++ commit_subject)) env.git_commit
    push has_changes

  unfoldable pub publish_if : TaskResult → Py State Bool
  publish_if raw_result = if has_patch raw_result then publish raw_result else pure false

  -- The `try` block of `_handle_resolution`: what is done for a status.
  unfoldable pub settle : Text → Behavior → Status → Py State (Unit {0})
  settle discussion_id Behavior.auto_resolve Status.resolved =
      resolve env to_lower settings event mr_iid note_id agent discussion_id
  settle discussion_id Behavior.auto_resolve Status.partial = pure tt
  settle discussion_id Behavior.auto_resolve Status.not_addressed = pure tt
  settle discussion_id Behavior.suggest status = pure tt
  settle discussion_id Behavior.off status = pure tt

  unfoldable pub settle_if : Discussion → Behavior → Option Resolution → Py State (Unit {0})
  settle_if d behavior none = pure tt
  settle_if d Behavior.off (some r) = pure tt
  settle_if d Behavior.suggest (some r) =
      if is_agent_thread agent.user_id d.is_inline (first_note d.notes)
      then try_except (settle d.discussion_id Behavior.suggest r.status) (λ _. pure tt)
      else pure tt
  settle_if d Behavior.auto_resolve (some r) =
      if is_agent_thread agent.user_id d.is_inline (first_note d.notes)
      then try_except (settle d.discussion_id Behavior.auto_resolve r.status) (λ _. pure tt)
      else pure tt

  -- `_handle_resolution`
  unfoldable pub handle_thread : DiscussionResponse → Py State (Unit {0})
  handle_thread response = do
    found ← gets (λ s. s.world.fields.triggering)
    triggering ← stage_requires found (codes "triggering")
    settle_if triggering event.resolution_behavior response.resolution

  unfoldable pub respond : Discussion → Py State (Unit {0})
  respond triggering = do
    fields ← gets (λ s. s.world.fields)
    context ← gets (λ s. s.context)
    raw_result ← stage_requires fields.raw_result (codes "raw_result")
    response ← stage_requires fields.response (codes "response")
    repo_path ← stage_requires context.repo_path (codes "repo_path")
    was_pushed ← publish_if raw_result
    let final = with_pushed was_pushed response
    reply env to_lower settings event mr_iid note_id agent triggering.discussion_id final.reply
    set_fields (λ f. record f { reply_posted = true })
    handle_thread final

  unfoldable pub process : Py State (Unit {0})
  process s = unless_gone respond s.world.fields.branch_deleted s.world.fields.triggering s

  unfoldable pub post_comment : Text → Py State (Unit {0})
  post_comment text =
      let c = post_mr_comment event.project_id mr_iid text in
      perform (called c) (λ log. env.gitlab log c)

  -- `handle_error`; the MR's number is there.
  unfoldable pub handle_error : Exn → Py State (Unit {0})
  handle_error exc =
      if is_task_execution_error exc
      then try_except (post_comment (user_error_message to_lower exc.message)) (λ _. pure tt)
      else post_pipeline_error to_lower exc post_comment
          (codes "⚠\u{fe0f} Automated review failed.") generic_msg

  unfoldable pub discussion_pipeline : Pipeline (Outside DiscussionContext)
  discussion_pipeline = record {
    prepare = prepare env to_lower settings event mr_iid note_id agent;
    execute = execute;
    process = process;
    cleanup = remove_clone env;
    handle_error = handle_error;
  }
