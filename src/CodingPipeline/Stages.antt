-- ===== src/CodingPipeline/Stages.antt =====
-- The stages of `CodingPipeline`.
use gitlab_copilot_agent.Prelude.{
  ℕ, Text, text_eq, nat_eq, codes, show, [], ◌++◌, Bool, true, false, Option, none, some, ◌==◌,
  if◌then◌else◌,
}
use gitlab_copilot_agent.Effects.{
  Exn, ExnKind, is_task_execution_error, Py, pure, gets, ◌>>=◌, ◌>>◌, try_except,
}
use gitlab_copilot_agent.ErrorMessages.{user_error_message}
use gitlab_copilot_agent.Registry.{ResolvedProject}
use gitlab_copilot_agent.Tasks.{TaskParams, TaskResult, summary}
use gitlab_copilot_agent.Pipeline.{PipelineContext, Pipeline, stage_requires}
use gitlab_copilot_agent.Pipeline.Errors.{post_pipeline_error}
use gitlab_copilot_agent.Outside.{
  cloned, executed, committed, pushed, branched, opened, transitioned, commented, Environment,
  Outside, perform, set_fields, set_context,
}
use gitlab_copilot_agent.Outside.Files.{write_context_file, remove_clone}
use gitlab_copilot_agent.Outside.Patches.{apply_coding_result}
use gitlab_copilot_agent.CodingPipeline.{
  JiraIssue, CodingContext, State, CodingSettings, build_jira_coding_prompt,
}

-- `desc` of `prepare`
desc_of : Option Text → Text
desc_of none = []
desc_of (some text) = text

-- `mapping.plugins or []` and `strip_json_block` of coding_engine.py, a regular expression, are given.
module _ (env : Environment) (to_lower strip_json_block : Text → Text) (settings : CodingSettings)
    (issue : JiraIssue) (mapping : ResolvedProject) where
  unfoldable pub transition : Text → Py State (Unit {0})
  transition status = perform (transitioned issue.key status) env.transition_issue

  unfoldable pub comment : Text → Py State (Unit {0})
  comment text = perform (commented issue.key text) env.add_comment

  unfoldable pub issue_file : Text
  unfolding desc_of
  issue_file =
      codes "# "
      ++ (issue.key
          ++ (codes "\n\n**Summary:** "
              ++ (issue.summary
                  ++ (codes "\n\n**Description:**\n"
                      ++ (desc_of issue.description ++ codes "\n")))))

  unfoldable pub write_issue : Text → Py State (Unit {0})
  write_issue repo_path =
      if settings.prompt_strategy == codes "file-based"
      then (write_context_file env repo_path (codes "jira-issue.md") issue_file >>= λ dir.
          set_context (λ c. record c { context_dir = some dir }))
      else pure tt

  unfoldable pub prepare : Py State (Unit {0})
  prepare = do
    transition mapping.in_progress_status
    path ← perform (cloned mapping.clone_url mapping.target_branch) env.clone_repo
    set_context (λ c. record c { repo_path = some path })
    let prefix = codes "agent/" ++ to_lower issue.key
    branch ← perform (branched prefix) (λ log. env.git_unique_branch log prefix)
    set_fields (λ f. record f { branch = branch })
    write_issue path

  -- `run_coding_task`; `ensure_git_exclude`, which writes to the clone's own exclude file, is left out.
  unfoldable pub run_coding_task : PipelineContext → Py State TaskResult
  run_coding_task context =
      let task : TaskParams = record {
        task_type = codes "coding";
        task_id = issue.key;
        repo_url = mapping.clone_url;
        branch = mapping.target_branch;
        system_prompt = settings.system_prompt;
        user_prompt =
            build_jira_coding_prompt issue.key issue.summary issue.description
              settings.prompt_strategy context.context_dir;
        repo_path = context.repo_path;
        plugins = mapping.plugins;
      } in
      perform (executed task) (λ log. env.execute log task)

  unfoldable pub execute : Py State (Unit {0})
  execute s =
      (run_coding_task s.context >>= λ raw_result.
      set_fields (λ f. record f { raw_result = some raw_result }))
        s

  -- The title of the commit and of the MR.
  unfoldable pub feat_title : Text
  feat_title = codes "feat(" ++ (to_lower issue.key ++ (codes "): " ++ issue.summary))

  unfoldable pub mr_title : Text
  mr_title = if settings.auto_merge_enabled then feat_title else codes "Draft: " ++ feat_title

  unfoldable pub mr_url : ℕ → Text
  mr_url mr_iid =
      settings.gitlab_url
      ++ (codes "/"
          ++ (show mapping.gitlab_project_id ++ (codes "/-/merge_requests/" ++ show mr_iid)))

  unfoldable pub mr_comment : ℕ → Text
  mr_comment mr_iid =
      if settings.auto_merge_enabled
      then codes "MR created: " ++ mr_url mr_iid
      else codes "Draft MR created: "
        ++ (mr_url mr_iid
            ++ codes
                "\n\nAuto-merge is disabled. Please review the changes in GitLab, then un-draft the MR to enable merging.")

  -- `_transition_to_in_review`
  unfoldable pub transition_to_in_review : Py State (Unit {0})
  transition_to_in_review = try_except (transition mapping.in_review_status) (λ _. pure tt)

  unfoldable pub open_mr : Text → TaskResult → Py State (Unit {0})
  open_mr branch raw_result = do
    perform (pushed branch) env.git_push
    let description =
        codes "Automated implementation for "
        ++ (issue.key ++ (codes ".\n\n" ++ strip_json_block (summary raw_result)))
    mr_iid ←
        perform (opened mapping.gitlab_project_id branch mapping.target_branch mr_title description)
          env.create_merge_request
    comment (mr_comment mr_iid)
    transition_to_in_review

  unfoldable pub no_changes : Py State (Unit {0})
  no_changes = do
    comment (codes "Agent found no changes to make.")
    set_context (λ c. record c { outcome = codes "no_changes" })

  unfoldable pub open_if : Text → TaskResult → Bool → Py State (Unit {0})
  open_if branch raw_result true = open_mr branch raw_result
  open_if branch raw_result false = no_changes

  unfoldable pub process : Py State (Unit {0})
  process = do
    fields ← gets (λ s. s.world.fields)
    context ← gets (λ s. s.context)
    raw_result ← stage_requires fields.raw_result (codes "raw_result")
    repo_path ← stage_requires context.repo_path (codes "repo_path")
    apply_coding_result env raw_result
    has_changes ← perform (committed feat_title) env.git_commit
    open_if fields.branch raw_result has_changes

  unfoldable pub transient_comment : ℕ → Text → Text
  transient_comment attempts message =
      codes "⚠\u{fe0f} Git clone failed after "
      ++ (show attempts
          ++ (codes " attempts due to a transient error.\n\n**Error:** "
              ++ (user_error_message to_lower message
                  ++ (codes "\n\nThis issue has been left in '"
                      ++ (mapping.in_progress_status
                          ++ codes "'. The agent will retry on the next poll cycle.")))))

  -- The branch of `handle_error` for a `TransientCloneError`.
  unfoldable pub transient_failure : ℕ → Text → Py State (Unit {0})
  transient_failure attempts message = do
    set_context (λ c. record c { outcome = codes "transient_failure"; suppress_exception = true })
    try_except (comment (transient_comment attempts message)) (λ _. pure tt)

  unfoldable pub report_failure : Exn → Py State (Unit {0})
  report_failure exc =
      post_pipeline_error to_lower exc comment (codes "⚠\u{fe0f} Automated implementation failed.")
        (codes "⚠\u{fe0f} Automated implementation failed. Check service logs for details.")

  unfoldable pub task_failure : Exn → Py State (Unit {0})
  task_failure exc =
      (if is_task_execution_error exc
        then set_context (λ c. record c { outcome = codes "task_failure" })
        else pure tt)
      >> report_failure exc

  unfoldable pub error_of : Exn → ExnKind → Py State (Unit {0})
  error_of exc (ExnKind.transient_clone_error attempts) = transient_failure attempts exc.message
  error_of exc ExnKind.value_error = task_failure exc
  error_of exc ExnKind.key_error = task_failure exc
  error_of exc ExnKind.runtime_error = task_failure exc
  error_of exc ExnKind.timeout_error = task_failure exc
  error_of exc ExnKind.task_execution_error = task_failure exc
  error_of exc ExnKind.transport_error = task_failure exc
  error_of exc ExnKind.http_status_error = task_failure exc
  error_of exc ExnKind.not_found_error = task_failure exc
  error_of exc ExnKind.cancelled = task_failure exc
  error_of exc ExnKind.other = task_failure exc
  error_of exc (ExnKind.http_exception status) = task_failure exc

  unfoldable pub handle_error : Exn → Py State (Unit {0})
  handle_error exc = error_of exc exc.kind

  unfoldable pub coding_pipeline : Pipeline (Outside CodingContext)
  coding_pipeline = record {
    prepare = prepare;
    execute = execute;
    process = process;
    cleanup = remove_clone env;
    handle_error = handle_error;
  }
