-- ===== src/ReviewPipeline/Stages.antt =====
-- The stages of `ReviewPipeline`.
use gitlab_copilot_agent.Prelude.{
  ℕ, nat_eq, Text, text_eq, codes, take, List, [], ◌∷◌, ◌++◌, Bool, true, false, Option, none, some,
  ◌==◌, if◌then◌else◌, text_or,
}
use gitlab_copilot_agent.Effects.{Exn, Py, pure, gets, lift, ◌>>=◌, ◌>>◌, try_except}
use gitlab_copilot_agent.Gitlab.{Change, post_mr_comment}
use gitlab_copilot_agent.Discussions.{DiscussionHistory}
use gitlab_copilot_agent.Events.{TaskEvent}
use gitlab_copilot_agent.Incremental.{extract_last_reviewed_sha}
use gitlab_copilot_agent.Comments.Post.{post_review}
use gitlab_copilot_agent.Tasks.{TaskParams, TaskResult, summary}
use gitlab_copilot_agent.Pipeline.{Pipeline, stage_requires}
use gitlab_copilot_agent.Pipeline.Errors.{post_pipeline_error}
use gitlab_copilot_agent.Outside.{
  MrDetails, cloned, asked, executed, called, Environment, Outside, perform, set_fields,
  set_context, with_gitlab,
}
use gitlab_copilot_agent.Outside.Files.{write_context_file, remove_clone, fetch_base}
use gitlab_copilot_agent.Threads.Prompt.{format_diff_text}
use gitlab_copilot_agent.DiscussionPipeline.{PipelineSettings}
use gitlab_copilot_agent.ReviewPipeline.{
  ReviewContext, State, ReviewRequest, ReviewTexts, allowed_ids,
}

-- The default message of `post_pipeline_error`.
unfoldable pub review_failed : Text
review_failed =
    codes
      "⚠\u{fe0f} Automated review failed. The service encountered an unexpected error. Please try again or contact the project administrator."

module _ (env : Environment) (texts : ReviewTexts) (to_lower upper : Text → Text)
    (settings : PipelineSettings) (event : TaskEvent) (mr_iid : ℕ) (head_sha : Text)
    (with_creds : Bool) where
  unfoldable pub clone : Py State (Unit {0})
  clone = do
    lift (env.validate_clone_url_host event.clone_url settings.gitlab_url)
    path ← perform (cloned event.clone_url event.branch) env.clone_repo
    set_context (λ c. record c { repo_path = some path })

  -- The commit messages; without them the review goes on.
  unfoldable pub load_commits : Py State (Unit {0})
  load_commits =
      try_except
        (perform asked env.get_mr_commits >>= λ messages.
          set_fields (λ f. record f { commit_messages = messages }))
        (λ _. pure tt)

  -- The discussions with the agent's identity; without them too.
  unfoldable pub load_history : Py State (Unit {0})
  load_history =
      try_except
        (do
          discussions ← perform asked env.list_mr_discussions
          agent ← perform asked env.resolve_identity
          set_fields (λ f. record f {
            discussion_history = some (record { discussions = discussions; agent = agent });
          }))
        (λ _. pure tt)

  unfoldable pub load_history_if : Bool → Py State (Unit {0})
  load_history_if true = load_history
  load_history_if false = pure tt

  unfoldable pub set_incremental : List Change → Py State (Unit {0})
  set_incremental [] = pure tt
  set_incremental (c ∷ changes) =
      set_fields
        (λ f. record f { diff_text = format_diff_text (c ∷ changes); is_incremental = true })

  -- The changes since the last review.
  unfoldable pub compare : Text → Py State (Unit {0})
  unfolding set_incremental
  compare last_reviewed_sha =
      try_except
        (perform asked (λ log. env.compare_commits log last_reviewed_sha head_sha)
          >>= set_incremental)
        (λ _. pure tt)

  unfoldable pub compare_if : Option Text → Py State (Unit {0})
  compare_if none = pure tt
  compare_if (some []) = pure tt
  compare_if (some (c ∷ sha)) = if (c ∷ sha) == head_sha then pure tt else compare (c ∷ sha)

  unfoldable pub full_diff : Bool → Option MrDetails → Py State (Unit {0})
  full_diff true mr_details = pure tt
  full_diff false mr_details = stage_requires mr_details (codes "mr_details") >>= λ mr.
      set_fields (λ f. record f { diff_text = format_diff_text mr.changes })

  unfoldable pub write_feedback : Text → Option DiscussionHistory → Py State (Unit {0})
  write_feedback repo_path none = pure tt
  write_feedback repo_path (some history) = do
    write_context_file env repo_path (codes "prior-feedback.md")
        (texts.format_prior_feedback history head_sha)
    write_context_file env repo_path (codes "suppressed-feedback.md")
        (texts.format_suppressed_feedback history)
    pure tt

  unfoldable pub write_files : Py State (Unit {0})
  unfolding write_feedback
  write_files = do
    fields ← gets (λ s. s.world.fields)
    mr ← stage_requires fields.mr_details (codes "mr_details")
    base ← fetch_base env mr.diff_refs.base_sha
    set_fields (λ f. record f { base_sha = base })
    path ← gets (λ s. s.context.repo_path)
    repo_path ← stage_requires path (codes "repo_path")
    dir ← write_context_file env repo_path (codes "mr-description.md") (text_or mr.description [])
    set_context (λ c. record c { context_dir = some dir })
    write_feedback repo_path fields.discussion_history

  unfoldable pub file_based : Py State (Unit {0})
  file_based = if settings.prompt_strategy == codes "file-based" then write_files else pure tt

  -- The diff: the changes since the last review, if its marker is found and there are any, and all changes otherwise.
  unfoldable pub build_diff : Py State (Unit {0})
  build_diff = do
    history ← gets (λ s. s.world.fields.discussion_history)
    let sha = extract_last_reviewed_sha history
    set_fields (λ f. record f { last_reviewed_sha = sha })
    compare_if sha
    fields ← gets (λ s. s.world.fields)
    full_diff fields.is_incremental fields.mr_details

  unfoldable pub prepare : Py State (Unit {0})
  prepare = do
    clone
    mr ← perform asked env.get_mr_details
    set_fields (λ f. record f { mr_details = some mr })
    load_commits
    load_history_if with_creds
    build_diff
    file_based

  -- The name of a review's task.
  unfoldable pub review_task_id : Text
  review_task_id =
      let base = codes "review-" ++ event.branch in
      if head_sha == [] then base else base ++ (codes "-" ++ take 12 head_sha)

  -- `run_review`
  unfoldable pub run_review : Option Text → Text → Py State TaskResult
  run_review repo_path user_prompt =
      let task : TaskParams = record {
        task_type = codes "review";
        task_id = review_task_id;
        repo_url = event.clone_url;
        branch = event.branch;
        system_prompt = settings.system_prompt;
        user_prompt = user_prompt;
        repo_path = repo_path;
        plugins = [];
      } in
      perform (executed task) (λ log. env.execute log task)

  unfoldable pub request : MrDetails → List Text → ReviewRequest
  request mr commit_messages = record {
    title = mr.title;
    description = mr.description;
    source_branch = event.branch;
    target_branch = event.target_branch;
    commit_messages = commit_messages;
  }

  unfoldable pub execute : Py State (Unit {0})
  execute = do
    fields ← gets (λ s. s.world.fields)
    context ← gets (λ s. s.context)
    mr ← stage_requires fields.mr_details (codes "mr_details")
    raw_result ← run_review context.repo_path (
        texts.build_review_prompt (request mr fields.commit_messages) fields head_sha
          context.context_dir)
    set_fields (λ f. record f { raw_result = some raw_result })
    parsed ← lift (texts.parse_review (summary raw_result))
    set_fields (λ f. record f { parsed = some parsed })

  unfoldable pub process : Py State (Unit {0})
  process = do
    fields ← gets (λ s. s.world.fields)
    mr ← stage_requires fields.mr_details (codes "mr_details")
    parsed ← stage_requires fields.parsed (codes "parsed")
    with_gitlab env (λ gitlab.
        post_review gitlab upper event.project_id mr_iid mr.diff_refs parsed mr.changes
          event.resolution_behavior (allowed_ids fields.discussion_history) head_sha)

  unfoldable pub post_comment : Text → Py State (Unit {0})
  post_comment text =
      let c = post_mr_comment event.project_id mr_iid text in
      perform (called c) (λ log. env.gitlab log c)

  unfoldable pub handle_error : Exn → Py State (Unit {0})
  handle_error exc =
      post_pipeline_error to_lower exc post_comment (codes "⚠\u{fe0f} Automated review failed.")
        review_failed

  unfoldable pub review_pipeline : Pipeline (Outside ReviewContext)
  review_pipeline = record {
    prepare = prepare;
    execute = execute;
    process = process;
    cleanup = remove_clone env;
    handle_error = handle_error;
  }
