-- ===== src/DiscussionPipeline/Prepare.antt =====
-- `DiscussionPipeline.prepare`.
use gitlab_copilot_agent.Prelude.{
  ℕ, nat_eq, Text, text_eq, codes, List, [], ◌∷◌, Bool, true, false, ◌&&◌, Option, none, some, ◌==◌,
  if◌then◌else◌, text_or,
}
use gitlab_copilot_agent.Effects.{
  Result, ok, raised, Py, pure, raise, gets, lift, continue, ◌>>=◌, ◌>>◌, try_except,
}
use gitlab_copilot_agent.Gitlab.{reply_to_discussion, resolve_discussion}
use gitlab_copilot_agent.Discussions.{Discussion, AgentIdentity}
use gitlab_copilot_agent.Events.{TaskEvent}
use gitlab_copilot_agent.ErrorMessages.{branch_deleted_message}
use gitlab_copilot_agent.Outside.{
  MrDetails, cloned, asked, called, Environment, perform, set_fields, set_context,
}
use gitlab_copilot_agent.Outside.Files.{write_context_file, fetch_base}
use gitlab_copilot_agent.Threads.{
  find_triggering_discussion, format_current_thread, format_other_discussions,
}
use gitlab_copilot_agent.DiscussionPipeline.{PipelineSettings, State, is_clone_error, is_deleted}

module _ (env : Environment) (to_lower : Text → Text) (settings : PipelineSettings)
    (event : TaskEvent) (mr_iid note_id : ℕ) (agent : AgentIdentity) where
  unfoldable pub reply : Text → Text → Py State (Unit {0})
  reply discussion_id body =
      let c = reply_to_discussion event.project_id mr_iid discussion_id body in
      perform (called c) (λ log. env.gitlab log c)

  unfoldable pub resolve : Text → Py State (Unit {0})
  resolve discussion_id =
      let c = resolve_discussion event.project_id mr_iid discussion_id in
      perform (called c) (λ log. env.gitlab log c)

  unfoldable pub reply_if_found : Option Discussion → Py State (Unit {0})
  reply_if_found none = pure tt
  reply_if_found (some d) = reply d.discussion_id (branch_deleted_message event.branch)

  -- `_reply_branch_deleted`
  unfoldable pub reply_branch_deleted : Py State (Unit {0})
  reply_branch_deleted =
      try_except
        (perform asked env.list_mr_discussions >>= λ discussions.
          reply_if_found (find_triggering_discussion discussions note_id))
        (λ _. pure tt)

  -- The `try` block around the clone.
  unfoldable pub clone : Py State (Unit {0})
  clone = do
    lift (env.validate_clone_url_host event.clone_url settings.gitlab_url)
    path ← perform (cloned event.clone_url event.branch) env.clone_repo
    set_context (λ c. record c { repo_path = some path })

  unfoldable pub branch_gone : Py State Bool
  branch_gone = do
    reply_branch_deleted
    set_fields (λ f. record f { branch_deleted = true })
    set_context (λ c. record c { outcome = codes "branch_deleted" })
    pure false

  -- The `except` clause; the result says whether `prepare` goes on.
  unfoldable pub after_clone : Result (Unit {0}) × State → Result Bool × State
  after_clone (ok _, s) = pure true s
  after_clone (raised exc, s) =
      if is_clone_error exc.kind && is_deleted (to_lower exc.message)
      then branch_gone s
      else raise exc s

  unfoldable pub write_thread : Text → Option Discussion → Py State (Unit {0})
  write_thread repo_path none = pure tt
  write_thread repo_path (some d) =
      write_context_file env repo_path (codes "current-thread.md")
        (format_current_thread d agent.user_id)
      >> pure tt

  unfoldable pub triggering_id : Option Discussion → Text
  triggering_id none = []
  triggering_id (some d) = d.discussion_id

  unfoldable pub write_others : Text → List Discussion → Option Discussion → Py State (Unit {0})
  write_others repo_path [] triggering = pure tt
  write_others repo_path (d ∷ ds) triggering =
      write_context_file env repo_path (codes "other-discussions.md")
        (format_other_discussions (d ∷ ds) (triggering_id triggering))
      >> pure tt

  unfoldable pub write_files :
      MrDetails → List Discussion → Option Discussion → Option Text → Py State (Unit {0})
  write_files mr_details discussions triggering none = pure tt
  write_files mr_details discussions triggering (some repo_path) = do
    dir ←
        write_context_file env repo_path (codes "mr-description.md")
          (text_or mr_details.description [])
    set_context (λ c. record c { context_dir = some dir })
    write_thread repo_path triggering
    write_others repo_path discussions triggering

  unfoldable pub write_all : MrDetails → List Discussion → Option Discussion → Py State (Unit {0})
  write_all mr_details discussions triggering = do
    base ← fetch_base env mr_details.diff_refs.base_sha
    set_fields (λ f. record f { base_sha = base })
    repo_path ← gets (λ s. s.context.repo_path)
    write_files mr_details discussions triggering repo_path

  -- The file-based strategy: the merge base and the context files.
  unfoldable pub file_based : MrDetails → List Discussion → Option Discussion → Py State (Unit {0})
  file_based mr_details discussions triggering =
      if settings.prompt_strategy == codes "file-based"
      then write_all mr_details discussions triggering
      else pure tt

  unfoldable pub note_missing : Option Discussion → Py State (Unit {0})
  note_missing none = set_context (λ c. record c { outcome = codes "not_found" })
  note_missing (some d) = pure tt

  -- What follows a clone.
  unfoldable pub load : Py State (Unit {0})
  load = do
    mr_details ← perform asked env.get_mr_details
    set_fields (λ f. record f { mr_details = some mr_details })
    discussions ← perform asked env.list_mr_discussions
    let triggering = find_triggering_discussion discussions note_id
    set_fields (λ f. record f {
      discussions = some discussions;
      discussion_history = some (record { discussions = discussions; agent = agent });
      triggering = triggering;
    })
    note_missing triggering
    file_based mr_details discussions triggering

  unfoldable pub load_if : Bool → Py State (Unit {0})
  load_if true = load
  load_if false = pure tt

  unfoldable pub prepare : Py State (Unit {0})
  prepare s = continue load_if (after_clone (clone s))
