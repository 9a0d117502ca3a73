-- ===== src/DiscussionPipeline/Permitted/Files.antt =====
-- The context files of the discussion pipeline: allowed steps only.
use gitlab_copilot_agent.Prelude.{
  ℕ, Text, text_eq, nat_eq, codes, List, [], ◌∷◌, Option, none, some, text_or, ◌==◌,
}
use gitlab_copilot_agent.Effects.{pure}
use gitlab_copilot_agent.Effects.Ensures.{Keeps, bind-Ensures, after-Ensures, if-Ensures}
use gitlab_copilot_agent.Discussions.{Discussion, AgentIdentity}
use gitlab_copilot_agent.Events.{TaskEvent}
use gitlab_copilot_agent.Outside.{MrDetails, Step, Environment, set_fields, set_context}
use gitlab_copilot_agent.Outside.Files.{write_context_file, fetch_base}
use gitlab_copilot_agent.Outside.Keeps.{
  set_fields-Keeps, set_context-Keeps, write_context_file-Keeps, fetch_base-Keeps,
}
use gitlab_copilot_agent.Threads.{AnswerBlock, format_current_thread, format_other_discussions}
use gitlab_copilot_agent.DiscussionPipeline.{PipelineSettings, DiscussionContext, State}
use gitlab_copilot_agent.DiscussionPipeline.Prepare.{
  write_thread, triggering_id, write_others, write_files, write_all, file_based, note_missing,
}
use gitlab_copilot_agent.DiscussionPipeline.Permitted.{Allowed, Fits, Good}

module _ (env : Environment) (to_lower : Text → Text)
    (find_block : Text → Option (Text × AnswerBlock)) (settings : PipelineSettings)
    (event : TaskEvent) (mr_iid note_id : ℕ) (agent : AgentIdentity) where
  abbrev G : State → Type 0
  G = Good env find_block event mr_iid note_id agent

  abbrev P : Step → Type 0
  P = Allowed env find_block event mr_iid note_id agent

  abbrev K : DiscussionContext → Type 0
  K = Fits env find_block event mr_iid note_id agent

  abbrev OnUnit : Unit {0} → Type 0
  OnUnit u = Unit

  write-Keeps : (path name text : Text) → Keeps G (write_context_file env path name text)
  write-Keeps path name text = write_context_file-Keeps P K env (λ _ _. tt) path name text

  write_thread-Keeps :
      (path : Text) (o : Option Discussion)
      → Keeps G (write_thread env to_lower settings event mr_iid note_id agent path o)
  unfolding write_thread
  write_thread-Keeps path none = λ s i. (i, tt)
  write_thread-Keeps path (some d) =
      after-Ensures G (λ _. Unit) OnUnit _ (pure tt)
        (write-Keeps path (codes "current-thread.md") (format_current_thread d agent.user_id))
        (λ s i. (i, tt))

  write_others-Keeps :
      (path : Text) (ds : List Discussion) (o : Option Discussion)
      → Keeps G (write_others env to_lower settings event mr_iid note_id agent path ds o)
  unfolding write_others
  write_others-Keeps path [] o = λ s i. (i, tt)
  write_others-Keeps path (d ∷ ds) o =
      after-Ensures G (λ _. Unit) OnUnit _ (pure tt)
        (write-Keeps path (codes "other-discussions.md") (
          format_other_discussions (d ∷ ds)
            (triggering_id env to_lower settings event mr_iid note_id agent o)))
        (λ s i. (i, tt))

  write_files-Keeps :
      (mr : MrDetails) (ds : List Discussion) (o : Option Discussion) (p : Option Text)
      → Keeps G (write_files env to_lower settings event mr_iid note_id agent mr ds o p)
  unfolding write_files
  write_files-Keeps mr ds o none = λ s i. (i, tt)
  write_files-Keeps mr ds o (some path) =
      bind-Ensures G (λ _. Unit) OnUnit
        (write_context_file env path (codes "mr-description.md") (text_or mr.description [])) _
        (write-Keeps path (codes "mr-description.md") (text_or mr.description []))
        (λ dir _.
          after-Ensures G OnUnit OnUnit (set_context (λ c. record c { context_dir = some dir })) _
            (set_context-Keeps P K (λ c. record c { context_dir = some dir }))
            (after-Ensures G OnUnit OnUnit
              (write_thread env to_lower settings event mr_iid note_id agent path o) _
              (write_thread-Keeps path o) (write_others-Keeps path ds o)))

  pub file_based-Keeps :
      (mr : MrDetails) (ds : List Discussion) (o : Option Discussion)
      → Keeps G (file_based env to_lower settings event mr_iid note_id agent mr ds o)
  unfolding file_based write_all
  file_based-Keeps mr ds o =
      if-Ensures G OnUnit (settings.prompt_strategy == codes "file-based") _ _
        (λ _.
          bind-Ensures G (λ _. Unit) OnUnit (fetch_base env mr.diff_refs.base_sha) _
            (fetch_base-Keeps P K env mr.diff_refs.base_sha tt)
            (λ base _.
              after-Ensures G OnUnit OnUnit (set_fields (λ f. record f { base_sha = base })) _
                (set_fields-Keeps P K (λ f. record f { base_sha = base })
                  (λ c k. record {
                    triggering = k.triggering;
                    raw_result = k.raw_result;
                    response = k.response;
                  }))
                (λ s. write_files-Keeps mr ds o s.context.repo_path s)))
        (λ _ s i. (i, tt))

  pub note_missing-Keeps :
      (o : Option Discussion)
      → Keeps G (note_missing env to_lower settings event mr_iid note_id agent o)
  unfolding note_missing
  note_missing-Keeps none = set_context-Keeps P K (λ c. record c { outcome = codes "not_found" })
  note_missing-Keeps (some d) = λ s i. (i, tt)
