-- ===== src/ReviewPipeline/Permitted/Diff.antt =====
-- The diff and the context files: allowed steps only.
use gitlab_copilot_agent.Prelude.{
  ℕ, Text, text_eq, nat_eq, codes, List, [], ◌∷◌, Bool, true, false, Option, none, some, refl,
  text_or, ◌==◌,
}
use gitlab_copilot_agent.Effects.{pure}
use gitlab_copilot_agent.Effects.Ensures.{
  Keeps, bind-Ensures, after-Ensures, try_except-Ensures, if-Ensures,
}
use gitlab_copilot_agent.Gitlab.{Change}
use gitlab_copilot_agent.Discussions.{DiscussionHistory}
use gitlab_copilot_agent.Events.{TaskEvent}
use gitlab_copilot_agent.Pipeline.{stage_requires}
use gitlab_copilot_agent.Pipeline.Keeps.{stage_requires-Keeps}
use gitlab_copilot_agent.Outside.{
  MrDetails, Step, asked, Environment, perform, set_fields, set_context,
}
use gitlab_copilot_agent.Outside.Files.{write_context_file, fetch_base}
use gitlab_copilot_agent.Outside.Keeps.{
  perform-Keeps, set_context-Keeps, write_context_file-Keeps, fetch_base-Keeps,
}
use gitlab_copilot_agent.DiscussionPipeline.{PipelineSettings}
use gitlab_copilot_agent.ReviewPipeline.{ReviewContext, State, ReviewTexts}
use gitlab_copilot_agent.ReviewPipeline.Stages.{
  set_incremental, compare, compare_if, full_diff, write_feedback, write_files, file_based,
}
use gitlab_copilot_agent.ReviewPipeline.Permitted.{Allowed, Fits, Good}
use gitlab_copilot_agent.ReviewPipeline.Permitted.Context.{same-Keeps}

module _ (env : Environment) (texts : ReviewTexts) (to_lower upper : Text → Text)
    (settings : PipelineSettings) (event : TaskEvent) (mr_iid : ℕ) (head_sha : Text)
    (with_creds : Bool) where
  abbrev G : State → Type 0
  G = Good env event mr_iid

  abbrev P : Step → Type 0
  P = Allowed env event mr_iid

  abbrev K : ReviewContext → Type 0
  K = Fits env event mr_iid

  abbrev OnUnit : Unit {0} → Type 0
  OnUnit u = Unit

  set_incremental-Keeps :
      (changes : List Change)
      → Keeps G (
          set_incremental env texts to_lower upper settings event mr_iid head_sha with_creds
            changes)
  unfolding set_incremental
  set_incremental-Keeps [] = λ s i. (i, tt)
  set_incremental-Keeps (c ∷ changes) =
      same-Keeps env texts to_lower upper settings event mr_iid head_sha with_creds _
        (λ f. (refl, refl))

  pub compare_if-Keeps :
      (o : Option Text)
      → Keeps G (compare_if env texts to_lower upper settings event mr_iid head_sha with_creds o)
  unfolding compare_if compare
  compare_if-Keeps none = λ s i. (i, tt)
  compare_if-Keeps (some []) = λ s i. (i, tt)
  compare_if-Keeps (some (c ∷ sha)) =
      if-Ensures G OnUnit ((c ∷ sha) == head_sha) _ _ (λ _ s i. (i, tt))
        (λ _.
          try_except-Ensures G OnUnit _ (λ _. pure tt)
            (bind-Ensures G (λ _. Unit) OnUnit
              (perform asked (λ log. env.compare_commits log (c ∷ sha) head_sha)) _
              (perform-Keeps P K asked (λ log. env.compare_commits log (c ∷ sha) head_sha) tt)
              (λ changes _. set_incremental-Keeps changes))
            (λ e s i. (i, tt)))

  pub full_diff-Keeps :
      (b : Bool) (o : Option MrDetails)
      → Keeps G (full_diff env texts to_lower upper settings event mr_iid head_sha with_creds b o)
  unfolding full_diff
  full_diff-Keeps true o = λ s i. (i, tt)
  full_diff-Keeps false o =
      bind-Ensures G (λ _. Unit) OnUnit (stage_requires o (codes "mr_details")) _
        (stage_requires-Keeps G o (codes "mr_details"))
        (λ mr _.
          same-Keeps env texts to_lower upper settings event mr_iid head_sha with_creds _
            (λ c. (refl, refl)))

  write-Keeps : (path name text : Text) → Keeps G (write_context_file env path name text)
  write-Keeps path name text = write_context_file-Keeps P K env (λ _ _. tt) path name text

  write_feedback-Keeps :
      (path : Text) (o : Option DiscussionHistory)
      → Keeps G
          (write_feedback env texts to_lower upper settings event mr_iid head_sha with_creds path o)
  unfolding write_feedback
  write_feedback-Keeps path none = λ s i. (i, tt)
  write_feedback-Keeps path (some h) =
      after-Ensures G (λ _. Unit) OnUnit _ _ (write-Keeps path _ _)
        (after-Ensures G (λ _. Unit) OnUnit _ _ (write-Keeps path _ _) (λ s i. (i, tt)))

  write_files-Keeps :
      Keeps G (write_files env texts to_lower upper settings event mr_iid head_sha with_creds)
  unfolding write_files
  write_files-Keeps s =
      bind-Ensures G (λ _. Unit) OnUnit
        (stage_requires s.world.fields.mr_details (codes "mr_details")) _
        (stage_requires-Keeps G s.world.fields.mr_details (codes "mr_details"))
        (λ mr _.
          bind-Ensures G (λ _. Unit) OnUnit (fetch_base env mr.diff_refs.base_sha) _
            (fetch_base-Keeps P K env mr.diff_refs.base_sha tt)
            (λ base _.
              after-Ensures G OnUnit OnUnit (set_fields (λ f. record f { base_sha = base })) _
                (same-Keeps env texts to_lower upper settings event mr_iid head_sha with_creds _
                  (λ c. (refl, refl)))
                (λ t.
                  bind-Ensures G (λ _. Unit) OnUnit
                    (stage_requires t.context.repo_path (codes "repo_path")) _
                    (stage_requires-Keeps G t.context.repo_path (codes "repo_path"))
                    (λ path _.
                      bind-Ensures G (λ _. Unit) OnUnit
                        (write_context_file env path (codes "mr-description.md")
                          (text_or mr.description []))
                        _ (write-Keeps path _ _)
                        (λ dir _.
                          after-Ensures G OnUnit OnUnit
                            (set_context (λ c. record c { context_dir = some dir })) _
                            (set_context-Keeps P K (λ c. record c { context_dir = some dir }))
                            (write_feedback-Keeps path s.world.fields.discussion_history)))
                    t)))
        s

  pub file_based-Keeps :
      Keeps G (file_based env texts to_lower upper settings event mr_iid head_sha with_creds)
  unfolding file_based
  file_based-Keeps =
      if-Ensures G OnUnit (settings.prompt_strategy == codes "file-based") _ _
        (λ _. write_files-Keeps) (λ _ s i. (i, tt))
