-- ===== src/ReviewPipeline/Permitted/Stages.antt =====
-- The stages of the review pipeline, and a whole run.
use gitlab_copilot_agent.Comments.Parsed.{ParsedReview}
use gitlab_copilot_agent.Prelude.{
  ℕ, Text, text_eq, nat_eq, codes, [], Bool, Option, none, some, ◌≡◌, refl, ap,
}
use gitlab_copilot_agent.Effects.{lift, ok, Exn, pure}
use gitlab_copilot_agent.Effects.Ensures.{
  lift-Keeps, Keeps, bind-Ensures, after-Ensures, try_except-Ensures,
}
use gitlab_copilot_agent.Gitlab.{post_mr_comment}
use gitlab_copilot_agent.Events.{TaskEvent}
use gitlab_copilot_agent.Incremental.{extract_last_reviewed_sha}
use gitlab_copilot_agent.Tasks.{TaskResult, summary}
use gitlab_copilot_agent.Pipeline.{PipelineContext, run_pipeline, stage_requires}
use gitlab_copilot_agent.Pipeline.Errors.{post_pipeline_error}
use gitlab_copilot_agent.Pipeline.Keeps.{stage_requires-Keeps, run_pipeline-keeps}
use gitlab_copilot_agent.Outside.{
  MrDetails, Step, asked, executed, called, Environment, perform, set_fields,
}
use gitlab_copilot_agent.Outside.Keeps.{
  perform-Ensures, perform-Keeps, set_fields-Keeps, set_success-Holds, remove_clone-Keeps,
}
use gitlab_copilot_agent.DiscussionPipeline.{PipelineSettings}
use gitlab_copilot_agent.ReviewPipeline.{ReviewContext, new_review, State, ReviewTexts}
use gitlab_copilot_agent.ReviewPipeline.Stages.{
  clone, compare_if, build_diff, prepare, run_review, execute, post_comment, handle_error,
  review_pipeline,
}
use gitlab_copilot_agent.ReviewPipeline.Permitted.{IsMr, Allowed, Fits, Good}
use gitlab_copilot_agent.ReviewPipeline.Permitted.Posts.{process-Keeps}
use gitlab_copilot_agent.ReviewPipeline.Permitted.Context.{
  same-Keeps, clone-Keeps, load_commits-Keeps, load_history_if-Keeps,
}
use gitlab_copilot_agent.ReviewPipeline.Permitted.Diff.{
  compare_if-Keeps, full_diff-Keeps, file_based-Keeps,
}

module _ (env : Environment) (texts : ReviewTexts) (to_lower upper : Text → Text)
    (settings : PipelineSettings) (event : TaskEvent) (mr_iid : ℕ) (head_sha : Text)
    (with_creds : Bool) where
  abbrev G : State → Type 0
  G = Good env event mr_iid

  abbrev P : Step → Type 0
  P = Allowed env event mr_iid

  abbrev K : ReviewContext → Type 0
  K = Fits env event mr_iid

  abbrev OnUnit : Unit {0} → Type 0
  OnUnit u = Unit

  build_diff-Keeps :
      Keeps G (build_diff env texts to_lower upper settings event mr_iid head_sha with_creds)
  unfolding build_diff
  build_diff-Keeps s =
      let sha = extract_last_reviewed_sha s.world.fields.discussion_history in
      after-Ensures G OnUnit OnUnit (set_fields (λ f. record f { last_reviewed_sha = sha })) _
        (same-Keeps env texts to_lower upper settings event mr_iid head_sha with_creds _
          (λ c. (refl, refl)))
        (after-Ensures G OnUnit OnUnit
          (compare_if env texts to_lower upper settings event mr_iid head_sha with_creds sha) _
          (compare_if-Keeps env texts to_lower upper settings event mr_iid head_sha with_creds sha)
          (λ t.
            full_diff-Keeps env texts to_lower upper settings event mr_iid head_sha with_creds
              t.world.fields.is_incremental t.world.fields.mr_details t))
        s

  prepare-Keeps :
      Keeps G (prepare env texts to_lower upper settings event mr_iid head_sha with_creds)
  unfolding prepare
  prepare-Keeps =
      after-Ensures G OnUnit OnUnit
        (clone env texts to_lower upper settings event mr_iid head_sha with_creds) _
        (clone-Keeps env texts to_lower upper settings event mr_iid head_sha with_creds)
        (bind-Ensures G (λ mr. (l : _) × (env.get_mr_details l ≡ ok mr)) OnUnit
          (perform asked env.get_mr_details) _ (perform-Ensures P K asked env.get_mr_details tt)
          (λ mr given.
            after-Ensures G OnUnit OnUnit (set_fields (λ f. record f { mr_details = some mr })) _
              (set_fields-Keeps P K (λ f. record f { mr_details = some mr })
                (λ c k. record {
                  mr_details = λ m e. found mr given m e;
                  discussion_history = k.discussion_history;
                }))
              (after-Ensures G OnUnit OnUnit _ _
                (load_commits-Keeps env texts to_lower upper settings event mr_iid head_sha
                  with_creds)
                (after-Ensures G OnUnit OnUnit _ _
                  (load_history_if-Keeps env texts to_lower upper settings event mr_iid head_sha
                    with_creds with_creds)
                  (after-Ensures G OnUnit OnUnit _ _ build_diff-Keeps (
                    file_based-Keeps env texts to_lower upper settings event mr_iid head_sha
                      with_creds))))))
    where
      from_some : MrDetails → Option MrDetails → MrDetails
      from_some m none = m
      from_some m (some m') = m'

      found :
          (mr : MrDetails)
          → IsMr env event mr_iid mr
          → (m : MrDetails) → some mr ≡ some m
          → IsMr env event mr_iid m
      found mr given m e = let same : mr ≡ m = ap (from_some mr) e in rw⁻¹ same given

  execute-Keeps :
      Keeps G (execute env texts to_lower upper settings event mr_iid head_sha with_creds)
  unfolding execute run_review
  execute-Keeps s =
      bind-Ensures G (λ _. Unit) OnUnit
        (stage_requires s.world.fields.mr_details (codes "mr_details")) _
        (stage_requires-Keeps G s.world.fields.mr_details (codes "mr_details"))
        (λ mr _.
          bind-Ensures G (λ _. Unit) OnUnit (perform (executed _) _) _
            (perform-Keeps P K (executed _) _ tt)
            (λ (raw : TaskResult) _.
              after-Ensures G OnUnit OnUnit (set_fields (λ f. record f { raw_result = some raw })) _
                (same-Keeps env texts to_lower upper settings event mr_iid head_sha with_creds _
                  (λ c. (refl, refl)))
                (bind-Ensures G (λ _. Unit) OnUnit (lift (texts.parse_review (summary raw))) _
                  (lift-Keeps G (texts.parse_review (summary raw)))
                  (λ (parsed : ParsedReview) _.
                    same-Keeps env texts to_lower upper settings event mr_iid head_sha with_creds
                      (λ f. record f { parsed = some parsed }) (λ c. (refl, refl))))))
        s

  handle_error-Keeps :
      (e : Exn)
      → Keeps G (handle_error env texts to_lower upper settings event mr_iid head_sha with_creds e)
  unfolding handle_error post_pipeline_error post_comment
  handle_error-Keeps e =
      try_except-Ensures G OnUnit _ (λ _. pure tt)
        (perform-Keeps P K (called (post_mr_comment event.project_id mr_iid _)) _ (refl, refl))
        (λ x s i. (i, tt))

  -- Whatever git, GitLab, the executor and the files answer, whether the answer can be parsed or not, and however the
  -- run ends, it touches one project and one MR, and it
  -- commits and pushes nothing: a thread that it starts is at a valid position of the changes that GitLab gives for the MR,
  -- with their SHAs; it replies only to open threads on a line that the agent started, as GitLab lists them for the
  -- agent's identity, and resolves only such threads, where threads are resolved automatically.
  pub review_pipeline_allowed :
      (context : PipelineContext)
      → Good env event mr_iid
          (run_pipeline
            (review_pipeline env texts to_lower upper settings event mr_iid head_sha with_creds)
            (record { context = context; world = record { fields = new_review; log = [] } })).1
  unfolding review_pipeline
  review_pipeline_allowed context =
      run_pipeline-keeps G
        (review_pipeline env texts to_lower upper settings event mr_iid head_sha with_creds)
        (record {
          prepare = prepare-Keeps;
          execute = execute-Keeps;
          process =
              process-Keeps env texts to_lower upper settings event mr_iid head_sha with_creds;
          cleanup = remove_clone-Keeps P K env (λ _. tt);
          handle_error = handle_error-Keeps;
          success = set_success-Holds P K _;
        })
        _
        (
          tt,
          record {
            mr_details = λ d e. absurd (empty e);
            discussion_history = λ d e. absurd (empty e);
          },
        )
    where
      empty : {A : Type 0} {a : A} → none ≡ some a → ⊥
      empty e = cc e
