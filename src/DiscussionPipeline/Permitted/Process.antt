-- ===== src/DiscussionPipeline/Permitted/Process.antt =====
-- `process` and `handle_error` of the discussion pipeline, and a whole run.
use gitlab_copilot_agent.Prelude.{
  ℕ, Text, text_eq, nat_eq, codes, [], Bool, true, Option, none, some, ◌≡◌, refl, sym, ap, ◌∙◌, inl,
  inr, Bool-cases,
}
use gitlab_copilot_agent.Effects.{Exn, is_task_execution_error, pure}
use gitlab_copilot_agent.Effects.Ensures.{Keeps, bind-Ensures, after-Ensures, try_except-Ensures}
use gitlab_copilot_agent.Gitlab.{post_mr_comment}
use gitlab_copilot_agent.Discussions.{Discussion, AgentIdentity}
use gitlab_copilot_agent.Events.{TaskEvent}
use gitlab_copilot_agent.ErrorMessages.{user_error_message_is_fixed}
use gitlab_copilot_agent.Tasks.{TaskResult, summary}
use gitlab_copilot_agent.Pipeline.{PipelineContext, run_pipeline, stage_requires}
use gitlab_copilot_agent.Pipeline.Errors.{post_pipeline_error, error_text}
use gitlab_copilot_agent.Pipeline.Keeps.{
  stage_requires-Ensures, stage_requires-Keeps, run_pipeline-keeps,
}
use gitlab_copilot_agent.Outside.{Step, called, Environment, set_fields}
use gitlab_copilot_agent.Outside.Keeps.{
  perform-Keeps, set_fields-Keeps, remove_clone-Keeps, set_success-Holds,
}
use gitlab_copilot_agent.Threads.{AnswerBlock, DiscussionResponse, parse_discussion_response}
use gitlab_copilot_agent.DiscussionPipeline.{
  PipelineSettings, DiscussionContext, new_discussion, State, generic_msg,
}
use gitlab_copilot_agent.DiscussionPipeline.Process.{
  with_pushed, publish_if, respond, process, post_comment, handle_error, discussion_pipeline,
}
use gitlab_copilot_agent.DiscussionPipeline.Permitted.{
  IsFound, IsAnswer, IsNotice, Allowed, Fits, Good,
}
use gitlab_copilot_agent.DiscussionPipeline.Permitted.Clone.{reply-Keeps}
use gitlab_copilot_agent.DiscussionPipeline.Permitted.Prepare.{prepare-Keeps}
use gitlab_copilot_agent.DiscussionPipeline.Permitted.Execute.{execute-Keeps, unless_gone-Keeps}
use gitlab_copilot_agent.DiscussionPipeline.Permitted.Settle.{
  IsFrom, with_pushed-resolution, publish_if-Keeps, handle_thread-Keeps,
}

module _ (env : Environment) (to_lower : Text → Text)
    (find_block : Text → Option (Text × AnswerBlock)) (settings : PipelineSettings)
    (event : TaskEvent) (mr_iid note_id : ℕ) (agent : AgentIdentity) where
  abbrev G : State → Type 0
  G = Good env find_block event mr_iid note_id agent

  abbrev P : Step → Type 0
  P = Allowed env find_block event mr_iid note_id agent

  abbrev K : DiscussionContext → Type 0
  K = Fits env find_block event mr_iid note_id agent

  abbrev OnUnit : Unit {0} → Type 0
  OnUnit u = Unit

  abbrev Answers : TaskResult → Type 0
  Answers = IsAnswer env find_block event mr_iid note_id agent

  abbrev Found : Discussion → Type 0
  Found = IsFound env find_block event mr_iid note_id agent

  respond-Keeps :
      (d : Discussion)
      → Found d
      → Keeps G (respond env to_lower find_block settings event mr_iid note_id agent d)
  unfolding respond
  respond-Keeps d found s i =
      let fields = s.world.fields in
      bind-Ensures G (λ raw. fields.raw_result ≡ some raw) OnUnit
        (stage_requires fields.raw_result (codes "raw_result")) _
        (stage_requires-Ensures G fields.raw_result (codes "raw_result"))
        (λ raw e.
          bind-Ensures G (λ r. fields.response ≡ some r) OnUnit
            (stage_requires fields.response (codes "response")) _
            (stage_requires-Ensures G fields.response (codes "response"))
            (λ r e'.
              bind-Ensures G (λ _. Unit) OnUnit
                (stage_requires s.context.repo_path (codes "repo_path")) _
                (stage_requires-Keeps G s.context.repo_path (codes "repo_path"))
                (λ path _.
                  bind-Ensures G (λ _. Unit) OnUnit
                    (publish_if env to_lower find_block settings event mr_iid note_id agent raw) _
                    (publish_if-Keeps env to_lower find_block settings event mr_iid note_id agent
                      raw (i.1.raw_result raw e))
                    (λ done _.
                      let final =
                        with_pushed env to_lower find_block settings event mr_iid note_id agent done
                          r in
                      after-Ensures G OnUnit OnUnit _ _
                        (reply-Keeps env to_lower find_block settings event mr_iid note_id agent d
                          final.reply found)
                        (after-Ensures G OnUnit OnUnit
                          (set_fields (λ f. record f { reply_posted = true })) _
                          (set_fields-Keeps P K (λ f. record f { reply_posted = true })
                            (λ c k. record {
                              triggering = k.triggering;
                              raw_result = k.raw_result;
                              response = k.response;
                            }))
                          (handle_thread-Keeps env to_lower find_block settings event mr_iid note_id
                            agent final (from done r (i.1.response r e'))))))))
        s i
    where
      from :
          (done : Bool) (r : DiscussionResponse)
          → ((raw : TaskResult) × Answers raw
              × (r ≡ parse_discussion_response find_block (summary raw)))
          → IsFrom env to_lower find_block settings event mr_iid note_id agent
              (with_pushed env to_lower find_block settings event mr_iid note_id agent done
                r).resolution
      from done r (raw, ran, e) = (
        raw,
        ran,
        sym (
            with_pushed-resolution env to_lower find_block settings event mr_iid note_id agent done
              r
            ∙ ap (λ (t : DiscussionResponse). t.resolution) e),
      )

  process-Keeps : Keeps G (process env to_lower find_block settings event mr_iid note_id agent)
  unfolding process
  process-Keeps s i =
      unless_gone-Keeps env to_lower find_block settings event mr_iid note_id agent _
        s.world.fields.branch_deleted s.world.fields.triggering
        (λ d e. respond-Keeps d (i.1.triggering d e)) s i

  post_comment-Keeps :
      (text : Text)
      → IsNotice env find_block event mr_iid note_id agent text
      → Keeps G (post_comment env to_lower find_block settings event mr_iid note_id agent text)
  unfolding post_comment
  post_comment-Keeps text notice =
      perform-Keeps P K (called (post_mr_comment event.project_id mr_iid text)) _
        (refl, refl, notice)

  handle_error-Keeps :
      (e : Exn)
      → Keeps G (handle_error env to_lower find_block settings event mr_iid note_id agent e)
  unfolding handle_error post_pipeline_error error_text
  handle_error-Keeps e = elim (Bool-cases (is_task_execution_error e)) [
    | inl task ↦ rw task (
        try_except-Ensures G OnUnit _ (λ _. pure tt)
          (post_comment-Keeps _ (inr (user_error_message_is_fixed to_lower e.message)))
          (λ x s i. (i, tt)))
    | inr other ↦ rw other (
        try_except-Ensures G OnUnit _ (λ _. pure tt) (post_comment-Keeps generic_msg (inl refl))
          (λ x s i. (i, tt)))
  ]

  -- Whatever git, GitLab, the executor and the files answer, and however the run ends, it touches one project and one MR: its
  -- replies go to the thread that GitLab lists for the note; it resolves that thread only if the thread is on a line and was
  -- started by the agent, an answer of the executor calls it resolved, and threads are resolved automatically; it pushes only
  -- the event's branch, for an answer that has a patch; every other note is a fixed text; and it starts no thread.
  pub discussion_pipeline_allowed :
      (context : PipelineContext)
      → Good env find_block event mr_iid note_id agent
          (run_pipeline
            (discussion_pipeline env to_lower find_block settings event mr_iid note_id agent)
            (record { context = context; world = record { fields = new_discussion; log = [] } })).1
  unfolding discussion_pipeline
  discussion_pipeline_allowed context =
      run_pipeline-keeps G
        (discussion_pipeline env to_lower find_block settings event mr_iid note_id agent)
        (record {
          prepare = prepare-Keeps env to_lower find_block settings event mr_iid note_id agent;
          execute = execute-Keeps env to_lower find_block settings event mr_iid note_id agent;
          process = process-Keeps;
          cleanup = remove_clone-Keeps P K env (λ _. tt);
          handle_error = handle_error-Keeps;
          success = set_success-Holds P K _;
        })
        _
        (
          tt,
          record {
            triggering = λ d e. absurd (empty e);
            raw_result = λ d e. absurd (empty e);
            response = λ d e. absurd (empty e);
          },
        )
    where
      empty : {A : Type 0} {a : A} → none ≡ some a → ⊥
      empty e = cc e
