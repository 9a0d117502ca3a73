-- ===== src/DiscussionPipeline/Permitted/Clone.antt =====
-- The clone of the discussion pipeline, and the answer to a deleted branch: allowed steps only.
use gitlab_copilot_agent.Prelude.{
  ℕ, Text, text_eq, nat_eq, codes, true, false, ◌&&◌, Option, none, some, ◌≡◌, refl, inl, inr,
  Bool-cases,
}
use gitlab_copilot_agent.Effects.{Result, ok, raised, pure, lift}
use gitlab_copilot_agent.Effects.Ensures.{
  Post, Keeps, bind-Ensures, after-Ensures, try_except-Ensures, lift-Keeps,
}
use gitlab_copilot_agent.Gitlab.{reply_to_discussion}
use gitlab_copilot_agent.Discussions.{Discussion, AgentIdentity}
use gitlab_copilot_agent.Events.{TaskEvent}
use gitlab_copilot_agent.ErrorMessages.{branch_deleted_message}
use gitlab_copilot_agent.Outside.{
  Step, cloned, asked, called, Environment, perform, set_fields, set_context,
}
use gitlab_copilot_agent.Outside.Keeps.{
  perform-Ensures, perform-Keeps, set_fields-Keeps, set_context-Keeps,
}
use gitlab_copilot_agent.Threads.{AnswerBlock, find_triggering_discussion}
use gitlab_copilot_agent.DiscussionPipeline.{
  PipelineSettings, DiscussionContext, State, is_clone_error, is_deleted,
}
use gitlab_copilot_agent.DiscussionPipeline.Prepare.{
  reply, reply_if_found, reply_branch_deleted, clone, branch_gone, after_clone,
}
use gitlab_copilot_agent.DiscussionPipeline.Permitted.{IsFound, Allowed, Fits, Good}

module _ (env : Environment) (to_lower : Text → Text)
    (find_block : Text → Option (Text × AnswerBlock)) (settings : PipelineSettings)
    (event : TaskEvent) (mr_iid note_id : ℕ) (agent : AgentIdentity) where
  abbrev G : State → Type 0
  G = Good env find_block event mr_iid note_id agent

  abbrev P : Step → Type 0
  P = Allowed env find_block event mr_iid note_id agent

  abbrev K : DiscussionContext → Type 0
  K = Fits env find_block event mr_iid note_id agent

  abbrev OnUnit : Unit {0} → Type 0
  OnUnit u = Unit

  pub reply-Keeps :
      (d : Discussion) (body : Text)
      → IsFound env find_block event mr_iid note_id agent d
      → Keeps G (reply env to_lower settings event mr_iid note_id agent d.discussion_id body)
  unfolding reply
  reply-Keeps d body found =
      perform-Keeps P K (called (reply_to_discussion event.project_id mr_iid d.discussion_id body))
        _ (refl, refl, (d, found, refl))

  reply_if_found-Keeps :
      (o : Option Discussion)
      → ((d : Discussion) → o ≡ some d → IsFound env find_block event mr_iid note_id agent d)
      → Keeps G (reply_if_found env to_lower settings event mr_iid note_id agent o)
  unfolding reply_if_found
  reply_if_found-Keeps none h = λ s i. (i, tt)
  reply_if_found-Keeps (some d) h = reply-Keeps d (branch_deleted_message event.branch) (h d refl)

  reply_branch_deleted-Keeps :
      Keeps G (reply_branch_deleted env to_lower settings event mr_iid note_id agent)
  unfolding reply_branch_deleted
  reply_branch_deleted-Keeps =
      try_except-Ensures G OnUnit _ (λ _. pure tt)
        (bind-Ensures G (λ ds. (l : _) × (env.list_mr_discussions l ≡ ok ds)) OnUnit
          (perform asked env.list_mr_discussions) _
          (perform-Ensures P K asked env.list_mr_discussions tt)
          (λ ds listed.
            reply_if_found-Keeps (find_triggering_discussion ds note_id)
              (λ d e. (listed.0, ds, listed.1, e))))
        (λ e s i. (i, tt))

  pub clone-Keeps : Keeps G (clone env to_lower settings event mr_iid note_id agent)
  unfolding clone
  clone-Keeps =
      after-Ensures G OnUnit OnUnit
        (lift (env.validate_clone_url_host event.clone_url settings.gitlab_url)) _
        (lift-Keeps G (env.validate_clone_url_host event.clone_url settings.gitlab_url))
        (bind-Ensures G (λ _. Unit) OnUnit
          (perform (cloned event.clone_url event.branch) env.clone_repo) _
          (perform-Keeps P K (cloned event.clone_url event.branch) env.clone_repo (refl, refl))
          (λ path _. set_context-Keeps P K (λ c. record c { repo_path = some path })))

  branch_gone-Keeps : Keeps G (branch_gone env to_lower settings event mr_iid note_id agent)
  unfolding branch_gone
  branch_gone-Keeps =
      after-Ensures G OnUnit (λ _. Unit)
        (reply_branch_deleted env to_lower settings event mr_iid note_id agent) _
        reply_branch_deleted-Keeps
        (after-Ensures G OnUnit (λ _. Unit) (set_fields (λ f. record f { branch_deleted = true })) _
          (set_fields-Keeps P K (λ f. record f { branch_deleted = true })
            (λ c k. record {
              triggering = k.triggering;
              raw_result = k.raw_result;
              response = k.response;
            }))
          (after-Ensures G OnUnit (λ _. Unit)
            (set_context (λ c. record c { outcome = codes "branch_deleted" })) (pure false)
            (set_context-Keeps P K (λ c. record c { outcome = codes "branch_deleted" }))
            (λ s i. (i, tt))))

  pub after_clone-Post :
      (r : Result (Unit {0}) × State)
      → Post G OnUnit r
      → Post G (λ _. Unit) (after_clone env to_lower settings event mr_iid note_id agent r)
  unfolding after_clone
  after_clone-Post (ok a, s) h = (h.0, tt)
  after_clone-Post (raised exc, s) h =
      elim (Bool-cases (is_clone_error exc.kind && is_deleted (to_lower exc.message))) [
        | inl gone ↦ rw gone (branch_gone-Keeps s h)
        | inr other ↦ rw other h
      ]
