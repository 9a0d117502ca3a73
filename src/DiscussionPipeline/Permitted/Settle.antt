-- ===== src/DiscussionPipeline/Permitted/Settle.antt =====
-- Pushing and resolving: the parts of `process` that are not replies.
use gitlab_copilot_agent.Prelude.{
  ℕ, Text, text_eq, nat_eq, codes, take, ◌++◌, Bool, true, false, Option, none, some, ◌≡◌, refl,
  text_or,
}
use gitlab_copilot_agent.Effects.{pure}
use gitlab_copilot_agent.Effects.Ensures.{
  Keeps, bind-Ensures, after-Ensures, try_except-Ensures, if-Ensures,
}
use gitlab_copilot_agent.Gitlab.{resolve_discussion}
use gitlab_copilot_agent.Discussions.{Discussion, AgentIdentity}
use gitlab_copilot_agent.Events.{TaskEvent}
use gitlab_copilot_agent.Comments.Parsed.{Resolution, Status, Behavior}
use gitlab_copilot_agent.Tasks.{TaskResult, summary, has_patch}
use gitlab_copilot_agent.Pipeline.{stage_requires}
use gitlab_copilot_agent.Pipeline.Keeps.{stage_requires-Ensures}
use gitlab_copilot_agent.Outside.{Step, committed, pushed, called, Environment, perform}
use gitlab_copilot_agent.Outside.Patches.{apply_coding_result}
use gitlab_copilot_agent.Outside.Keeps.{perform-Keeps, apply_coding_result-Keeps}
use gitlab_copilot_agent.Threads.{
  AnswerBlock, DiscussionResponse, first_note, parse_discussion_response,
}
use gitlab_copilot_agent.DiscussionPipeline.{
  PipelineSettings, DiscussionContext, State, is_agent_thread,
}
use gitlab_copilot_agent.DiscussionPipeline.Prepare.{resolve}
use gitlab_copilot_agent.DiscussionPipeline.Process.{
  with_pushed, push, publish, publish_if, settle, settle_if, handle_thread,
}
use gitlab_copilot_agent.DiscussionPipeline.Permitted.{
  IsFound, IsAnswer, MayResolve, Allowed, Fits, Good,
}

module _ (env : Environment) (to_lower : Text → Text)
    (find_block : Text → Option (Text × AnswerBlock)) (settings : PipelineSettings)
    (event : TaskEvent) (mr_iid note_id : ℕ) (agent : AgentIdentity) where
  abbrev G : State → Type 0
  G = Good env find_block event mr_iid note_id agent

  abbrev P : Step → Type 0
  P = Allowed env find_block event mr_iid note_id agent

  abbrev K : DiscussionContext → Type 0
  K = Fits env find_block event mr_iid note_id agent

  abbrev OnUnit : Unit {0} → Type 0
  OnUnit u = Unit

  abbrev Answers : TaskResult → Type 0
  Answers = IsAnswer env find_block event mr_iid note_id agent

  abbrev Found : Discussion → Type 0
  Found = IsFound env find_block event mr_iid note_id agent

  pub with_pushed-resolution :
      (b : Bool) (r : DiscussionResponse)
      → (with_pushed env to_lower find_block settings event mr_iid note_id agent b r).resolution
        ≡ r.resolution
  unfolding with_pushed
  with_pushed-resolution true r = refl
  with_pushed-resolution false r = refl

  push-Keeps :
      (raw : TaskResult)
      → Answers raw
      → has_patch raw ≡ true
      → (b : Bool) → Keeps G (push env to_lower find_block settings event mr_iid note_id agent b)
  unfolding push
  push-Keeps raw ran patched false = λ s i. (i, tt)
  push-Keeps raw ran patched true =
      after-Ensures G OnUnit (λ _. Unit) (perform (pushed event.branch) env.git_push) (pure true)
        (perform-Keeps P K (pushed event.branch) env.git_push (refl, (raw, ran, patched)))
        (λ s i. (i, tt))

  publish-Keeps :
      (raw : TaskResult)
      → Answers raw
      → has_patch raw ≡ true
      → Keeps G (publish env to_lower find_block settings event mr_iid note_id agent raw)
  unfolding publish
  publish-Keeps raw ran patched =
      after-Ensures G OnUnit (λ _. Unit) (apply_coding_result env raw) _
        (apply_coding_result-Keeps P K env tt (λ _. tt) raw)
        (bind-Ensures G (λ _. Unit) (λ _. Unit)
          (perform
            (committed
              (codes "fix: " ++ take 50 (text_or event.note_body (codes "discussion fix"))))
            env.git_commit)
          _ (perform-Keeps P K _ env.git_commit tt)
          (λ changed _. push-Keeps raw ran patched changed))

  pub publish_if-Keeps :
      (raw : TaskResult)
      → Answers raw
      → Keeps G (publish_if env to_lower find_block settings event mr_iid note_id agent raw)
  unfolding publish_if
  publish_if-Keeps raw ran =
      if-Ensures G (λ _. Unit) (has_patch raw) _ _ (publish-Keeps raw ran) (λ _ s i. (i, tt))

  settle-Keeps :
      (d : Discussion) (b : Behavior) (st : Status)
      → Found d
      → (b ≡ Behavior.auto_resolve
          → st ≡ Status.resolved
          → MayResolve env find_block event mr_iid note_id agent d)
      → Keeps G
          (settle env to_lower find_block settings event mr_iid note_id agent d.discussion_id b st)
  unfolding settle resolve
  settle-Keeps d Behavior.auto_resolve Status.resolved found may =
      perform-Keeps P K (called (resolve_discussion event.project_id mr_iid d.discussion_id)) _
        (refl, refl, (d, found, refl, may refl refl))
  settle-Keeps d Behavior.auto_resolve Status.partial found may = λ s i. (i, tt)
  settle-Keeps d Behavior.auto_resolve Status.not_addressed found may = λ s i. (i, tt)
  settle-Keeps d Behavior.suggest st found may = λ s i. (i, tt)
  settle-Keeps d Behavior.off st found may = λ s i. (i, tt)

  -- The resolution is the one of an answer.
  abbrev pub IsFrom : Option Resolution → Type 0
  IsFrom o =
      (raw : TaskResult) × Answers raw
      × ((parse_discussion_response find_block (summary raw)).resolution ≡ o)

  pub settle_if-Keeps :
      (d : Discussion) (b : Behavior) (o : Option Resolution)
      → Found d
      → event.resolution_behavior ≡ b
      → IsFrom o
      → Keeps G (settle_if env to_lower find_block settings event mr_iid note_id agent d b o)
  unfolding settle_if
  settle_if-Keeps d b none found e from = λ s i. (i, tt)
  settle_if-Keeps d Behavior.off (some r) found e from = λ s i. (i, tt)
  settle_if-Keeps d Behavior.suggest (some r) found e from =
      if-Ensures G OnUnit (is_agent_thread agent.user_id d.is_inline (first_note d.notes)) _ _
        (λ own.
          try_except-Ensures G OnUnit _ (λ _. pure tt)
            (settle-Keeps d Behavior.suggest r.status found (λ bad. absurd (other bad)))
            (λ x s i. (i, tt)))
        (λ _ s i. (i, tt))
    where
      other : Behavior.suggest ≡ Behavior.auto_resolve → ⊥
      other bad = cc bad
  settle_if-Keeps d Behavior.auto_resolve (some r) found e from =
      if-Ensures G OnUnit (is_agent_thread agent.user_id d.is_inline (first_note d.notes)) _ _
        (λ own.
          try_except-Ensures G OnUnit _ (λ _. pure tt)
            (settle-Keeps d Behavior.auto_resolve r.status found
              (λ _ done. (own, e, (from.0, r, from.1, from.2, done))))
            (λ x s i. (i, tt)))
        (λ _ s i. (i, tt))

  pub handle_thread-Keeps :
      (r : DiscussionResponse)
      → IsFrom r.resolution
      → Keeps G (handle_thread env to_lower find_block settings event mr_iid note_id agent r)
  unfolding handle_thread
  handle_thread-Keeps r from s i =
      bind-Ensures G (λ d. s.world.fields.triggering ≡ some d) OnUnit
        (stage_requires s.world.fields.triggering (codes "triggering")) _
        (stage_requires-Ensures G s.world.fields.triggering (codes "triggering"))
        (λ d e.
          settle_if-Keeps d event.resolution_behavior r.resolution (i.1.triggering d e) refl from)
        s i
