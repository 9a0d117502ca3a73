-- ===== src/DiscussionPipeline/Permitted/Execute.antt =====
-- `execute` of the discussion pipeline takes allowed steps only.
use gitlab_copilot_agent.Prelude.{
  ℕ, Text, text_eq, nat_eq, codes, Bool, true, false, Option, none, some, ◌≡◌, refl, sym, ap,
}
use gitlab_copilot_agent.Effects.{ok, Py}
use gitlab_copilot_agent.Effects.Ensures.{Ensures, Keeps, bind-Ensures, after-Ensures, weaken}
use gitlab_copilot_agent.Discussions.{Discussion, AgentIdentity}
use gitlab_copilot_agent.Events.{TaskEvent}
use gitlab_copilot_agent.Tasks.{TaskResult, summary}
use gitlab_copilot_agent.Pipeline.{stage_requires}
use gitlab_copilot_agent.Pipeline.Keeps.{stage_requires-Keeps}
use gitlab_copilot_agent.Outside.{Step, executed, Environment, set_fields}
use gitlab_copilot_agent.Outside.Keeps.{perform-Ensures, set_fields-Keeps}
use gitlab_copilot_agent.Threads.{AnswerBlock, DiscussionResponse, parse_discussion_response}
use gitlab_copilot_agent.DiscussionPipeline.{PipelineSettings, DiscussionContext, State}
use gitlab_copilot_agent.DiscussionPipeline.Process.{run_discussion, answer, unless_gone, execute}
use gitlab_copilot_agent.DiscussionPipeline.Permitted.{IsFound, IsAnswer, Allowed, Fits, Good}

module _ (env : Environment) (to_lower : Text → Text)
    (find_block : Text → Option (Text × AnswerBlock)) (settings : PipelineSettings)
    (event : TaskEvent) (mr_iid note_id : ℕ) (agent : AgentIdentity) where
  abbrev G : State → Type 0
  G = Good env find_block event mr_iid note_id agent

  abbrev P : Step → Type 0
  P = Allowed env find_block event mr_iid note_id agent

  abbrev K : DiscussionContext → Type 0
  K = Fits env find_block event mr_iid note_id agent

  abbrev OnUnit : Unit {0} → Type 0
  OnUnit u = Unit

  abbrev Answers : TaskResult → Type 0
  Answers = IsAnswer env find_block event mr_iid note_id agent

  abbrev Found : Discussion → Type 0
  Found = IsFound env find_block event mr_iid note_id agent

  run_discussion-Ensures :
      (path : Option Text) (prompt : Text)
      → Ensures G
          (run_discussion env to_lower find_block settings event mr_iid note_id agent path prompt)
          Answers
  unfolding run_discussion
  run_discussion-Ensures path prompt =
      weaken G (λ raw. (l : _) × (env.execute l _ ≡ ok raw)) Answers _
        (perform-Ensures P K (executed _) (λ log. env.execute log _) tt)
        (λ raw ran. (ran.0, _, ran.1))

  answer-Keeps :
      (d : Discussion)
      → Keeps G (answer env to_lower find_block settings event mr_iid note_id agent d)
  unfolding answer
  answer-Keeps d s =
      let fields = s.world.fields in
      bind-Ensures G (λ _. Unit) OnUnit (stage_requires fields.mr_details (codes "mr_details")) _
        (stage_requires-Keeps G fields.mr_details (codes "mr_details"))
        (λ mr _.
          bind-Ensures G (λ _. Unit) OnUnit
            (stage_requires fields.discussion_history (codes "discussion_history")) _
            (stage_requires-Keeps G fields.discussion_history (codes "discussion_history"))
            (λ history _.
              bind-Ensures G Answers OnUnit
                (run_discussion env to_lower find_block settings event mr_iid note_id agent
                  s.context.repo_path _)
                _ (run_discussion-Ensures s.context.repo_path _)
                (λ raw ran.
                  after-Ensures G OnUnit OnUnit
                    (set_fields (λ f. record f { raw_result = some raw })) _
                    (set_fields-Keeps P K (λ f. record f { raw_result = some raw })
                      (λ c k. record {
                        triggering = k.triggering;
                        raw_result = λ r e. answers raw ran r e;
                        response = k.response;
                      }))
                    (set_fields-Keeps P K
                      (λ f. record f {
                        response = some (parse_discussion_response find_block (summary raw));
                      })
                      (λ c k. record {
                        triggering = k.triggering;
                        raw_result = k.raw_result;
                        response = λ r e. (raw, ran, parsed raw r e);
                      })))))
        s
    where
      from_some : {A : Type 0} → A → Option A → A
      from_some a none = a
      from_some a (some b) = b

      answers : (raw : TaskResult) → Answers raw → (r : TaskResult) → some raw ≡ some r → Answers r
      answers raw ran r e = let same : raw ≡ r = ap (from_some raw) e in rw⁻¹ same ran

      parsed :
          (raw : TaskResult) (r : DiscussionResponse)
          → some (parse_discussion_response find_block (summary raw)) ≡ some r
          → r ≡ parse_discussion_response find_block (summary raw)
      parsed raw r e = sym (ap (from_some r) e)

  pub unless_gone-Keeps :
      (go : Discussion → Py State (Unit {0})) (b : Bool) (o : Option Discussion)
      → ((d : Discussion) → o ≡ some d → Keeps G (go d))
      → Keeps G (unless_gone env to_lower find_block settings event mr_iid note_id agent go b o)
  unfolding unless_gone
  unless_gone-Keeps go true o h = λ s i. (i, tt)
  unless_gone-Keeps go false none h = λ s i. (i, tt)
  unless_gone-Keeps go false (some d) h = h d refl

  pub execute-Keeps : Keeps G (execute env to_lower find_block settings event mr_iid note_id agent)
  unfolding execute
  execute-Keeps s i =
      unless_gone-Keeps _ s.world.fields.branch_deleted s.world.fields.triggering
        (λ d _. answer-Keeps d) s i
