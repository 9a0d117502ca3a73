-- ===== src/DiscussionPipeline/Permitted/Prepare.antt =====
-- `prepare` of the discussion pipeline takes allowed steps only.
use gitlab_copilot_agent.Prelude.{ℕ, Text, text_eq, nat_eq, Bool, true, false, Option, some, ◌≡◌}
use gitlab_copilot_agent.Effects.{ok}
use gitlab_copilot_agent.Effects.Ensures.{Keeps, bind-Ensures, after-Ensures}
use gitlab_copilot_agent.Discussions.{AgentIdentity}
use gitlab_copilot_agent.Events.{TaskEvent}
use gitlab_copilot_agent.Outside.{Step, asked, Environment, perform, set_fields}
use gitlab_copilot_agent.Outside.Keeps.{perform-Ensures, perform-Keeps, set_fields-Keeps}
use gitlab_copilot_agent.Threads.{AnswerBlock, find_triggering_discussion}
use gitlab_copilot_agent.DiscussionPipeline.{PipelineSettings, DiscussionContext, State}
use gitlab_copilot_agent.DiscussionPipeline.Prepare.{
  clone, after_clone, note_missing, load, load_if, prepare,
}
use gitlab_copilot_agent.DiscussionPipeline.Permitted.{Allowed, Fits, Good}
use gitlab_copilot_agent.DiscussionPipeline.Permitted.Clone.{clone-Keeps, after_clone-Post}
use gitlab_copilot_agent.DiscussionPipeline.Permitted.Files.{file_based-Keeps, note_missing-Keeps}

module _ (env : Environment) (to_lower : Text → Text)
    (find_block : Text → Option (Text × AnswerBlock)) (settings : PipelineSettings)
    (event : TaskEvent) (mr_iid note_id : ℕ) (agent : AgentIdentity) where
  abbrev G : State → Type 0
  G = Good env find_block event mr_iid note_id agent

  abbrev P : Step → Type 0
  P = Allowed env find_block event mr_iid note_id agent

  abbrev K : DiscussionContext → Type 0
  K = Fits env find_block event mr_iid note_id agent

  abbrev OnUnit : Unit {0} → Type 0
  OnUnit u = Unit

  pub load-Keeps : Keeps G (load env to_lower settings event mr_iid note_id agent)
  unfolding load
  load-Keeps =
      bind-Ensures G (λ _. Unit) OnUnit (perform asked env.get_mr_details) _
        (perform-Keeps P K asked env.get_mr_details tt)
        (λ mr _.
          after-Ensures G OnUnit OnUnit (set_fields (λ f. record f { mr_details = some mr })) _
            (set_fields-Keeps P K (λ f. record f { mr_details = some mr })
              (λ c k. record {
                triggering = k.triggering;
                raw_result = k.raw_result;
                response = k.response;
              }))
            (bind-Ensures G (λ ds. (l : _) × (env.list_mr_discussions l ≡ ok ds)) OnUnit
              (perform asked env.list_mr_discussions) _
              (perform-Ensures P K asked env.list_mr_discussions tt)
              (λ ds listed.
                let triggering = find_triggering_discussion ds note_id in
                after-Ensures G OnUnit OnUnit _ _
                  (set_fields-Keeps P K
                    (λ f. record f {
                      discussions = some ds;
                      discussion_history = some (record { discussions = ds; agent = agent });
                      triggering = triggering;
                    })
                    (λ c k. record {
                      triggering = λ d e. (listed.0, ds, listed.1, e);
                      raw_result = k.raw_result;
                      response = k.response;
                    }))
                  (after-Ensures G OnUnit OnUnit
                    (note_missing env to_lower settings event mr_iid note_id agent triggering) _
                    (note_missing-Keeps env to_lower find_block settings event mr_iid note_id agent
                      triggering)
                    (file_based-Keeps env to_lower find_block settings event mr_iid note_id agent mr
                      ds triggering)))))

  load_if-Keeps : (b : Bool) → Keeps G (load_if env to_lower settings event mr_iid note_id agent b)
  unfolding load_if
  load_if-Keeps true = load-Keeps
  load_if-Keeps false = λ s i. (i, tt)

  pub prepare-Keeps : Keeps G (prepare env to_lower settings event mr_iid note_id agent)
  unfolding prepare
  prepare-Keeps =
      bind-Ensures G (λ _. Unit) OnUnit
        (λ s.
          after_clone env to_lower settings event mr_iid note_id agent
            (clone env to_lower settings event mr_iid note_id agent s))
        (load_if env to_lower settings event mr_iid note_id agent)
        (λ s i.
          after_clone-Post env to_lower find_block settings event mr_iid note_id agent _
            (clone-Keeps env to_lower find_block settings event mr_iid note_id agent s i))
        (λ b _. load_if-Keeps b)
