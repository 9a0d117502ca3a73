-- ===== src/DiscussionPipeline/Permitted.antt =====
-- What a run of the discussion pipeline may do outside.
pub mod Clone
pub mod Files
pub mod Prepare
pub mod Execute
pub mod Settle
pub mod Process
use gitlab_copilot_agent.Prelude.{
  ℕ, Text, List, [], ◌∷◌, Bool, true, Option, none, some, ◌≡◌, ◌⊎◌, Any,
}
use gitlab_copilot_agent.Effects.{ok}
use gitlab_copilot_agent.Gitlab.{
  Call, post_mr_comment, create_mr_discussion, reply_to_discussion, resolve_discussion,
}
use gitlab_copilot_agent.Discussions.{Discussion, AgentIdentity}
use gitlab_copilot_agent.Events.{TaskEvent}
use gitlab_copilot_agent.ErrorMessages.{public_messages}
use gitlab_copilot_agent.Comments.Parsed.{Resolution, Status, Behavior}
use gitlab_copilot_agent.Tasks.{TaskParams, TaskResult, summary, has_patch}
use gitlab_copilot_agent.Pipeline.{Run}
use gitlab_copilot_agent.Outside.{
  Step, cloned, asked, fetched, wrote, executed, applied, committed, pushed, called, removed,
  branched, opened, transitioned, commented, Log, Environment, Outside,
}
use gitlab_copilot_agent.Outside.Keeps.{Holds}
use gitlab_copilot_agent.Threads.{
  AnswerBlock, DiscussionResponse, find_triggering_discussion, first_note,
  parse_discussion_response,
}
use gitlab_copilot_agent.DiscussionPipeline.{DiscussionContext, is_agent_thread, generic_msg}

module _ (env : Environment) (find_block : Text → Option (Text × AnswerBlock)) (event : TaskEvent)
    (mr_iid note_id : ℕ) (agent : AgentIdentity) where
  -- The thread that GitLab listed for the note.
  abbrev pub IsFound : Discussion → Type 0
  IsFound d =
      (l : Log) × (ds : List Discussion) × (env.list_mr_discussions l ≡ ok ds)
      × (find_triggering_discussion ds note_id ≡ some d)

  -- A result that the executor gave.
  abbrev pub IsAnswer : TaskResult → Type 0
  IsAnswer raw = (l : Log) × (task : TaskParams) × (env.execute l task ≡ ok raw)

  -- A notice of an error: one of the fixed texts.
  abbrev pub IsNotice : Text → Type 0
  IsNotice text = (text ≡ generic_msg) ⊎ Any (λ m. text ≡ m) public_messages

  -- The agent's own thread on a line, which the answer calls resolved, where threads are resolved automatically.
  abbrev pub MayResolve : Discussion → Type 0
  MayResolve d =
      (is_agent_thread agent.user_id d.is_inline (first_note d.notes) ≡ true)
      × (event.resolution_behavior ≡ Behavior.auto_resolve)
      × ((raw : TaskResult) × (r : Resolution) × IsAnswer raw
          × ((parse_discussion_response find_block (summary raw)).resolution ≡ some r)
          × (r.status ≡ Status.resolved))

  abbrev pub AllowedCall : Call → Type 0
  AllowedCall (post_mr_comment p m text) = (p ≡ event.project_id) × (m ≡ mr_iid) × IsNotice text
  AllowedCall (create_mr_discussion p m text refs path line) = ⊥
  AllowedCall (reply_to_discussion p m id text) =
      (p ≡ event.project_id)
      × (m ≡ mr_iid)
      × ((d : Discussion) × IsFound d × (id ≡ d.discussion_id))
  AllowedCall (resolve_discussion p m id) =
      (p ≡ event.project_id)
      × (m ≡ mr_iid)
      × ((d : Discussion) × IsFound d × (id ≡ d.discussion_id) × MayResolve d)

  abbrev pub Allowed : Step → Type 0
  Allowed (cloned url branch) = (url ≡ event.clone_url) × (branch ≡ event.branch)
  Allowed asked = Unit
  Allowed (fetched sha) = Unit
  Allowed (wrote path text) = Unit
  Allowed (executed task) = Unit
  Allowed (applied patch) = Unit
  Allowed (committed message) = Unit
  Allowed (pushed branch) =
      (branch ≡ event.branch) × ((raw : TaskResult) × IsAnswer raw × (has_patch raw ≡ true))
  Allowed (called c) = AllowedCall c
  Allowed (removed path) = Unit
  Allowed (branched prefix) = ⊥
  Allowed (opened project source target title description) = ⊥
  Allowed (transitioned key status) = ⊥
  Allowed (commented key text) = ⊥

  -- What the context holds comes from GitLab and from the executor.
  pub record Fits (c : DiscussionContext) : Type 0 where
    pub triggering : (d : Discussion) → c.triggering ≡ some d → IsFound d
    pub raw_result : (raw : TaskResult) → c.raw_result ≡ some raw → IsAnswer raw
    pub response :
        (r : DiscussionResponse)
        → c.response ≡ some r
        → (raw : TaskResult) × IsAnswer raw
          × (r ≡ parse_discussion_response find_block (summary raw))

  abbrev pub Good : Run (Outside DiscussionContext) → Type 0
  Good = Holds Allowed Fits
