-- ===== src/ReviewPipeline/Permitted.antt =====
-- What a run of the review pipeline may do outside.
pub mod Posts
pub mod Context
pub mod Diff
pub mod Stages
use gitlab_copilot_agent.Prelude.{
  ℕ, nat_eq, ℤ, int_eq, Text, text_eq, pair_eq, contains, List, [], ◌∷◌, ◌++◌, Bool, true, false,
  ◌||◌, not, Option, none, some, ◌≡◌, refl, ◌⊎◌, Any, codes, inl, inr, arith, if◌then◌else◌,
  Bool-cases,
}
use gitlab_copilot_agent.Effects.{ok}
use gitlab_copilot_agent.Gitlab.{
  Call, post_mr_comment, create_mr_discussion, reply_to_discussion, resolve_discussion,
}
use gitlab_copilot_agent.Discussions.{Discussion, AgentIdentity, DiscussionHistory}
use gitlab_copilot_agent.Events.{TaskEvent}
use gitlab_copilot_agent.Comments.Parsed.{Behavior}
use gitlab_copilot_agent.Comments.Hunks.{is_valid_position}
use gitlab_copilot_agent.Comments.Post.{diff_files, valid_positions}
use gitlab_copilot_agent.Tasks.{TaskParams}
use gitlab_copilot_agent.Pipeline.{Run}
use gitlab_copilot_agent.Outside.{
  MrDetails, Step, cloned, asked, fetched, wrote, executed, applied, committed, pushed, called,
  removed, branched, opened, transitioned, commented, Log, Environment, Outside,
}
use gitlab_copilot_agent.Outside.Keeps.{Holds}
use gitlab_copilot_agent.Threads.{first_note}
use gitlab_copilot_agent.ReviewPipeline.{ReviewContext, started_by, ids_of, allowed_ids}

-- An open thread on a line that the agent started.
unfoldable pub IsOwn : ℕ → Text → Discussion → Type 0
IsOwn user_id id d =
    (d.is_resolved ≡ false)
    × (d.is_inline ≡ true)
    × (started_by user_id (first_note d.notes) ≡ true)
    × (id ≡ d.discussion_id)

module _ (env : Environment) (event : TaskEvent) (mr_iid : ℕ) where
  -- What GitLab says of the MR.
  abbrev pub IsMr : MrDetails → Type 0
  IsMr mr = (l : Log) × (env.get_mr_details l ≡ ok mr)

  abbrev pub IsHistory : DiscussionHistory → Type 0
  IsHistory h =
      ((l : Log) × (env.list_mr_discussions l ≡ ok h.discussions))
      × ((l : Log) × (env.resolve_identity l ≡ ok h.agent))

  -- One of the agent's own open threads, as GitLab lists them.
  abbrev pub IsOwnThread : Text → Type 0
  IsOwnThread id =
      (h : DiscussionHistory) × IsHistory h × Any (IsOwn h.agent.user_id id) h.discussions

  abbrev pub AllowedCall : Call → Type 0
  AllowedCall (post_mr_comment p m text) = (p ≡ event.project_id) × (m ≡ mr_iid)
  AllowedCall (create_mr_discussion p m text refs path line) =
      (p ≡ event.project_id)
      × (m ≡ mr_iid)
      × ((mr : MrDetails) × IsMr mr
          × (refs ≡ mr.diff_refs)
          × (contains (diff_files mr.changes) path ≡ true)
          × (is_valid_position path line (valid_positions mr.changes) ≡ true))
  AllowedCall (reply_to_discussion p m id text) =
      (p ≡ event.project_id) × (m ≡ mr_iid) × IsOwnThread id
  AllowedCall (resolve_discussion p m id) =
      (p ≡ event.project_id)
      × (m ≡ mr_iid)
      × IsOwnThread id
      × (event.resolution_behavior ≡ Behavior.auto_resolve)

  abbrev pub Allowed : Step → Type 0
  Allowed (cloned url branch) = (url ≡ event.clone_url) × (branch ≡ event.branch)
  Allowed asked = Unit
  Allowed (fetched sha) = Unit
  Allowed (wrote path text) = Unit
  Allowed (executed task) = Unit
  Allowed (applied patch) = ⊥
  Allowed (committed message) = ⊥
  Allowed (pushed branch) = ⊥
  Allowed (called c) = AllowedCall c
  Allowed (removed path) = Unit
  Allowed (branched prefix) = ⊥
  Allowed (opened project source target title description) = ⊥
  Allowed (transitioned key status) = ⊥
  Allowed (commented key text) = ⊥

  -- What the context holds comes from GitLab.
  pub record Fits (c : ReviewContext) : Type 0 where
    pub mr_details : (mr : MrDetails) → c.mr_details ≡ some mr → IsMr mr
    pub discussion_history : (h : DiscussionHistory) → c.discussion_history ≡ some h → IsHistory h

  abbrev pub Good : Run (Outside ReviewContext) → Type 0
  Good = Holds Allowed Fits

-- The allowlist holds the agent's own open threads only.
ids_of-IsOwn :
    (user_id : ℕ) (ds : List Discussion) (id : Text)
    → contains (ids_of user_id ds) id ≡ true
    → Any (IsOwn user_id id) ds
unfolding ids_of contains IsOwn
ids_of-IsOwn user_id [] id h = cc h
ids_of-IsOwn user_id (d ∷ ds) id h =
    ground (arith, h, ids_of-IsOwn user_id ds id, text_eq.beq_iff id d.discussion_id)

pub allowed_ids-IsOwn :
    (o : Option DiscussionHistory) (id : Text)
    → contains (allowed_ids o) id ≡ true
    → (h : DiscussionHistory) × (o ≡ some h) × Any (IsOwn h.agent.user_id id) h.discussions
unfolding allowed_ids contains
allowed_ids-IsOwn none id e = cc e
allowed_ids-IsOwn (some h) id e = (h, refl, ids_of-IsOwn h.agent.user_id h.discussions id e)
