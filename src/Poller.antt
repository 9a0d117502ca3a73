-- ===== src/Poller.antt =====
-- gitlab_poller.py: one poll of the projects. GitLab's lists, the agent's identity and the pipelines are
-- given, as coroutines on the world; the cache of clients per credential is left out.
pub mod Marks
pub mod Lost
pub mod Notes
pub mod Cycle
use mathlib.Core.List.{reverse}
use gitlab_copilot_agent.Prelude.{
  ℕ, ◌*◌, ◌^◌, suc, min, Text, text_eq, nat_eq, codes, List, [], ◌∷◌, ◌++◌, Bool, true, false,
  Option, none, some, ◌||◌, ◌&&◌, not, ◌==◌, if◌then◌else◌, ltb, is_some,
}
use gitlab_copilot_agent.Effects.{
  Result, ok, raised, Exn, is_exception, is_task_execution_error, Py, pure, lift, continue, handle,
  ◌>>=◌, ◌>>◌, try_except,
}
use gitlab_copilot_agent.Comments.Parsed.{Behavior}
use gitlab_copilot_agent.Concurrency.Protocols.{DeduplicationStore}
use gitlab_copilot_agent.Dedup.Service.{
  DedupState, is_review_seen, mark_review, is_note_seen, mark_note,
}
use gitlab_copilot_agent.Discussions.{DiscussionNote, Discussion, AgentIdentity}
use gitlab_copilot_agent.Events.{TaskEvent, TaskType, TriggerSource, validate_task_fields}
use gitlab_copilot_agent.Incremental.{strip_prefix}
use gitlab_copilot_agent.Mentions.{mentions, wrote_any}
use gitlab_copilot_agent.Registry.{ProjectRegistry, ResolvedProject}
use gitlab_copilot_agent.Webhook.Projects.{resolved_project, ref_of, behavior_of}

-- `MRListItem`, with the fields that the poller reads
pub record MrItem : Type 0 where
  pub iid : ℕ
  pub sha : Option Text
  pub web_url : Text
  pub source_branch : Text
  pub target_branch : Text

-- What a scan of a project changes.
pub record Scan (S W : Type 0) : Type 0 where
  pub dedup : DedupState S
  pub world : W

-- The poller's own state.
pub record Poller (S W : Type 0) : Type 0 where
  pub scan : Scan S W
  pub watermark : Option Text
  pub note_watermark : Option Text
  pub failures : ℕ

-- `sleep_seconds`
unfoldable pub sleep_seconds : ℕ → ℕ → ℕ
sleep_seconds interval failures = min (interval * 2 ^ failures) 300

-- `url.split("/-/")[0]`
unfoldable pub before_dash : Text → Text
before_dash [] = []
before_dash (c ∷ s) = if is_some (strip_prefix (codes "/-/") (c ∷ s)) then [] else c ∷ before_dash s

unfoldable pub drop_slashes : Text → Text
drop_slashes [] = []
drop_slashes (c ∷ s) = if c == 47 then drop_slashes s else c ∷ s

rest_or : Text → Option Text → Text
rest_or s none = s
rest_or s (some rest) = rest

-- `project_url.removeprefix(gitlab_url).strip("/")`
unfoldable pub namespace_of : Text → Text → Text
unfolding rest_or
namespace_of gitlab_url project_url = reverse (
    drop_slashes
      (reverse (drop_slashes (rest_or project_url (strip_prefix gitlab_url project_url)))))

-- `self._resolve_token(project_id) or self._settings.gitlab_token`: an empty token counts as none.
unfoldable pub token_or : Text → Option ResolvedProject → Text
token_or fallback none = fallback
token_or fallback (some p) = if p.token == [] then fallback else p.token

-- The settings that the poller reads.
pub record PollSettings : Type 0 where
  pub gitlab_url : Text
  pub gitlab_token : Text
  pub resolution_behavior : Behavior

-- The event of `_process_mr`.
unfoldable pub mr_event : PollSettings → Option ResolvedProject → ℕ → MrItem → Text → TaskEvent
mr_event settings resolved project_id mr sha = record {
  task_type = TaskType.review;
  project_id = project_id;
  repo = namespace_of settings.gitlab_url (before_dash mr.web_url);
  clone_url = before_dash mr.web_url ++ codes ".git";
  branch = mr.source_branch;
  target_branch = mr.target_branch;
  mr_iid = some mr.iid;
  head_sha = some sha;
  trigger_source = TriggerSource.gitlab_poller;
  token = token_or settings.gitlab_token resolved;
  credential_ref = ref_of resolved;
  resolution_behavior = behavior_of settings.resolution_behavior resolved;
  note_id = none;
  discussion_id = none;
  note_body = none;
  jira_issue_key = none;
}

-- The event of `_process_notes`.
unfoldable pub mention_event :
    PollSettings → Option ResolvedProject → ℕ → MrItem → Discussion → DiscussionNote → TaskEvent
mention_event settings resolved project_id mr disc note = record {
  task_type = TaskType.discussion;
  project_id = project_id;
  repo = namespace_of settings.gitlab_url (before_dash mr.web_url);
  clone_url = before_dash mr.web_url ++ codes ".git";
  branch = mr.source_branch;
  target_branch = mr.target_branch;
  mr_iid = some mr.iid;
  head_sha = none;
  trigger_source = TriggerSource.gitlab_poller;
  token = token_or settings.gitlab_token resolved;
  credential_ref = ref_of resolved;
  resolution_behavior = behavior_of settings.resolution_behavior resolved;
  note_id = some note.note_id;
  discussion_id = some disc.discussion_id;
  note_body = some note.body;
  jira_issue_key = none;
}

module _ {S : Type 0} where
  -- `except TaskExecutionError:` with nothing but a log line, before what follows in either case
  abbrev pub handle_task : Result (Unit {0}) × S → Result (Unit {0}) × S
  handle_task (ok u, s) = (ok u, s)
  handle_task (raised e, s) = if is_task_execution_error e then (ok tt, s) else (raised e, s)

module _ {S W : Type 0} where
  abbrev pub in_dedup : {A : Type 0} → Py (DedupState S) A → Py (Scan S W) A
  in_dedup m s = let (r, d) = m s.dedup in (r, record s { dedup = d })

  abbrev pub in_world : {A : Type 0} → Py W A → Py (Scan S W) A
  in_world m s = let (r, w) = m s.world in (r, record s { world = w })

module _ {T : Type 0} where
  -- `if await ...is_..._seen(...): return`
  unfoldable pub unless_seen : Py T (Unit {0}) → Bool → Py T (Unit {0})
  unless_seen m true = pure tt
  unless_seen m false = m

-- `run` is `run_pipeline` on the pipeline made for an event.
module _ {S W : Type 0} (settings : PollSettings) (registry : Option ProjectRegistry)
    (store : DeduplicationStore S) (review_on_push : Bool) (run : TaskEvent → Py W (Unit {0})) where
  -- The review of an MR that was not seen, and its mark, after a success or a `TaskExecutionError`.
  unfoldable pub review_mr : ℕ → MrItem → Text → Py (Scan S W) (Unit {0})
  review_mr project_id mr sha = do
    event ← lift (
        validate_task_fields
          (mr_event settings (resolved_project registry project_id) project_id mr sha))
    λ s. handle_task (in_world (run event) s)
    in_dedup (mark_review store review_on_push project_id mr.iid sha)

  process_sha : ℕ → MrItem → Option Text → Py (Scan S W) (Unit {0})
  process_sha project_id mr none = pure tt
  process_sha project_id mr (some sha) =
      in_dedup (is_review_seen store review_on_push project_id mr.iid sha)
      >>= unless_seen (review_mr project_id mr sha)

  -- `_process_mr`
  unfoldable pub process_mr : ℕ → MrItem → Py (Scan S W) (Unit {0})
  unfolding process_sha
  process_mr project_id mr = process_sha project_id mr mr.sha
