-- ===== src/Webhook.antt =====
-- gitlab_webhook.py: the endpoint. Parsing JSON and pydantic's validation of a payload are given: a
-- request comes with their results.
pub mod Payloads
pub mod Projects
pub mod Direct
pub mod Branches
pub mod Queue
pub mod Background
use gitlab_copilot_agent.Prelude.{
  ℕ, Text, text_eq, nat_eq, codes, List, [], ◌∷◌, ◌++◌, Bool, true, false, Option, none, some, ◌||◌,
  ◌&&◌, not, ◌==◌, if◌then◌else◌, contains, leb,
}
use gitlab_copilot_agent.Effects.{
  Result, ok, raised, Exn, other, http_exception, is_exception, Py, pure, raise, gets, modify, lift,
  continue, handle, ◌>>=◌, ◌>>◌, try_except,
}
use gitlab_copilot_agent.Comments.Parsed.{Behavior}
use gitlab_copilot_agent.Concurrency.Protocols.{DeduplicationStore}
use gitlab_copilot_agent.Dedup.Service.{
  DedupState, is_review_seen, mark_review, is_note_seen, mark_note,
}
use gitlab_copilot_agent.Discussions.{Discussion, AgentIdentity}
use gitlab_copilot_agent.Events.{TaskEvent, TaskType, TriggerSource, validate_task_fields}
use gitlab_copilot_agent.Mentions.{mentions, participated}
use gitlab_copilot_agent.Registry.{ProjectRegistry, ResolvedProject, get_by_project_id}
use Payloads.{
  MrPayload, NotePayload, Body, Settings, Response, queued, ignored, skipped, bad_request, Job,
  review_job, discussion_job, App, on_dedup, on_world, add_task,
}
use Projects.{ref_of, resolved_project}
use Direct.{is_agent_directed}

-- `str` is ASCII only, which `hmac.compare_digest` requires of both.
unfoldable pub is_ascii : Text → Bool
is_ascii [] = true
is_ascii (c ∷ s) = leb c 127 && is_ascii s

-- `_validate_webhook_token`
unfoldable pub validate_webhook_token : Option Text → Option Text → Result (Unit {0})
validate_webhook_token received none =
    raised (record { kind = http_exception 403; message = codes "Webhook secret not configured" })
validate_webhook_token none (some expected) =
    raised (record { kind = http_exception 401; message = codes "Invalid webhook token" })
validate_webhook_token (some received) (some expected) =
    if not (is_ascii received && is_ascii expected)
    then raised (record {
      kind = other;
      message = codes "comparing strings with non-ASCII characters is not supported";
    })
    else if received == expected
    then ok tt
    else raised (record { kind = http_exception 401; message = codes "Invalid webhook token" })

-- `HANDLED_ACTIONS`
abbrev pub handled_actions : List Text
handled_actions = codes "open" ∷ codes "update" ∷ codes "reopen" ∷ []

abbrev pub is_missing : Option Text → Bool
is_missing none = true
is_missing (some _) = false

-- The allowlist, `None` for every project: `project_id not in allowed_project_ids`.
-- Without an allowlist the body's project is not read.
unfoldable pub is_refused : Option (List ℕ) → Result (Option ℕ) → Result Bool
is_refused none project_id = ok false
is_refused (some ids) (raised e) = raised e
is_refused (some ids) (ok none) = ok true
is_refused (some ids) (ok (some project_id)) = ok (not (contains ids project_id))

-- `identity_of` is `credential_registry.resolve_identity`, as it answers to this request.
module _ {S W : Type 0} (is_word : ℕ → Bool) (settings : Settings)
    (registry : Option ProjectRegistry) (identity_of : Text → Result AgentIdentity)
    (discussions_of : Text → ℕ → ℕ → Result (List Discussion)) (store : DeduplicationStore S)
    (review_on_push : Bool) where
  -- The end of the branch `object_kind == "merge_request"`.
  unfoldable pub queue_review : MrPayload → Bool → Py (App S W) Response
  queue_review payload true = pure (skipped (codes "already reviewed"))
  queue_review payload false = add_task (review_job payload)

  unfoldable pub handle_merge_request : MrPayload → Py (App S W) Response
  handle_merge_request payload =
      let mr = payload.object_attributes in
      let asked =
        on_dedup (is_review_seen store review_on_push payload.project.id mr.iid mr.last_commit.id)
        >>= queue_review payload in
      if not (contains handled_actions mr.action)
      then pure (ignored (codes "action '" ++ (mr.action ++ codes "' not handled")))
      else if mr.action == codes "update" && is_missing mr.oldrev
      then pure (ignored (codes "no new commits"))
      else asked

  -- The end of the branch `object_kind == "note"`.
  unfoldable pub queue_note : NotePayload → AgentIdentity → Bool → Py (App S W) Response
  queue_note payload agent true = pure (skipped (codes "already processed"))
  queue_note payload agent false =
      add_task (discussion_job payload agent payload.object_attributes.id payload.merge_request.iid)

  unfoldable pub directed_note : NotePayload → AgentIdentity → Bool → Py (App S W) Response
  directed_note payload agent false = pure (ignored (codes "not directed at agent"))
  directed_note payload agent true =
      on_dedup (
        is_note_seen store payload.project.id payload.merge_request.iid
          payload.object_attributes.id)
      >>= queue_note payload agent

  unfoldable pub identified_note : NotePayload → Result AgentIdentity → Py (App S W) Response
  identified_note payload (raised e) =
      if is_exception e then pure (ignored (codes "identity resolution failed")) else raise e
  identified_note payload (ok agent) =
      if payload.user.id == agent.user_id
      then pure (ignored (codes "self-comment"))
      else lift (is_agent_directed is_word settings registry discussions_of payload agent)
        >>= directed_note payload agent

  unfoldable pub handle_note : NotePayload → Py (App S W) Response
  handle_note payload =
      if not (payload.object_attributes.noteable_type == codes "MergeRequest")
      then pure (ignored (codes "not an MR note"))
      else identified_note payload
          (identity_of (ref_of (resolved_project registry payload.project.id)))

  -- By `object_kind`, with what validation makes of the body.
  unfoldable pub dispatch :
      Result MrPayload → Result NotePayload → Option Text → Py (App S W) Response
  dispatch as_merge_request as_note none = pure (ignored (codes "unhandled event: None"))
  dispatch as_merge_request as_note (some kind) =
      if kind == codes "merge_request"
      then lift as_merge_request >>= handle_merge_request
      else if kind == codes "note"
      then lift as_note >>= handle_note
      else pure (ignored (codes "unhandled event: " ++ kind))

  -- What follows the allowlist's answer.
  unfoldable pub unless_refused : Body → Bool → Py (App S W) Response
  unless_refused body true = pure (ignored (codes "project not in allowlist"))
  unless_refused body false = lift body.object_kind >>= dispatch body.as_merge_request body.as_note

  unfoldable pub handle_body : Option Body → Py (App S W) Response
  handle_body none = pure (bad_request (codes "Invalid JSON"))
  handle_body (some body) =
      lift (is_refused settings.allowed_project_ids body.project_id) >>= unless_refused body

  -- `webhook`
  unfoldable pub webhook : Option Text → Option Body → Py (App S W) Response
  webhook x_gitlab_token body =
      lift (validate_webhook_token x_gitlab_token settings.gitlab_webhook_secret)
      >> handle_body body
