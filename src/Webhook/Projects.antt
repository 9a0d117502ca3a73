-- ===== src/Webhook/Projects.antt =====
-- The settings of a project and the events of the background tasks of gitlab_webhook.py.
use gitlab_copilot_agent.Prelude.{ℕ, Text, text_eq, nat_eq, codes, Option, none, some}
use gitlab_copilot_agent.Comments.Parsed.{Behavior}
use gitlab_copilot_agent.Events.{TaskEvent, TaskType, TriggerSource}
use gitlab_copilot_agent.Registry.{ProjectRegistry, ResolvedProject, get_by_project_id}
use gitlab_copilot_agent.Webhook.Payloads.{MrPayload, NotePayload, Settings}

-- `registry.get_by_project_id(project_id)`, where there is a registry
unfoldable pub resolved_project : Option ProjectRegistry → ℕ → Option ResolvedProject
resolved_project none project_id = none
resolved_project (some registry) project_id = get_by_project_id registry project_id

token_of : Text → Option ResolvedProject → Text
token_of fallback_token none = fallback_token
token_of fallback_token (some p) = p.token

-- `_resolve_project_token`
unfoldable pub resolve_project_token : ℕ → Option ProjectRegistry → Text → Text
unfolding token_of
resolve_project_token project_id registry fallback_token =
    token_of fallback_token (resolved_project registry project_id)

-- `credential_ref` and `resolution_behavior` of a project, with their defaults.
unfoldable pub ref_of : Option ResolvedProject → Text
ref_of none = codes "default"
ref_of (some p) = p.credential_ref

unfoldable pub behavior_of : Behavior → Option ResolvedProject → Behavior
behavior_of fallback none = fallback
behavior_of fallback (some p) = p.resolution_behavior

-- The event of `_process_review`.
unfoldable pub review_event : Settings → Option ProjectRegistry → MrPayload → TaskEvent
review_event settings registry payload =
    let mr = payload.object_attributes in
    let resolved = resolved_project registry payload.project.id in
    record {
      task_type = TaskType.review;
      project_id = payload.project.id;
      repo = payload.project.path_with_namespace;
      clone_url = payload.project.git_http_url;
      branch = mr.source_branch;
      target_branch = mr.target_branch;
      mr_iid = some mr.iid;
      head_sha = some mr.last_commit.id;
      trigger_source = TriggerSource.webhook;
      token = resolve_project_token payload.project.id registry settings.gitlab_token;
      credential_ref = ref_of resolved;
      resolution_behavior = behavior_of settings.resolution_behavior resolved;
      note_id = none;
      discussion_id = none;
      note_body = none;
      jira_issue_key = none;
    }

-- The event of `_process_discussion`.
unfoldable pub discussion_event : Settings → Option ProjectRegistry → NotePayload → TaskEvent
discussion_event settings registry payload =
    let resolved = resolved_project registry payload.project.id in
    record {
      task_type = TaskType.discussion;
      project_id = payload.project.id;
      repo = payload.project.path_with_namespace;
      clone_url = payload.project.git_http_url;
      branch = payload.merge_request.source_branch;
      target_branch = payload.merge_request.target_branch;
      mr_iid = some payload.merge_request.iid;
      head_sha = none;
      trigger_source = TriggerSource.webhook;
      token = resolve_project_token payload.project.id registry settings.gitlab_token;
      credential_ref = ref_of resolved;
      resolution_behavior = behavior_of settings.resolution_behavior resolved;
      note_id = some payload.object_attributes.id;
      discussion_id = payload.object_attributes.discussion_id;
      note_body = some payload.object_attributes.note;
      jira_issue_key = none;
    }
