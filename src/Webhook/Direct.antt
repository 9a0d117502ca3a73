-- ===== src/Webhook/Direct.antt =====
-- `_is_agent_directed` of gitlab_webhook.py.
use gitlab_copilot_agent.Prelude.{
  ℕ, Text, text_eq, nat_eq, List, [], ◌∷◌, Bool, true, false, Option, none, some, if◌then◌else◌,
}
use gitlab_copilot_agent.Effects.{Result, ok, raised, is_exception}
use gitlab_copilot_agent.Discussions.{Discussion, AgentIdentity}
use gitlab_copilot_agent.Mentions.{mentions, participated}
use gitlab_copilot_agent.Registry.{ProjectRegistry}
use gitlab_copilot_agent.Webhook.Payloads.{NotePayload, Settings}
use gitlab_copilot_agent.Webhook.Projects.{resolve_project_token}

-- `is_word` is `\w`; `discussions_of` is `list_mr_discussions` with a project's token.
module _ (is_word : ℕ → Bool) (settings : Settings) (registry : Option ProjectRegistry)
    (discussions_of : Text → ℕ → ℕ → Result (List Discussion)) where
  -- The participation check, for the discussions fetched: a failure to fetch means no.
  unfoldable pub takes_part : ℕ → Text → Result (List Discussion) → Result Bool
  takes_part user_id discussion_id (ok ds) = ok (participated user_id discussion_id ds)
  takes_part user_id discussion_id (raised e) = if is_exception e then ok false else raised e

  -- `if discussion_id and ...`
  unfoldable pub in_thread : NotePayload → ℕ → Option Text → Result Bool
  in_thread payload user_id none = ok false
  in_thread payload user_id (some []) = ok false
  in_thread payload user_id (some (c ∷ id)) =
      let token = resolve_project_token payload.project.id registry settings.gitlab_token in
      takes_part user_id (c ∷ id)
        (discussions_of token payload.project.id payload.merge_request.iid)

  -- `_is_agent_directed`
  unfoldable pub is_agent_directed : NotePayload → AgentIdentity → Result Bool
  is_agent_directed payload agent =
      if mentions is_word agent.username payload.object_attributes.note
      then ok true
      else in_thread payload agent.user_id payload.object_attributes.discussion_id
