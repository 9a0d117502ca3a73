-- ===== src/Webhook/Queue.antt =====
-- What the endpoint of gitlab_webhook.py adds to the background tasks.
use gitlab_copilot_agent.Prelude.{
  ℕ, Text, text_eq, nat_eq, codes, List, Bool, true, false, Option, none, some, ◌==◌, ◌≡◌, refl,
  inl, inr, Bool-cases,
}
use gitlab_copilot_agent.Effects.{Result, ok, Result-cases}
use gitlab_copilot_agent.Concurrency.Protocols.{DeduplicationStore}
use gitlab_copilot_agent.Discussions.{Discussion, AgentIdentity}
use gitlab_copilot_agent.Registry.{ProjectRegistry}
use gitlab_copilot_agent.Webhook.Payloads.{
  MrPayload, NotePayload, Body, Settings, Job, review_job, discussion_job, App,
}
use gitlab_copilot_agent.Webhook.{
  validate_webhook_token, is_refused, dispatch, unless_refused, handle_body, webhook,
}
use gitlab_copilot_agent.Webhook.Branches.{
  validate_webhook_token-ok, Queues, Justifies, handle_merge_request-Queues, handle_note-Queues,
}

module _ {S W : Type 0} (is_word : ℕ → Bool) (settings : Settings)
    (registry : Option ProjectRegistry) (identity_of : Text → Result AgentIdentity)
    (discussions_of : Text → ℕ → ℕ → Result (List Discussion)) (store : DeduplicationStore S)
    (review_on_push : Bool) where
  dispatch-Queues :
      (mr : Result MrPayload) (note : Result NotePayload) (kind : Option Text) (s : App S W)
      → Queues
          (Justifies is_word settings registry identity_of discussions_of store review_on_push s mr
            note)
          (dispatch is_word settings registry identity_of discussions_of store review_on_push mr
            note kind)
          s
  unfolding dispatch
  dispatch-Queues mr note none s = inl (refl, refl)
  dispatch-Queues mr note (some kind) s = elim (Bool-cases (kind == codes "merge_request")) [
    | inl is_mr ↦ elim (Result-cases mr) [
      | inr (e, bad) ↦ rw (is_mr, bad) (inl (refl, refl))
      | inl (payload, good) ↦
          elim (handle_merge_request-Queues is_word settings registry identity_of discussions_of
            store review_on_push payload s) [
              | inl keeps ↦ rw (is_mr, good) (inl keeps)
              | inr (job, (same, just), said, added) ↦
                  rw (is_mr, good) (inr (review_job payload, (refl, just), said, rw⁻¹ same added))
            ]
    ]
    | inr not_mr ↦ elim (Bool-cases (kind == codes "note")) [
      | inr neither ↦ rw (not_mr, neither) (inl (refl, refl))
      | inl is_note ↦ elim (Result-cases note) [
        | inr (e, bad) ↦ rw (not_mr, is_note, bad) (inl (refl, refl))
        | inl (payload, good) ↦
            elim (handle_note-Queues is_word settings registry identity_of discussions_of store
              review_on_push payload s) [
                | inl keeps ↦ rw (not_mr, is_note, good) (inl keeps)
                | inr (job, (agent, same, just), said, added) ↦
                    let made =
                      discussion_job payload agent payload.object_attributes.id
                        payload.merge_request.iid in
                    rw (not_mr, is_note, good)
                      (inr (made, (refl, just, refl, refl), said, rw⁻¹ same added))
              ]
      ]
    ]
  ]

  -- The conditions on the request itself.
  abbrev pub Admits : App S W → Option Text → Option Body → Job → Type 0
  Admits s token body job =
      ((secret : Text) × (settings.gitlab_webhook_secret ≡ some secret) × (token ≡ some secret))
      × ((b : Body) × (body ≡ some b)
          × (is_refused settings.allowed_project_ids b.project_id ≡ ok false)
          × Justifies is_word settings registry identity_of discussions_of store review_on_push s
              b.as_merge_request b.as_note job)

  -- A request either leaves the background tasks alone and is not answered by `queued`, or is answered by it
  -- and adds exactly one task. Then a secret is configured and its token is that secret, its project is not refused by
  -- the allowlist, and the task is the review of its own payload, whose action is handled, which is no update without
  -- new commits, and which deduplication has not seen; or it is the discussion of its own note, on
  -- a merge request, by somebody other than the agent, directed at the agent and not seen before.
  pub webhook-Queues_justified :
      (token : Option Text) (body : Option Body) (s : App S W)
      → Queues
          (Admits s token body)
          (webhook is_word settings registry identity_of discussions_of store review_on_push token
            body)
          s
  unfolding webhook handle_body unless_refused
  webhook-Queues_justified token none s =
      elim (Result-cases (validate_webhook_token token settings.gitlab_webhook_secret)) [
        | inr (e, bad) ↦ rw bad (inl (refl, refl))
        | inl (u, valid) ↦ rw valid (inl (refl, refl))
      ]
  webhook-Queues_justified token (some b) s =
      elim (Result-cases (validate_webhook_token token settings.gitlab_webhook_secret)) [
        | inr (e, bad) ↦ rw bad (inl (refl, refl))
        | inl (u, valid) ↦
            elim (Result-cases (is_refused settings.allowed_project_ids b.project_id)) [
              | inr (e, bad) ↦ rw (valid, bad) (inl (refl, refl))
              | inl (true, refused) ↦ rw (valid, refused) (inl (refl, refl))
              | inl (false, allowed) ↦ elim (Result-cases b.object_kind) [
                | inr (e, bad) ↦ rw (valid, allowed, bad) (inl (refl, refl))
                | inl (kind, read) ↦
                    let (secret, set, sent) =
                      validate_webhook_token-ok token settings.gitlab_webhook_secret valid in
                    elim (dispatch-Queues b.as_merge_request b.as_note kind s) [
                      | inl keeps ↦ simp (valid, allowed, read) (inl keeps)
                      | inr (job, just, said, added) ↦
                          simp (valid, allowed, read)
                            (inr
                              (job, ((secret, set, sent), (b, refl, allowed, just)), said, added))
                    ]
              ]
            ]
      ]
