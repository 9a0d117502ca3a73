-- ===== src/Webhook/Branches.antt =====
-- What the branches of the endpoint of gitlab_webhook.py, for MRs and for notes, add to the background tasks.
use gitlab_copilot_agent.Prelude.{
  ℕ, Text, text_eq, text_eq_iff, nat_eq, codes, List, [], ◌∷◌, ◌++◌, Bool, true, false, Option,
  none, some, ◌&&◌, ◌==◌, contains, ◌≡◌, refl, ◌⊎◌, inl, inr, Bool-cases, ap,
}
use gitlab_copilot_agent.Effects.{Result, ok, raised, is_exception, Py, Result-cases}
use gitlab_copilot_agent.Concurrency.Protocols.{DeduplicationStore}
use gitlab_copilot_agent.Dedup.Service.{is_review_seen, is_note_seen}
use gitlab_copilot_agent.Discussions.{Discussion, AgentIdentity}
use gitlab_copilot_agent.Registry.{ProjectRegistry}
use gitlab_copilot_agent.Webhook.Payloads.{
  MrPayload, NotePayload, Settings, Response, queued, ignored, skipped, bad_request, Job,
  review_job, discussion_job, App,
}
use gitlab_copilot_agent.Webhook.Projects.{ref_of, resolved_project}
use gitlab_copilot_agent.Webhook.Direct.{is_agent_directed}
use gitlab_copilot_agent.Webhook.{
  validate_webhook_token, is_ascii, handled_actions, is_missing, queue_review, handle_merge_request,
  queue_note, directed_note, identified_note, handle_note,
}

abbrev pub is_queued : Result Response → Bool
is_queued (ok queued) = true
is_queued (ok (ignored _)) = false
is_queued (ok (skipped _)) = false
is_queued (ok (bad_request _)) = false
is_queued (raised _) = false

-- A valid token: the secret is configured, and the header is the secret.
pub validate_webhook_token-ok :
    (received expected : Option Text)
    → validate_webhook_token received expected ≡ ok tt
    → (secret : Text) × (expected ≡ some secret) × (received ≡ some secret)
unfolding validate_webhook_token
validate_webhook_token-ok received none e = cc e
validate_webhook_token-ok none (some expected) e = cc e
validate_webhook_token-ok (some received) (some expected) e =
    elim (Bool-cases (is_ascii received && is_ascii expected)) [
      | inr foreign ↦ cc (rw (validate_webhook_token, foreign) at e)
      | inl ascii ↦ elim (Bool-cases (received == expected)) [
        | inl same ↦ (expected, refl, ap some ((text_eq_iff received expected).0 same))
        | inr differs ↦ cc (rw (validate_webhook_token, ascii, differs) at e)
      ]
    ]

module _ {S W : Type 0} where
  -- A step either leaves the tasks alone and does not answer `queued`, or answers it and adds one task, for
  -- which `P` holds.
  abbrev pub Queues : (Job → Type 0) → Py (App S W) Response → App S W → Type 0
  Queues P m s =
      ((is_queued (m s).0 ≡ false) × ((m s).1.tasks ≡ s.tasks))
      ⊎ ((job : Job) × P job × ((m s).0 ≡ ok queued) × ((m s).1.tasks ≡ s.tasks ++ job ∷ []))

module _ {S W : Type 0} (is_word : ℕ → Bool) (settings : Settings)
    (registry : Option ProjectRegistry) (identity_of : Text → Result AgentIdentity)
    (discussions_of : Text → ℕ → ℕ → Result (List Discussion)) (store : DeduplicationStore S)
    (review_on_push : Bool) where
  -- What the payload of a review that is queued is like.
  unfoldable pub Reviewable : App S W → MrPayload → Type 0
  Reviewable s payload =
      let mr = payload.object_attributes in
      (contains handled_actions mr.action ≡ true)
      × ((mr.action == codes "update" && is_missing mr.oldrev) ≡ false)
      × ((is_review_seen store review_on_push payload.project.id mr.iid mr.last_commit.id s.dedup).0
          ≡ ok false)

  -- What the note of a discussion that is queued is like.
  unfoldable pub Answerable : App S W → NotePayload → AgentIdentity → Type 0
  Answerable s payload agent =
      ((payload.object_attributes.noteable_type == codes "MergeRequest") ≡ true)
      × (identity_of (ref_of (resolved_project registry payload.project.id)) ≡ ok agent)
      × ((payload.user.id == agent.user_id) ≡ false)
      × (is_agent_directed is_word settings registry discussions_of payload agent ≡ ok true)
      × ((is_note_seen store payload.project.id payload.merge_request.iid
            payload.object_attributes.id s.dedup).0
          ≡ ok false)

  reviewable :
      (s : App S W) (payload : MrPayload)
      → contains handled_actions payload.object_attributes.action ≡ true
      → (payload.object_attributes.action == codes "update"
          && is_missing payload.object_attributes.oldrev)
        ≡ false
      → (is_review_seen store review_on_push payload.project.id payload.object_attributes.iid
          payload.object_attributes.last_commit.id s.dedup).0
        ≡ ok false
      → Reviewable s payload
  unfolding Reviewable
  reviewable s payload action fresh unseen = (action, fresh, unseen)

  answerable :
      (s : App S W) (payload : NotePayload) (agent : AgentIdentity)
      → ((payload.object_attributes.noteable_type == codes "MergeRequest") ≡ true)
      → (identity_of (ref_of (resolved_project registry payload.project.id)) ≡ ok agent)
      → ((payload.user.id == agent.user_id) ≡ false)
      → (is_agent_directed is_word settings registry discussions_of payload agent ≡ ok true)
      → (is_note_seen store payload.project.id payload.merge_request.iid
          payload.object_attributes.id s.dedup).0
        ≡ ok false
      → Answerable s payload agent
  unfolding Answerable
  answerable s payload agent on_mr known foreign directed unseen =
      (on_mr, known, foreign, directed, unseen)

  abbrev pub Justifies : App S W → Result MrPayload → Result NotePayload → Job → Type 0
  Justifies s mr note (review_job payload) = (mr ≡ ok payload) × Reviewable s payload
  Justifies s mr note (discussion_job payload agent note_id mr_iid) =
      (note ≡ ok payload)
      × Answerable s payload agent
      × (note_id ≡ payload.object_attributes.id)
      × (mr_iid ≡ payload.merge_request.iid)

  -- What a step of a payload's branch may queue.
  abbrev pub OfReview : App S W → MrPayload → Job → Type 0
  OfReview s payload job = (job ≡ review_job payload) × Reviewable s payload

  abbrev pub OfNote : App S W → NotePayload → Job → Type 0
  OfNote s payload job =
      (agent : AgentIdentity) × (job
        ≡ discussion_job payload agent payload.object_attributes.id payload.merge_request.iid)
      × Answerable s payload agent

  pub handle_merge_request-Queues :
      (payload : MrPayload) (s : App S W)
      → Queues
          (OfReview s payload)
          (handle_merge_request is_word settings registry identity_of discussions_of store
            review_on_push payload)
          s
  unfolding handle_merge_request queue_review
  handle_merge_request-Queues payload s =
      let mr = payload.object_attributes in
      elim (Bool-cases (contains handled_actions mr.action)) [
        | inr no_action ↦ rw no_action (inl (refl, refl))
        | inl action ↦ elim (Bool-cases (mr.action == codes "update" && is_missing mr.oldrev)) [
          | inl stale ↦ rw (action, stale) (inl (refl, refl))
          | inr fresh ↦
              elim (Result-cases
                (is_review_seen store review_on_push payload.project.id mr.iid mr.last_commit.id
                  s.dedup).0) [
                    | inr (e, failed) ↦ rw (action, fresh, failed) (inl (refl, refl))
                    | inl (true, seen) ↦ rw (action, fresh, seen) (inl (refl, refl))
                    | inl (false, unseen) ↦
                        let just = reviewable s payload action fresh unseen in
                        rw (action, fresh, unseen)
                          (inr (review_job payload, (refl, just), refl, refl))
                  ]
        ]
      ]

  directed_note-Queues :
      (payload : NotePayload) (agent : AgentIdentity) (s : App S W)
      → ((payload.object_attributes.noteable_type == codes "MergeRequest") ≡ true)
      → (identity_of (ref_of (resolved_project registry payload.project.id)) ≡ ok agent)
      → ((payload.user.id == agent.user_id) ≡ false)
      → (d : Bool) → is_agent_directed is_word settings registry discussions_of payload agent ≡ ok d
      → Queues
          (OfNote s payload)
          (directed_note is_word settings registry identity_of discussions_of store review_on_push
            payload agent d)
          s
  unfolding directed_note queue_note
  directed_note-Queues payload agent s on_mr known foreign false _ = inl (refl, refl)
  directed_note-Queues payload agent s on_mr known foreign true directed =
      elim (Result-cases
        (is_note_seen store payload.project.id payload.merge_request.iid
          payload.object_attributes.id s.dedup).0) [
            | inr (e, failed) ↦ rw failed (inl (refl, refl))
            | inl (true, seen) ↦ rw seen (inl (refl, refl))
            | inl (false, unseen) ↦
                let just = answerable s payload agent on_mr known foreign directed unseen in
                rw unseen (inr (_, (agent, refl, just), refl, refl))
          ]

  pub handle_note-Queues :
      (payload : NotePayload) (s : App S W)
      → Queues
          (OfNote s payload)
          (handle_note is_word settings registry identity_of discussions_of store review_on_push
            payload)
          s
  unfolding handle_note identified_note
  handle_note-Queues payload s =
      elim (Bool-cases (payload.object_attributes.noteable_type == codes "MergeRequest")) [
        | inr elsewhere ↦ rw elsewhere (inl (refl, refl))
        | inl on_mr ↦
            elim (Result-cases
              (identity_of (ref_of (resolved_project registry payload.project.id)))) [
                | inr (e, unknown) ↦ elim (Bool-cases (is_exception e)) [
                  | inl a ↦ rw (on_mr, unknown, a) (inl (refl, refl))
                  | inr b ↦ rw (on_mr, unknown, b) (inl (refl, refl))
                ]
                | inl (agent, known) ↦ elim (Bool-cases (payload.user.id == agent.user_id)) [
                  | inl own ↦ rw (on_mr, known, own) (inl (refl, refl))
                  | inr foreign ↦
                      elim (Result-cases (
                        is_agent_directed is_word settings registry discussions_of payload agent)) [
                          | inr (e, failed) ↦ rw (on_mr, known, foreign, failed) (inl (refl, refl))
                          | inl (d, directed) ↦
                              rw (on_mr, known, foreign, directed)
                                (directed_note-Queues payload agent s on_mr known foreign d
                                  directed)
                        ]
                ]
              ]
      ]
