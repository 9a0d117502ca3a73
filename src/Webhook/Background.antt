-- ===== src/Webhook/Background.antt =====
-- `_process_review` and `_process_discussion` of gitlab_webhook.py: the tasks that run after the answer.
use gitlab_copilot_agent.Prelude.{
  ℕ, Bool, true, Option, nat_eq, ◌==◌, if◌then◌else◌, ◌≡◌, ◌≢◌, refl, inl, inr, Bool-cases,
}
use gitlab_copilot_agent.Effects.{
  Result, ok, raised, Exn, is_exception, Py, pure, lift, handle, ◌>>=◌, ◌>>◌, try_except,
}
use gitlab_copilot_agent.Concurrency.Protocols.{DeduplicationStore}
use gitlab_copilot_agent.Dedup.Service.{is_review_seen, mark_review, mark_note}
use gitlab_copilot_agent.Dedup.Service.Reviews.{IsReady, is_review_seen-mark_review}
use gitlab_copilot_agent.Events.{TaskEvent, validate_task_fields, check_fields, checked}
use gitlab_copilot_agent.Registry.{ProjectRegistry}
use gitlab_copilot_agent.Webhook.Payloads.{
  MrPayload, NotePayload, Settings, App, on_dedup, on_world,
}
use gitlab_copilot_agent.Webhook.Projects.{review_event, discussion_event}

-- `finally:` a coroutine after what it interrupts; its own raise comes first.
abbrev pub settle : {S A : Type 0} → Result A → Result (Unit {0}) × S → Result A × S
settle r (ok _, s) = (r, s)
settle r (raised e, s) = (raised e, s)

abbrev pub finally : {S A : Type 0} → Result A × S → Py S (Unit {0}) → Result A × S
finally r m = settle r.0 (m r.1)

-- `run_review` and `run_discussion` are `run_pipeline` on the pipeline made for an event, under the
-- repository's lock where there is one; what the context says is not read.
module _ {S W : Type 0} (settings : Settings) (registry : Option ProjectRegistry)
    (store : DeduplicationStore S) (review_on_push : Bool) (run : TaskEvent → Py W (Unit {0})) where
  unfoldable pub process_review : MrPayload → Py (App S W) (Unit {0})
  process_review payload = do
    let mr = payload.object_attributes
    event ← lift (validate_task_fields (review_event settings registry payload))
    try_except
        (do
          on_world (run event)
          on_dedup (mark_review store review_on_push payload.project.id mr.iid mr.last_commit.id))
        (λ _. pure tt)

  unfoldable pub mark_if_known : NotePayload → ℕ → Py (App S W) (Unit {0})
  mark_if_known payload note_id =
      if note_id == 0
      then pure tt
      else on_dedup (mark_note store payload.project.id payload.merge_request.iid note_id)

  unfoldable pub process_discussion : NotePayload → ℕ → Py (App S W) (Unit {0})
  process_discussion payload note_id = do
    event ← lift (validate_task_fields (discussion_event settings registry payload))
    λ s.
        finally (try_except (on_world (run event)) (λ _. pure tt) s) (mark_if_known payload note_id)

  -- The event of a webhook is one that the validator accepts.
  review_event-valid :
      (payload : MrPayload)
      → validate_task_fields (review_event settings registry payload)
        ≡ ok (review_event settings registry payload)
  unfolding validate_task_fields review_event check_fields checked
  review_event-valid payload = refl

  discussion_event-valid :
      (payload : NotePayload)
      → validate_task_fields (discussion_event settings registry payload)
        ≡ ok (discussion_event settings registry payload)
  unfolding validate_task_fields discussion_event check_fields checked
  discussion_event-valid payload = refl

  handle-world : (r : Result (Unit {0}) × App S W) → (handle (λ _. pure tt) r).1 ≡ r.1
  handle-world (ok _, s) = refl
  handle-world (raised e, s) = elim (Bool-cases (is_exception e)) [
    | inl a ↦ rw a refl
    | inr b ↦ rw b refl
  ]

  -- A review whose pipeline returns is seen afterwards, even if the mark on the shared store raises; a review whose
  -- pipeline raises leaves all that is known of reviews as it was, so that the webhook may be sent again.
  pub process_review_marks_success :
      (payload : MrPayload) (s : App S W)
      → IsReady s.dedup
      → ((run (review_event settings registry payload) s.world).0 ≡ ok tt
          → (is_review_seen store review_on_push payload.project.id payload.object_attributes.iid
              payload.object_attributes.last_commit.id
              (process_review payload s).1.dedup).0
            ≡ ok true)
        × ((e : Exn)
            → (run (review_event settings registry payload) s.world).0 ≡ raised e
            → (process_review payload s).1.dedup ≡ s.dedup)
  unfolding process_review
  process_review_marks_success payload s ready = (
    λ done.
        rw (review_event-valid payload, handle-world, done)
          (is_review_seen-mark_review store review_on_push payload.project.id
            payload.object_attributes.iid payload.object_attributes.last_commit.id
            payload.object_attributes.last_commit.id s.dedup ready refl),
    λ e failed. rw (review_event-valid payload, handle-world, failed) refl,
  )

  settle-state : (r : Result (Unit {0})) (x : Result (Unit {0}) × App S W) → (settle r x).1 ≡ x.1
  settle-state r (ok _, s) = refl
  settle-state r (raised e, s) = refl

  -- However the pipeline of a discussion ends, by returning, an `Exception` or an interruption, its note is marked on
  -- the shared store, exactly as `mark_note` marks it.
  pub process_discussion_always_marks :
      (payload : NotePayload) (note_id : ℕ) (s : App S W)
      → note_id ≢ 0
      → (process_discussion payload note_id s).1.dedup
        ≡ (mark_note store payload.project.id payload.merge_request.iid note_id s.dedup).1
  unfolding process_discussion mark_if_known
  process_discussion_always_marks payload note_id s known = elim (Bool-cases (note_id == 0)) [
    | inl zero_id ↦ elim (known ((nat_eq.beq_iff note_id 0).0 zero_id)) [ ]
    | inr other_id ↦ rw (discussion_event-valid payload, settle-state, handle-world, other_id) refl
  ]
