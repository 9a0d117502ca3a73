-- ===== src/Poller/Marks.antt =====
-- What `_process_mr` of gitlab_poller.py leaves behind.
use gitlab_copilot_agent.Prelude.{ℕ, Text, Bool, true, false, Option, ◌≡◌, refl, inl, inr}
use gitlab_copilot_agent.Effects.{ok, raised, Exn, is_task_execution_error, Py, Result-cases}
use gitlab_copilot_agent.Concurrency.Protocols.{DeduplicationStore}
use gitlab_copilot_agent.Dedup.Service.{is_review_seen}
use gitlab_copilot_agent.Dedup.Service.Reviews.{IsReady, is_review_seen-mark_review}
use gitlab_copilot_agent.Events.{TaskEvent, validate_task_fields, check_fields, checked}
use gitlab_copilot_agent.Registry.{ProjectRegistry, ResolvedProject}
use gitlab_copilot_agent.Webhook.Projects.{resolved_project}
use gitlab_copilot_agent.Poller.{PollSettings, MrItem, Scan, mr_event, review_mr}

mr_event-valid :
    (settings : PollSettings) (resolved : Option ResolvedProject) (project_id : ℕ) (mr : MrItem)
    (sha : Text)
    → validate_task_fields (mr_event settings resolved project_id mr sha)
      ≡ ok (mr_event settings resolved project_id mr sha)
unfolding validate_task_fields mr_event check_fields checked
mr_event-valid settings resolved project_id mr sha = refl

module _ {S W : Type 0} (settings : PollSettings) (registry : Option ProjectRegistry)
    (store : DeduplicationStore S) (push : Bool) (run : TaskEvent → Py W (Unit {0})) where
  -- The poller marks a review that succeeded and one that failed by a `TaskExecutionError`: both are seen
  -- afterwards, even if the mark on the shared store raises. After any other raise nothing is marked, and the raise goes on up.
  pub review_mr_marks :
      (project_id : ℕ) (mr : MrItem) (sha : Text) (s : Scan S W)
      → IsReady s.dedup
      → ((e : Exn)
          → (run
              (mr_event settings (resolved_project registry project_id) project_id mr sha)
              s.world).0
            ≡ raised e
          → is_task_execution_error e ≡ false
          → ((review_mr settings registry store push run project_id mr sha s).0 ≡ raised e)
            × ((review_mr settings registry store push run project_id mr sha s).1.dedup ≡ s.dedup))
        × (((e : Exn)
              → (run
                  (mr_event settings (resolved_project registry project_id) project_id mr sha)
                  s.world).0
                ≡ raised e
              → is_task_execution_error e ≡ true)
            → (is_review_seen store push project_id mr.iid sha
                (review_mr settings registry store push run project_id mr sha s).1.dedup).0
              ≡ ok true)
  unfolding review_mr
  review_mr_marks project_id mr sha s ready =
      let event = mr_event settings (resolved_project registry project_id) project_id mr sha in
      let seen =
        is_review_seen-mark_review store push project_id mr.iid sha sha s.dedup ready refl in
      (
        (λ e bad other_one.
            rw
              (
                mr_event-valid settings (resolved_project registry project_id) project_id mr sha,
                bad,
                other_one,
              )
              (refl, refl)),
        λ only. elim (Result-cases (run event s.world).0) [
          | inl (u, fine) ↦
              rw
                (
                  mr_event-valid settings (resolved_project registry project_id) project_id mr sha,
                  fine,
                )
                seen
          | inr (e, bad) ↦
              rw
                (
                  mr_event-valid settings (resolved_project registry project_id) project_id mr sha,
                  bad,
                  only e bad,
                )
                seen
        ],
      )
