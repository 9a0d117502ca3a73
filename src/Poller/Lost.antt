-- ===== src/Poller/Lost.antt =====
-- gitlab_poller.py: a poll in which `_process_notes` cannot look the agent up.
use gitlab_copilot_agent.Prelude.{ℕ, Text, List, [], ◌∷◌, Bool, true, Option, some, ◌≡◌, refl}
use gitlab_copilot_agent.Effects.{ok, raised, Exn, is_exception, Py}
use gitlab_copilot_agent.Concurrency.Protocols.{DeduplicationStore}
use gitlab_copilot_agent.Discussions.{Discussion, AgentIdentity}
use gitlab_copilot_agent.Events.{TaskEvent}
use gitlab_copilot_agent.Registry.{ProjectRegistry}
use gitlab_copilot_agent.Webhook.Projects.{resolved_project, ref_of}
use gitlab_copilot_agent.Poller.{PollSettings, MrItem, Scan, Poller}
use gitlab_copilot_agent.Poller.Notes.{
  process_notes, resolve_agent_identity, some_identity, with_identity,
}
use gitlab_copilot_agent.Poller.Cycle.{process_all, scan_project, scan_projects, advance, poll_once}

module _ {S W : Type 0} (is_word : ℕ → Bool) (settings : PollSettings)
    (registry : Option ProjectRegistry) (store : DeduplicationStore S)
    (run : TaskEvent → Py W (Unit {0})) (list_mrs : ℕ → Py W (List MrItem))
    (process_mr : ℕ → MrItem → Py (Scan S W) (Unit {0}))
    (list_discussions : ℕ → ℕ → Py W (List Discussion)) (ask : Text → Py W AgentIdentity) where
  -- `process_notes`, at a watermark.
  abbrev pub notes_of : Option Text → ℕ → List MrItem → Py (Scan S W) (Unit {0})
  notes_of mark = process_notes is_word settings registry store run mark list_discussions (some ask)

  process_notes-unknown :
      (mark : Option Text) (project_id : ℕ) (mrs : List MrItem) (e : Exn) (s : Scan S W) (w : W)
      → ask (ref_of (resolved_project registry project_id)) s.world ≡ (raised e, w)
      → is_exception e ≡ true
      → notes_of mark project_id mrs s ≡ (ok tt, record s { world = w })
  unfolding process_notes resolve_agent_identity some_identity with_identity
  process_notes-unknown mark project_id mrs e s w unknown caught = rw (unknown, caught) refl

  -- In a poll of one project whose MRs are listed and reviewed without a raise, where the lookup of the agent's identity
  -- raises an `Exception`, both watermarks move to the time at which the poll began, although no thread was
  -- fetched and no note was looked at: the state is the one after the reviews, but for the lookup.
  pub failed_identity_advances :
      (poll_start : Text) (project_id : ℕ) (mrs : List MrItem) (e : Exn) (s : Poller S W)
      (w₁ w₂ : W) (s₂ : Scan S W)
      → list_mrs project_id s.scan.world ≡ (ok mrs, w₁)
      → process_all list_mrs process_mr notes_of project_id mrs (record (s.scan) { world = w₁ })
        ≡ (ok tt, s₂)
      → ask (ref_of (resolved_project registry project_id)) s₂.world ≡ (raised e, w₂)
      → is_exception e ≡ true
      → poll_once list_mrs process_mr notes_of poll_start (project_id ∷ []) s ≡ (
        ok tt,
        record s {
          scan = record s₂ { world = w₂ };
          watermark = some poll_start;
          note_watermark = some poll_start;
        },
      )
  unfolding poll_once scan_projects scan_project advance
  failed_identity_advances poll_start project_id mrs e s w₁ w₂ s₂ listed reviewed unknown caught =
      rw
        (
          listed,
          reviewed,
          process_notes-unknown s.note_watermark project_id mrs e s₂ w₂ unknown caught,
        )
        refl
