-- ===== src/Tests/Pollers.antt =====
-- Instances of the theorems on gitlab_poller.py.
use gitlab_copilot_agent.Poller.Lost.{notes_of, failed_identity_advances}
use gitlab_copilot_agent.Prelude.{
  ℕ, Text, text_eq, nat_eq, codes, List, [], ◌∷◌, Bool, true, false, Option, some, none, ◌≡◌, refl,
  ◌⊎◌, arith,
}
use gitlab_copilot_agent.Effects.{
  value_error, raise, ok, raised, Exn, is_exception, is_task_execution_error, Py, pure,
}
use gitlab_copilot_agent.Comments.Parsed.{Behavior}
use gitlab_copilot_agent.Concurrency.OrderedDict.{distinct}
use gitlab_copilot_agent.Concurrency.MemoryDedup.{MemoryDedup, memory_dedup}
use gitlab_copilot_agent.Dedup.Service.{is_review_seen}
use gitlab_copilot_agent.Dedup.Service.Reviews.{IsReady}
use gitlab_copilot_agent.Discussions.{AgentIdentity, Discussion}
use gitlab_copilot_agent.Events.{TaskEvent}
use gitlab_copilot_agent.Webhook.Projects.{resolved_project}
use gitlab_copilot_agent.Poller.{
  PollSettings, MrItem, Scan, Poller, process_mr, mr_event, review_mr,
}
use gitlab_copilot_agent.Poller.Notes.{process_notes}
use gitlab_copilot_agent.Poller.Cycle.{
  process_all, scan_projects, poll_once, advance, Scanned, poll_once-advances,
}
use gitlab_copilot_agent.Poller.Marks.{review_mr_marks}

abbrev cache : MemoryDedup
cache = record { seen = []; max_size = 10 }

abbrev scan : Scan MemoryDedup (Unit {0})
scan = record { dedup = record { local = cache; backend = cache }; world = tt }

abbrev poller : Poller MemoryDedup (Unit {0})
poller = record {
  scan = scan;
  watermark = some (codes "1");
  note_watermark = some (codes "1");
  failures = 2;
}

abbrev settings : PollSettings
settings = record {
  gitlab_url = codes "https://gitlab.example.com";
  gitlab_token = codes "t";
  resolution_behavior = Behavior.suggest;
}

abbrev run_ok : TaskEvent → Py (Unit {0}) (Unit {0})
run_ok event = pure tt

abbrev no_mrs : ℕ → Py (Unit {0}) (List MrItem)
no_mrs project_id = pure []

abbrev no_threads : ℕ → ℕ → Py (Unit {0}) (List Discussion)
no_threads project_id mr_iid = pure []

abbrev no_word : ℕ → Bool
no_word c = false

abbrev mrs : ℕ → MrItem → Py (Scan MemoryDedup (Unit {0})) (Unit {0})
mrs = process_mr settings none memory_dedup true run_ok

abbrev notes : Option Text → ℕ → List MrItem → Py (Scan MemoryDedup (Unit {0})) (Unit {0})
notes mark = process_notes no_word settings none memory_dedup run_ok mark no_threads none

poll_once-advances_example :
    (((s' : Scan MemoryDedup (Unit {0}))
        → ¬ Scanned no_mrs mrs notes poller.note_watermark (7 ∷ []) poller.scan s')
      × ((poll_once no_mrs mrs notes (codes "2") (7 ∷ []) poller).1.watermark ≡ poller.watermark)
      × ((poll_once no_mrs mrs notes (codes "2") (7 ∷ []) poller).1.note_watermark
          ≡ poller.note_watermark))
    ⊎ (Scanned no_mrs mrs notes poller.note_watermark
          (7 ∷ [])
          poller.scan
          (poll_once no_mrs mrs notes (codes "2") (7 ∷ []) poller).1.scan
        × ((poll_once no_mrs mrs notes (codes "2") (7 ∷ []) poller).1.watermark ≡ some (codes "2"))
        × ((poll_once no_mrs mrs notes (codes "2") (7 ∷ []) poller).1.note_watermark
            ≡ some (codes "2")))
poll_once-advances_example = poll_once-advances no_mrs mrs notes (codes "2") (7 ∷ []) poller

no_projects_fine :
    (e : Exn)
    → (poll_once no_mrs mrs notes (codes "2") [] poller).0 ≡ raised e
    → is_exception e ≡ true
unfolding poll_once scan_projects advance
no_projects_fine e h = absurd (cc h)

abbrev item : MrItem
item = record {
  iid = 3;
  sha = some (codes "abc1234");
  web_url = codes "https://gitlab.example.com/g/a/-/merge_requests/3";
  source_branch = codes "f";
  target_branch = codes "main";
}

scan-IsReady : IsReady scan.dedup
unfolding distinct
scan-IsReady = record {
  cache = record { bounded = omega arith; distinct_keys = refl };
  room = omega arith;
}

review_mr_marks_example :
    ((e : Exn)
      → (run_ok (mr_event settings (resolved_project none 7) 7 item (codes "abc1234")) tt).0
        ≡ raised e
      → is_task_execution_error e ≡ false
      → ((review_mr settings none memory_dedup true run_ok 7 item (codes "abc1234") scan).0
          ≡ raised e)
        × ((review_mr settings none memory_dedup true run_ok 7 item (codes "abc1234") scan).1.dedup
            ≡ scan.dedup))
    × (((e : Exn)
          → (run_ok (mr_event settings (resolved_project none 7) 7 item (codes "abc1234")) tt).0
            ≡ raised e
          → is_task_execution_error e ≡ true)
        → (is_review_seen memory_dedup true 7 3
            (codes "abc1234")
            (review_mr settings none memory_dedup true run_ok 7 item
              (codes "abc1234")
              scan).1.dedup).0
          ≡ ok true)
review_mr_marks_example =
    review_mr_marks settings none memory_dedup true run_ok 7 item (codes "abc1234") scan
      scan-IsReady

-- A registry whose lookup of the agent fails, and a review that does nothing.
abbrev no_answer : Exn
no_answer = record { kind = value_error; message = codes "401" }

abbrev unknown_agent : Text → Py (Unit {0}) AgentIdentity
unknown_agent ref = raise no_answer

abbrev one_mr : ℕ → Py (Unit {0}) (List MrItem)
one_mr project_id = pure (item ∷ [])

abbrev no_review : ℕ → MrItem → Py (Scan MemoryDedup (Unit {0})) (Unit {0})
no_review project_id mr = pure tt

abbrev blind_notes : Option Text → ℕ → List MrItem → Py (Scan MemoryDedup (Unit {0})) (Unit {0})
blind_notes =
    notes_of no_word settings none memory_dedup run_ok one_mr no_review no_threads unknown_agent

reviewed : process_all one_mr no_review blind_notes 7 (item ∷ []) scan ≡ (ok tt, scan)
unfolding process_all
reviewed = refl

failed_identity_advances_example :
    poll_once one_mr no_review blind_notes (codes "2") (7 ∷ []) poller
    ≡ (ok tt, record poller { watermark = some (codes "2"); note_watermark = some (codes "2") })
unfolding is_exception
failed_identity_advances_example =
    failed_identity_advances no_word settings none memory_dedup run_ok one_mr no_review no_threads
      unknown_agent (codes "2") 7 (item ∷ []) no_answer poller tt tt scan refl reviewed refl refl
