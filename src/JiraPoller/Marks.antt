-- ===== src/JiraPoller/Marks.antt =====
-- What the poll does with an issue, and what it remembers.
use gitlab_copilot_agent.Prelude.{
  ℕ, Text, text_eq, List, Bool, true, false, Option, none, some, ◌≡◌, refl, inl, inr, Bool-cases,
  Option-cases, ◌∙◌,
}
use gitlab_copilot_agent.Effects.{
  Result, ok, raised, Exn, is_task_execution_error, Py, Result-cases,
}
use gitlab_copilot_agent.Concurrency.Protocols.{DeduplicationStore}
use gitlab_copilot_agent.Dedup.Service.{is_issue_seen, mark_issue}
use gitlab_copilot_agent.Registry.{ProjectRegistry, ResolvedProject, get_by_jira}
use gitlab_copilot_agent.Poller.{Scan, unless_seen}
use gitlab_copilot_agent.CodingPipeline.{JiraIssue, project_key}
use gitlab_copilot_agent.JiraPoller.{
  is_excluded, mark_if, seen_if, after_handle, run_mapped, process_issue,
}

module _ {S W : Type 0} (registry : ProjectRegistry) (allowed : Option (List ℕ))
    (store : DeduplicationStore S) (search : Text → Py W (List JiraIssue))
    (handle : JiraIssue → ResolvedProject → Py W (Unit {0})) where
  abbrev pub process : JiraIssue → Py (Scan S W) (Unit {0})
  process = process_issue registry allowed (some store) search handle

  abbrev pub run : JiraIssue → ResolvedProject → Py (Scan S W) (Unit {0})
  run issue mapping s =
      ((handle issue mapping s.world).0, record s { world = (handle issue mapping s.world).1 })

  -- An issue that is fresh, whose project is in the registry and not excluded, is handled.
  abbrev pub IsDue : JiraIssue → ResolvedProject → Scan S W → Type 0
  IsDue issue mapping s =
      (is_issue_seen store issue.key s.dedup ≡ (ok false, s.dedup))
      × (get_by_jira registry (project_key issue) ≡ some mapping)
      × (is_excluded allowed mapping.gitlab_project_id ≡ false)

  due-process :
      (issue : JiraIssue) (mapping : ResolvedProject) (s : Scan S W)
      → IsDue issue mapping s
      → process issue s
        ≡ after_handle registry allowed (some store) search handle issue.key (run issue mapping s)
  unfolding process_issue seen_if run_mapped unless_seen
  due-process issue mapping s (fresh, known, inside) = rw (fresh, known, inside) refl

  -- A handler that returns: the issue is marked, and the poll ends as the mark does.
  pub process-of-handled :
      (issue : JiraIssue) (mapping : ResolvedProject) (s : Scan S W)
      → IsDue issue mapping s
      → (handle issue mapping s.world).0 ≡ ok tt
      → process issue s ≡ (
        (mark_issue store issue.key s.dedup).0,
        record {
          dedup = (mark_issue store issue.key s.dedup).1;
          world = (handle issue mapping s.world).1;
        },
      )
  unfolding after_handle mark_if
  process-of-handled issue mapping s due done = due-process issue mapping s due ∙ rw done refl

  -- How an issue can be answered: `r` is what its turn gives.
  pub data Answers (issue : JiraIssue) (s : Scan S W) (r : Result (Unit {0}) × Scan S W)
      : Type 0 where
    passed_seen :
        is_issue_seen store issue.key s.dedup ≡ (ok true, s.dedup)
        → r ≡ (ok tt, s)
        → Answers issue s r
    passed_unknown :
        get_by_jira registry (project_key issue) ≡ none → r ≡ (ok tt, s) → Answers issue s r
    passed_excluded :
        {mapping : ResolvedProject}
        → get_by_jira registry (project_key issue) ≡ some mapping
        → is_excluded allowed mapping.gitlab_project_id ≡ true
        → r ≡ (ok tt, s)
        → Answers issue s r
    handled :
        {mapping : ResolvedProject}
        → IsDue issue mapping s
        → (handle issue mapping s.world).0 ≡ ok tt
        → r ≡ (
          (mark_issue store issue.key s.dedup).0,
          record {
            dedup = (mark_issue store issue.key s.dedup).1;
            world = (handle issue mapping s.world).1;
          },
        )
        → Answers issue s r
    postponed :
        {mapping : ResolvedProject} {e : Exn}
        → IsDue issue mapping s
        → (handle issue mapping s.world).0 ≡ raised e
        → is_task_execution_error e ≡ true
        → r ≡ (ok tt, record s { world = (handle issue mapping s.world).1 })
        → Answers issue s r
    failed :
        {mapping : ResolvedProject} {e : Exn}
        → IsDue issue mapping s
        → (handle issue mapping s.world).0 ≡ raised e
        → is_task_execution_error e ≡ false
        → r ≡ (raised e, record s { world = (handle issue mapping s.world).1 })
        → Answers issue s r

  due-Answers :
      (issue : JiraIssue) (mapping : ResolvedProject) (s : Scan S W)
      → IsDue issue mapping s
      → Answers issue s (process issue s)
  unfolding after_handle
  due-Answers issue mapping s due = elim (Result-cases (handle issue mapping s.world).0) [
    | inl (u, done) ↦ handled due done (process-of-handled issue mapping s due done)
    | inr (e, bad) ↦ elim (Bool-cases (is_task_execution_error e)) [
      | inl task ↦ postponed due bad task (due-process issue mapping s due ∙ rw (bad, task) refl)
      | inr other ↦ failed due bad other (due-process issue mapping s due ∙ rw (bad, other) refl)
    ]
  ]

  -- Where the store answers for an issue, its turn in the poll is one of these: it was seen, or its project is not in the registry or
  -- is excluded, and nothing changes; or it is handled, and marked if the handler returns; where the handler raises it
  -- stays unmarked, and the poll goes on after a `TaskExecutionError` and ends with any other raise.
  pub process_issue-Answers :
      (issue : JiraIssue) (s : Scan S W) (b : Bool)
      → is_issue_seen store issue.key s.dedup ≡ (ok b, s.dedup)
      → Answers issue s (process issue s)
  unfolding process_issue seen_if run_mapped unless_seen
  process_issue-Answers issue s true seen = passed_seen seen (rw seen refl)
  process_issue-Answers issue s false fresh =
      elim (Option-cases (get_by_jira registry (project_key issue))) [
        | inl unknown ↦ passed_unknown unknown (rw (fresh, unknown) refl)
        | inr (mapping, known) ↦ elim (Bool-cases (is_excluded allowed mapping.gitlab_project_id)) [
          | inl out ↦ passed_excluded known out (rw (fresh, known, out) refl)
          | inr inside ↦ due-Answers issue mapping s (fresh, known, inside)
        ]
      ]
