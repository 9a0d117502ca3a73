-- ===== src/JiraPoller/Transient.antt =====
-- The Jira poller with the coding pipeline as its handler: what becomes of a clone that fails for a while.
use gitlab_copilot_agent.Prelude.{ℕ, Text, text_eq, List, [], ◌∷◌, ◌++◌, true, Option, ◌≡◌, refl}
use gitlab_copilot_agent.Effects.{ok, raised, Exn, is_exception, transient_clone_error, Py}
use gitlab_copilot_agent.Concurrency.Protocols.{DeduplicationStore}
use gitlab_copilot_agent.Dedup.Service.{is_issue_seen, mark_issue}
use gitlab_copilot_agent.Dedup.Service.Shared.{IsLawful}
use gitlab_copilot_agent.Dedup.Keys.{issue_key}
use gitlab_copilot_agent.Registry.{ProjectRegistry, ResolvedProject}
use gitlab_copilot_agent.Poller.{Scan}
use gitlab_copilot_agent.Outside.{Log, Environment, transitioned}
use gitlab_copilot_agent.CodingPipeline.{JiraIssue, CodingSettings}
use gitlab_copilot_agent.CodingPipeline.Runner.{RepoLock, run_coding-of-transient, handle_issue}
use gitlab_copilot_agent.JiraPoller.Marks.{process, IsDue, process-of-handled}

module _ {S : Type 0} (registry : ProjectRegistry) (allowed : Option (List ℕ))
    (store : DeduplicationStore S) (search : Text → Py Log (List JiraIssue)) (env : Environment)
    (to_lower strip_json_block : Text → Text) (settings : CodingSettings) (lock : RepoLock) where
  abbrev pub handler : JiraIssue → ResolvedProject → Py Log (Unit {0})
  handler = handle_issue env to_lower strip_json_block settings lock

  -- The lock is taken at once and given back.
  pub record IsFree : Type 0 where
    pub acquired : (url : Text) (log : Log) → lock.acquire url log ≡ (ok tt, log)
    pub released : (url : Text) (log : Log) → lock.release url log ≡ (ok tt, log)

  handler-of-transient :
      (issue : JiraIssue) (mapping : ResolvedProject) (log : Log) (attempts : ℕ) (message : Text)
      → IsFree
      → env.transition_issue log ≡ ok tt
      → env.clone_repo (log ++ transitioned issue.key mapping.in_progress_status ∷ [])
        ≡ raised (record { kind = transient_clone_error attempts; message = message })
      → ((l : Log) (e : Exn) → env.add_comment l ≡ raised e → is_exception e ≡ true)
      → (handler issue mapping log).0 ≡ ok tt
  unfolding handle_issue
  handler-of-transient issue mapping log attempts message free moved failed calm =
      let ran =
        run_coding-of-transient env to_lower strip_json_block settings lock issue mapping log
          attempts message moved failed calm in
      rw (free.acquired mapping.clone_url log, free.released mapping.clone_url, ran) refl

  -- An issue whose clone fails by a transient error is marked all the same: it is seen afterwards, so that the next
  -- poll passes over it. This is so for every such issue that is due, over a lawful store, where the lock is free and
  -- the comment does not fail by a cancellation.
  pub transient_failure_is_marked :
      {Good : S → Type 0} (issue : JiraIssue) (mapping : ResolvedProject) (attempts : ℕ)
      (message : Text) (s : Scan S Log)
      → IsLawful store Good
      → Good s.dedup.backend
      → IsFree
      → IsDue registry allowed store search handler issue mapping s
      → env.transition_issue s.world ≡ ok tt
      → env.clone_repo (s.world ++ transitioned issue.key mapping.in_progress_status ∷ [])
        ≡ raised (record { kind = transient_clone_error attempts; message = message })
      → ((l : Log) (e : Exn) → env.add_comment l ≡ raised e → is_exception e ≡ true)
      → (is_issue_seen store issue.key
          (process registry allowed store search handler issue s).1.dedup).0
        ≡ ok true
  unfolding is_issue_seen mark_issue
  transient_failure_is_marked issue mapping attempts message s law good free due moved failed calm =
      let marked =
        process-of-handled registry allowed store search handler issue mapping s due
          (handler-of-transient issue mapping s.world attempts message free moved failed calm) in
      rw marked (law.remembers (issue_key issue.key) _ s.dedup.backend good)
