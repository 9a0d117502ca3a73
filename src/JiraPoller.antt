-- ===== src/JiraPoller.antt =====
-- `JiraPoller` of jira_poller.py: one poll. The search in Jira and the handler are given, as coroutines on the world. The
-- registry's set of keys is a list, in the order in which it is iterated; logging is left out.
pub mod Marks
pub mod Transient
use gitlab_copilot_agent.Prelude.{
  ℕ, nat_eq, Text, text_eq, codes, join, sorted_texts, map, contains, List, [], ◌∷◌, ◌++◌, Bool,
  true, false, not, Option, none, some, ◌==◌, if◌then◌else◌,
}
use gitlab_copilot_agent.Effects.{
  Result, ok, raised, Py, pure, ◌>>=◌, ◌>>◌, is_task_execution_error,
}
use gitlab_copilot_agent.Concurrency.OrderedDict.{lookup, insert, keys}
use gitlab_copilot_agent.Concurrency.Protocols.{DeduplicationStore}
use gitlab_copilot_agent.Dedup.Service.{is_issue_seen, mark_issue}
use gitlab_copilot_agent.Registry.{ProjectRegistry, ResolvedProject, get_by_jira}
use gitlab_copilot_agent.Poller.{Scan, in_dedup, in_world, unless_seen}
use gitlab_copilot_agent.CodingPipeline.{JiraIssue, project_key}

-- `ProjectRegistry.jira_keys`
unfoldable pub jira_keys : ProjectRegistry → List Text
jira_keys registry = keys registry.by_jira

keys_or : Option (List Text) → List Text
keys_or none = []
keys_or (some ks) = ks

-- `by_status.setdefault(status, []).append(key)`
unfoldable pub append_key : Text → Text → List (Text × List Text) → List (Text × List Text)
unfolding keys_or
append_key status key d = insert status (keys_or (lookup status d) ++ key ∷ []) d

group_key : Text → Option ResolvedProject → List (Text × List Text) → List (Text × List Text)
group_key key none d = d
group_key key (some project) d = append_key project.trigger_status key d

-- The loop that fills `by_status`.
unfoldable pub by_status :
    ProjectRegistry → List Text → List (Text × List Text) → List (Text × List Text)
unfolding group_key
by_status registry [] d = d
by_status registry (key ∷ rest) d =
    by_status registry rest (group_key key (get_by_jira registry key) d)

double_quoted : Text → Text
double_quoted s = codes "\"" ++ (s ++ codes "\"")

-- The query for the issues of some projects in a status.
unfoldable pub jql : Text → List Text → Text
unfolding double_quoted
jql trigger_status project_keys =
    codes "status = \""
    ++ (trigger_status
        ++ (codes "\" AND project IN ("
            ++ (join (codes ", ") (map double_quoted (sorted_texts project_keys)) ++ codes ")")))

-- `self._allowed_project_ids is not None and id not in self._allowed_project_ids`
unfoldable pub is_excluded : Option (List ℕ) → ℕ → Bool
is_excluded none project_id = false
is_excluded (some ids) project_id = not (contains ids project_id)

module _ {S W : Type 0} (registry : ProjectRegistry) (allowed_project_ids : Option (List ℕ))
    (store : Option (DeduplicationStore S)) (search_issues : Text → Py W (List JiraIssue))
    (handle : JiraIssue → ResolvedProject → Py W (Unit {0})) where
  unfoldable pub mark_if : Option (DeduplicationStore S) → Text → Py (Scan S W) (Unit {0})
  mark_if none key = pure tt
  mark_if (some dedup) key = in_dedup (mark_issue dedup key)

  unfoldable pub seen_if : Option (DeduplicationStore S) → Text → Py (Scan S W) Bool
  seen_if none key = pure false
  seen_if (some dedup) key = in_dedup (is_issue_seen dedup key)

  -- A `TaskExecutionError` goes on with the next issue, unmarked; a return is marked.
  unfoldable pub after_handle : Text → Result (Unit {0}) × Scan S W → Result (Unit {0}) × Scan S W
  after_handle key (ok u, s) = mark_if store key s
  after_handle key (raised e, s) = if is_task_execution_error e then (ok tt, s) else (raised e, s)

  unfoldable pub run_mapped : JiraIssue → Option ResolvedProject → Py (Scan S W) (Unit {0})
  run_mapped issue none s = pure tt s
  run_mapped issue (some mapping) s =
      if is_excluded allowed_project_ids mapping.gitlab_project_id
      then pure tt s
      else after_handle issue.key (in_world (handle issue mapping) s)

  -- The body of the loop over the issues.
  unfoldable pub process_issue : JiraIssue → Py (Scan S W) (Unit {0})
  process_issue issue =
      seen_if store issue.key
      >>= unless_seen (run_mapped issue (get_by_jira registry (project_key issue)))

  unfoldable pub process_issues : List JiraIssue → Py (Scan S W) (Unit {0})
  process_issues [] = pure tt
  process_issues (issue ∷ issues) = process_issue issue >> process_issues issues

  -- The searches, one for each trigger status.
  unfoldable pub search_all :
      List (Text × List Text) → List JiraIssue → Py (Scan S W) (List JiraIssue)
  search_all [] issues = pure issues
  search_all ((status, project_keys) ∷ rest) issues = do
    found ← in_world (search_issues (jql status project_keys))
    search_all rest (issues ++ found)

  unfoldable pub poll_keys : List Text → Py (Scan S W) (Unit {0})
  poll_keys [] = pure tt
  poll_keys (key ∷ rest) = do
    issues ← search_all (by_status registry (key ∷ rest) []) []
    process_issues issues

  -- `_poll_once`
  unfoldable pub poll_once : Py (Scan S W) (Unit {0})
  poll_once = poll_keys (jira_keys registry)
