-- ===== src/Tests/Jira.antt =====
-- Instances of the theorems on jira_poller.py and coding_pipeline.py.
use gitlab_copilot_agent.Prelude.{
  nat_eq, Text, text_eq, codes, List, [], ◌∷◌, true, false, none, some, ◌≡◌, refl, list_beq,
  contains, arith,
}
use gitlab_copilot_agent.Effects.{ok, raised, transient_clone_error, Py, pure}
use gitlab_copilot_agent.Comments.Parsed.{Behavior}
use gitlab_copilot_agent.Concurrency.OrderedDict.{lookup, distinct}
use gitlab_copilot_agent.Concurrency.MemoryDedup
use gitlab_copilot_agent.Concurrency.MemoryDedup.{MemoryDedup, memory_dedup}
use gitlab_copilot_agent.Dedup.Service.{is_issue_seen}
use gitlab_copilot_agent.Dedup.Service.Shared.{IsRoomy, memory_dedup-IsLawful}
use gitlab_copilot_agent.Registry.{ResolvedProject, ProjectRegistry, get_by_jira}
use gitlab_copilot_agent.Poller.{Scan}
use gitlab_copilot_agent.Outside.{Environment, Log}
use gitlab_copilot_agent.CodingPipeline.{JiraIssue, CodingSettings, project_key, before_last_dash}
use gitlab_copilot_agent.CodingPipeline.Runner.{RepoLock}
use gitlab_copilot_agent.JiraPoller.{is_excluded}
use gitlab_copilot_agent.JiraPoller.Marks.{process, IsDue, Answers, process_issue-Answers}
use gitlab_copilot_agent.JiraPoller.Transient.{handler, IsFree, transient_failure_is_marked}
use gitlab_copilot_agent.Tests.Agents.{calm, lower}

abbrev issue : JiraIssue
issue = record { key = codes "P-1"; summary = codes "Add a page"; description = none }

abbrev project : ResolvedProject
project = record {
  jira_project = some (codes "P");
  repo = codes "g/a";
  gitlab_project_id = 3;
  clone_url = codes "https://gitlab.example.com/g/a.git";
  target_branch = codes "main";
  credential_ref = codes "default";
  token = codes "t";
  plugins = [];
  trigger_status = codes "AI Ready";
  in_progress_status = codes "In Progress";
  in_review_status = codes "In Review";
  resolution_behavior = Behavior.suggest;
}

abbrev registry : ProjectRegistry
registry = record { by_jira = (codes "P", project) ∷ []; by_project_id = (3, project) ∷ [] }

abbrev cache : MemoryDedup
cache = record { seen = []; max_size = 10 }

abbrev scan : Scan MemoryDedup Log
scan = record { dedup = record { local = cache; backend = cache }; world = [] }

-- The clone succeeds after three attempts.
abbrev unreachable : Environment
unreachable = record calm {
  clone_repo =
      λ log. raised (record { kind = transient_clone_error 3; message = codes "timed out" });
}

abbrev settings : CodingSettings
settings = record {
  gitlab_url = codes "https://gitlab.example.com";
  prompt_strategy = codes "inline";
  system_prompt = [];
  auto_merge_enabled = false;
}

abbrev free : RepoLock
free = record { acquire = λ url. pure tt; release = λ url. pure tt }

abbrev no_search : Text → Py Log (List JiraIssue)
no_search jql = pure []

free-IsFree : IsFree registry none memory_dedup no_search unreachable lower lower settings free
free-IsFree = record { acquired = λ url log. refl; released = λ url log. refl }

cache-IsRoomy : IsRoomy cache
unfolding distinct
cache-IsRoomy = (record { bounded = omega arith; distinct_keys = refl }, omega arith)

issue-IsDue :
    IsDue registry none memory_dedup no_search
      (handler registry none memory_dedup no_search unreachable lower lower settings free)
      issue
      project
      scan
unfolding is_issue_seen memory_dedup get_by_jira project_key before_last_dash lookup is_excluded
    list_beq contains MemoryDedup.is_seen
issue-IsDue = (refl, refl, refl)

transient_failure_is_marked_example :
    (is_issue_seen memory_dedup issue.key
      (process registry none memory_dedup no_search
        (handler registry none memory_dedup no_search unreachable lower lower settings free)
        issue
        scan).1.dedup).0
    ≡ ok true
transient_failure_is_marked_example =
    transient_failure_is_marked registry none memory_dedup no_search unreachable lower lower
      settings free issue project 3 (codes "timed out") scan memory_dedup-IsLawful cache-IsRoomy
      free-IsFree issue-IsDue refl refl (λ l e h. cc h)

abbrev succeeds : JiraIssue → ResolvedProject → Py Log (Unit {0})
succeeds i p = pure tt

issue_is_fresh : is_issue_seen memory_dedup issue.key scan.dedup ≡ (ok false, scan.dedup)
issue_is_fresh = issue-IsDue.0

process_issue-Answers_example :
    Answers registry none memory_dedup no_search succeeds issue scan
      (process registry none memory_dedup no_search succeeds issue scan)
process_issue-Answers_example =
    process_issue-Answers registry none memory_dedup no_search succeeds issue scan false
      issue_is_fresh
