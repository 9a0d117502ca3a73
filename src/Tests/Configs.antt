-- ===== src/Tests/Configs.antt =====
-- Instances of the theorems on config_v2.py, mapping_models.py and remote_executor.py.
use gitlab_copilot_agent.Prelude.{
  List, ◌++◌, ℕ, ◌+◌, Text, text_eq, nat_eq, codes, show, value, [], ◌∷◌, true, Option, none, some,
  ◌≡◌, refl, All, arith, list_beq, contains, ap, value-show, ◌==◌, if◌then◌else◌,
}
use gitlab_copilot_agent.Effects.{ok, Py, pure}
use gitlab_copilot_agent.Concurrency.OrderedDict.{lookup, insert, distinct}
use gitlab_copilot_agent.Concurrency.Protocols.{ResultStore, TaskQueue}
use gitlab_copilot_agent.Config.{
  ConfigFile, ProjectConfig, JiraIntegrationConfig, default_dispatch, default_copilot,
  default_server, default_prompts, default_defaults,
}
use gitlab_copilot_agent.Config.File.{
  validate_config, validate_integration_refs, validate_unique_repos, check_projects, check_refs,
  names, unique_repos, accept, and_then, next_repo,
}
use gitlab_copilot_agent.Config.Validity.{ResolvesAll, repos, validate_config-resolves}
use gitlab_copilot_agent.Mapping.{
  new_defaults, Binding, MappingFile, check_duplicate_jira_keys, duplicates, duplicate_line, refuse,
  render,
}
use gitlab_copilot_agent.Mapping.Render.{IsFound, render_complete}
use gitlab_copilot_agent.Tasks.{TaskParams}
use gitlab_copilot_agent.RemoteExecutor.{
  RemoteWorld, execute, poll_result, lock_key, lock_value, lock_prefix,
}
use gitlab_copilot_agent.RemoteExecutor.Termination.{Ends, execute-Ends}
use gitlab_copilot_agent.RemoteExecutor.Once.{locked_task_polls}

abbrev jira_project : JiraIntegrationConfig
jira_project = record {
  name = codes "jira";
  project_key = codes "PROJ";
  trigger_status = codes "AI Ready";
  in_progress_status = codes "In Progress";
  in_review_status = codes "In Review";
}

abbrev service : ProjectConfig
service = record {
  repo = codes "g/a";
  credential_ref = none;
  target_branch = none;
  resolution_behavior = none;
  webhook = none;
  poll = none;
  copilot = none;
  integrations = codes "jira" ∷ [];
}

abbrev config : ConfigFile
config = record {
  gitlab = record { url = codes "https://gitlab.example.com" };
  dispatch = default_dispatch;
  copilot = default_copilot;
  server = default_server;
  prompts = default_prompts;
  defaults = default_defaults;
  projects = service ∷ [];
  integrations = jira_project ∷ [];
}

config_validates : validate_config config ≡ ok config
unfolding validate_config validate_integration_refs validate_unique_repos check_projects check_refs
    names unique_repos accept and_then next_repo lookup insert contains list_beq
config_validates = refl

validate_config-resolves_example :
    All (ResolvesAll config) config.projects × (distinct (repos config.projects) ≡ true)
validate_config-resolves_example = validate_config-resolves config config config_validates

abbrev binding : Text → Binding
binding key = record {
  jira_project = key;
  repo = codes "g/a";
  target_branch = none;
  credential_ref = none;
  plugins = none;
  trigger_status = none;
  in_progress_status = none;
  in_review_status = none;
  resolution_behavior = none;
}

abbrev dev_binding : Binding
dev_binding = record (binding (codes "A")) { target_branch = some (codes "dev") }

abbrev mapping : MappingFile
mapping = record { defaults = new_defaults; bindings = dev_binding ∷ binding (codes "B") ∷ [] }

mapping_validates : check_duplicate_jira_keys mapping ≡ ok mapping
unfolding check_duplicate_jira_keys duplicates duplicate_line refuse lookup insert list_beq
mapping_validates = refl

render_complete_example : All (IsFound new_defaults (render mapping).mappings) mapping.bindings
render_complete_example = render_complete mapping mapping mapping_validates

-- A world that is its clock: the store has no results, and a pause passes.
abbrev clock : RemoteWorld ℕ
clock = record {
  now = λ t. t;
  wall = λ t. t;
  sleep = λ n t. (ok tt, t + n);
  tar_repo_to_bytes = λ path. pure [];
  json_loads = λ raw. none;
  json_dumps = λ task key. [];
  int_of = λ text. some (value text);
}

abbrev queue : TaskQueue ℕ
queue = record {
  enqueue = λ task_id payload. pure tt;
  dequeue = λ n. pure none;
  complete = λ message. pure tt;
  upload_blob = λ key content. pure tt;
  download_blob = λ key. pure [];
  aclose = pure tt;
}

abbrev no_results : ResultStore ℕ
no_results = record { get = λ key. pure none; set = λ key text ttl. pure tt; aclose = pure tt }

abbrev task : TaskParams
task = record {
  task_type = codes "review";
  task_id = codes "t1";
  repo_url = codes "https://gitlab.example.com/g/a.git";
  branch = codes "main";
  system_prompt = [];
  user_prompt = [];
  repo_path = none;
  plugins = [];
}

execute-Ends_example : Ends (execute clock no_results queue 60 task 7)
execute-Ends_example =
    execute-Ends clock no_results queue 60 (λ s key. omega arith) (λ s n e. omega arith) task 7

-- A world that is its clock and the tasks on the queue.
abbrev Line : Type 0
Line = ℕ × List Text

abbrev line_world : RemoteWorld Line
line_world = record {
  now = λ s. s.0;
  wall = λ s. s.0;
  sleep = λ n s. (ok tt, (s.0 + n, s.1));
  tar_repo_to_bytes = λ path. pure [];
  json_loads = λ raw. none;
  json_dumps = λ task key. [];
  int_of = λ text. some (value text);
}

abbrev line_queue : TaskQueue Line
line_queue = record {
  enqueue = λ task_id payload s. (ok tt, (s.0, s.1 ++ task_id ∷ []));
  dequeue = λ n. pure none;
  complete = λ message. pure tt;
  upload_blob = λ key content. pure tt;
  download_blob = λ key. pure [];
  aclose = pure tt;
}

-- A store that holds the lock of `t1`, written at 1.5 s for 60 s, and no results.
abbrev held_get : Text → Py Line (Option Text)
held_get key s =
    (ok (if key == codes "remote_exec:t1" then some (codes "enqueued:61") else none), s)

abbrev held : ResultStore Line
held = record { get = held_get; set = λ key text ttl. pure tt; aclose = pure tt }

-- Two seconds on, with the task on the queue.
abbrev later : Line
later = (2000, codes "t1" ∷ [])

no_result_yet : held.get task.task_id later ≡ (ok none, later)
unfolding list_beq
no_result_yet = refl

lock_is_held :
    held.get (lock_key task.task_id) later
    ≡ (ok (some (lock_value line_world held line_queue 60 1500)), later)
unfolding lock_key lock_value lock_prefix list_beq show
lock_is_held = refl

locked_task_polls_example :
    ((execute line_world held line_queue 60 task later).1.1 ≡ codes "t1" ∷ [])
    × (execute line_world held line_queue 60 task later
        ≡ poll_result line_world held line_queue 60 task later)
locked_task_polls_example =
    locked_task_polls line_world held line_queue 60 (λ s. s.1) (λ key s. refl, λ n s. refl)
      (λ n. ap some (value-show n)) task later later later 1500 no_result_yet lock_is_held
      (omega arith)
