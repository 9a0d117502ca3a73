-- ===== src/Config/File.antt =====
-- `ConfigFile` of config_v2.py: its validators, and the values that a project gets from the defaults.
use gitlab_copilot_agent.Prelude.{
  ℕ, suc, Text, text_eq, codes, show, join, sorted_texts, text_or, List, [], ◌∷◌, ◌++◌, Bool,
  Option, none, some, ◌==◌, if◌then◌else◌, contains, map,
}
use gitlab_copilot_agent.Effects.{Result, ok, raised, value_error}
use gitlab_copilot_agent.Comments.Parsed.{Behavior}
use gitlab_copilot_agent.Concurrency.OrderedDict.{lookup, insert}
use gitlab_copilot_agent.Config.{
  PollConfig, CopilotConfig, ProjectConfig, JiraIntegrationConfig, ConfigFile,
}

abbrev pub option_or {ℓ} : {A : Type ℓ} → Option A → A → A
option_or none d = d
option_or (some a) d = a

-- `known`
unfoldable pub names : List JiraIntegrationConfig → List Text
names [] = []
names (i ∷ is) = i.name ∷ names is

quoted : Text → Text
quoted s = codes "'" ++ (s ++ codes "'")

-- The error of an unknown reference; names are quoted as `repr` quotes a plain text.
unfoldable pub unknown_ref : Text → Text → List Text → Text
unfolding quoted
unknown_ref repo ref known =
    codes "Project '"
    ++ (repo
        ++ (codes "' references unknown integration '"
            ++ (ref
                ++ (codes "'. Known: ["
                    ++ (join (codes ", ") (map quoted (sorted_texts known)) ++ codes "]")))))

-- The inner loop of `_validate_integration_refs`.
unfoldable pub check_refs : Text → List Text → List Text → Result (Unit {0})
check_refs repo known [] = ok tt
check_refs repo known (ref ∷ refs) =
    if contains known ref
    then check_refs repo known refs
    else raised (record { kind = value_error; message = unknown_ref repo ref known })

unfoldable pub and_then : Result (Unit {0}) → Result (Unit {0}) → Result (Unit {0})
and_then (ok _) r = r
and_then (raised e) r = raised e

unfoldable pub check_projects : List Text → List ProjectConfig → Result (Unit {0})
unfolding and_then
check_projects known [] = ok tt
check_projects known (p ∷ ps) =
    and_then (check_refs p.repo known p.integrations) (check_projects known ps)

-- `_validate_integration_refs`
unfoldable pub validate_integration_refs : ConfigFile → Result (Unit {0})
validate_integration_refs config = check_projects (names config.integrations) config.projects

unfoldable pub duplicate_repo : Text → ℕ → ℕ → Text
duplicate_repo repo first second =
    codes "Duplicate project repo '"
    ++ (repo ++ (codes "' at index " ++ (show first ++ (codes " and " ++ show second))))

unfoldable pub next_repo : Text → ℕ → Option ℕ → Result (Unit {0}) → Result (Unit {0})
next_repo repo idx none rest = rest
next_repo repo idx (some first) rest =
    raised (record { kind = value_error; message = duplicate_repo repo first idx })

-- The loop of `_validate_unique_repos`, from an index on.
unfoldable pub unique_repos : ℕ → List (Text × ℕ) → List ProjectConfig → Result (Unit {0})
unfolding next_repo duplicate_repo
unique_repos idx seen [] = ok tt
unique_repos idx seen (p ∷ ps) =
    next_repo p.repo idx (lookup p.repo seen) (unique_repos (suc idx) (insert p.repo idx seen) ps)

-- `_validate_unique_repos`
unfoldable pub validate_unique_repos : ConfigFile → Result (Unit {0})
validate_unique_repos config = unique_repos 0 [] config.projects

unfoldable pub accept : ConfigFile → Result (Unit {0}) → Result ConfigFile
accept config (ok _) = ok config
accept config (raised e) = raised e

-- `ConfigFile.model_validate`, behind the validation of the fields: the validators in the order of the class.
unfoldable pub validate_config : ConfigFile → Result ConfigFile
unfolding accept and_then
validate_config config =
    accept config (and_then (validate_integration_refs config) (validate_unique_repos config))

unfoldable pub find_integration : Text → List JiraIntegrationConfig → Option JiraIntegrationConfig
find_integration name [] = none
find_integration name (i ∷ is) = if i.name == name then some i else find_integration name is

unfoldable pub get_integration : ConfigFile → Text → Option JiraIntegrationConfig
get_integration config name = find_integration name config.integrations

-- The dictionary that `resolve_project` returns.
pub record ResolvedConfig : Type 0 where
  pub repo : Text
  pub credential_ref : Text
  pub target_branch : Text
  pub resolution_behavior : Behavior
  pub webhook : Bool
  pub poll : PollConfig
  pub copilot : CopilotConfig
  pub integrations : List (Option JiraIntegrationConfig)

unfoldable pub get_integrations : ConfigFile → List Text → List (Option JiraIntegrationConfig)
get_integrations config [] = []
get_integrations config (name ∷ rest) = get_integration config name ∷ get_integrations config rest

unfoldable pub resolve_project : ConfigFile → ProjectConfig → ResolvedConfig
resolve_project config project = record {
  repo = project.repo;
  credential_ref = text_or project.credential_ref config.defaults.credential_ref;
  target_branch = text_or project.target_branch config.defaults.target_branch;
  resolution_behavior = option_or project.resolution_behavior config.defaults.resolution_behavior;
  webhook = option_or project.webhook config.defaults.webhook;
  poll = option_or project.poll config.defaults.poll;
  copilot = option_or project.copilot config.copilot;
  integrations = get_integrations config project.integrations;
}
