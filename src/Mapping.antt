-- ===== src/Mapping.antt =====
-- mapping_models.py: the YAML bindings of Jira projects to repositories, and the map that they are rendered to.
-- pydantic's validation of the single fields is given.
pub mod Render
use gitlab_copilot_agent.Prelude.{
  ℕ, suc, nat_eq, Text, text_eq, codes, show, join, text_or, List, [], ◌∷◌, ◌++◌, Bool, true, false,
  Option, none, some, ◌==◌, contains, if◌then◌else◌,
}
use gitlab_copilot_agent.Effects.{Result, ok, raised, value_error}
use gitlab_copilot_agent.Comments.Parsed.{Behavior}
use gitlab_copilot_agent.Concurrency.OrderedDict.{lookup, insert}
use gitlab_copilot_agent.Config.File.{option_or}

pub record Defaults : Type 0 where
  pub target_branch : Text
  pub credential_ref : Text
  pub plugins : List Text
  pub trigger_status : Text
  pub in_progress_status : Text
  pub in_review_status : Text
  pub resolution_behavior : Behavior

abbrev pub new_defaults : Defaults
new_defaults = record {
  target_branch = codes "main";
  credential_ref = codes "default";
  plugins = [];
  trigger_status = codes "AI Ready";
  in_progress_status = codes "In Progress";
  in_review_status = codes "In Review";
  resolution_behavior = Behavior.suggest;
}

pub record Binding : Type 0 where
  pub jira_project : Text
  pub repo : Text
  pub target_branch : Option Text
  pub credential_ref : Option Text
  pub plugins : Option (List Text)
  pub trigger_status : Option Text
  pub in_progress_status : Option Text
  pub in_review_status : Option Text
  pub resolution_behavior : Option Behavior

pub record MappingFile : Type 0 where
  pub defaults : Defaults
  pub bindings : List Binding

pub record RenderedBinding : Type 0 where
  pub repo : Text
  pub target_branch : Text
  pub credential_ref : Text
  pub plugins : List Text
  pub trigger_status : Text
  pub in_progress_status : Text
  pub in_review_status : Text
  pub resolution_behavior : Behavior

-- `RenderedMap`
pub record RenderedMap : Type 0 where
  pub mappings : List (Text × RenderedBinding)

unfoldable pub bad_repo : Text → Text
bad_repo repo =
    codes "repo '"
    ++ (repo ++ codes "' must contain at least one '/' (expected format: 'group/project')")

-- `Binding._validate_repo_path`
unfoldable pub validate_repo_path : Binding → Result Binding
validate_repo_path b =
    if contains b.repo b'/'
    then ok b
    else raised (record { kind = value_error; message = bad_repo b.repo })

unfoldable pub duplicate_line : Text → ℕ → Option ℕ → List Text
duplicate_line key idx none = []
duplicate_line key idx (some first) =
    (codes "'" ++ (key ++ (codes "' at binding " ++ (show first ++ (codes " and " ++ show idx)))))
    ∷ []

-- The loop of `_check_duplicate_jira_keys`, from an index on: `duplicates`.
unfoldable pub duplicates : ℕ → List (Text × ℕ) → List Binding → List Text
unfolding duplicate_line
duplicates idx seen [] = []
duplicates idx seen (b ∷ bs) =
    duplicate_line b.jira_project idx (lookup b.jira_project seen)
    ++ duplicates (suc idx) (insert b.jira_project idx seen) bs

unfoldable pub refuse : MappingFile → List Text → Result MappingFile
refuse file [] = ok file
refuse file (line ∷ lines) = raised (record {
  kind = value_error;
  message = codes "Duplicate Jira project keys: " ++ join (codes "; ") (line ∷ lines);
})

-- `MappingFile._check_duplicate_jira_keys`
unfoldable pub check_duplicate_jira_keys : MappingFile → Result MappingFile
check_duplicate_jira_keys file = refuse file (duplicates 0 [] file.bindings)

-- `refs.add(...)`: a set as a list, in the order of the first additions.
unfoldable pub add_ref : List Text → Text → List Text
add_ref refs ref = if contains refs ref then refs else refs ++ ref ∷ []

unfoldable pub add_refs : Defaults → List Binding → List Text → List Text
unfolding add_ref
add_refs defaults [] refs = refs
add_refs defaults (b ∷ bs) refs =
    add_refs defaults bs (add_ref refs (text_or b.credential_ref defaults.credential_ref))

-- `required_credential_refs`
unfoldable pub required_credential_refs : MappingFile → List Text
required_credential_refs file = add_refs file.defaults file.bindings []

unfoldable pub resolve_binding : Defaults → Binding → RenderedBinding
resolve_binding defaults b = record {
  repo = b.repo;
  target_branch = text_or b.target_branch defaults.target_branch;
  credential_ref = text_or b.credential_ref defaults.credential_ref;
  plugins = option_or b.plugins defaults.plugins;
  trigger_status = text_or b.trigger_status defaults.trigger_status;
  in_progress_status = text_or b.in_progress_status defaults.in_progress_status;
  in_review_status = text_or b.in_review_status defaults.in_review_status;
  resolution_behavior = option_or b.resolution_behavior defaults.resolution_behavior;
}

-- The loop of `render`.
unfoldable pub render_loop :
    Defaults → List Binding → List (Text × RenderedBinding) → List (Text × RenderedBinding)
render_loop defaults [] d = d
render_loop defaults (b ∷ bs) d =
    render_loop defaults bs (insert b.jira_project (resolve_binding defaults b) d)

unfoldable pub render : MappingFile → RenderedMap
render file = record { mappings = render_loop file.defaults file.bindings [] }
