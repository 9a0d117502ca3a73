-- ===== src/Registry.antt =====
-- project_registry.py: the projects by Jira key and by GitLab ID.
pub mod Lookup
use gitlab_copilot_agent.Prelude.{
  ℕ, Text, text_eq, nat_eq, codes, show, List, [], ◌∷◌, ◌++◌, Bool, true, false, Option, none, some,
  ◌==◌, is_some, contains,
}
use gitlab_copilot_agent.Effects.{Result, ok, raised, value_error}
use gitlab_copilot_agent.Comments.Parsed.{Behavior}
use gitlab_copilot_agent.Concurrency.OrderedDict.{lookup, insert}

pub record ResolvedProject : Type 0 where
  pub jira_project : Option Text
  pub repo : Text
  pub gitlab_project_id : ℕ
  pub clone_url : Text
  pub target_branch : Text
  pub credential_ref : Text
  pub token : Text
  pub plugins : List Text
  pub trigger_status : Text
  pub in_progress_status : Text
  pub in_review_status : Text
  pub resolution_behavior : Behavior

-- `_by_jira` and `_by_project_id`
pub record ProjectRegistry : Type 0 where
  pub by_jira : List (Text × ResolvedProject)
  pub by_project_id : List (ℕ × ResolvedProject)

add_jira :
    Option Text → ResolvedProject → List (Text × ResolvedProject) → List (Text × ResolvedProject)
add_jira none p d = d
add_jira (some key) p d = insert key p d

-- The first loop of `__init__`.
unfoldable pub jira_loop :
    List ResolvedProject → List (Text × ResolvedProject) → List (Text × ResolvedProject)
unfolding add_jira
jira_loop [] d = d
jira_loop (p ∷ ps) d = jira_loop ps (add_jira p.jira_project p d)

-- `f"{key}"` of an optional key
unfoldable pub show_key : Option Text → Text
show_key none = codes "None"
show_key (some key) = key

-- The error of a second project with the ID of the first.
unfoldable pub duplicate_id : ResolvedProject → ResolvedProject → Text
duplicate_id other p =
    codes "Duplicate gitlab_project_id "
    ++ (show p.gitlab_project_id
        ++ (codes ": "
            ++ (show_key other.jira_project ++ (codes " and " ++ show_key p.jira_project))))

-- The second loop.
unfoldable pub id_loop :
    List ResolvedProject → List (ℕ × ResolvedProject) → Result (List (ℕ × ResolvedProject))
id_loop [] d = ok d
id_loop (p ∷ ps) d =
    let rest = id_loop ps (insert p.gitlab_project_id p d) in
    elim (lookup p.gitlab_project_id d) [
      | none ↦ rest
      | some other ↦ raised (record { kind = value_error; message = duplicate_id other p })
    ]

with_ids :
    List (Text × ResolvedProject) → Result (List (ℕ × ResolvedProject)) → Result ProjectRegistry
with_ids jira (ok ids) = ok (record { by_jira = jira; by_project_id = ids })
with_ids jira (raised e) = raised e

-- `ProjectRegistry(projects)`
unfoldable pub new_registry : List ResolvedProject → Result ProjectRegistry
unfolding with_ids
new_registry projects = with_ids (jira_loop projects []) (id_loop projects [])

unfoldable pub get_by_jira : ProjectRegistry → Text → Option ResolvedProject
get_by_jira registry jira_key = lookup jira_key registry.by_jira

unfoldable pub get_by_project_id : ProjectRegistry → ℕ → Option ResolvedProject
get_by_project_id registry project_id = lookup project_id registry.by_project_id
