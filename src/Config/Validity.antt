-- ===== src/Config/Validity.antt =====
-- `ConfigFile` of config_v2.py: what its validators make sure of.
use gitlab_copilot_agent.Prelude.{
  ℕ, suc, Text, text_eq, List, [], ◌∷◌, true, Option, none, some, ◌==◌, contains, map, All, eq_self,
  ◌≡◌, refl, Bool-cases, inl, inr, arith, ap, sym, ◌∙◌,
}
use gitlab_copilot_agent.Effects.{Result, ok, raised}
use gitlab_copilot_agent.Concurrency.OrderedDict.{lookup, insert, lookup-insert, distinct}
use gitlab_copilot_agent.Config.{ProjectConfig, JiraIntegrationConfig, ConfigFile}
use gitlab_copilot_agent.Config.File.{
  names, check_refs, and_then, check_projects, validate_integration_refs, next_repo, unique_repos,
  validate_unique_repos, accept, validate_config, find_integration, get_integration,
  get_integrations, resolve_project,
}

abbrev pub found_name : Option JiraIntegrationConfig → Option Text
found_name none = none
found_name (some i) = some i.name

-- The repositories of the projects, in order.
unfoldable pub repos : List ProjectConfig → List Text
repos [] = []
repos (p ∷ ps) = p.repo ∷ repos ps

-- Every reference of the project is found, and leads to the integration of that name.
unfoldable pub ResolvesAll : ConfigFile → ProjectConfig → Type 0
ResolvesAll config p =
    map found_name (resolve_project config p).integrations ≡ map some p.integrations

find_integration-known :
    (name : Text) (is : List JiraIntegrationConfig)
    → contains (names is) name ≡ true
    → found_name (find_integration name is) ≡ some name
unfolding find_integration names contains
find_integration-known name [] h = cc h
find_integration-known name (i ∷ is) h = elim (Bool-cases (i.name == name)) [
  | inl here ↦ rw here (ap some ((text_eq.beq_iff i.name name).0 here))
  | inr other ↦
      let more : contains (names is) name ≡ true =
        ground (arith, h, other, text_eq.beq_iff i.name name, text_eq.beq_iff name i.name) in
      rw other (find_integration-known name is more)
]

check_refs-known :
    (repo : Text) (config : ConfigFile) (refs : List Text)
    → check_refs repo (names config.integrations) refs ≡ ok tt
    → map found_name (get_integrations config refs) ≡ map some refs
unfolding check_refs get_integrations get_integration
check_refs-known repo config [] h = refl
check_refs-known repo config (ref ∷ refs) h =
    elim (Bool-cases (contains (names config.integrations) ref)) [
      | inl known ↦
          let rest : check_refs repo (names config.integrations) refs ≡ ok tt =
            ground (arith, h, known) in
          rw
            (
              find_integration-known ref config.integrations known,
              check_refs-known repo config refs rest,
            )
            refl
      | inr unknown ↦ cc (h, unknown)
    ]

and_then-ok : (r s : Result (Unit {0})) → and_then r s ≡ ok tt → (r ≡ ok tt) × (s ≡ ok tt)
unfolding and_then
and_then-ok (ok tt) s h = (refl, h)
and_then-ok (raised e) s h = cc h

check_projects-resolved :
    (config : ConfigFile) (ps : List ProjectConfig)
    → check_projects (names config.integrations) ps ≡ ok tt
    → All (ResolvesAll config) ps
unfolding check_projects ResolvesAll resolve_project
check_projects-resolved config [] h = tt
check_projects-resolved config (p ∷ ps) h =
    let (first, rest) =
      and_then-ok (check_refs p.repo (names config.integrations) p.integrations)
        (check_projects (names config.integrations) ps) h in
    (check_refs-known p.repo config p.integrations first, check_projects-resolved config ps rest)

-- The first index of a repository is still free, where the rest is accepted.
unique_repos-step :
    (idx : ℕ) (seen : List (Text × ℕ)) (p : ProjectConfig) (ps : List ProjectConfig)
    → unique_repos idx seen (p ∷ ps) ≡ ok tt
    → (lookup p.repo seen ≡ none) × (unique_repos (suc idx) (insert p.repo idx seen) ps ≡ ok tt)
unfolding unique_repos
unique_repos-step idx seen p ps h = by_first (lookup p.repo seen) h
  where
    by_first :
        (o : Option ℕ)
        → next_repo p.repo idx o (unique_repos (suc idx) (insert p.repo idx seen) ps) ≡ ok tt
        → (o ≡ none) × (unique_repos (suc idx) (insert p.repo idx seen) ps ≡ ok tt)
    by_first none e = (refl, e)
    by_first (some first) e = cc e

unique_repos-fresh :
    (ps : List ProjectConfig) (idx : ℕ) (seen : List (Text × ℕ)) (repo : Text)
    → unique_repos idx seen ps ≡ ok tt
    → contains (repos ps) repo ≡ true
    → lookup repo seen ≡ none
unfolding contains repos
unique_repos-fresh [] idx seen repo h k = cc k
unique_repos-fresh (p ∷ ps) idx seen repo h k =
    let (free, rest) = unique_repos-step idx seen p ps h in
    elim (Bool-cases (p.repo == repo)) [
      | inl here ↦ rw⁻¹ ((text_eq.beq_iff p.repo repo).0 here) free
      | inr other ↦
          let more : contains (repos ps) repo ≡ true =
            ground (arith, k, other, text_eq.beq_iff p.repo repo, text_eq.beq_iff repo p.repo) in
          let kept : lookup repo (insert p.repo idx seen) ≡ lookup repo seen =
            lookup-insert p.repo repo idx seen ∙ rw other refl in
          sym kept ∙ unique_repos-fresh ps (suc idx) (insert p.repo idx seen) repo rest more
    ]

unique_repos-distinct :
    (ps : List ProjectConfig) (idx : ℕ) (seen : List (Text × ℕ))
    → unique_repos idx seen ps ≡ ok tt
    → distinct (repos ps) ≡ true
unfolding distinct repos
unique_repos-distinct [] idx seen h = refl
unique_repos-distinct (p ∷ ps) idx seen h =
    let (free, rest) = unique_repos-step idx seen p ps h in
    let below = unique_repos-distinct ps (suc idx) (insert p.repo idx seen) rest in
    elim (Bool-cases (contains (repos ps) p.repo)) [
      | inl again ↦
          let gone = unique_repos-fresh ps (suc idx) (insert p.repo idx seen) p.repo rest again in
          let there : lookup p.repo (insert p.repo idx seen) ≡ some idx =
            rw (lookup-insert p.repo p.repo idx seen, eq_self p.repo) refl in
          cc (gone, there)
      | inr once ↦ rw (once, below) refl
    ]

accept-ok : (c d : ConfigFile) (r : Result (Unit {0})) → accept c r ≡ ok d → r ≡ ok tt
unfolding accept
accept-ok c d (ok tt) h = refl
accept-ok c d (raised e) h = cc h

-- A configuration file that validates has no repository twice, and every integration that a project
-- refers to is found, by the name that the project gives, when the project is resolved.
pub validate_config-resolves :
    (config accepted : ConfigFile)
    → validate_config config ≡ ok accepted
    → All (ResolvesAll config) config.projects × (distinct (repos config.projects) ≡ true)
unfolding validate_config validate_integration_refs validate_unique_repos
validate_config-resolves config accepted h =
    let both =
      and_then-ok (validate_integration_refs config) (validate_unique_repos config)
        (accept-ok config accepted _ h) in
    (
      check_projects-resolved config config.projects both.0,
      unique_repos-distinct config.projects 0 [] both.1,
    )
