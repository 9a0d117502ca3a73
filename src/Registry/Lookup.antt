-- ===== src/Registry/Lookup.antt =====
-- Lookup in a project registry.
use gitlab_copilot_agent.Prelude.{
  ℕ, nat_eq, Text, contains, eq_self, List, [], ◌∷◌, true, Option, none, some, ◌==◌, ◌≡◌, refl,
  Option-cases, Bool-cases, inl, inr, arith, if◌then◌else◌, ◌≢◌, ap, sym, ◌∙◌,
}
use gitlab_copilot_agent.Effects.{Result, ok, raised, value_error}
use gitlab_copilot_agent.Concurrency.OrderedDict.{lookup, insert, lookup-insert, distinct}
use gitlab_copilot_agent.Registry.{
  ResolvedProject, ProjectRegistry, jira_loop, id_loop, with_ids, duplicate_id, new_registry,
  get_by_project_id,
}

-- The first project with this ID.
unfoldable pub first_with_id : ℕ → List ResolvedProject → Option ResolvedProject
first_with_id n [] = none
first_with_id n (p ∷ ps) = if p.gitlab_project_id == n then some p else first_with_id n ps

first_or : Option ResolvedProject → Option ResolvedProject → Option ResolvedProject
first_or none y = y
first_or (some x) y = some x

-- The IDs of the projects, in order.
unfoldable pub project_ids : List ResolvedProject → List ℕ
project_ids [] = []
project_ids (p ∷ ps) = p.gitlab_project_id ∷ project_ids ps

from_ok : Result (List (ℕ × ResolvedProject)) → List (ℕ × ResolvedProject)
from_ok (ok d) = d
from_ok (raised e) = []

first_or-none : (x : Option ResolvedProject) → first_or x none ≡ x
unfolding first_or
first_or-none none = refl
first_or-none (some x) = refl

id_loop-step :
    (p : ResolvedProject) (ps : List ResolvedProject) (d : List (ℕ × ResolvedProject))
    → lookup p.gitlab_project_id d ≡ none
    → id_loop (p ∷ ps) d ≡ id_loop ps (insert p.gitlab_project_id p d)
unfolding id_loop
id_loop-step p ps d fresh = rw (id_loop, fresh) refl

id_loop-stop :
    (p : ResolvedProject) (ps : List ResolvedProject) (d d' : List (ℕ × ResolvedProject))
    → (q : ResolvedProject) × (lookup p.gitlab_project_id d ≡ some q)
    → id_loop (p ∷ ps) d ≢ ok d'
unfolding id_loop
id_loop-stop p ps d d' (q, taken) e =
    let stop : id_loop (p ∷ ps) d
        ≡ raised (record { kind = value_error; message = duplicate_id q p }) =
      rw (id_loop, taken) refl in
    cc (stop, e)

id_loop-lookup :
    (ps : List ResolvedProject) (d d' : List (ℕ × ResolvedProject)) (n : ℕ)
    → id_loop ps d ≡ ok d'
    → lookup n d' ≡ first_or (lookup n d) (first_with_id n ps)
unfolding id_loop first_with_id first_or from_ok
id_loop-lookup [] d d' n e =
    let same : d ≡ d' = ap from_ok e in rw⁻¹ same (sym (first_or-none (lookup n d)))
id_loop-lookup (p ∷ ps) d d' n e = elim (Option-cases (lookup p.gitlab_project_id d)) [
  | inl fresh ↦
      let added = insert p.gitlab_project_id p d in
      let rest = id_loop-lookup ps added d' n (sym (id_loop-step p ps d fresh) ∙ e) in
      let at = lookup-insert p.gitlab_project_id n p d in
      elim (Bool-cases (p.gitlab_project_id == n)) [
        | inl here ↦
            let named : p.gitlab_project_id ≡ n = (nat_eq.beq_iff p.gitlab_project_id n).0 here in
            let free : lookup n d ≡ none = rw⁻¹ named fresh in
            let put : lookup n added ≡ some p = at ∙ rw here refl in rw (rest, put, free, here) refl
        | inr other ↦
            let kept : lookup n added ≡ lookup n d = at ∙ rw other refl in
            rw (rest, kept, other) refl
      ]
  | inr taken ↦ elim (id_loop-stop p ps d d' taken e) [ ]
]

with_ids-ok :
    (jira : List (Text × ResolvedProject)) (r : Result (List (ℕ × ResolvedProject)))
    (registry : ProjectRegistry)
    → with_ids jira r ≡ ok registry
    → r ≡ ok registry.by_project_id
unfolding with_ids
with_ids-ok jira (ok ids) registry e = ap by_id e
  where
    by_id : Result ProjectRegistry → Result (List (ℕ × ResolvedProject))
    by_id (ok g) = ok g.by_project_id
    by_id (raised x) = raised x
with_ids-ok jira (raised x) registry e = cc e

-- A registry that could be built finds, for every ID, the first project of the list that has it.
pub get_by_project_id-new_registry :
    (projects : List ResolvedProject) (registry : ProjectRegistry) (n : ℕ)
    → new_registry projects ≡ ok registry
    → get_by_project_id registry n ≡ first_with_id n projects
unfolding new_registry get_by_project_id lookup first_or
get_by_project_id-new_registry projects registry n e =
    id_loop-lookup projects [] registry.by_project_id n
      (with_ids-ok (jira_loop projects []) _ registry e)

id_loop-fresh :
    (ps : List ResolvedProject) (d d' : List (ℕ × ResolvedProject)) (n : ℕ)
    → id_loop ps d ≡ ok d'
    → contains (project_ids ps) n ≡ true
    → lookup n d ≡ none
unfolding contains project_ids
id_loop-fresh [] d d' n e h = cc h
id_loop-fresh (p ∷ ps) d d' n e h = elim (Option-cases (lookup p.gitlab_project_id d)) [
  | inr taken ↦ elim (id_loop-stop p ps d d' taken e) [ ]
  | inl fresh ↦
      let at = lookup-insert p.gitlab_project_id n p d in
      elim (Bool-cases (p.gitlab_project_id == n)) [
        | inl here ↦ rw⁻¹ ((nat_eq.beq_iff p.gitlab_project_id n).0 here) fresh
        | inr other ↦
            let kept : lookup n (insert p.gitlab_project_id p d) ≡ lookup n d =
              at ∙ rw other refl in
            let more : contains (project_ids ps) n ≡ true = ground (arith, h, other) in
            sym kept ∙ id_loop-fresh ps _ d' n (sym (id_loop-step p ps d fresh) ∙ e) more
      ]
]

id_loop-distinct :
    (ps : List ResolvedProject) (d d' : List (ℕ × ResolvedProject))
    → id_loop ps d ≡ ok d'
    → distinct (project_ids ps) ≡ true
unfolding distinct project_ids
id_loop-distinct [] d d' e = refl
id_loop-distinct (p ∷ ps) d d' e = elim (Option-cases (lookup p.gitlab_project_id d)) [
  | inr taken ↦ elim (id_loop-stop p ps d d' taken e) [ ]
  | inl fresh ↦
      let next = sym (id_loop-step p ps d fresh) ∙ e in
      let rest = id_loop-distinct ps _ d' next in
      elim (Bool-cases (contains (project_ids ps) p.gitlab_project_id)) [
        | inl again ↦
            let gone = id_loop-fresh ps _ d' p.gitlab_project_id next again in
            let there : lookup p.gitlab_project_id (insert p.gitlab_project_id p d) ≡ some p =
              rw
                (
                  lookup-insert p.gitlab_project_id p.gitlab_project_id p d,
                  eq_self p.gitlab_project_id,
                )
                refl in
            cc (gone, there)
        | inr once ↦ rw (once, rest) refl
      ]
]

-- A registry can be built only from projects whose GitLab IDs are distinct.
pub new_registry-distinct :
    (projects : List ResolvedProject) (registry : ProjectRegistry)
    → new_registry projects ≡ ok registry
    → distinct (project_ids projects) ≡ true
unfolding new_registry
new_registry-distinct projects registry e =
    id_loop-distinct projects [] registry.by_project_id
      (with_ids-ok (jira_loop projects []) _ registry e)
