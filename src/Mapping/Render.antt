-- ===== src/Mapping/Render.antt =====
-- What the rendered map holds.
use gitlab_copilot_agent.Prelude.{
  ℕ, suc, Text, text_eq, List, [], ◌∷◌, ◌++◌, true, false, Option, none, some, ◌==◌, contains, All,
  eq_self, ◌≡◌, refl, sym, ◌∙◌, text_or, inl, inr, Bool-cases, arith,
}
use gitlab_copilot_agent.Effects.{ok}
use gitlab_copilot_agent.Concurrency.OrderedDict.{lookup, insert, lookup-insert, distinct}
use gitlab_copilot_agent.Config.File.{option_or}
use gitlab_copilot_agent.Mapping.{
  Defaults, Binding, MappingFile, RenderedBinding, duplicate_line, duplicates, refuse,
  check_duplicate_jira_keys, resolve_binding, render_loop, render,
}

unfoldable pub jira_keys : List Binding → List Text
jira_keys [] = []
jira_keys (b ∷ bs) = b.jira_project ∷ jira_keys bs

duplicates-step :
    (idx : ℕ) (seen : List (Text × ℕ)) (b : Binding) (bs : List Binding)
    → duplicates idx seen (b ∷ bs) ≡ []
    → (lookup b.jira_project seen ≡ none)
      × (duplicates (suc idx) (insert b.jira_project idx seen) bs ≡ [])
unfolding duplicates
duplicates-step idx seen b bs h = at (lookup b.jira_project seen) h
  where
    at :
        (o : Option ℕ)
        → duplicate_line b.jira_project idx o
            ++ duplicates (suc idx) (insert b.jira_project idx seen) bs
          ≡ []
        → (o ≡ none) × (duplicates (suc idx) (insert b.jira_project idx seen) bs ≡ [])
    at none e = (refl, e)
    at (some first) e = cc e

duplicates-fresh :
    (bs : List Binding) (idx : ℕ) (seen : List (Text × ℕ)) (key : Text)
    → duplicates idx seen bs ≡ []
    → contains (jira_keys bs) key ≡ true
    → lookup key seen ≡ none
unfolding contains jira_keys
duplicates-fresh [] idx seen key h k = cc k
duplicates-fresh (b ∷ bs) idx seen key h k =
    let (free, rest) = duplicates-step idx seen b bs h in
    elim (Bool-cases (b.jira_project == key)) [
      | inl here ↦ rw⁻¹ ((text_eq.beq_iff b.jira_project key).0 here) free
      | inr other ↦
          let more : contains (jira_keys bs) key ≡ true = ground (
            arith,
            k,
            other,
            text_eq.beq_iff b.jira_project key,
            text_eq.beq_iff key b.jira_project,
          ) in
          let kept : lookup key (insert b.jira_project idx seen) ≡ lookup key seen =
            lookup-insert b.jira_project key idx seen ∙ rw other refl in
          sym kept ∙ duplicates-fresh bs (suc idx) (insert b.jira_project idx seen) key rest more
    ]

duplicates-distinct :
    (bs : List Binding) (idx : ℕ) (seen : List (Text × ℕ))
    → duplicates idx seen bs ≡ []
    → distinct (jira_keys bs) ≡ true
unfolding distinct jira_keys
duplicates-distinct [] idx seen h = refl
duplicates-distinct (b ∷ bs) idx seen h =
    let (free, rest) = duplicates-step idx seen b bs h in
    let added = insert b.jira_project idx seen in
    elim (Bool-cases (contains (jira_keys bs) b.jira_project)) [
      | inl again ↦
          let gone = duplicates-fresh bs (suc idx) added b.jira_project rest again in
          let there : lookup b.jira_project added ≡ some idx =
            rw (lookup-insert b.jira_project b.jira_project idx seen, eq_self b.jira_project)
              refl in
          cc (gone, there)
      | inr once ↦ rw (once, duplicates-distinct bs (suc idx) added rest) refl
    ]

render_loop-other :
    (defaults : Defaults) (bs : List Binding) (d : List (Text × RenderedBinding)) (key : Text)
    → contains (jira_keys bs) key ≡ false
    → lookup key (render_loop defaults bs d) ≡ lookup key d
unfolding render_loop contains jira_keys
render_loop-other defaults [] d key h = refl
render_loop-other defaults (b ∷ bs) d key h =
    let other : (b.jira_project == key) ≡ false =
      ground (arith, h, text_eq.beq_iff b.jira_project key, text_eq.beq_iff key b.jira_project) in
    let more : contains (jira_keys bs) key ≡ false = ground (arith, h) in
    render_loop-other defaults bs (insert b.jira_project (resolve_binding defaults b) d) key more
    ∙ (lookup-insert b.jira_project key (resolve_binding defaults b) d ∙ rw other refl)

render_loop-each :
    (defaults : Defaults) (bs : List Binding) (d : List (Text × RenderedBinding))
    → distinct (jira_keys bs) ≡ true
    → All
        (λ b. lookup b.jira_project (render_loop defaults bs d) ≡ some (resolve_binding defaults b))
        bs
unfolding render_loop distinct jira_keys
render_loop-each defaults [] d h = tt
render_loop-each defaults (b ∷ bs) d h =
    let added = insert b.jira_project (resolve_binding defaults b) d in
    let once : contains (jira_keys bs) b.jira_project ≡ false = ground (arith, h) in
    let rest : distinct (jira_keys bs) ≡ true = ground (arith, h) in
    (
      render_loop-other defaults bs added b.jira_project once
          ∙ rw
              (
                lookup-insert b.jira_project b.jira_project (resolve_binding defaults b) d,
                eq_self b.jira_project,
              )
              refl,
      render_loop-each defaults bs added rest,
    )

refuse-ok :
    (file accepted : MappingFile) (lines : List Text) → refuse file lines ≡ ok accepted → lines ≡ []
unfolding refuse
refuse-ok file accepted [] h = refl
refuse-ok file accepted (line ∷ lines) h = cc h

-- How a text of a binding is rendered: a text that is not empty is kept, and otherwise the default is taken.
unfoldable pub TakesText : Option Text → Text → Text → Type 0
TakesText none default rendered = rendered ≡ default
TakesText (some []) default rendered = rendered ≡ default
TakesText (some (c ∷ cs)) default rendered = rendered ≡ c ∷ cs

-- How another value of a binding is rendered: it is kept if there is one, an empty list too.
unfoldable pub TakesValue : {A : Type 0} → Option A → A → A → Type 0
TakesValue none default rendered = rendered ≡ default
TakesValue (some value) default rendered = rendered ≡ value

-- A rendered binding that is what the YAML binding says, with the defaults for what it leaves out.
pub record IsRendered (defaults : Defaults) (b : Binding) (r : RenderedBinding) : Type 0 where
  pub same_repo : r.repo ≡ b.repo
  pub branch : TakesText b.target_branch defaults.target_branch r.target_branch
  pub credential : TakesText b.credential_ref defaults.credential_ref r.credential_ref
  pub plugin_list : TakesValue b.plugins defaults.plugins r.plugins
  pub trigger : TakesText b.trigger_status defaults.trigger_status r.trigger_status
  pub in_progress : TakesText b.in_progress_status defaults.in_progress_status r.in_progress_status
  pub in_review : TakesText b.in_review_status defaults.in_review_status r.in_review_status
  pub behavior : TakesValue b.resolution_behavior defaults.resolution_behavior r.resolution_behavior

text_or-TakesText : (o : Option Text) (default : Text) → TakesText o default (text_or o default)
unfolding TakesText
text_or-TakesText none default = refl
text_or-TakesText (some []) default = refl
text_or-TakesText (some (c ∷ cs)) default = refl

option_or-TakesValue :
    {A : Type 0} (o : Option A) (default : A) → TakesValue o default (option_or o default)
unfolding TakesValue
option_or-TakesValue none default = refl
option_or-TakesValue (some value) default = refl

resolve_binding-IsRendered :
    (defaults : Defaults) (b : Binding) → IsRendered defaults b (resolve_binding defaults b)
unfolding resolve_binding
resolve_binding-IsRendered defaults b = record {
  same_repo = refl;
  branch = text_or-TakesText b.target_branch defaults.target_branch;
  credential = text_or-TakesText b.credential_ref defaults.credential_ref;
  plugin_list = option_or-TakesValue b.plugins defaults.plugins;
  trigger = text_or-TakesText b.trigger_status defaults.trigger_status;
  in_progress = text_or-TakesText b.in_progress_status defaults.in_progress_status;
  in_review = text_or-TakesText b.in_review_status defaults.in_review_status;
  behavior = option_or-TakesValue b.resolution_behavior defaults.resolution_behavior;
}

-- What the rendered map has under the key of a binding.
abbrev pub IsFound : Defaults → List (Text × RenderedBinding) → Binding → Type 0
IsFound defaults mappings b =
    (r : RenderedBinding) × (lookup b.jira_project mappings ≡ some r) × IsRendered defaults b r

All-IsFound :
    (defaults : Defaults) (mappings : List (Text × RenderedBinding)) (bs : List Binding)
    → All (λ b. lookup b.jira_project mappings ≡ some (resolve_binding defaults b)) bs
    → All (IsFound defaults mappings) bs
All-IsFound defaults mappings [] h = tt
All-IsFound defaults mappings (b ∷ bs) (found, more) = (
  (resolve_binding defaults b, found, resolve_binding-IsRendered defaults b),
  All-IsFound defaults mappings bs more,
)

-- Where the duplicate check accepts a file, the rendered map has an entry under the key of every binding: no binding hides
-- another. Its repository is the binding's; its other texts are the binding's where they are given
-- and not empty, and otherwise the file's defaults; its plugins and its behavior are the binding's where they are given, an empty list
-- of plugins too, and otherwise the defaults.
pub render_complete :
    (file accepted : MappingFile)
    → check_duplicate_jira_keys file ≡ ok accepted
    → All (IsFound file.defaults (render file).mappings) file.bindings
unfolding check_duplicate_jira_keys render
render_complete file accepted h = All-IsFound file.defaults _ file.bindings (
    render_loop-each file.defaults file.bindings []
      (duplicates-distinct file.bindings 0 [] (refuse-ok file accepted _ h)))
