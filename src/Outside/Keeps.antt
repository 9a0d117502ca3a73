-- ===== src/Outside/Keeps.antt =====
-- Stages that take permitted steps only, and keep what is known of a pipeline's own context.
use gitlab_copilot_agent.Prelude.{
  Text, text_eq, nat_eq, codes, [], ◌∷◌, ◌++◌, map, Option, none, some, ◌≡◌, refl, inl, inr,
  Bool-cases, All, All-append, ◌==◌, strip,
}
use gitlab_copilot_agent.Effects.{Result, ok, raised, Py, pure}
use gitlab_copilot_agent.Effects.Ensures.{
  Post, Ensures, Keeps, bind-Ensures, after-Ensures, if-Ensures, forget,
}
use gitlab_copilot_agent.Gitlab.{Call, Trace, Gitlab}
use gitlab_copilot_agent.Tasks.{TaskResult, review_result, coding_result}
use gitlab_copilot_agent.Pipeline.{PipelineContext, Run, Pipeline, set_success}
use gitlab_copilot_agent.Outside.{
  Step, asked, fetched, wrote, applied, called, removed, Log, Environment, Outside, perform,
  set_fields, set_context, with_gitlab,
}
use gitlab_copilot_agent.Outside.Files.{
  untrusted_header, context_dir_for, write_context_file, remove_tree, remove_repo, remove_context,
  remove_clone, fetch_base,
}
use gitlab_copilot_agent.Outside.Patches.{apply_at, apply_coding_result}

module _ {C : Type 0} (P : Step → Type 0) (K : C → Type 0) where
  -- Every step so far is permitted, and the context fits.
  abbrev pub Holds : Run (Outside C) → Type 0
  Holds s = All P s.world.log × K s.world.fields

  pub perform-Ensures :
      {A : Type 0} (x : Step) (f : Log → Result A)
      → P x
      → Ensures Holds (perform x f) (λ a. (l : Log) × (f l ≡ ok a))
  unfolding perform
  perform-Ensures {A = A} x f p s i = answered (f s.world.log) refl
    where
      grown : All P (s.world.log ++ x ∷ [])
      grown = All-append P s.world.log (x ∷ []) i.0 (p, tt)

      answered :
          (r : Result A)
          → f s.world.log ≡ r
          → Post Holds
              (λ a. (l : Log) × (f l ≡ ok a))
              (r, record s { world = record s.world { log = s.world.log ++ x ∷ [] } })
      answered (ok a) e = ((grown, i.1), (s.world.log, e))
      answered (raised e') e = (grown, i.1)

  pub perform-Keeps : {A : Type 0} (x : Step) (f : Log → Result A) → P x → Keeps Holds (perform x f)
  perform-Keeps {A = A} x f p =
      forget Holds (λ (a : A). (l : Log) × (f l ≡ ok a)) (perform x f) (perform-Ensures x f p)

  pub set_fields-Keeps : (f : C → C) → ((c : C) → K c → K (f c)) → Keeps Holds (set_fields f)
  unfolding set_fields
  set_fields-Keeps f k s i = ((i.0, k s.world.fields i.1), tt)

  pub set_context-Keeps : (f : PipelineContext → PipelineContext) → Keeps Holds (set_context f)
  unfolding set_context
  set_context-Keeps f s i = (i, tt)

  pub set_success-Holds :
      (pipeline : Pipeline (Outside C)) (s : Run (Outside C))
      → Holds s
      → Holds (set_success pipeline s)
  unfolding set_success
  set_success-Holds pipeline s i = elim (Bool-cases (s.context.outcome == codes "error")) [
    | inl e ↦ rw e i
    | inr e ↦ rw e i
  ]

  module _ (env : Environment) where
    pub write_context_file-Keeps :
        ((path text : Text) → P (wrote path text))
        → (repo_path filename content : Text)
        → Keeps Holds (write_context_file env repo_path filename content)
    unfolding write_context_file
    write_context_file-Keeps p repo_path filename content =
        if-Ensures Holds (λ _. Unit) (strip content == []) _ _ (λ _ s i. (i, tt))
          (λ _.
            after-Ensures Holds (λ _. Unit) (λ _. Unit)
              (perform
                (wrote (context_dir_for repo_path ++ (codes "/" ++ filename))
                  (untrusted_header ++ content))
                env.write)
              (pure (context_dir_for repo_path)) (perform-Keeps _ env.write (p _ _))
              (λ s i. (i, tt)))

    remove_repo-Keeps :
        ((path : Text) → P (removed path)) → (o : Option Text) → Keeps Holds (remove_repo env o)
    unfolding remove_repo remove_tree
    remove_repo-Keeps p none = λ s i. (i, tt)
    remove_repo-Keeps p (some path) = perform-Keeps (removed path) env.remove (p path)

    remove_context-Keeps :
        ((path : Text) → P (removed path)) → (o : Option Text) → Keeps Holds (remove_context env o)
    unfolding remove_context remove_tree
    remove_context-Keeps p none s i = (i, tt)
    remove_context-Keeps p (some path) s i = elim (Bool-cases (env.exists s.world.log path)) [
      | inl e ↦ rw e (perform-Keeps (removed path) env.remove (p path) s i)
      | inr e ↦ rw e (i, tt)
    ]

    pub remove_clone-Keeps : ((path : Text) → P (removed path)) → Keeps Holds (remove_clone env)
    unfolding remove_clone
    remove_clone-Keeps p s =
        after-Ensures Holds (λ _. Unit) (λ _. Unit) (remove_repo env s.context.repo_path)
          (λ t. remove_context env t.context.context_dir t)
          (remove_repo-Keeps p s.context.repo_path)
          (λ t. remove_context-Keeps p t.context.context_dir t) s

    pub fetch_base-Keeps : (sha : Text) → P (fetched sha) → Keeps Holds (fetch_base env sha)
    unfolding fetch_base
    fetch_base-Keeps sha p =
        bind-Ensures Holds (λ _. Unit) (λ _. Unit) (perform (fetched sha) env.git_fetch) _
          (perform-Keeps (fetched sha) env.git_fetch p) (λ found _ s i. (i, tt))

    apply_at-Keeps :
        (patch base_sha local_head : Text)
        → P (applied patch)
        → Keeps Holds (apply_at env patch base_sha local_head)
    unfolding apply_at
    apply_at-Keeps patch [] local_head p = perform-Keeps (applied patch) env.git_apply_patch p
    apply_at-Keeps patch (c ∷ base_sha) local_head p =
        if-Ensures Holds (λ _. Unit) ((c ∷ base_sha) == local_head) _ _
          (λ _. perform-Keeps (applied patch) env.git_apply_patch p) (λ _ s i. i)

    pub apply_coding_result-Keeps :
        P asked
        → ((patch : Text) → P (applied patch))
        → (r : TaskResult) → Keeps Holds (apply_coding_result env r)
    unfolding apply_coding_result
    apply_coding_result-Keeps p q (review_result text) = λ s i. (i, tt)
    apply_coding_result-Keeps p q (coding_result text [] base_sha) = λ s i. (i, tt)
    apply_coding_result-Keeps p q (coding_result text (c ∷ patch) base_sha) =
        bind-Ensures Holds (λ _. Unit) (λ _. Unit) (perform asked env.git_head_sha) _
          (perform-Keeps asked env.git_head_sha p)
          (λ local_head _. apply_at-Keeps (c ∷ patch) base_sha local_head (q (c ∷ patch)))

  pub with_gitlab-Keeps :
      {A : Type 0} (env : Environment) (m : Gitlab → Py Trace A)
      → ((gitlab : Gitlab) → All (λ c. P (called c)) (m gitlab []).1)
      → Keeps Holds (with_gitlab env m)
  unfolding with_gitlab
  with_gitlab-Keeps {A = A} env m h s i =
      let gitlab = λ (trace : Trace) (c : Call). env.gitlab (s.world.log ++ map called trace) c in
      at _ (m gitlab []).0 (
        All-append P s.world.log (map called (m gitlab []).1) i.0 (each (m gitlab []).1 (h gitlab)))
    where
      each : (xs : Trace) → All (λ c. P (called c)) xs → All P (map called xs)
      each [] k = tt
      each (x ∷ xs) k = (k.0, each xs k.1)

      at :
          (log : Log) (r : Result A)
          → All P log
          → Post Holds (λ (a : A). Unit {0}) (r, record s { world = record s.world { log = log } })
      at log (ok a) k = ((k, i.1), tt)
      at log (raised e) k = (k, i.1)
