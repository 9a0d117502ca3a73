-- ===== src/ReviewPipeline/Permitted/Context.antt =====
-- The clone, the commits and the discussions: allowed steps only.
use gitlab_copilot_agent.Prelude.{
  ℕ, Text, text_eq, nat_eq, List, Bool, true, false, Option, none, some, ◌≡◌, refl, ap,
}
use gitlab_copilot_agent.Effects.{ok, pure, lift}
use gitlab_copilot_agent.Effects.Ensures.{
  Keeps, bind-Ensures, after-Ensures, try_except-Ensures, lift-Keeps,
}
use gitlab_copilot_agent.Discussions.{Discussion, AgentIdentity, DiscussionHistory}
use gitlab_copilot_agent.Events.{TaskEvent}
use gitlab_copilot_agent.Outside.{Step, cloned, asked, Environment, perform, set_fields}
use gitlab_copilot_agent.Outside.Keeps.{
  perform-Ensures, perform-Keeps, set_fields-Keeps, set_context-Keeps,
}
use gitlab_copilot_agent.DiscussionPipeline.{PipelineSettings}
use gitlab_copilot_agent.ReviewPipeline.{ReviewContext, State, ReviewTexts}
use gitlab_copilot_agent.ReviewPipeline.Stages.{clone, load_commits, load_history, load_history_if}
use gitlab_copilot_agent.ReviewPipeline.Permitted.{IsHistory, Allowed, Fits, Good}

module _ (env : Environment) (texts : ReviewTexts) (to_lower upper : Text → Text)
    (settings : PipelineSettings) (event : TaskEvent) (mr_iid : ℕ) (head_sha : Text)
    (with_creds : Bool) where
  abbrev G : State → Type 0
  G = Good env event mr_iid

  abbrev P : Step → Type 0
  P = Allowed env event mr_iid

  abbrev K : ReviewContext → Type 0
  K = Fits env event mr_iid

  abbrev OnUnit : Unit {0} → Type 0
  OnUnit u = Unit

  -- A change of the context that leaves what GitLab said.
  pub same-Keeps :
      (f : ReviewContext → ReviewContext)
      → ((c : ReviewContext)
          → ((f c).mr_details ≡ c.mr_details) × ((f c).discussion_history ≡ c.discussion_history))
      → Keeps G (set_fields f)
  same-Keeps f h = set_fields-Keeps P K f (λ c k. record {
    mr_details = λ mr e. k.mr_details mr (sym-to (h c).0 e);
    discussion_history = λ d e. k.discussion_history d (sym-to (h c).1 e);
  })
    where
      sym-to : {A : Type 0} {a b c : A} → a ≡ b → a ≡ c → b ≡ c
      sym-to p q = rw⁻¹ p q

  pub clone-Keeps :
      Keeps G (clone env texts to_lower upper settings event mr_iid head_sha with_creds)
  unfolding clone
  clone-Keeps =
      after-Ensures G OnUnit OnUnit
        (lift (env.validate_clone_url_host event.clone_url settings.gitlab_url)) _
        (lift-Keeps G (env.validate_clone_url_host event.clone_url settings.gitlab_url))
        (bind-Ensures G (λ _. Unit) OnUnit
          (perform (cloned event.clone_url event.branch) env.clone_repo) _
          (perform-Keeps P K (cloned event.clone_url event.branch) env.clone_repo (refl, refl))
          (λ path _. set_context-Keeps P K (λ c. record c { repo_path = some path })))

  pub load_commits-Keeps :
      Keeps G (load_commits env texts to_lower upper settings event mr_iid head_sha with_creds)
  unfolding load_commits
  load_commits-Keeps =
      try_except-Ensures G OnUnit _ (λ _. pure tt)
        (bind-Ensures G (λ _. Unit) OnUnit (perform asked env.get_mr_commits) _
          (perform-Keeps P K asked env.get_mr_commits tt)
          (λ messages _.
            same-Keeps (λ f. record f { commit_messages = messages }) (λ c. (refl, refl))))
        (λ e s i. (i, tt))

  pub load_history_if-Keeps :
      (b : Bool)
      → Keeps G
          (load_history_if env texts to_lower upper settings event mr_iid head_sha with_creds b)
  unfolding load_history_if load_history
  load_history_if-Keeps false = λ s i. (i, tt)
  load_history_if-Keeps true =
      try_except-Ensures G OnUnit _ (λ _. pure tt)
        (bind-Ensures G (λ ds. (l : _) × (env.list_mr_discussions l ≡ ok ds)) OnUnit
          (perform asked env.list_mr_discussions) _
          (perform-Ensures P K asked env.list_mr_discussions tt)
          (λ ds listed.
            bind-Ensures G (λ a. (l : _) × (env.resolve_identity l ≡ ok a)) OnUnit
              (perform asked env.resolve_identity) _
              (perform-Ensures P K asked env.resolve_identity tt)
              (λ agent known.
                set_fields-Keeps P K
                  (λ f. record f {
                    discussion_history = some (record { discussions = ds; agent = agent });
                  })
                  (λ c k. record {
                    mr_details = k.mr_details;
                    discussion_history = λ h e. given ds agent listed known h e;
                  }))))
        (λ e s i. (i, tt))
    where
      from_some : DiscussionHistory → Option DiscussionHistory → DiscussionHistory
      from_some h none = h
      from_some h (some h') = h'

      given :
          (ds : List Discussion) (agent : AgentIdentity)
          → ((l : _) × (env.list_mr_discussions l ≡ ok ds))
          → ((l : _) × (env.resolve_identity l ≡ ok agent))
          → (h : DiscussionHistory) → some (record { discussions = ds; agent = agent }) ≡ some h
          → IsHistory env event mr_iid h
      given ds agent listed known h e =
          let same : record { discussions = ds; agent = agent } ≡ h = ap (from_some h) e in
          rw⁻¹ same (listed, known)
