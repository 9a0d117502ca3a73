-- ===== src/ReviewPipeline/Permitted/Posts.antt =====
-- `process` of the review pipeline posts allowed comments only.
use gitlab_copilot_agent.Prelude.{
  ℕ, Text, text_eq, codes, contains, List, [], ◌∷◌, true, Bool, Option, some, ◌≡◌, refl, inl, inr,
  All, Any,
}
use gitlab_copilot_agent.Effects.Ensures.{Keeps, bind-Ensures, Post-state}
use gitlab_copilot_agent.Gitlab.{Call, Gitlab}
use gitlab_copilot_agent.Discussions.{DiscussionHistory}
use gitlab_copilot_agent.Events.{TaskEvent}
use gitlab_copilot_agent.Comments.Parsed.{ReviewComment, Resolution, ParsedReview}
use gitlab_copilot_agent.Comments.Post.{
  diff_files, valid_positions, fallback_call, inline_call, reply_call, resolve_call, post_review,
}
use gitlab_copilot_agent.Comments.Post.Comments.{Justifies, Justified}
use gitlab_copilot_agent.Comments.Post.Resolutions.{Permits, Permitted}
use gitlab_copilot_agent.Comments.Post.Calls.{post_review-Keeps}
use gitlab_copilot_agent.Pipeline.{stage_requires}
use gitlab_copilot_agent.Pipeline.Keeps.{stage_requires-Ensures, stage_requires-Keeps}
use gitlab_copilot_agent.Outside.{MrDetails, Step, Environment}
use gitlab_copilot_agent.Outside.Keeps.{with_gitlab-Keeps}
use gitlab_copilot_agent.DiscussionPipeline.{PipelineSettings}
use gitlab_copilot_agent.ReviewPipeline.{ReviewContext, State, ReviewTexts, allowed_ids}
use gitlab_copilot_agent.ReviewPipeline.Stages.{process}
use gitlab_copilot_agent.ReviewPipeline.Permitted.{
  IsMr, IsHistory, IsOwnThread, AllowedCall, Allowed, Fits, Good, allowed_ids-IsOwn,
}

-- From the elements on.
Any-elim :
    {A : Type 0} (R : A → Type 0) (Q : Type 0) (xs : List A) → ((a : A) → R a → Q) → Any R xs → Q
Any-elim R Q (x ∷ xs) f (inl r) = f x r
Any-elim R Q (x ∷ xs) f (inr r) = Any-elim R Q xs f r
Any-elim R Q [] f h = elim h [ ]

module _ (env : Environment) (event : TaskEvent) (mr_iid : ℕ) where
  Justified-allowed :
      (gitlab : Gitlab) (upper : Text → Text) (mr : MrDetails) (cs : List ReviewComment) (x : Call)
      → IsMr env event mr_iid mr
      → Justified gitlab upper event.project_id mr_iid mr.diff_refs
          (diff_files mr.changes)
          (valid_positions mr.changes)
          cs
          x
      → AllowedCall env event mr_iid x
  unfolding fallback_call inline_call
  Justified-allowed gitlab upper mr cs x given h =
      Any-elim
        (Justifies gitlab upper event.project_id mr_iid mr.diff_refs (diff_files mr.changes)
          (valid_positions mr.changes) x)
        (AllowedCall env event mr_iid x) cs one h
    where
      one :
          (c : ReviewComment)
          → Justifies gitlab upper event.project_id mr_iid mr.diff_refs
              (diff_files mr.changes)
              (valid_positions mr.changes)
              x
              c
          → AllowedCall env event mr_iid x
      one c (inside, inl e) = rw e (refl, refl)
      one c (inside, inr (e, good)) = rw e (refl, refl, (mr, given, refl, inside, good))

  Permitted-allowed :
      (gitlab : Gitlab) (upper : Text → Text) (o : Option DiscussionHistory) (rs : List Resolution)
      (x : Call)
      → ((h : DiscussionHistory) → o ≡ some h → IsHistory env event mr_iid h)
      → Permitted gitlab upper event.project_id mr_iid event.resolution_behavior
          (allowed_ids o)
          rs
          x
      → AllowedCall env event mr_iid x
  unfolding reply_call resolve_call
  Permitted-allowed gitlab upper o rs x given h =
      Any-elim
        (Permits gitlab upper event.project_id mr_iid event.resolution_behavior (allowed_ids o) x)
        (AllowedCall env event mr_iid x) rs one h
    where
      own : (id : Text) → contains (allowed_ids o) id ≡ true → IsOwnThread env event mr_iid id
      own id inside = let (h', e, mine) = allowed_ids-IsOwn o id inside in (h', given h' e, mine)

      one :
          (r : Resolution)
          → Permits gitlab upper event.project_id mr_iid event.resolution_behavior
              (allowed_ids o)
              x
              r
          → AllowedCall env event mr_iid x
      one r (inside, live, inl (prefix, e)) = rw e (refl, refl, own r.discussion_id inside)
      one r (inside, live, inr (e, done, auto)) =
          rw e (refl, refl, own r.discussion_id inside, auto)

  post_review_allowed :
      (upper : Text → Text) (mr : MrDetails) (review : ParsedReview) (o : Option DiscussionHistory)
      (head_sha : Text)
      → IsMr env event mr_iid mr
      → ((h : DiscussionHistory) → o ≡ some h → IsHistory env event mr_iid h)
      → (gitlab : Gitlab)
      → All
          (AllowedCall env event mr_iid)
          (post_review gitlab upper event.project_id mr_iid mr.diff_refs review mr.changes
            event.resolution_behavior
            (allowed_ids o)
            head_sha
            []).1
  post_review_allowed upper mr review o head_sha is_mr given gitlab =
      Post-state (All (AllowedCall env event mr_iid)) (λ _. Unit) _
        (post_review-Keeps gitlab (AllowedCall env event mr_iid) upper event.project_id mr_iid
          mr.diff_refs review mr.changes event.resolution_behavior (allowed_ids o) head_sha
          (λ x. Justified-allowed gitlab upper mr review.comments x is_mr)
          (λ x. Permitted-allowed gitlab upper o review.resolutions x given) (λ text. (refl, refl))
          [] tt)

module _ (env : Environment) (texts : ReviewTexts) (to_lower upper : Text → Text)
    (settings : PipelineSettings) (event : TaskEvent) (mr_iid : ℕ) (head_sha : Text)
    (with_creds : Bool) where
  abbrev G : State → Type 0
  G = Good env event mr_iid

  abbrev P : Step → Type 0
  P = Allowed env event mr_iid

  abbrev K : ReviewContext → Type 0
  K = Fits env event mr_iid

  pub process-Keeps :
      Keeps G (process env texts to_lower upper settings event mr_iid head_sha with_creds)
  unfolding process
  process-Keeps s i =
      let fields = s.world.fields in
      bind-Ensures G (λ mr. fields.mr_details ≡ some mr) (λ _. Unit)
        (stage_requires fields.mr_details (codes "mr_details")) _
        (stage_requires-Ensures G fields.mr_details (codes "mr_details"))
        (λ mr e.
          bind-Ensures G (λ _. Unit) (λ _. Unit) (stage_requires fields.parsed (codes "parsed")) _
            (stage_requires-Keeps G fields.parsed (codes "parsed"))
            (λ review _.
              with_gitlab-Keeps P K env
                (λ gitlab.
                  post_review gitlab upper event.project_id mr_iid mr.diff_refs review mr.changes
                    event.resolution_behavior (allowed_ids fields.discussion_history) head_sha)
                (post_review_allowed env event mr_iid upper mr review fields.discussion_history
                  head_sha (i.1.mr_details mr e) i.1.discussion_history)))
        s i
