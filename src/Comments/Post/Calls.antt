-- ===== src/Comments/Post/Calls.antt =====
-- All calls of `post_review` together.
use gitlab_copilot_agent.Prelude.{
  ℕ, Text, text_eq, list_eq, nat_eq, List, [], ◌∷◌, ◌++◌, All, All-append, ◌≡◌,
}
use gitlab_copilot_agent.Effects.{Result, ok, raised, lift}
use gitlab_copilot_agent.Effects.Ensures.{Post, Keeps, bind-Ensures, lift-Keeps}
use gitlab_copilot_agent.Gitlab.{DiffRef, Change, Call, post_mr_comment, Trace, Gitlab, call}
use gitlab_copilot_agent.Comments.Parsed.{ParsedReview, Behavior}
use gitlab_copilot_agent.Comments.Post.{
  zero_tally, diff_files, valid_positions, post_comments, handle_resolutions, summary_text,
  with_marker, post_summary, post_review,
}
use gitlab_copilot_agent.Comments.Post.Comments.{Justified, post_comments_justified}
use gitlab_copilot_agent.Comments.Post.Resolutions.{Permitted, handle_resolutions_permitted}

module _ (gitlab : Gitlab) (Q : Call → Type 0) where
  keeps_added :
      {A : Type 0} (R : Call → Type 0) (r : Result A × Trace) (trace : Trace)
      → ((x : Call) → R x → Q x)
      → ((added : Trace) × (r.1 ≡ trace ++ added) × All R added)
      → All Q trace
      → Post (All Q) (λ (a : A). Unit {0}) r
  keeps_added {A = A} R r trace imp (added, e, h) i =
      at r (rw e (All-append Q trace added i (each added h)))
    where
      each : (xs : Trace) → All R xs → All Q xs
      each [] k = tt
      each (x ∷ xs) k = (imp x k.0, each xs k.1)

      at : (q : Result A × Trace) → All Q q.1 → Post (All Q) (λ (a : A). Unit {0}) q
      at (ok a, t) k = (k, tt)
      at (raised x, t) k = k

  pub call-Keeps : (x : Call) → Q x → Keeps (All Q) (call gitlab x)
  unfolding call
  call-Keeps x q trace i = at (gitlab trace x)
    where
      at : (r : Result (Unit {0})) → Post (All Q) (λ u. Unit {0}) (r, trace ++ x ∷ [])
      at (ok a) = (All-append Q trace (x ∷ []) i (q, tt), tt)
      at (raised e) = All-append Q trace (x ∷ []) i (q, tt)

  -- A property of all comments on the MR, of the calls that the review's comments justify, and of those that its
  -- resolutions permit, is one of all calls of `post_review`.
  pub post_review-Keeps :
      (upper : Text → Text) (p m : ℕ) (refs : DiffRef) (review : ParsedReview)
      (changes : List Change) (b : Behavior) (allowed : List Text) (head_sha : Text)
      → ((x : Call)
          → Justified gitlab upper p m refs
              (diff_files changes)
              (valid_positions changes)
              review.comments
              x
          → Q x)
      → ((x : Call) → Permitted gitlab upper p m b allowed review.resolutions x → Q x)
      → ((text : Text) → Q (post_mr_comment p m text))
      → Keeps (All Q) (post_review gitlab upper p m refs review changes b allowed head_sha)
  unfolding post_review post_summary
  post_review-Keeps upper p m refs review changes b allowed head_sha comments resolutions notes =
      let files = diff_files changes in
      let positions = valid_positions changes in
      bind-Ensures (All Q) (λ _. Unit) (λ _. Unit)
        (post_comments gitlab upper p m refs files positions review.comments zero_tally) _
        (λ trace i.
          keeps_added (Justified gitlab upper p m refs files positions review.comments) _ trace
            comments
            (post_comments_justified gitlab upper p m refs files positions review.comments
              zero_tally trace)
            i)
        (λ t _.
          bind-Ensures (All Q) (λ _. Unit) (λ _. Unit)
            (handle_resolutions gitlab upper p m b allowed review.resolutions) _
            (λ trace i.
              keeps_added (Permitted gitlab upper p m b allowed review.resolutions) _ trace
                resolutions
                (handle_resolutions_permitted gitlab upper p m b allowed review.resolutions trace)
                i)
            (λ n _.
              bind-Ensures (All Q) (λ _. Unit) (λ _. Unit)
                (lift (
                  with_marker gitlab upper p m head_sha (summary_text gitlab upper p m review t n)))
                _
                (lift-Keeps (All Q) (
                  with_marker gitlab upper p m head_sha (summary_text gitlab upper p m review t n)))
                (λ text _. call-Keeps (post_mr_comment p m text) (notes text))))
