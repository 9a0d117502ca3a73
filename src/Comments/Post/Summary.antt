-- ===== src/Comments/Post/Summary.antt =====
-- How `post_review` ends: with the summary note, or with the error of a malformed head SHA.
use gitlab_copilot_agent.Prelude.{
  ℕ, ◌+◌, ◌≤◌, ◌⊎◌, inl, inr, contains, length, Text, text_eq, List, [], ◌∷◌, ◌++◌, Bool, true,
  false, ◌≡◌, refl, ap, ◌∙◌, ◌==◌, Bool-cases, arith, list_eq, nat_eq,
}
use gitlab_copilot_agent.Effects.{
  Result, ok, raised, Exn, ExnKind, is_exception, Result-cases, continue, handle, pure, ◌>>◌,
}
use gitlab_copilot_agent.Gitlab.{DiffRef, Change, Call, Trace, Gitlab, call}
use gitlab_copilot_agent.Incremental.{is_sha, format_sha_marker}
use gitlab_copilot_agent.Comments.Parsed.{ParsedReview, Resolution, Status, Behavior}
use gitlab_copilot_agent.Comments.Post.{
  Tally, zero_tally, diff_files, valid_positions, post_comments, handle_resolution, resolution_loop,
  handle_resolutions, act_on, is_not_addressed, summary_text, with_marker, post_summary,
  post_review,
}
use gitlab_copilot_agent.Comments.Post.Comments.{IsCalm, post_comments_accounting, total}

-- A step on one thread returns 0 or 1, or raises an `Exception`.
abbrev Acts : Result ℕ → Type 0
Acts r = ((n : ℕ) × (r ≡ ok n) × (n ≤ 1)) ⊎ ((e : Exn) × (r ≡ raised e) × (is_exception e ≡ true))

raised_class : Result ℕ → Bool
raised_class (ok _) = true
raised_class (raised e) = is_exception e

module _ (gitlab : Gitlab) (upper : Text → Text) (p m : ℕ) (calm : IsCalm gitlab) where
  call-Acts :
      (x : Call) (n : ℕ) (trace : Trace)
      → n ≤ 1
      → Acts (continue (λ _. pure n) (call gitlab x trace)).0
  unfolding call
  call-Acts x n trace small = elim (Result-cases (gitlab trace x)) [
    | inl (a, e) ↦ rw e (inl (n, refl, small))
    | inr (z, e) ↦ rw e (inr (z, refl, calm trace x z e))
  ]

  calls-Acts :
      (x y : Call) (trace : Trace)
      → Acts (continue (λ _. call gitlab y >> pure {A = ℕ} 1) (call gitlab x trace)).0
  unfolding call
  calls-Acts x y trace = elim (Result-cases (gitlab trace x)) [
    | inl (a, e) ↦ rw e (call-Acts y 1 (trace ++ x ∷ []) (omega arith))
    | inr (z, e) ↦ rw e (inr (z, refl, calm trace x z e))
  ]

  act_on-Acts :
      (b : Behavior) (s : Status) (r : Resolution) (trace : Trace)
      → Acts (act_on gitlab upper p m b s r trace).0
  unfolding act_on
  act_on-Acts b Status.not_addressed r trace = inl (0, refl, omega arith)
  act_on-Acts b Status.partial r trace = call-Acts _ 0 trace (omega arith)
  act_on-Acts Behavior.auto_resolve Status.resolved r trace = calls-Acts _ _ trace
  act_on-Acts Behavior.suggest Status.resolved r trace = call-Acts _ 0 trace (omega arith)
  act_on-Acts Behavior.off Status.resolved r trace = call-Acts _ 0 trace (omega arith)

  -- What is caught counts as 0.
  handle-Acts :
      (r : Result ℕ × Trace) → Acts r.0 → (n : ℕ) × ((handle (λ _. pure 0) r).0 ≡ ok n) × (n ≤ 1)
  unfolding raised_class is_exception
  handle-Acts (ok k, trace) (inl h) = h
  handle-Acts (ok k, trace) (inr (e, bad, _)) = (0, cc (bad), omega arith)
  handle-Acts (raised e, trace) (inl (n, bad, _)) = (0, cc bad, omega arith)
  handle-Acts (raised e, trace) (inr (e', same, caught)) =
      rw (ap raised_class same ∙ caught) (0, refl, omega arith)

  handle_resolution-counts :
      (b : Behavior) (allowed : List Text) (r : Resolution) (trace : Trace)
      → (n : ℕ) × ((handle_resolution gitlab upper p m b allowed r trace).0 ≡ ok n) × (n ≤ 1)
  unfolding handle_resolution
  handle_resolution-counts b allowed r trace = elim (Bool-cases (is_not_addressed r.status)) [
    | inl dead ↦ rw dead (0, refl, omega arith)
    | inr live ↦ elim (Bool-cases (contains allowed r.discussion_id)) [
      | inr out ↦ rw (live, out) (0, refl, omega arith)
      | inl inside ↦
          rw (live, inside)
            (handle-Acts (act_on gitlab upper p m b r.status r trace)
              (act_on-Acts b r.status r trace))
    ]
  ]

  resolution_loop-counts :
      (b : Behavior) (allowed : List Text) (rs : List Resolution) (count : ℕ) (trace : Trace)
      → (n : ℕ) × ((resolution_loop gitlab upper p m b allowed rs count trace).0 ≡ ok n)
        × (n ≤ count + length rs)
  unfolding resolution_loop
  resolution_loop-counts b allowed [] count trace = (count, refl, omega arith)
  resolution_loop-counts b allowed (r ∷ rs) count trace =
      let step = handle_resolution gitlab upper p m b allowed r trace in
      let (k, e, small) = handle_resolution-counts b allowed r trace in
      let (n, e', bound) = resolution_loop-counts b allowed rs (count + k) step.1 in
      (n, rw e e', omega (arith, small, bound))

  handle_resolutions-counts :
      (b : Behavior) (allowed : List Text) (rs : List Resolution) (trace : Trace)
      → (n : ℕ) × ((handle_resolutions gitlab upper p m b allowed rs trace).0 ≡ ok n)
        × (n ≤ length rs)
  unfolding handle_resolutions
  handle_resolutions-counts Behavior.auto_resolve allowed rs trace =
      let (n, e, bound) = resolution_loop-counts Behavior.auto_resolve allowed rs 0 trace in
      (n, e, omega (arith, bound))
  handle_resolutions-counts Behavior.suggest allowed rs trace =
      let (n, e, bound) = resolution_loop-counts Behavior.suggest allowed rs 0 trace in
      (n, e, omega (arith, bound))
  handle_resolutions-counts Behavior.off allowed rs trace = (0, refl, omega arith)

  -- Where GitLab fails by `Exception`s only, `post_review` always comes to its summary, whichever calls
  -- failed before it: it ends the way the posting of the summary ends, for a tally that counts every
  -- comment and a number of resolved threads that is at most the number of resolutions.
  pub post_review_reaches_summary :
      (refs : DiffRef) (review : ParsedReview) (changes : List Change) (b : Behavior)
      (allowed : List Text) (head_sha : Text) (trace : Trace)
      → (t : Tally) × (n : ℕ) × (before : Trace) × (total t ≡ length review.comments)
        × (n ≤ length review.resolutions)
        × (post_review gitlab upper p m refs review changes b allowed head_sha trace
            ≡ post_summary gitlab upper p m head_sha
                (summary_text gitlab upper p m review t n)
                before)
  unfolding post_review
  post_review_reaches_summary refs review changes b allowed head_sha trace =
      let r =
        post_comments gitlab upper p m refs (diff_files changes) (valid_positions changes)
          review.comments zero_tally trace in
      let (t, e, count) =
        post_comments_accounting gitlab upper p m calm refs (diff_files changes)
          (valid_positions changes) review.comments zero_tally trace in
      let r' = handle_resolutions gitlab upper p m b allowed review.resolutions r.1 in
      let (n, e', bound) = handle_resolutions-counts b allowed review.resolutions r.1 in
      (t, n, r'.1, omega (arith, count), bound, rw (e, e') refl)

  -- A head SHA that is given and is not 7 to 40 hex digits makes `post_review` raise a `ValueError`.
  pub malformed_sha_raises :
      (refs : DiffRef) (review : ParsedReview) (changes : List Change) (b : Behavior)
      (allowed : List Text) (head_sha : Text) (trace : Trace)
      → (head_sha == []) ≡ false
      → is_sha head_sha ≡ false
      → (e : Exn) × ((post_review gitlab upper p m refs review changes b allowed head_sha trace).0
          ≡ raised e)
        × (e.kind ≡ ExnKind.value_error)
  unfolding post_summary with_marker format_sha_marker
  malformed_sha_raises refs review changes b allowed head_sha trace given bad =
      let (t, n, before, _, _, same) =
        post_review_reaches_summary refs review changes b allowed head_sha trace in
      rw same (rw (given, bad) (_, refl, refl))
