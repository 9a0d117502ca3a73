-- ===== src/Comments/Post.antt =====
-- `post_review` and `_handle_resolutions`.
pub mod Comments
pub mod Resolutions
pub mod Summary
pub mod Calls
use gitlab_copilot_agent.Prelude.{
  ℕ, zero, suc, ◌+◌, ℤ, int_eq, Text, text_eq, pair_eq, codes, show, show_int, List, [], ◌∷◌, ◌++◌,
  map, Bool, true, false, Option, none, some, ◌&&◌, ◌||◌, not, if◌then◌else◌, nat_eq, ◌==◌,
  contains,
}
use gitlab_copilot_agent.Effects.{
  Result, ok, raised, Py, pure, raise, lift, ◌>>=◌, ◌>>◌, try_except,
}
use gitlab_copilot_agent.Gitlab.{
  DiffRef, Change, Call, post_mr_comment, create_mr_discussion, reply_to_discussion,
  resolve_discussion, Trace, Gitlab, call,
}
use gitlab_copilot_agent.Incremental.{format_sha_marker}
use gitlab_copilot_agent.Comments.Parsed.{
  ReviewComment, Status, resolved, not_addressed, partial, Resolution, ParsedReview, Behavior,
  auto_resolve, suggest, off,
}
use gitlab_copilot_agent.Comments.Hunks.{parse_hunk_lines, is_valid_position}

-- The counters of `post_review`.
pub record Tally : Type 0 where
  pub posted_inline : ℕ
  pub posted_fallback : ℕ
  pub skipped : ℕ

abbrev pub zero_tally : Tally
zero_tally = record { posted_inline = 0; posted_fallback = 0; skipped = 0 }

-- `diff_files` and `valid_positions`
unfoldable pub diff_files : List Change → List Text
diff_files [] = []
diff_files (c ∷ changes) = c.new_path ∷ diff_files changes

unfoldable pub valid_positions : List Change → List (Text × ℤ)
valid_positions [] = []
valid_positions (c ∷ changes) = parse_hunk_lines c.diff c.new_path ++ valid_positions changes

abbrev plural : ℕ → Text
plural n = if n == 1 then [] else codes "s"

-- The lines of `_build_activity_section`, joined by newlines.
unfoldable pub join_lines : List Text → Text
join_lines [] = []
join_lines (line ∷ []) = line
join_lines (line ∷ next ∷ lines) = line ++ 10 ∷ join_lines (next ∷ lines)

unfoldable pub count_partial : List Resolution → ℕ
count_partial [] = 0
count_partial (r ∷ rs) = elim r.status [
  | Status.partial ↦ suc (count_partial rs)
  | _ ↦ count_partial rs
]

-- A line of the section, left out where its count is zero.
abbrev line_for : ℕ → Text → List Text
line_for n text = if n == 0 then [] else text ∷ []

unfoldable pub activity_lines : ℕ → ℕ → List Resolution → ℕ → List Text
activity_lines posted_inline posted_fallback resolutions resolved_count =
    let total_posted = posted_inline + posted_fallback in
    let partial_count = count_partial resolutions in
    line_for total_posted
      (codes "- **" ++ (show total_posted ++ (codes "** new comment" ++ plural total_posted)))
    ++ (line_for resolved_count (
          codes "- **"
          ++ (show resolved_count
              ++ (codes "** thread" ++ (plural resolved_count ++ codes " resolved"))))
        ++ line_for partial_count (
            codes "- **"
            ++ (show partial_count ++ (codes "** partial resolution" ++ plural partial_count))))

-- `_build_activity_section`
unfoldable pub build_activity_section : ℕ → ℕ → List Resolution → ℕ → Text
build_activity_section posted_inline posted_fallback resolutions resolved_count =
    elim (activity_lines posted_inline posted_fallback resolutions resolved_count) [
      | [] ↦ []
      | line ∷ lines ↦ codes "### 📊 Review Activity\n\n" ++ join_lines (line ∷ lines)
    ]

unfoldable pub is_not_addressed : Status → Bool
is_not_addressed Status.not_addressed = true
is_not_addressed Status.partial = false
is_not_addressed Status.resolved = false

-- The MR that is reviewed, and how GitLab answers. `upper` is `str.upper`.
module _ (gitlab : Gitlab) (upper : Text → Text) (project_id mr_iid : ℕ) where
  unfoldable pub comment_body : ReviewComment → Text
  comment_body c =
      let body = codes "**[" ++ (upper c.severity ++ (codes "]** " ++ c.comment)) in
      elim c.suggestion [
        | none ↦ body
        | some text ↦
            body
            ++ (codes "\n\n```suggestion:-"
                ++ (show_int c.suggestion_start_offset
                    ++ (codes "+"
                        ++ (show_int c.suggestion_end_offset
                            ++ (codes "\n" ++ (text ++ codes "\n```"))))))
      ]

  -- `f"{body}\n\n`{c.file}:{c.line}`"`
  unfoldable pub fallback_body : ReviewComment → Text
  fallback_body c =
      comment_body c ++ (codes "\n\n`" ++ (c.file ++ (codes ":" ++ (show_int c.line ++ codes "`"))))

  unfoldable pub fallback_call : ReviewComment → Call
  fallback_call c = post_mr_comment project_id mr_iid (fallback_body c)

  unfoldable pub inline_call : DiffRef → ReviewComment → Call
  inline_call refs c = create_mr_discussion project_id mr_iid (comment_body c) refs c.file c.line

  -- `try: post the note` / `except Exception: skipped += 1`
  unfoldable pub post_fallback : ReviewComment → Tally → Py Trace Tally
  post_fallback c t =
      try_except
        (do
          call gitlab (fallback_call c)
          pure (record t { posted_fallback = suc t.posted_fallback }))
        (λ _. pure (record t { skipped = suc t.skipped }))

  -- The body of the loop over `review.comments`.
  unfoldable pub post_comment :
      DiffRef → List Text → List (Text × ℤ) → ReviewComment → Tally → Py Trace Tally
  post_comment refs files positions c t =
      if not (contains files c.file)
      then pure (record t { skipped = suc t.skipped })
      else if not (is_valid_position c.file c.line positions)
      then post_fallback c t
      else try_except
          (do
            call gitlab (inline_call refs c)
            pure (record t { posted_inline = suc t.posted_inline }))
          (λ _. post_fallback c t)

  unfoldable pub post_comments :
      DiffRef → List Text → List (Text × ℤ) → List ReviewComment → Tally → Py Trace Tally
  post_comments refs files positions [] t = pure t
  post_comments refs files positions (c ∷ cs) t =
      post_comment refs files positions c t >>= post_comments refs files positions cs

  unfoldable pub reply_call : Text → Resolution → Call
  reply_call prefix r =
      reply_to_discussion project_id mr_iid r.discussion_id (prefix ++ (codes " " ++ r.message))

  unfoldable pub resolve_call : Resolution → Call
  resolve_call r = resolve_discussion project_id mr_iid r.discussion_id

  -- The `try` block of the loop of `_handle_resolutions`, for the resolution's status: what is added to
  -- `resolved_count`.
  unfoldable pub act_on : Behavior → Status → Resolution → Py Trace ℕ
  act_on behavior Status.not_addressed r = pure 0
  act_on behavior Status.partial r = do call gitlab (reply_call (codes "⚠\u{fe0f}") r); pure 0
  act_on Behavior.auto_resolve Status.resolved r = do
    call gitlab (reply_call (codes "✅") r)
    call gitlab (resolve_call r)
    pure 1
  act_on Behavior.suggest Status.resolved r = do call gitlab (reply_call (codes "✅") r); pure 0
  act_on Behavior.off Status.resolved r = do call gitlab (reply_call (codes "✅") r); pure 0

  -- The body of that loop.
  unfoldable pub handle_resolution : Behavior → List Text → Resolution → Py Trace ℕ
  handle_resolution behavior allowed r =
      if is_not_addressed r.status
      then pure 0
      else if not (contains allowed r.discussion_id)
      then pure 0
      else try_except (act_on behavior r.status r) (λ _. pure 0)

  unfoldable pub resolution_loop : Behavior → List Text → List Resolution → ℕ → Py Trace ℕ
  resolution_loop behavior allowed [] count = pure count
  resolution_loop behavior allowed (r ∷ rs) count =
      handle_resolution behavior allowed r >>= λ n. resolution_loop behavior allowed rs (count + n)

  -- `_handle_resolutions`
  unfoldable pub handle_resolutions : Behavior → List Text → List Resolution → Py Trace ℕ
  handle_resolutions behavior allowed resolutions = elim behavior [
    | Behavior.off ↦ pure 0
    | Behavior.auto_resolve ↦ resolution_loop Behavior.auto_resolve allowed resolutions 0
    | Behavior.suggest ↦ resolution_loop Behavior.suggest allowed resolutions 0
  ]

  -- The body of the summary note, without the marker.
  unfoldable pub summary_text : ParsedReview → Tally → ℕ → Text
  summary_text review t resolved_count =
      let head = codes "## Code Review Summary\n\n" ++ review.summary in
      let activity =
        build_activity_section t.posted_inline t.posted_fallback review.resolutions
          resolved_count in
      if activity == [] then head else head ++ (codes "\n\n" ++ activity)

  -- The marker behind the body, if a head SHA was given.
  unfoldable pub with_marker : Text → Text → Result Text
  with_marker head_sha body =
      let marked : Result Text = elim (format_sha_marker head_sha) [
        | ok marker ↦ ok (body ++ (codes "\n\n" ++ marker))
        | raised e ↦ raised e
      ] in
      if head_sha == [] then ok body else marked

  unfoldable pub post_summary : Text → Text → Py Trace (Unit {0})
  post_summary head_sha body = do
    text ← lift (with_marker head_sha body)
    call gitlab (post_mr_comment project_id mr_iid text)

  unfoldable pub post_review :
      DiffRef → ParsedReview → List Change → Behavior → List Text → Text → Py Trace (Unit {0})
  post_review refs review changes behavior allowed head_sha = do
    t ← post_comments refs (diff_files changes) (valid_positions changes) review.comments zero_tally
    resolved_count ← handle_resolutions behavior allowed review.resolutions
    post_summary head_sha (summary_text review t resolved_count)
