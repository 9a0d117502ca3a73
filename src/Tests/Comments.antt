-- ===== src/Tests/Comments.antt =====
-- Instances of the theorems on comment_poster.py.
use gitlab_copilot_agent.Prelude.{
  some, ℕ, pos, int_eq, pair_eq, Text, text_eq, nat_eq, codes, [], ◌∷◌, Bool, true, false, none,
  ◌≡◌, ◌↔◌, refl, length, contains, list_beq, sym, ap, Any, ◌==◌, ◌≤◌,
}
use gitlab_copilot_agent.Effects.{Result, ok, raised, is_exception, other}
use gitlab_copilot_agent.Gitlab.{DiffRef, Change, Call, create_mr_discussion, Trace, Gitlab}
use gitlab_copilot_agent.Incremental.{is_sha, hex_run, strip_prefix}
use gitlab_copilot_agent.Comments.Parsed.{ReviewComment, Status, Resolution, ParsedReview, Behavior}
use gitlab_copilot_agent.Comments.Hunks.{parse_hunk_lines, match_header, is_line_break}
use gitlab_copilot_agent.Comments.Hunks.Render.{Hunk, IsHunk, render}
use gitlab_copilot_agent.Comments.Hunks.Exact.{InHunk, parse_hunk_lines_exact}
use gitlab_copilot_agent.Comments.Post.{
  Tally, zero_tally, post_comments, handle_resolutions, post_review, post_summary, summary_text,
}
use gitlab_copilot_agent.Comments.Post.Comments.{IsCalm, total, post_comments_justified, Adds}
use gitlab_copilot_agent.Comments.Post.Resolutions
use gitlab_copilot_agent.Comments.Post.Resolutions.{handle_resolutions_permitted}
use gitlab_copilot_agent.Comments.Post.Summary.{post_review_reaches_summary}

abbrev path : Text
path = codes "a.py"

abbrev hunk : Hunk
hunk = record {
  old_start = 4;
  old_count = none;
  start = 4;
  count = some 2;
  heading = codes " f";
  lines = codes " x" ∷ codes "+y" ∷ [];
}

hunk-IsHunk : IsHunk hunk
unfolding is_line_break match_header strip_prefix
hunk-IsHunk = record {
  heading_line = (refl, (refl, tt));
  body_lines = (((refl, (refl, tt)), refl), (((refl, (refl, tt)), refl), tt));
}

parse_hunk_lines_exact_example :
    (contains (parse_hunk_lines (render (hunk ∷ [])) path) (path, pos 5) ≡ true)
    ↔ Any (InHunk path path 5) (hunk ∷ [])
parse_hunk_lines_exact_example = parse_hunk_lines_exact path hunk [] path 5 (hunk-IsHunk, tt)

-- A GitLab that refuses inline discussions.
gitlab : Gitlab
gitlab trace (create_mr_discussion p m body refs file line) =
    raised (record { kind = other; message = codes "400" })
gitlab trace _ = ok tt

class_of : Result (Unit {0}) → Bool
class_of (ok _) = true
class_of (raised e) = is_exception e

gitlab-IsCalm : IsCalm gitlab
unfolding gitlab is_exception class_of
gitlab-IsCalm trace (Call.create_mr_discussion p m body refs file line) e h = sym (ap class_of h)
gitlab-IsCalm trace (Call.post_mr_comment p m body) e h = cc h
gitlab-IsCalm trace (Call.reply_to_discussion p m d body) e h = cc h
gitlab-IsCalm trace (Call.resolve_discussion p m d) e h = cc h

abbrev upper : Text → Text
upper s = s

abbrev refs : DiffRef
refs = record { base_sha = codes "b"; start_sha = codes "s"; head_sha = codes "h" }

abbrev comment : ReviewComment
comment = record {
  file = path;
  line = pos 5;
  severity = codes "info";
  comment = codes "hm";
  suggestion = none;
  suggestion_start_offset = pos 0;
  suggestion_end_offset = pos 0;
}

post_comments_justified_example :
    Adds gitlab upper 7 3 refs
      (path ∷ [])
      ((path, pos 5) ∷ [])
      (comment ∷ [])
      []
      (post_comments gitlab upper 7 3 refs
        (path ∷ [])
        ((path, pos 5) ∷ [])
        (comment ∷ [])
        zero_tally
        []).1
post_comments_justified_example =
    post_comments_justified gitlab upper 7 3 refs (path ∷ []) ((path, pos 5) ∷ []) (comment ∷ [])
      zero_tally []

abbrev resolution : Resolution
resolution = record { discussion_id = codes "d1"; status = Status.resolved; message = codes "done" }

handle_resolutions_permitted_example :
    Resolutions.Adds gitlab upper 7 3 Behavior.auto_resolve
      (codes "d1" ∷ [])
      (resolution ∷ [])
      []
      (handle_resolutions gitlab upper 7 3 Behavior.auto_resolve
        (codes "d1" ∷ [])
        (resolution ∷ [])
        []).1
handle_resolutions_permitted_example =
    handle_resolutions_permitted gitlab upper 7 3 Behavior.auto_resolve (codes "d1" ∷ [])
      (resolution ∷ []) []

abbrev parsed : ParsedReview
parsed = record {
  comments = comment ∷ [];
  summary = codes "fine";
  resolutions = resolution ∷ [];
  parse_path = codes "json";
}

abbrev change : Change
change = record {
  old_path = path;
  new_path = path;
  diff = [];
  new_file = false;
  deleted_file = false;
  renamed_file = false;
}

post_review_reaches_summary_example :
    (t : Tally) × (n : ℕ) × (before : Trace) × (total t ≡ length parsed.comments)
    × (n ≤ length parsed.resolutions)
    × (post_review gitlab upper 7 3 refs parsed
          (change ∷ [])
          Behavior.suggest
          (codes "d1" ∷ [])
          []
          []
        ≡ post_summary gitlab upper 7 3 [] (summary_text gitlab upper 7 3 parsed t n) before)
post_review_reaches_summary_example =
    post_review_reaches_summary gitlab upper 7 3 gitlab-IsCalm refs parsed (change ∷ [])
      Behavior.suggest (codes "d1" ∷ []) [] []

not_sha : is_sha (codes "xyz") ≡ false
unfolding is_sha hex_run list_beq
not_sha = refl

given_sha : (codes "xyz" == []) ≡ false
unfolding list_beq
given_sha = refl
