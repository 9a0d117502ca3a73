-- ===== src/ReviewPipeline.antt =====
-- `ReviewPipeline` of review_pipeline.py, with `run_review` of review_engine.py. The number and the head SHA of the MR are
-- the event's, which its validation makes sure of. Logging, times and metrics are left out.
pub mod Stages
pub mod Permitted
use gitlab_copilot_agent.Effects.{Result}
use gitlab_copilot_agent.Prelude.{
  Text, nat_eq, List, [], ◌∷◌, Bool, true, false, ◌||◌, not, Option, none, some, ◌==◌,
  if◌then◌else◌, ℕ,
}
use gitlab_copilot_agent.Discussions.{DiscussionNote, Discussion, DiscussionHistory}
use gitlab_copilot_agent.Comments.Parsed.{ParsedReview}
use gitlab_copilot_agent.Tasks.{TaskResult}
use gitlab_copilot_agent.Pipeline.{Run}
use gitlab_copilot_agent.Outside.{MrDetails, Outside}
use gitlab_copilot_agent.Threads.{first_note}

-- `ReviewContext`, without the counters that nothing sets and the time
pub record ReviewContext : Type 0 where
  pub diff_text : Text
  pub is_incremental : Bool
  pub last_reviewed_sha : Option Text
  pub discussion_history : Option DiscussionHistory
  pub commit_messages : List Text
  pub mr_details : Option MrDetails
  pub base_sha : Option Text
  pub raw_result : Option TaskResult
  pub parsed : Option ParsedReview

abbrev pub new_review : ReviewContext
new_review = record {
  diff_text = [];
  is_incremental = false;
  last_reviewed_sha = none;
  discussion_history = none;
  commit_messages = [];
  mr_details = none;
  base_sha = none;
  raw_result = none;
  parsed = none;
}

abbrev pub State : Type 0
State = Run (Outside ReviewContext)

-- `ReviewRequest`
pub record ReviewRequest : Type 0 where
  pub title : Text
  pub description : Option Text
  pub source_branch : Text
  pub target_branch : Text
  pub commit_messages : List Text

-- The texts that review_engine.py and comment_parser.py make: the prompt of a review (of the request, the context, the
-- head SHA and the directory of the context files), the two files of feedback, and the parsed answer, where
-- the parser raises nothing.
pub record ReviewTexts : Type 0 where
  pub build_review_prompt : ReviewRequest → ReviewContext → Text → Option Text → Text
  pub format_prior_feedback : DiscussionHistory → Text → Text
  pub format_suppressed_feedback : DiscussionHistory → Text
  pub parse_review : Text → Result ParsedReview

-- `disc.notes[0].author_id == agent.user_id`
unfoldable pub started_by : ℕ → Option DiscussionNote → Bool
started_by user_id none = false
started_by user_id (some note) = note.author_id == user_id

-- The loop that fills `allowed_ids`.
unfoldable pub ids_of : ℕ → List Discussion → List Text
ids_of user_id [] = []
ids_of user_id (d ∷ ds) =
    let rest = ids_of user_id ds in
    if d.is_resolved || not d.is_inline
    then rest
    else if started_by user_id (first_note d.notes)
    then d.discussion_id ∷ rest
    else rest

unfoldable pub allowed_ids : Option DiscussionHistory → List Text
allowed_ids none = []
allowed_ids (some history) = ids_of history.agent.user_id history.discussions
