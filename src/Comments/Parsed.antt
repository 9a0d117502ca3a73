-- ===== src/Comments/Parsed.antt =====
-- The review as comment_parser.py hands it on, and `ResolutionBehavior` of mapping_models.py.
use gitlab_copilot_agent.Prelude.{ℤ, Text, List, Option}

-- `ReviewComment`
pub record ReviewComment : Type 0 where
  pub file : Text
  pub line : ℤ
  pub severity : Text
  pub comment : Text
  pub suggestion : Option Text
  pub suggestion_start_offset : ℤ
  pub suggestion_end_offset : ℤ

-- `ResolutionStatus`
pub data Status : Type 0 where
  resolved not_addressed partial : Status

pub record Resolution : Type 0 where
  pub discussion_id : Text
  pub status : Status
  pub message : Text

pub record ParsedReview : Type 0 where
  pub comments : List ReviewComment
  pub summary : Text
  pub resolutions : List Resolution
  pub parse_path : Text

-- `ResolutionBehavior`
pub data Behavior : Type 0 where
  auto_resolve suggest off : Behavior
