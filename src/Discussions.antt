-- ===== src/Discussions.antt =====
-- discussion_models.py: the threads of a merge request.
use gitlab_copilot_agent.Prelude.{ℕ, ℤ, Text, List, Bool, Option}

-- `position["new_line"]`: a number, a text, or anything else
pub data LineValue : Type 0 where
  no_line : LineValue
  int_line : ℤ → LineValue
  text_line : Text → LineValue

-- What the code reads of a note's `position`; a value that is no text counts as none.
pub record Position : Type 0 where
  pub new_path : Option Text
  pub new_line : LineValue
  pub head_sha : Option Text

-- `DiscussionNote`
pub record DiscussionNote : Type 0 where
  pub note_id : ℕ
  pub author_id : ℕ
  pub author_username : Text
  pub body : Text
  pub created_at : Text
  pub is_system : Bool
  pub resolved : Option Bool
  pub resolved_by_id : Option ℕ
  pub resolvable : Bool
  pub position : Option Position

pub record Discussion : Type 0 where
  pub discussion_id : Text
  pub notes : List DiscussionNote
  pub is_resolved : Bool
  pub is_inline : Bool

pub record AgentIdentity : Type 0 where
  pub user_id : ℕ
  pub username : Text

pub record DiscussionHistory : Type 0 where
  pub discussions : List Discussion
  pub agent : AgentIdentity
