-- ===== src/Events.antt =====
-- events.py: what a trigger hands to a pipeline.
use gitlab_copilot_agent.Prelude.{ℕ, Text, codes, Option, none, some}
use gitlab_copilot_agent.Effects.{Result, ok, raised, value_error}
use gitlab_copilot_agent.Comments.Parsed.{Behavior}

-- `TaskType`
pub data TaskType : Type 0 where
  review discussion coding : TaskType

-- `TriggerSource`
pub data TriggerSource : Type 0 where
  webhook gitlab_poller jira_poller : TriggerSource

pub record TaskEvent : Type 0 where
  pub task_type : TaskType
  pub project_id : ℕ
  pub repo : Text
  pub clone_url : Text
  pub branch : Text
  pub target_branch : Text
  pub mr_iid : Option ℕ
  pub head_sha : Option Text
  pub trigger_source : TriggerSource
  pub token : Text
  pub credential_ref : Text
  pub resolution_behavior : Behavior
  pub note_id : Option ℕ
  pub discussion_id : Option Text
  pub note_body : Option Text
  pub jira_issue_key : Option Text

-- A `ValueError` with this message.
abbrev pub invalid : {A : Type 0} → Text → Result A
invalid message = raised (record { kind = value_error; message = message })

-- `_validate_task_fields`, for the fields it reads.
unfoldable pub check_fields : TaskType → Option ℕ → Option Text → Option ℕ → Result (Unit {0})
check_fields TaskType.review none head_sha note_id = invalid (codes "review events require mr_iid")
check_fields TaskType.review (some iid) none note_id =
    invalid (codes "review events require head_sha")
check_fields TaskType.review (some iid) (some sha) note_id = ok tt
check_fields TaskType.discussion none head_sha note_id =
    invalid (codes "discussion events require mr_iid")
check_fields TaskType.discussion (some iid) head_sha none =
    invalid (codes "discussion events require note_id")
check_fields TaskType.discussion (some iid) head_sha (some note) = ok tt
check_fields TaskType.coding mr_iid head_sha note_id = ok tt

unfoldable pub checked : TaskEvent → Result (Unit {0}) → Result TaskEvent
checked event (ok _) = ok event
checked event (raised e) = raised e

-- `TaskEvent(...)`: the event, if its validator accepts it.
unfoldable pub validate_task_fields : TaskEvent → Result TaskEvent
unfolding checked
validate_task_fields event =
    checked event (check_fields event.task_type event.mr_iid event.head_sha event.note_id)
