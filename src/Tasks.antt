-- ===== src/Tasks.antt =====
-- task_executor.py: the tasks and results of the executors, and `LocalTaskExecutor`.
use gitlab_copilot_agent.Prelude.{
  Text, text_eq, nat_eq, codes, List, [], ◌∷◌, Bool, true, false, Option, none, some, ◌==◌,
  if◌then◌else◌,
}
use gitlab_copilot_agent.Effects.{value_error, Py, pure, raise, ◌>>=◌}

-- `TaskParams`, without the settings that it carries on
pub record TaskParams : Type 0 where
  pub task_type : Text
  pub task_id : Text
  pub repo_url : Text
  pub branch : Text
  pub system_prompt : Text
  pub user_prompt : Text
  pub repo_path : Option Text
  pub plugins : List Text

-- `ReviewResult | CodingResult`: a review's summary; a coding result's summary, patch and base SHA.
pub data TaskResult : Type 0 where
  review_result : Text → TaskResult
  coding_result : Text → Text → Text → TaskResult

unfoldable pub summary : TaskResult → Text
summary (review_result text) = text
summary (coding_result text patch base_sha) = text

-- `isinstance(result, CodingResult) and bool(result.patch)`
unfoldable pub has_patch : TaskResult → Bool
has_patch (review_result text) = false
has_patch (coding_result text [] base_sha) = false
has_patch (coding_result text (c ∷ patch) base_sha) = true

-- The result of a local session: the files are on disk, so there is no patch.
unfoldable pub local_result : Text → Text → TaskResult
local_result task_type text =
    if task_type == codes "review" then review_result text else coding_result text [] []

-- `not task.repo_path`
unfoldable pub no_path : Option Text → Bool
no_path none = true
no_path (some []) = true
no_path (some (c ∷ path)) = false

-- `LocalTaskExecutor.execute`; `run_copilot_session` is given.
unfoldable pub execute_local :
    {S : Type 0} → (TaskParams → Py S Text) → TaskParams → Py S TaskResult
execute_local run_copilot_session task =
    if no_path task.repo_path
    then raise
        (record { kind = value_error; message = codes "LocalTaskExecutor requires task.repo_path" })
    else (run_copilot_session task >>= λ text. pure (local_result task.task_type text))
