-- ===== src/Outside/Patches.antt =====
-- `apply_coding_result` of coding_workflow.py.
use gitlab_copilot_agent.Prelude.{Text, text_eq, codes, take, [], ◌∷◌, ◌++◌, ◌==◌, if◌then◌else◌}
use gitlab_copilot_agent.Effects.{runtime_error, Py, pure, raise, ◌>>=◌}
use gitlab_copilot_agent.Pipeline.{Run}
use gitlab_copilot_agent.Tasks.{TaskResult, review_result, coding_result}
use gitlab_copilot_agent.Outside.{asked, applied, Environment, Outside, perform}

-- The error of a clone that is not where the patch was made.
unfoldable pub diverged : Text → Text → Text
diverged base_sha local_head =
    codes "Clone diverged: pod base_sha="
    ++ (take 12 base_sha ++ (codes " vs local HEAD=" ++ take 12 local_head))

module _ {C : Type 0} (env : Environment) where
  unfoldable pub apply_at : Text → Text → Text → Py (Run (Outside C)) (Unit {0})
  apply_at patch [] local_head = perform (applied patch) env.git_apply_patch
  apply_at patch (c ∷ base_sha) local_head =
      if (c ∷ base_sha) == local_head
      then perform (applied patch) env.git_apply_patch
      else raise (record { kind = runtime_error; message = diverged (c ∷ base_sha) local_head })

  unfoldable pub apply_coding_result : TaskResult → Py (Run (Outside C)) (Unit {0})
  unfolding apply_at
  apply_coding_result (review_result text) = pure tt
  apply_coding_result (coding_result text [] base_sha) = pure tt
  apply_coding_result (coding_result text (c ∷ patch) base_sha) =
      perform asked env.git_head_sha >>= λ local_head. apply_at (c ∷ patch) base_sha local_head
