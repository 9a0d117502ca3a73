-- ===== src/Git/Clone.antt =====
-- `git_clone` of git/clone.py. How the subprocess ends is any function of the steps so far; a time-out stands for the
-- kill and the wait after it too.
pub mod Leaves
pub mod Attempts
use gitlab_copilot_agent.Prelude.{
  ℕ, zero, suc, ◌+◌, ◌-◌, ◌*◌, ◌^◌, Text, text_eq, nat_eq, codes, show, replace, strip, ltb, List,
  [], ◌∷◌, ◌++◌, Bool, true, false, ◌==◌, if◌then◌else◌,
}
use gitlab_copilot_agent.Effects.{
  Result, ok, raised, Exn, transient_clone_error, runtime_error, Py, pure, raise, lift, ◌>>=◌, ◌>>◌,
}
use gitlab_copilot_agent.Git.{
  Platform, allow_http, is_transient_clone_error, validate_clone_url, sanitize_url_for_log,
}

-- How the process ends: in time, with its return code and what decoding its `stderr` gives, or not. The code of a process that a
-- signal ended counts as some number other than 0. What the log lines await is not modelled.
pub data Outcome : Type 0 where
  exited : ℕ → Result Text → Outcome
  timed_out : Outcome

pub data GitStep : Type 0 where
  made : Text → GitStep
  ran : List Text → GitStep
  removed : Text → GitStep
  slept : ℕ → GitStep

abbrev pub GitLog : Type 0
GitLog = List GitStep

pub record Git : Type 0 where
  pub mkdtemp : GitLog → Result Text
  pub run : GitLog → Result Outcome
  pub sleep : GitLog → Result (Unit {0})

pub record CloneRequest : Type 0 where
  pub clone_url : Text
  pub branch : Text
  pub token : Text
  pub max_retries : ℕ
  pub backoff_base : ℕ

unfoldable pub failed_after : Text → ℕ → Text → Exn
failed_after safe_url attempt last_error = record {
  kind = transient_clone_error attempt;
  message =
      codes "git clone failed for "
      ++ (safe_url ++ (codes " after " ++ (show attempt ++ (codes " attempts: " ++ last_error))));
}

-- The error of a failure that is not worth a retry.
unfoldable pub failed_for_good : Text → Text → Exn
failed_for_good safe_url last_error = record {
  kind = runtime_error;
  message = codes "git clone failed for " ++ (safe_url ++ (codes ": " ++ last_error));
}

abbrev pub timeout_text : Text
timeout_text = codes "git clone timed out after 120s"

recorded : Result Text → GitLog → GitLog
recorded (ok dir) log = log ++ made dir ∷ []
recorded (raised e) log = log

module _ (git : Git) where
  -- A directory is on record once it is there.
  unfoldable pub make_dir : Py GitLog Text
  unfolding recorded
  make_dir log = (git.mkdtemp log, recorded (git.mkdtemp log) log)

  unfoldable pub run_git : List Text → Py GitLog Outcome
  run_git args log = (git.run log, log ++ ran args ∷ [])

  unfoldable pub remove_dir : Text → Py GitLog (Unit {0})
  remove_dir dir log = (ok tt, log ++ removed dir ∷ [])

  unfoldable pub pause : ℕ → Py GitLog (Unit {0})
  pause n log = (git.sleep log, log ++ slept n ∷ [])

module _ (platform : Platform) where
  -- `clone_args`
  unfoldable pub clone_args : CloneRequest → List Text
  clone_args r =
      codes "git"
      ∷ codes "clone"
      ∷ ((if allow_http platform then [] else codes "--depth=1" ∷ [])
          ++ (codes "--branch"
              ∷ r.branch
              ∷ codes "--"
              ∷ replace (codes "https://") (codes "https://oauth2:" ++ (r.token ++ codes "@"))
                  r.clone_url
              ∷ []))

module _ (platform : Platform) (git : Git) (r : CloneRequest) where
  safe_url : Text
  safe_url = sanitize_url_for_log platform r.clone_url

  -- `last_error` of a failed process
  unfoldable pub redacted : Text → Text
  redacted stderr = replace r.token (codes "***") (strip stderr)

  -- The next attempt after a pause, or none.
  unfoldable pub retry : ℕ → Text → (Text → Py GitLog Text) → Py GitLog Text
  unfolding safe_url
  retry attempt last_error again =
      if ltb attempt r.max_retries
      then (pause git (r.backoff_base * 3 ^ (attempt - 1)) >> again last_error)
      else raise (failed_after safe_url attempt last_error)

  -- What follows a failure, from the decoded `stderr` on.
  unfoldable pub after_failure : ℕ → (Text → Py GitLog Text) → Text → Py GitLog Text
  unfolding safe_url
  after_failure attempt again stderr =
      if is_transient_clone_error platform (strip stderr)
      then retry attempt (redacted stderr) again
      else raise (failed_for_good safe_url (redacted stderr))

  -- What follows a process: `again` is the loop from the next attempt on.
  unfoldable pub after_run : ℕ → Text → (Text → Py GitLog Text) → Outcome → Py GitLog Text
  unfolding safe_url
  after_run attempt dir again timed_out = remove_dir git dir >> retry attempt timeout_text again
  after_run attempt dir again (exited code stderr) =
      if code == 0
      then pure dir
      else (remove_dir git dir >> lift stderr >>= after_failure attempt again)

  unfoldable pub attempt_clone : ℕ → (Text → Py GitLog Text) → Py GitLog Text
  attempt_clone attempt again = do
    dir ← make_dir git
    outcome ← run_git git (clone_args platform r ++ dir ∷ [])
    after_run attempt dir again outcome

  -- The loop, with the attempts that are left.
  unfoldable pub attempts : ℕ → ℕ → Text → Py GitLog Text
  unfolding safe_url
  attempts zero attempt last_error = raise (failed_after safe_url r.max_retries last_error)
  attempts (suc left) attempt last_error = attempt_clone attempt (attempts left (suc attempt))

  unfoldable pub git_clone : Py GitLog Text
  git_clone = lift (validate_clone_url platform r.clone_url) >> attempts r.max_retries 1 []
