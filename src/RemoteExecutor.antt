-- ===== src/RemoteExecutor.antt =====
-- remote_executor.py: tasks that run elsewhere, by a queue and a store of results. Times are milliseconds.
pub mod Termination
pub mod Once
use gitlab_copilot_agent.Prelude.{
  ℕ, zero, suc, ◌+◌, ◌*◌, ◌/◌, nat_eq, Text, text_eq, codes, show, List, [], ◌∷◌, ◌++◌, Bool, true,
  false, ltb, Option, none, some, ◌==◌, if◌then◌else◌,
}
use gitlab_copilot_agent.Effects.{
  Result, ok, raised, timeout_error, task_execution_error, Py, pure, raise, lift, ◌>>=◌, ◌>>◌,
}
use gitlab_copilot_agent.Incremental.{strip_prefix}
use gitlab_copilot_agent.Concurrency.Protocols.{TaskQueue, ResultStore}
use gitlab_copilot_agent.Tasks.{TaskParams, TaskResult, review_result, coding_result, no_path}

-- A JSON object with a `result_type`: the texts that the code reads of it, and the results that pydantic makes of it.
pub record ResultJson : Type 0 where
  pub result_type : Text
  pub summary : Text
  pub as_coding : Option TaskResult
  pub as_review : Option TaskResult

-- What is not of this module: the clocks of the event loop and of the wall, `asyncio.sleep`, the archive of the
-- clone, `json`, and `int` on texts.
pub record RemoteWorld (W : Type 0) : Type 0 where
  pub now : W → ℕ
  pub wall : W → ℕ
  pub sleep : ℕ → Py W (Unit {0})
  pub tar_repo_to_bytes : Text → Py W Text
  pub json_loads : Text → Option ResultJson
  pub json_dumps : TaskParams → Option Text → Text
  pub int_of : Text → Option ℕ

-- `_POLL_INTERVAL`
abbrev pub poll_interval : ℕ
poll_interval = 5000

-- The result where there is no JSON result.
unfoldable pub plain_result : Text → Text → TaskResult
plain_result raw task_type =
    if task_type == codes "coding" then coding_result raw [] [] else review_result raw

unfoldable pub validated : Text → Text → Option TaskResult → Result TaskResult
validated raw task_type none = ok (plain_result raw task_type)
validated raw task_type (some result) = ok result

unfoldable pub typed_result : Text → Text → ResultJson → Result TaskResult
typed_result raw task_type json =
    if json.result_type == codes "coding"
    then validated raw task_type json.as_coding
    else if json.result_type == codes "error"
    then raised (record { kind = task_execution_error; message = json.summary })
    else validated raw task_type json.as_review

unfoldable pub parsed_result : Text → Text → Option ResultJson → Result TaskResult
parsed_result raw task_type none = ok (plain_result raw task_type)
parsed_result raw task_type (some json) = typed_result raw task_type json

-- `parse_result`
unfoldable pub parse_result : (Text → Option ResultJson) → Text → Text → Result TaskResult
parse_result json_loads raw task_type = parsed_result raw task_type (json_loads raw)

unfoldable pub lock_key : Text → Text
lock_key task_id = codes "remote_exec:" ++ task_id

unfoldable pub lock_prefix : Text
lock_prefix = codes "enqueued:"

-- The moment, in seconds, at which a lock's value ends, if it has the form of one.
unfoldable pub expiry_of : (Text → Option ℕ) → Option Text → Option ℕ
expiry_of int_of none = none
expiry_of int_of (some rest) = int_of rest

unfoldable pub lock_expiry : (Text → Option ℕ) → Option Text → Option ℕ
lock_expiry int_of none = none
lock_expiry int_of (some existing) = expiry_of int_of (strip_prefix lock_prefix existing)

-- `time.time() < expiry`
unfoldable pub is_live : ℕ → Option ℕ → Bool
is_live wall none = false
is_live wall (some expiry) = ltb wall (expiry * 1000)

unfoldable pub timed_out : Text → ℕ → Text
timed_out task_id job_timeout =
    codes "Task " ++ (task_id ++ (codes " timed out after " ++ (show job_timeout ++ codes "s")))

module _ {W : Type 0} (world : RemoteWorld W) (store : ResultStore W) (queue : TaskQueue W)
    (job_timeout : ℕ) where
  -- A round of the loop, from what the store has: the result, or a pause before the next round.
  unfoldable pub found_or :
      TaskParams → Py W (Option TaskResult) → Option Text → Py W (Option TaskResult)
  found_or task next (some raw) =
      lift (parse_result world.json_loads raw task.task_type) >>= λ result. pure (some result)
  found_or task next none = world.sleep poll_interval >> next

  unfoldable pub poll_round : TaskParams → ℕ → Py W (Option TaskResult) → Py W (Option TaskResult)
  poll_round task deadline next s =
      if ltb (world.now s) deadline
      then (store.get task.task_id >>= found_or task next) s
      else raise (record { kind = timeout_error; message = timed_out task.task_id job_timeout }) s

  -- The loop of `_poll_result`; `none` where the fuel is used up.
  unfoldable pub poll : TaskParams → ℕ → ℕ → Py W (Option TaskResult)
  poll task deadline zero = pure none
  poll task deadline (suc fuel) = poll_round task deadline (poll task deadline fuel)

  -- `_poll_result`, with fuel for every round that the timeout leaves time for.
  unfoldable pub poll_result : TaskParams → Py W (Option TaskResult)
  poll_result task s =
      poll task (world.now s + job_timeout * 1000) (suc (suc (job_timeout * 1000 / poll_interval)))
        s

  upload : TaskParams → Option Text → Py W (Option Text)
  upload task none = pure none
  upload task (some path) = if no_path (some path) then pure none else do
    tarball ← world.tar_repo_to_bytes path
    queue.upload_blob (codes "repos/" ++ (task.task_id ++ codes ".tar.gz")) tarball
    pure (some (codes "repos/" ++ (task.task_id ++ codes ".tar.gz")))

  unfoldable pub lock_value : ℕ → Text
  lock_value wall = lock_prefix ++ show (wall / 1000 + job_timeout)

  -- The clone, the message and the lock, before the polls.
  unfoldable pub dispatch : TaskParams → Py W (Unit {0})
  unfolding upload
  dispatch task = do
    repo_blob_key ← upload task task.repo_path
    queue.enqueue task.task_id (world.json_dumps task repo_blob_key)
    (λ s. store.set (lock_key task.task_id) (lock_value (world.wall s)) 3600 s)

  unfoldable pub dispatch_if : TaskParams → Option Text → Py W (Option TaskResult)
  dispatch_if task existing s =
      if is_live (world.wall s) (lock_expiry world.int_of existing)
      then poll_result task s
      else (dispatch task >> poll_result task) s

  unfoldable pub cached_or : TaskParams → Option Text → Py W (Option TaskResult)
  cached_or task (some raw) =
      lift (parse_result world.json_loads raw task.task_type) >>= λ result. pure (some result)
  cached_or task none = store.get (lock_key task.task_id) >>= dispatch_if task

  -- `RemoteTaskExecutor.execute`
  unfoldable pub execute : TaskParams → Py W (Option TaskResult)
  execute task = store.get task.task_id >>= cached_or task
