-- ===== src/Azure.antt =====
-- azure_storage.py: the task queue and the result store on Azure Storage. The SDK is given: what it answers is any
-- function of the steps so far. JSON and the decoding of bytes are given too.
pub mod Poison
pub mod Compensates
pub mod TableDedup
use gitlab_copilot_agent.Prelude.{
  ℕ, zero, suc, Text, codes, List, [], ◌∷◌, ◌++◌, Bool, true, false, Option, none, some, leb,
  if◌then◌else◌,
}
use gitlab_copilot_agent.Effects.{
  Result, ok, raised, Exn, is_exception, is_not_found_error, Py, pure, raise, lift, try_except,
  ◌>>=◌, ◌>>◌,
}
use gitlab_copilot_agent.Concurrency.Protocols.{QueueMessage, TaskQueue, ResultStore}

-- A message as the SDK hands it out.
pub record RawMessage : Type 0 where
  pub id : Text
  pub pop_receipt : Text
  pub content : Text
  pub dequeue_count : Option ℕ

pub data AzureStep : Type 0 where
  uploaded : Text → Text → AzureStep
  downloaded : Text → AzureStep
  deleted_blob : Text → AzureStep
  sent : Text → AzureStep
  received : ℕ → AzureStep
  deleted_message : Text → Text → AzureStep
  closed : AzureStep

abbrev pub AzureLog : Type 0
AzureLog = List AzureStep

pub record Azure : Type 0 where
  pub upload : AzureLog → Result (Unit {0})
  pub download : AzureLog → Text → Result Text
  pub delete_blob : AzureLog → Result (Unit {0})
  pub send_message : AzureLog → Result (Unit {0})
  pub receive_message : AzureLog → Result (Option RawMessage)
  pub delete_message : AzureLog → Result (Unit {0})
  pub close : AzureLog → Result (Unit {0})
  pub dump_reference : Text → Text → Text
  pub load_reference : Text → Result (Text × Text)
  pub decode : Text → Result Text

unfoldable pub step : {A : Type 0} → AzureStep → (AzureLog → Result A) → Py AzureLog A
step x f log = (f log, log ++ x ∷ [])

-- `_MAX_DEQUEUE_COUNT`
abbrev pub max_dequeue_count : ℕ
max_dequeue_count = 5

-- `f"{_PARAMS_PREFIX}{task_id}.json"` and `f"{_RESULTS_PREFIX}{key}.json"`
unfoldable pub params_blob : Text → Text
params_blob task_id = codes "params/" ++ (task_id ++ codes ".json")

unfoldable pub results_blob : Text → Text
results_blob key = codes "results/" ++ (key ++ codes ".json")

-- `msg.dequeue_count or 1`
unfoldable pub attempts_of : Option ℕ → ℕ
attempts_of none = 1
attempts_of (some zero) = 1
attempts_of (some (suc n)) = suc n

module _ (azure : Azure) where
  unfoldable pub upload_blob : Text → Text → Py AzureLog (Unit {0})
  upload_blob name data_ = step (uploaded name data_) azure.upload

  unfoldable pub download_blob : Text → Py AzureLog Text
  download_blob name = step (downloaded name) (λ log. azure.download log name)

  -- The compensating delete, and the error again.
  unfoldable pub compensate : Text → Exn → Py AzureLog (Unit {0})
  compensate name e =
      try_except (step (deleted_blob name) azure.delete_blob) (λ _. pure tt) >> raise e

  unfoldable pub enqueue : Text → Text → Py AzureLog (Unit {0})
  enqueue task_id payload = do
    upload_blob (params_blob task_id) payload
    try_except (step (sent (azure.dump_reference task_id (params_blob task_id))) azure.send_message)
        (compensate (params_blob task_id))

  -- The body of the `try` in `dequeue`: the task and its payload.
  unfoldable pub read_task : RawMessage → Py AzureLog (Text × Text)
  read_task msg = do
    reference ← lift (azure.load_reference msg.content)
    bytes ← download_blob reference.1
    payload ← lift (azure.decode bytes)
    pure (reference.0, payload)

  -- The `except` clause.
  unfoldable pub unreadable : RawMessage → Py AzureLog (Option QueueMessage)
  unreadable msg =
      if leb max_dequeue_count (attempts_of msg.dequeue_count)
      then (try_except (step (deleted_message msg.id msg.pop_receipt) azure.delete_message)
            (λ _. pure tt)
          >> pure none)
      else pure none

  unfoldable pub queue_message : RawMessage → Text × Text → QueueMessage
  queue_message msg task = record {
    message_id = msg.id;
    receipt = msg.pop_receipt;
    task_id = task.0;
    payload = task.1;
    dequeue_count = attempts_of msg.dequeue_count;
  }

  unfoldable pub handle_message : Option RawMessage → Py AzureLog (Option QueueMessage)
  handle_message none = pure none
  handle_message (some msg) =
      try_except (read_task msg >>= λ task. pure (some (queue_message msg task)))
        (λ _. unreadable msg)

  unfoldable pub dequeue : ℕ → Py AzureLog (Option QueueMessage)
  dequeue visibility_timeout =
      step (received visibility_timeout) azure.receive_message >>= handle_message

  unfoldable pub complete : QueueMessage → Py AzureLog (Unit {0})
  complete m = step (deleted_message m.message_id m.receipt) azure.delete_message

  -- `aclose` of the queue, where the credential is given: three clients to close
  unfoldable pub close_queue : Bool → Py AzureLog (Unit {0})
  close_queue has_credential = do
    step closed azure.close
    step closed azure.close
    if has_credential then step closed azure.close else pure tt

  -- `AzureStorageTaskQueue` as a `TaskQueue`
  unfoldable pub azure_task_queue : Bool → TaskQueue AzureLog
  azure_task_queue has_credential = record {
    enqueue = enqueue;
    dequeue = dequeue;
    complete = complete;
    upload_blob = upload_blob;
    download_blob = download_blob;
    aclose = close_queue has_credential;
  }

  absent_or_raise : Exn → Py AzureLog (Option Text)
  absent_or_raise e = if is_not_found_error e then pure none else raise e

  -- `BlobResultStore.get`; its `except` is for `ResourceNotFoundError`, an `Exception`
  unfoldable pub get_result : Text → Py AzureLog (Option Text)
  unfolding absent_or_raise
  get_result key =
      try_except
        (do
          bytes ← download_blob (results_blob key)
          content ← lift (azure.decode bytes)
          pure (some content))
        absent_or_raise

  unfoldable pub set_result : Text → Text → ℕ → Py AzureLog (Unit {0})
  set_result key value ttl = upload_blob (results_blob key) value

  unfoldable pub close_results : Bool → Py AzureLog (Unit {0})
  close_results has_credential = do
    step closed azure.close
    if has_credential then step closed azure.close else pure tt

  -- `BlobResultStore` as a `ResultStore`
  unfoldable pub blob_result_store : Bool → ResultStore AzureLog
  blob_result_store has_credential = record {
    get = get_result;
    set = set_result;
    aclose = close_results has_credential;
  }
