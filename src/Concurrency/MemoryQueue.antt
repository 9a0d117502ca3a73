-- ===== src/Concurrency/MemoryQueue.antt =====
-- `MemoryTaskQueue` and `MemoryResultStore` of concurrency/memory.py.
pub mod Fifo
use gitlab_copilot_agent.Prelude.{
  ℕ, suc, Text, text_eq, codes, show, List, [], ◌∷◌, ◌++◌, Option, none, some,
}
use gitlab_copilot_agent.Effects.{Result, ok, raised, key_error, Py, pure, raise, gets, modify}
use gitlab_copilot_agent.Concurrency.OrderedDict.{lookup, insert}
use gitlab_copilot_agent.Concurrency.Protocols.{QueueMessage, TaskQueue, ResultStore}

pub record MemoryTaskQueue : Type 0 where
  pub messages : List QueueMessage
  pub counter : ℕ
  pub blobs : List (Text × Text)

abbrev pub new_queue : MemoryTaskQueue
new_queue = record { messages = []; counter = 0; blobs = [] }

-- The message that `enqueue` appends.
unfoldable pub message : ℕ → Text → Text → QueueMessage
message counter task_id payload = record {
  message_id = show counter;
  receipt = show counter;
  task_id = task_id;
  payload = payload;
  dequeue_count = 1;
}

unfoldable pub enqueue : Text → Text → Py MemoryTaskQueue (Unit {0})
enqueue task_id payload = modify (λ q. record q {
  counter = suc q.counter;
  messages = q.messages ++ message (suc q.counter) task_id payload ∷ [];
})

pop_message : MemoryTaskQueue → List QueueMessage → Result (Option QueueMessage) × MemoryTaskQueue
pop_message q [] = (ok none, q)
pop_message q (m ∷ ms) = (ok (some m), record q { messages = ms })

unfoldable pub dequeue : ℕ → Py MemoryTaskQueue (Option QueueMessage)
unfolding pop_message
dequeue visibility_timeout q = pop_message q q.messages

unfoldable pub complete : QueueMessage → Py MemoryTaskQueue (Unit {0})
complete m = pure tt

unfoldable pub upload_blob : Text → Text → Py MemoryTaskQueue (Unit {0})
upload_blob name data_ = modify (λ q. record q { blobs = insert name data_ q.blobs })

blob_or : Text → Option Text → Py MemoryTaskQueue Text
blob_or name none = raise (record { kind = key_error; message = codes "Blob not found: " ++ name })
blob_or name (some data_) = pure data_

unfoldable pub download_blob : Text → Py MemoryTaskQueue Text
unfolding blob_or
download_blob name q = blob_or name (lookup name q.blobs) q

unfoldable pub close_queue : Py MemoryTaskQueue (Unit {0})
close_queue = modify (λ q. record q { messages = []; blobs = [] })

-- The class as a `TaskQueue`.
unfoldable pub memory_task_queue : TaskQueue MemoryTaskQueue
memory_task_queue = record {
  enqueue = enqueue;
  dequeue = dequeue;
  complete = complete;
  upload_blob = upload_blob;
  download_blob = download_blob;
  aclose = close_queue;
}

-- `MemoryResultStore` as a `ResultStore`: its state is `_data`, and it ignores `ttl`.
unfoldable pub memory_result_store : ResultStore (List (Text × Text))
memory_result_store = record {
  get = λ key. gets (lookup key);
  set = λ key value ttl. modify (insert key value);
  aclose = modify (λ _. []);
}
