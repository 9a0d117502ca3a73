-- ===== src/Concurrency/Protocols.antt =====
-- concurrency/protocols.py: the interfaces that the rest of the service is written against.
use gitlab_copilot_agent.Prelude.{Bool, Text, ℕ, Option}
use gitlab_copilot_agent.Effects.{Py}

-- `DeduplicationStore`; `S` is the state that the store keeps. The `int` of `mark_seen` is
-- `ttl_seconds`.
pub record DeduplicationStore (S : Type 0) : Type 0 where
  pub is_seen : Text → Py S Bool
  pub mark_seen : Text → ℕ → Py S (Unit {0})
  pub aclose : Py S (Unit {0})

-- `QueueMessage`
pub record QueueMessage : Type 0 where
  pub message_id : Text
  pub receipt : Text
  pub task_id : Text
  pub payload : Text
  pub dequeue_count : ℕ

-- `TaskQueue`; a blob is a text of bytes.
pub record TaskQueue (S : Type 0) : Type 0 where
  pub enqueue : Text → Text → Py S (Unit {0})
  pub dequeue : ℕ → Py S (Option QueueMessage)
  pub complete : QueueMessage → Py S (Unit {0})
  pub upload_blob : Text → Text → Py S (Unit {0})
  pub download_blob : Text → Py S Text
  pub aclose : Py S (Unit {0})

-- `ResultStore`
pub record ResultStore (S : Type 0) : Type 0 where
  pub get : Text → Py S (Option Text)
  pub set : Text → Text → ℕ → Py S (Unit {0})
  pub aclose : Py S (Unit {0})
