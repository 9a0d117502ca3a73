-- ===== src/Azure/Poison.antt =====
-- A message that cannot be read: it is handed out to nobody, and deleted at its fifth delivery.
use gitlab_copilot_agent.Prelude.{
  ℕ, zero, suc, Text, List, [], ◌∷◌, Bool, true, false, some, ◌==◌, nat_eq, text_eq, ◌&&◌, ◌||◌,
  ◌≡◌,
}
use gitlab_copilot_agent.Effects.{ok, raised, Exn, is_exception}
use gitlab_copilot_agent.Azure.{
  RawMessage, Azure, AzureLog, uploaded, downloaded, deleted_blob, sent, received, deleted_message,
  closed, dequeue,
}

-- How often a message was asked for.
unfoldable pub deliveries : AzureLog → ℕ
deliveries [] = 0
deliveries (received n ∷ log) = suc (deliveries log)
deliveries (uploaded name payload ∷ log) = deliveries log
deliveries (downloaded name ∷ log) = deliveries log
deliveries (deleted_blob name ∷ log) = deliveries log
deliveries (sent body ∷ log) = deliveries log
deliveries (deleted_message id receipt ∷ log) = deliveries log
deliveries (closed ∷ log) = deliveries log

-- Whether the message of this id was deleted under this receipt.
unfoldable pub was_deleted : Text → Text → AzureLog → Bool
was_deleted id receipt [] = false
was_deleted id receipt (deleted_message id' receipt' ∷ log) =
    (id' == id && receipt' == receipt) || was_deleted id receipt log
was_deleted id receipt (received n ∷ log) = was_deleted id receipt log
was_deleted id receipt (uploaded name payload ∷ log) = was_deleted id receipt log
was_deleted id receipt (downloaded name ∷ log) = was_deleted id receipt log
was_deleted id receipt (deleted_blob name ∷ log) = was_deleted id receipt log
was_deleted id receipt (sent body ∷ log) = was_deleted id receipt log
was_deleted id receipt (closed ∷ log) = was_deleted id receipt log

-- Why a message cannot be read: its content is no reference, or there is no such blob.
pub data IsUnreadable (azure : Azure) (content : Text) : Type 0 where
  bad_reference :
      (e : Exn)
      → azure.load_reference content ≡ raised e
      → is_exception e ≡ true
      → IsUnreadable azure content
  missing_blob :
      (task_id name : Text) (e : Exn)
      → azure.load_reference content ≡ ok (task_id, name)
      → ((log : AzureLog) → azure.download log name ≡ raised e)
      → is_exception e ≡ true
      → IsUnreadable azure content

module _ (id receipt content : Text) where
  -- The message at its n-th delivery.
  abbrev pub delivered : ℕ → RawMessage
  delivered n = record { id = id; pop_receipt = receipt; content = content; dequeue_count = some n }

  -- A queue that holds this one message, and counts its deliveries until it is deleted.
  pub record IsQueue (azure : Azure) : Type 0 where
    pub redelivers :
        (log : AzureLog)
        → was_deleted id receipt log ≡ false
        → azure.receive_message log ≡ ok (some (delivered (suc (deliveries log))))
    pub deletes : (log : AzureLog) → azure.delete_message log ≡ ok tt

module _ (azure : Azure) (visibility : ℕ) where
  -- The log after `n` calls of `dequeue`.
  abbrev pub after : ℕ → AzureLog
  after zero = []
  after (suc n) = (dequeue azure visibility (after n)).1
