-- ===== src/Concurrency/MemoryQueue/Fifo.antt =====
-- The order of the queue, and what a store gives back.
use mathlib.Core.List.{append_assoc, append-nil}
use gitlab_copilot_agent.Prelude.{
  ℕ, zero, suc, Text, text_eq, List, [], ◌∷◌, ◌++◌, Option, none, some, ◌≡◌, refl, ap, sym, ◌∙◌,
  length, eq_self, ◌==◌, false, Option-cases, inl, inr,
}
use gitlab_copilot_agent.Effects.{ok, raised}
use gitlab_copilot_agent.Concurrency.OrderedDict.{lookup, insert, lookup-insert}
use gitlab_copilot_agent.Concurrency.Protocols.{QueueMessage}
use gitlab_copilot_agent.Concurrency.MemoryQueue.{
  MemoryTaskQueue, message, enqueue, dequeue, pop_message, upload_blob, download_blob, blob_or,
}

-- The tasks of some messages.
abbrev pub tasks_of : List QueueMessage → List (Text × Text)
tasks_of [] = []
tasks_of (m ∷ ms) = (m.task_id, m.payload) ∷ tasks_of ms

tasks_of-append : (ms ns : List QueueMessage) → tasks_of (ms ++ ns) ≡ tasks_of ms ++ tasks_of ns
tasks_of-append [] ns = refl
tasks_of-append (m ∷ ms) ns = ap (λ l. (m.task_id, m.payload) ∷ l) (tasks_of-append ms ns)

-- Tasks put in, one after the other.
unfoldable pub enqueue_all : List (Text × Text) → MemoryTaskQueue → MemoryTaskQueue
enqueue_all [] q = q
enqueue_all ((task_id, payload) ∷ ts) q = enqueue_all ts (enqueue task_id payload q).1

taken : Option QueueMessage → List QueueMessage → List QueueMessage
taken none ms = ms
taken (some m) ms = m ∷ ms

-- The messages that `n` calls of `dequeue` give, `None` left out.
unfoldable pub dequeue_all : ℕ → MemoryTaskQueue → List QueueMessage
unfolding taken
dequeue_all zero q = []
dequeue_all (suc n) q = elim (dequeue 300 q).0 [
  | ok m ↦ taken m (dequeue_all n (dequeue 300 q).1)
  | raised e ↦ []
]

tasks_of-enqueue_all :
    (ts : List (Text × Text)) (q : MemoryTaskQueue)
    → tasks_of (enqueue_all ts q).messages ≡ tasks_of q.messages ++ ts
unfolding enqueue_all enqueue message
tasks_of-enqueue_all [] q = sym (append-nil (tasks_of q.messages))
tasks_of-enqueue_all ((task_id, payload) ∷ ts) q =
    let next = (enqueue task_id payload q).1 in
    tasks_of-enqueue_all ts next
    ∙ ap (λ l. l ++ ts) (tasks_of-append q.messages (message (suc q.counter) task_id payload ∷ []))
    ∙ append_assoc (tasks_of q.messages) ((task_id, payload) ∷ []) ts

dequeue_all-messages :
    (ms : List QueueMessage) (q : MemoryTaskQueue)
    → q.messages ≡ ms
    → dequeue_all (length ms) q ≡ ms
unfolding dequeue_all dequeue pop_message taken
dequeue_all-messages [] q e = refl
dequeue_all-messages (m ∷ ms) q e =
    rw e (ap (λ l. m ∷ l) (dequeue_all-messages ms (record q { messages = ms }) refl))

-- First in, first out: tasks put into a queue come out of it in the order of their arrival, behind those that were
-- there, none lost and none twice.
pub dequeues_in_order :
    (ts : List (Text × Text)) (q : MemoryTaskQueue)
    → tasks_of (dequeue_all (length (enqueue_all ts q).messages) (enqueue_all ts q))
      ≡ tasks_of q.messages ++ ts
dequeues_in_order ts q =
    ap tasks_of (dequeue_all-messages (enqueue_all ts q).messages (enqueue_all ts q) refl)
    ∙ tasks_of-enqueue_all ts q

-- A blob comes back as it was uploaded last, and an upload changes no other blob.
pub download_blob-upload_blob :
    (name other_name data_ : Text) (q : MemoryTaskQueue)
    → ((download_blob name (upload_blob name data_ q).1).0 ≡ ok data_)
      × ((name == other_name) ≡ false
          → (download_blob other_name (upload_blob name data_ q).1).0
            ≡ (download_blob other_name q).0)
unfolding download_blob upload_blob blob_or
download_blob-upload_blob name other_name data_ q = (
  rw (lookup-insert, eq_self name) refl,
  λ apart.
      let same : lookup other_name (insert name data_ q.blobs) ≡ lookup other_name q.blobs =
        rw (lookup-insert, apart) refl in
      elim (Option-cases (lookup other_name q.blobs)) [
        | inl missing ↦ rw (same, missing) refl
        | inr (old, there) ↦ rw (same, there) refl
      ],
)
