-- ===== src/Dedup/Service.antt =====
-- `DeduplicationService` of dedup.py.
pub mod Reviews
pub mod Shared
use gitlab_copilot_agent.Prelude.{Bool, true, false, ℕ, Text, if◌then◌else◌}
use gitlab_copilot_agent.Effects.{
  Result, ok, raised, Py, pure, gets, modify, ◌>>=◌, ◌>>◌, try_except,
}
use gitlab_copilot_agent.Concurrency.Protocols.{DeduplicationStore}
use gitlab_copilot_agent.Concurrency.MemoryDedup
use gitlab_copilot_agent.Concurrency.MemoryDedup.{MemoryDedup}
use gitlab_copilot_agent.Dedup.Keys.{review_key, note_key, issue_key, default_ttl}

-- The service's mutable state: its local cache, and the state behind the shared store.
pub record DedupState (S : Type 0) : Type 0 where
  pub local : MemoryDedup
  pub backend : S

-- `DeduplicationService(backend, review_on_push=...)` starts with an empty cache.
unfoldable pub init : {S : Type 0} → S → DedupState S
init s = record { local = MemoryDedup.new MemoryDedup.default_max_processed; backend = s }

module _ {S : Type 0} where
  -- A call of `self._backend`.
  abbrev pub on_backend : {A : Type 0} → Py S A → Py (DedupState S) A
  on_backend m s = let (r, b) = m s.backend in (r, record s { backend = b })

module _ {S : Type 0} (store : DeduplicationStore S) (review_on_push : Bool) where
  unfoldable pub is_review_seen : ℕ → ℕ → Text → Py (DedupState S) Bool
  is_review_seen project_id mr_iid head_sha = do
    let key = review_key review_on_push project_id mr_iid head_sha
    hit ← gets (λ s. MemoryDedup.is_seen s.local key)
    if hit then pure true else try_except (on_backend (store.is_seen key)) (λ _. pure false)

  unfoldable pub mark_review : ℕ → ℕ → Text → Py (DedupState S) (Unit {0})
  mark_review project_id mr_iid head_sha = do
    let key = review_key review_on_push project_id mr_iid head_sha
    modify (λ s. record s { local = MemoryDedup.mark_seen s.local key })
    on_backend (store.mark_seen key default_ttl)

module _ {S : Type 0} (store : DeduplicationStore S) where
  unfoldable pub is_note_seen : ℕ → ℕ → ℕ → Py (DedupState S) Bool
  is_note_seen project_id mr_iid note_id =
      on_backend (store.is_seen (note_key project_id mr_iid note_id))

  unfoldable pub mark_note : ℕ → ℕ → ℕ → Py (DedupState S) (Unit {0})
  mark_note project_id mr_iid note_id =
      on_backend (store.mark_seen (note_key project_id mr_iid note_id) default_ttl)

  unfoldable pub is_issue_seen : Text → Py (DedupState S) Bool
  is_issue_seen key = on_backend (store.is_seen (issue_key key))

  unfoldable pub mark_issue : Text → Py (DedupState S) (Unit {0})
  mark_issue key = on_backend (store.mark_seen (issue_key key) default_ttl)

  -- `MemoryDedup.aclose` does nothing.
  unfoldable pub aclose : Py (DedupState S) (Unit {0})
  aclose = on_backend store.aclose
