-- ===== src/Dedup/Service/Shared.antt =====
-- Notes and issues go through the shared store alone; what they need of it, and that the in-memory
-- store has it.
use gitlab_copilot_agent.Prelude.{Bool, true, ◌≡◌, ◌≤◌, ℕ, Text, ◌⊎◌, inl, inr}
use gitlab_copilot_agent.Effects.{ok}
use gitlab_copilot_agent.Concurrency.Protocols.{DeduplicationStore}
use gitlab_copilot_agent.Concurrency.MemoryDedup.{MemoryDedup, memory_dedup}
use gitlab_copilot_agent.Concurrency.MemoryDedup.Bounds.{
  IsValid, mark_seen-IsValid, max_size-mark_seen, is_seen-of-mark_seen,
}
use gitlab_copilot_agent.Concurrency.MemoryDedup.Recency.{is_seen-mark_seen_self}
use gitlab_copilot_agent.Dedup.Keys.{note, issue, item_key, item_key_injective, note_key, issue_key}
use gitlab_copilot_agent.Dedup.Service.{DedupState, is_note_seen, mark_note, is_issue_seen}

-- What a deduplication store promises: from a good state a mark is remembered, and a mark makes no
-- other key seen.
pub record IsLawful {S : Type 0} (store : DeduplicationStore S) (Good : S → Type 0) : Type 0 where
  pub keeps : (k : Text) (ttl : ℕ) (s : S) → Good s → Good (store.mark_seen k ttl s).1
  pub remembers :
      (k : Text) (ttl : ℕ) (s : S)
      → Good s
      → (store.is_seen k (store.mark_seen k ttl s).1).0 ≡ ok true
  pub invents_nothing :
      (k j : Text) (ttl : ℕ) (s : S)
      → (store.is_seen j (store.mark_seen k ttl s).1).0 ≡ ok true
      → (j ≡ k) ⊎ ((store.is_seen j s).0 ≡ ok true)

abbrev pub IsRoomy : MemoryDedup → Type 0
IsRoomy d = IsValid d × (2 ≤ d.max_size)

ok_injective : {a b : Bool} → ok a ≡ ok b → a ≡ b
ok_injective h = cc

-- From a valid state of the in-memory store with room for two keys or more, a mark leads to such a state again, and
-- the marked key is seen right after it. From any state, a mark makes no other key seen.
pub memory_dedup-IsLawful : IsLawful memory_dedup IsRoomy
unfolding memory_dedup
memory_dedup-IsLawful = record {
  keeps = λ k ttl d h. (mark_seen-IsValid d k h.0, rw max_size-mark_seen h.1);
  remembers = λ k ttl d h. rw (is_seen-mark_seen_self d k h.1 h.0);
  invents_nothing = λ k j ttl d h. elim (is_seen-of-mark_seen d k j (ok_injective h)) [
    | inl same ↦ inl same
    | inr before ↦ inr (rw before)
  ];
}

module _ {S : Type 0} (store : DeduplicationStore S) {Good : S → Type 0}
    (law : IsLawful store Good) where
  -- Over a lawful shared store, a note is seen right after it is marked, and marking it makes no
  -- other note and no issue seen.
  pub mark_note_exact :
      (p m n : ℕ) (s : DedupState S)
      → Good s.backend
      → ((is_note_seen store p m n (mark_note store p m n s).1).0 ≡ ok true)
        × ((p' m' n' : ℕ)
            → (is_note_seen store p' m' n' (mark_note store p m n s).1).0 ≡ ok true
            → ((p' ≡ p) × (m' ≡ m) × (n' ≡ n)) ⊎ ((is_note_seen store p' m' n' s).0 ≡ ok true))
        × ((k : Text)
            → (is_issue_seen store k (mark_note store p m n s).1).0 ≡ ok true
            → (is_issue_seen store k s).0 ≡ ok true)
  unfolding is_note_seen mark_note is_issue_seen
  mark_note_exact p m n s good = (
    law.remembers (note_key p m n) _ s.backend good,
    (λ p' m' n' h. elim (law.invents_nothing (note_key p m n) (note_key p' m' n') _ s.backend h) [
      | inl same ↦
          inl (item_key_injective true (note p' m' n') (note p m n) (unfold item_key in same))
      | inr before ↦ inr before
    ]),
    (λ k h. elim (law.invents_nothing (note_key p m n) (issue_key k) _ s.backend h) [
      | inl same ↦ absurd (item_key_injective true (issue k) (note p m n) (unfold item_key in same))
      | inr before ↦ before
    ]),
  )
