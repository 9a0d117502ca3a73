-- ===== src/Dedup/Service/Reviews.antt =====
-- What callers can rely on when they ask whether a review was done.
use gitlab_copilot_agent.Prelude.{Bool, true, false, ◌≡◌, refl, ◌≤◌, ℕ, Text, Bool-cases, inl, inr}
use gitlab_copilot_agent.Effects.{Result, ok, raised, Exn, is_exception, pure, handle}
use gitlab_copilot_agent.Concurrency.Protocols.{DeduplicationStore}
use gitlab_copilot_agent.Concurrency.MemoryDedup
use gitlab_copilot_agent.Concurrency.MemoryDedup.{MemoryDedup}
use gitlab_copilot_agent.Concurrency.MemoryDedup.Bounds.{
  IsValid, mark_seen-IsValid, max_size-mark_seen,
}
use gitlab_copilot_agent.Concurrency.MemoryDedup.Recency.{is_seen-mark_seen_self}
use gitlab_copilot_agent.Dedup.Keys.{review_key}
use gitlab_copilot_agent.Dedup.Service.{DedupState, is_review_seen, mark_review, on_backend}

-- The local cache is well formed and has room for a key besides the newest.
pub record IsReady {S : Type 0} (s : DedupState S) : Type 0 where
  pub cache : IsValid s.local
  pub room : 2 ≤ s.local.max_size

-- The `except` clause of the check: an answer, where only `Exception`s are raised.
handled_answers :
    {S : Type 0} (r : Result Bool × S)
    → ((e : Exn) → r.0 ≡ raised e → is_exception e ≡ true)
    → (answer : Bool) × ((handle (λ _. pure false) r).0 ≡ ok answer)
handled_answers (ok b, s) only = (b, refl)
handled_answers (raised e, s) only = (false, rw (only e refl))

module _ {S : Type 0} (store : DeduplicationStore S) (push : Bool) where
  -- Whatever the shared store does, `mark_review` keeps the local cache well formed.
  mark_review-IsReady :
      (p m : ℕ) (sha : Text) (s : DedupState S)
      → IsReady s
      → IsReady (mark_review store push p m sha s).1
  unfolding mark_review
  mark_review-IsReady p m sha s r = record {
    cache = mark_seen-IsValid s.local (review_key push p m sha) r.cache;
    room = rw max_size-mark_seen r.room;
  }

  -- A backend that only raises `Exception`s never makes the check raise: it answers, and a failed
  -- backend counts as a miss.
  pub is_review_seen_answers :
      (p m : ℕ) (sha : Text) (s : DedupState S)
      → ((k : Text) (b : S) (e : Exn) → (store.is_seen k b).0 ≡ raised e → is_exception e ≡ true)
      → (answer : Bool) × ((is_review_seen store push p m sha s).0 ≡ ok answer)
  unfolding is_review_seen
  is_review_seen_answers p m sha s only =
      let key = review_key push p m sha in
      let asked : Result Bool × DedupState S = on_backend (store.is_seen key) s in
      elim (Bool-cases (MemoryDedup.is_seen s.local key)) [
        | inl hit ↦ (true, rw hit)
        | inr miss ↦ rw miss (handled_answers asked (only key s.backend))
      ]

  -- After `mark_review` the check finds the review, even if the mark on the shared store raised: the
  -- local cache has it. It finds every review that shares the key.
  pub is_review_seen-mark_review :
      (p m : ℕ) (sha sha' : Text) (s : DedupState S)
      → IsReady s
      → review_key push p m sha ≡ review_key push p m sha'
      → (is_review_seen store push p m sha' (mark_review store push p m sha s).1).0 ≡ ok true
  unfolding is_review_seen mark_review
  is_review_seen-mark_review p m sha sha' s r same =
      rw (← same, is_seen-mark_seen_self s.local (review_key push p m sha) r.room r.cache)

-- When reviews are per MR, one mark covers every later commit of the MR: no new head SHA makes the
-- check miss.
pub per_mr_marks_every_commit :
    {S : Type 0} (store : DeduplicationStore S) (p m : ℕ) (sha sha' : Text) (s : DedupState S)
    → IsReady s
    → (is_review_seen store false p m sha' (mark_review store false p m sha s).1).0 ≡ ok true
per_mr_marks_every_commit store p m sha sha' s r =
    is_review_seen-mark_review store false p m sha sha' s r (unfold review_key in refl)
