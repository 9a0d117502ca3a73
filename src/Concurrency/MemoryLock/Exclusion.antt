-- ===== src/Concurrency/MemoryLock/Exclusion.antt =====
-- One task at a time holds a lock object; and a key, while the table is within its bound.
use gitlab_copilot_agent.Prelude.{
  true, false, ◌≡◌, ◌&&◌, not, ℕ, ◌<◌, ◌≤◌, List, [], ◌∷◌, ◌++◌, some, leb, length, Text, text_eq,
  nat_eq, ◌==◌, arith, Option-cases, Bool-cases, inl, inr,
}
use gitlab_copilot_agent.Concurrency.OrderedDict.{lookup, delete}
use gitlab_copilot_agent.Concurrency.MemoryLock.{
  waiting, holding, World, init, release, evict_unlocked, delete_all, find_lock, lock_or_wait,
  enter, resume, leave, Turn, entered, resumed, left,
}

-- Every entry names a lock object that was made.
pub AllMade : ℕ → List (Text × ℕ) → Type 0
AllMade n [] = Unit
AllMade n ((k, l) ∷ d) = (l < n) × AllMade n d

AllMade-lookup :
    (n : ℕ) (d : List (Text × ℕ)) (k : Text) (l : ℕ) → AllMade n d → lookup k d ≡ some l → l < n
unfolding AllMade lookup
AllMade-lookup n [] k l a h = absurd (ground arith)
AllMade-lookup n ((j, i) ∷ d) k l a h = ground (arith, AllMade-lookup n d k l a.1)

AllMade-delete : (n : ℕ) (d : List (Text × ℕ)) (k : Text) → AllMade n d → AllMade n (delete k d)
unfolding AllMade delete
AllMade-delete n [] k a = a
AllMade-delete n ((j, i) ∷ d) k a = elim (Bool-cases (j == k)) [
  | inl e ↦ rw e a.1
  | inr e ↦ rw e (a.0, AllMade-delete n d k a.1)
]

AllMade-delete_all :
    (n : ℕ) (d : List (Text × ℕ)) (ks : List Text) → AllMade n d → AllMade n (delete_all ks d)
unfolding delete_all
AllMade-delete_all n d [] a = a
AllMade-delete_all n d (k ∷ ks) a = AllMade-delete_all n (delete k d) ks (AllMade-delete n d k a)

AllMade-snoc :
    (m n : ℕ) (d : List (Text × ℕ)) (k : Text) (l : ℕ)
    → m ≤ n
    → AllMade m d
    → l < n
    → AllMade n (d ++ (k, l) ∷ [])
unfolding AllMade
AllMade-snoc m n [] k l h a b = (b, tt)
AllMade-snoc m n ((j, i) ∷ d) k l h a b = (omega arith, AllMade-snoc m n d k l h a.1 b)

-- A task holds only locked objects that were made, and no object is held twice.
pub record IsSound (w : World) : Type 0 where
  pub made : AllMade w.next_cell w.locks
  pub held :
      (t : ℕ) (k : Text) (l : ℕ)
      → w.phase t ≡ holding k l
      → (l < w.next_cell) × ((w.cells l).locked ≡ true)
  pub awaited : (t : ℕ) (k : Text) (l : ℕ) → w.phase t ≡ waiting k l → l < w.next_cell
  pub once :
      (t t' : ℕ) (k k' : Text) (l : ℕ)
      → w.phase t ≡ holding k l
      → w.phase t' ≡ holding k' l
      → t ≡ t'

lock_or_wait-IsSound :
    (w : World) (task : ℕ) (key : Text) (l : ℕ)
    → l < w.next_cell
    → IsSound w
    → IsSound (lock_or_wait task key l w)
unfolding lock_or_wait
lock_or_wait-IsSound w task key l m s = record {
  made = elim (Bool-cases (not (w.cells l).locked && (length (w.cells l).waiters == 0))) [
    | inl e ↦ rw e s.made
    | inr e ↦ rw e s.made
  ];
  held = λ t k i h. ground (arith, s.held t k i);
  awaited = λ t k i h. ground (arith, s.awaited t k i);
  once = λ t t' k k' i h h'. ground (arith, s.once t t' k k' i, s.held t k i, s.held t' k' i);
}

resume-IsSound :
    (w : World) (task : ℕ) (key : Text) (l : ℕ) (rest : List ℕ)
    → w.phase task ≡ waiting key l
    → w.cells l ≡ record { locked = false; waiters = task ∷ rest }
    → IsSound w
    → IsSound (resume task key l rest w)
unfolding resume
resume-IsSound w task key l rest p c s = record {
  made = s.made;
  held = λ t k i h. ground (arith, s.held t k i, s.awaited task key l);
  awaited = λ t k i h. ground (arith, s.awaited t k i);
  once = λ t t' k k' i h h'. ground (arith, s.once t t' k k' i, s.held t k i, s.held t' k' i);
}

evict_unlocked-IsSound : (w : World) → IsSound w → IsSound (evict_unlocked w)
unfolding evict_unlocked
evict_unlocked-IsSound w s = elim (Bool-cases (leb (length w.locks) w.max_size)) [
  | inl e ↦ rw e s
  | inr e ↦ rw e (record {
    made = AllMade-delete_all w.next_cell w.locks _ s.made;
    held = s.held;
    awaited = s.awaited;
    once = s.once;
  })
]

release-IsSound :
    (w : World) (task : ℕ) (key : Text) (l : ℕ)
    → w.phase task ≡ holding key l
    → IsSound w
    → IsSound (release task l w)
unfolding release
release-IsSound w task key l p s = record {
  made = s.made;
  held = λ t k i h. ground (arith, s.held t k i, s.once task t key k l);
  awaited = λ t k i h. ground (arith, s.awaited t k i);
  once = λ t t' k k' i h h'. ground (arith, s.once t t' k k' i);
}

find_lock-IsSound : (w : World) (key : Text) → IsSound w → IsSound (find_lock w key).1
unfolding find_lock
find_lock-IsSound w key s = elim (Option-cases (lookup key w.locks)) [
  | inl new ↦
      rw (new, find_lock)
        (record {
          made =
              AllMade-snoc w.next_cell _ w.locks key w.next_cell (omega arith) s.made (omega arith);
          held = λ t k i h. ground (arith, s.held t k i);
          awaited = λ t k i h. ground (arith, s.awaited t k i);
          once = s.once;
        })
  | inr (l, old) ↦
      rw (old, find_lock)
        (record {
          made =
              AllMade-snoc w.next_cell w.next_cell _ key l (omega arith)
                (AllMade-delete w.next_cell w.locks key s.made)
                (AllMade-lookup w.next_cell w.locks key l s.made old);
          held = s.held;
          awaited = s.awaited;
          once = s.once;
        })
]

find_lock-made :
    (w : World) (key : Text) → IsSound w → (find_lock w key).0 < (find_lock w key).1.next_cell
unfolding find_lock
find_lock-made w key s = elim (Option-cases (lookup key w.locks)) [
  | inl new ↦ rw (new, find_lock) (omega arith)
  | inr (l, old) ↦ rw (old, find_lock) (AllMade-lookup w.next_cell w.locks key l s.made old)
]

-- Every turn of the event loop keeps the lock objects exclusive.
pub Turn-IsSound : {w v : World} → Turn w v → IsSound w → IsSound v
unfolding enter leave
Turn-IsSound {w} (entered task key p) s =
    lock_or_wait-IsSound (find_lock w key).1 task key (find_lock w key).0 (find_lock-made w key s)
      (find_lock-IsSound w key s)
Turn-IsSound {w} (resumed task key l rest p c) s = resume-IsSound w task key l rest p c s
Turn-IsSound {w} (left task key l p) s =
    evict_unlocked-IsSound (release task l w) (release-IsSound w task key l p s)

pub init-IsSound : (n : ℕ) → IsSound (init n)
unfolding init AllMade
init-IsSound n = record {
  made = tt;
  held = λ t k l h. absurd (cc);
  awaited = λ t k l h. absurd (cc);
  once = λ t t' k k' l h h'. absurd (cc);
}
