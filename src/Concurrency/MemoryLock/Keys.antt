-- ===== src/Concurrency/MemoryLock/Keys.antt =====
-- One task at a time holds a key, while the table is within its bound.
use gitlab_copilot_agent.Prelude.{
  ◌≡◌, ◌&&◌, not, ℕ, ◌≤◌, List, [], ◌∷◌, ◌++◌, none, some, leb, length, Text, text_eq, nat_eq,
  text_eq_iff, ◌==◌, arith, Option-cases, Bool-cases, inl, inr, ◌∙◌,
}
use gitlab_copilot_agent.Concurrency.OrderedDict.{
  lookup, delete, IsDict, lookup-append, lookup-delete, delete-IsDict, snoc-IsDict,
}
use gitlab_copilot_agent.Concurrency.MemoryLock.{
  waiting, holding, World, init, release, evict_unlocked, find_lock, lock_or_wait, enter, resume,
  leave, Turn, entered, resumed, left,
}
use gitlab_copilot_agent.Concurrency.MemoryLock.Exclusion.{IsSound, Turn-IsSound, init-IsSound}

-- The table is a dictionary, and whoever holds or awaits a key has the lock object of the table.
pub record IsKeyed (w : World) : Type 0 where
  pub dict : IsDict w.locks
  pub held : (t : ℕ) (k : Text) (l : ℕ) → w.phase t ≡ holding k l → lookup k w.locks ≡ some l
  pub awaited : (t : ℕ) (k : Text) (l : ℕ) → w.phase t ≡ waiting k l → lookup k w.locks ≡ some l

lookup_move_to_end :
    (key k : Text) (l : ℕ) (d : List (Text × ℕ))
    → IsDict d
    → lookup key d ≡ some l
    → lookup k (delete key d ++ (key, l) ∷ []) ≡ lookup k d
lookup_move_to_end key k l d h old =
    rw (lookup-append k (delete key d) ((key, l) ∷ []), lookup-delete key k d h)
      (unfold lookup in ground (arith, text_eq_iff key k))

lookup_add :
    (key k : Text) (l i : ℕ) (d : List (Text × ℕ))
    → lookup key d ≡ none
    → lookup k d ≡ some i
    → lookup k (d ++ (key, l) ∷ []) ≡ some i
lookup_add key k l i d new old = rw (lookup-append k d ((key, l) ∷ []), old)

find_lock-IsKeyed : (w : World) (key : Text) → IsKeyed w → IsKeyed (find_lock w key).1
unfolding find_lock
find_lock-IsKeyed w key s = elim (Option-cases (lookup key w.locks)) [
  | inl new ↦
      rw (new, find_lock)
        (record {
          dict = snoc-IsDict key w.next_cell w.locks s.dict new;
          held = λ t k l h. lookup_add key k w.next_cell l w.locks new (s.held t k l h);
          awaited = λ t k l h. lookup_add key k w.next_cell l w.locks new (s.awaited t k l h);
        })
  | inr (i, old) ↦
      rw (old, find_lock)
        (record {
          dict =
              snoc-IsDict key i (delete key w.locks) (delete-IsDict key w.locks s.dict)
                (rw (lookup-delete key key w.locks s.dict) (ground (arith, text_eq_iff key key)));
          held = λ t k l h. rw (lookup_move_to_end key k i w.locks s.dict old) (s.held t k l h);
          awaited =
              λ t k l h. rw (lookup_move_to_end key k i w.locks s.dict old) (s.awaited t k l h);
        })
]

find_lock-lookup :
    (w : World) (key : Text)
    → IsKeyed w
    → lookup key (find_lock w key).1.locks ≡ some (find_lock w key).0
unfolding find_lock
find_lock-lookup w key s = elim (Option-cases (lookup key w.locks)) [
  | inl new ↦
      rw (new, find_lock, lookup-append key w.locks ((key, w.next_cell) ∷ []), new)
        (unfold lookup in ground (arith, text_eq_iff key key))
  | inr (i, old) ↦ rw (old, find_lock) (lookup_move_to_end key key i w.locks s.dict old ∙ old)
]

lock_or_wait-IsKeyed :
    (w : World) (task : ℕ) (key : Text) (l : ℕ)
    → lookup key w.locks ≡ some l
    → IsKeyed w
    → IsKeyed (lock_or_wait task key l w)
unfolding lock_or_wait
lock_or_wait-IsKeyed w task key l m s = record {
  dict = elim (Bool-cases (not (w.cells l).locked && (length (w.cells l).waiters == 0))) [
    | inl e ↦ rw e s.dict
    | inr e ↦ rw e s.dict
  ];
  held = λ t k i h. ground (arith, s.held t k i);
  awaited = λ t k i h. ground (arith, s.awaited t k i);
}

resume-IsKeyed :
    (w : World) (task : ℕ) (key : Text) (l : ℕ) (rest : List ℕ)
    → w.phase task ≡ waiting key l
    → IsKeyed w
    → IsKeyed (resume task key l rest w)
unfolding resume
resume-IsKeyed w task key l rest p s = record {
  dict = s.dict;
  held = λ t k i h. ground (arith, s.held t k i, s.awaited task key l);
  awaited = λ t k i h. ground (arith, s.awaited t k i);
}

leave-IsKeyed :
    (w : World) (task l : ℕ) → length w.locks ≤ w.max_size → IsKeyed w → IsKeyed (leave task l w)
unfolding leave release evict_unlocked
leave-IsKeyed w task l fits s = elim (Bool-cases (leb (length w.locks) w.max_size)) [
  | inl e ↦ rw e (record {
    dict = s.dict;
    held = λ t k i h. ground (arith, s.held t k i);
    awaited = λ t k i h. ground (arith, s.awaited t k i);
  })
  | inr e ↦ absurd (ground arith)
]

-- A turn that starts within the bound keeps the lock objects of the table.
Turn-IsKeyed : {w v : World} → Turn w v → length w.locks ≤ w.max_size → IsKeyed w → IsKeyed v
unfolding enter
Turn-IsKeyed {w} (entered task key p) fits s =
    lock_or_wait-IsKeyed (find_lock w key).1 task key (find_lock w key).0 (find_lock-lookup w key s)
      (find_lock-IsKeyed w key s)
Turn-IsKeyed {w} (resumed task key l rest p c) fits s = resume-IsKeyed w task key l rest p s
Turn-IsKeyed {w} (left task key l p) fits s = leave-IsKeyed w task l fits s

-- Runs on which every turn starts with at most `max_size` keys in the table.
pub data Run (n : ℕ) : World → Type 0 where
  start : Run n (init n)
  turn : {w v : World} → Run n w → length w.locks ≤ w.max_size → Turn w v → Run n v

Run-IsSound : {n : ℕ} {w : World} → Run n w → IsSound w
Run-IsSound {n} start = init-IsSound n
Run-IsSound (turn r fits t) = Turn-IsSound t (Run-IsSound r)

Run-IsKeyed : {n : ℕ} {w : World} → Run n w → IsKeyed w
unfolding init IsDict
Run-IsKeyed start = record {
  dict = tt;
  held = λ t k l h. absurd (cc);
  awaited = λ t k l h. absurd (cc);
}
Run-IsKeyed (turn r fits t) = Turn-IsKeyed t fits (Run-IsKeyed r)

-- While no turn finds more than `max_size` keys in the table, two tasks that hold one key are one
-- task: `acquire` serialises the operations on a key.
pub one_holder_per_key :
    {n : ℕ} {w : World} (t t' : ℕ) (key : Text) (l l' : ℕ)
    → Run n w
    → w.phase t ≡ holding key l
    → w.phase t' ≡ holding key l'
    → t ≡ t'
one_holder_per_key t t' key l l' r h h' =
    let k = Run-IsKeyed r in
    let same : l ≡ l' = ground (arith, k.held t key l h, k.held t' key l' h') in
    (Run-IsSound r).once t t' key key l h (rw same h')
