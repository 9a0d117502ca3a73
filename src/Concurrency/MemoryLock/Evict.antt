-- ===== src/Concurrency/MemoryLock/Evict.antt =====
-- What `_evict_unlocked` keeps.
use gitlab_copilot_agent.Prelude.{
  true, false, ◌≡◌, refl, ℕ, suc, ◌+◌, ◌-◌, ◌<◌, ◌≤◌, List, [], ◌∷◌, none, some, leb, if◌then◌else◌,
  length, Text, text_eq, text_eq_iff, arith, Bool-cases, inl, inr, contains, ◌⊎◌,
}
use gitlab_copilot_agent.Concurrency.OrderedDict.{lookup, delete, IsDict}
use gitlab_copilot_agent.Concurrency.MemoryLock.{Cell, World, evict_unlocked, to_evict, delete_all}

-- The lock of every entry is taken.
pub AllLocked : (ℕ → Cell) → List (Text × ℕ) → Type 0
AllLocked cells [] = Unit
AllLocked cells ((k, l) ∷ d) = ((cells l).locked ≡ true) × AllLocked cells d

module _ (cells : ℕ → Cell) (size max_size : ℕ) where
  -- The entries that an eviction leaves, in one pass.
  kept : ℕ → List (Text × ℕ) → List (Text × ℕ)
  kept chosen [] = []
  kept chosen ((key, l) ∷ rest) =
      let keep = (key, l) ∷ kept chosen rest in
      let skip = kept (suc chosen) rest in
      if leb (size - chosen) max_size
      then (key, l) ∷ rest
      else if (cells l).locked
      then keep
      else skip

  to_evict-absent :
      (n : ℕ) (d : List (Text × ℕ)) (k : Text)
      → lookup k d ≡ none
      → contains (to_evict cells size max_size n d) k ≡ false
  unfolding to_evict lookup contains
  to_evict-absent n [] k h = refl
  to_evict-absent n ((j, l) ∷ d) k h =
      ground (
        arith,
        text_eq_iff j k,
        text_eq_iff k j,
        to_evict-absent n d k,
        to_evict-absent (suc n) d k,
      )

  delete_all-keeps :
      (ks : List Text) (k : Text) (l : ℕ) (d : List (Text × ℕ))
      → contains ks k ≡ false
      → delete_all ks ((k, l) ∷ d) ≡ (k, l) ∷ delete_all ks d
  unfolding delete_all delete contains
  delete_all-keeps [] k l d h = refl
  delete_all-keeps (j ∷ ks) k l d h =
      ground (arith, text_eq_iff k j, text_eq_iff j k, delete_all-keeps ks k l (delete j d))

  delete_all-nil : (d : List (Text × ℕ)) → delete_all [] d ≡ d
  unfolding delete_all
  delete_all-nil d = refl

  delete_all-head :
      (ks : List Text) (k : Text) (l : ℕ) (d : List (Text × ℕ))
      → delete_all (k ∷ ks) ((k, l) ∷ d) ≡ delete_all ks d
  unfolding delete_all delete
  delete_all-head ks k l d = ground (arith, text_eq_iff k k)

  delete_all-to_evict :
      (n : ℕ) (d : List (Text × ℕ))
      → IsDict d
      → delete_all (to_evict cells size max_size n d) d ≡ kept n d
  unfolding to_evict kept IsDict
  delete_all-to_evict n [] h = delete_all-nil []
  delete_all-to_evict n ((k, l) ∷ d) h = ground (
    arith,
    delete_all-nil ((k, l) ∷ d),
    delete_all-head (to_evict cells size max_size (suc n) d) k l d,
    delete_all-keeps (to_evict cells size max_size n d) k l d (to_evict-absent n d k h.0),
    delete_all-to_evict n d h.1,
    delete_all-to_evict (suc n) d h.1,
  )

  lookup-kept :
      (n : ℕ) (d : List (Text × ℕ)) (k : Text) (l : ℕ)
      → lookup k d ≡ some l
      → (cells l).locked ≡ true
      → lookup k (kept n d) ≡ some l
  unfolding lookup kept
  lookup-kept n [] k l h taken = h
  lookup-kept n ((j, i) ∷ d) k l h taken =
      ground (arith, lookup-kept n d k l, lookup-kept (suc n) d k l)

  -- `n` entries before these were chosen, and `size - n` are left with these at the end.
  kept_bound :
      (n before : ℕ) (d : List (Text × ℕ))
      → before + length d + n ≡ size
      → (before + length (kept n d) ≤ max_size) ⊎ AllLocked cells (kept n d)
  unfolding kept AllLocked
  kept_bound n before [] h = inr tt
  kept_bound n before ((k, l) ∷ d) h = elim (Bool-cases (leb (size - n) max_size)) [
    | inl small ↦ rw small (inl (ground arith))
    | inr big ↦ elim (Bool-cases (cells l).locked) [
      | inl taken ↦
          rw (big, taken)
            (elim (kept_bound n (suc before) d (omega arith)) [
              | inl fits ↦ inl (omega arith)
              | inr all ↦ inr (taken, all)
            ])
      | inr free ↦ rw (big, free) (kept_bound (suc n) before d (omega arith))
    ]
  ]

  kept_no_more :
      (n before : ℕ) (d : List (Text × ℕ))
      → before + length d + n ≡ size
      → max_size ≤ before + length d
      → max_size ≤ before + length (kept n d)
  unfolding kept
  kept_no_more n before [] h m = m
  kept_no_more n before ((k, l) ∷ d) h m =
      ground (arith, kept_no_more n (suc before) d, kept_no_more (suc n) before d)

le_or_lt : (m n : ℕ) → (m ≤ n) ⊎ (n < m)
le_or_lt m n = omega arith

locks-evict :
    (w : World)
    → IsDict w.locks
    → w.max_size < length w.locks
    → (evict_unlocked w).locks ≡ kept w.cells (length w.locks) w.max_size 0 w.locks
unfolding evict_unlocked
locks-evict w d over = elim (Bool-cases (leb (length w.locks) w.max_size)) [
  | inl small ↦ absurd (ground arith)
  | inr big ↦ rw big (delete_all-to_evict w.cells (length w.locks) w.max_size 0 w.locks d)
]

evict_of_fits : (w : World) → length w.locks ≤ w.max_size → evict_unlocked w ≡ w
unfolding evict_unlocked
evict_of_fits w h = ground arith

-- An eviction drops no key whose lock is taken; it leaves at most `max_size` keys, or only keys
-- whose locks are taken; and it never goes below `max_size`.
pub evict_unlocked_keeps :
    (w : World)
    → IsDict w.locks
    → ((k : Text) (l : ℕ)
        → lookup k w.locks ≡ some l
        → (w.cells l).locked ≡ true
        → lookup k (evict_unlocked w).locks ≡ some l)
      × ((length (evict_unlocked w).locks ≤ w.max_size)
          ⊎ AllLocked w.cells (evict_unlocked w).locks)
      × (w.max_size ≤ length w.locks → w.max_size ≤ length (evict_unlocked w).locks)
evict_unlocked_keeps w d = elim (le_or_lt (length w.locks) w.max_size) [
  | inl fits ↦ rw (evict_of_fits w fits) ((λ k l h t. h), inl fits, (λ m. m))
  | inr over ↦ rw (locks-evict w d over) (
    lookup-kept w.cells (length w.locks) w.max_size 0 w.locks,
    elim (kept_bound w.cells (length w.locks) w.max_size 0 0 w.locks (omega arith)) [
      | inl fits ↦ inl (omega arith)
      | inr all ↦ inr all
    ],
    (λ m. omega (
      arith,
      kept_no_more w.cells (length w.locks) w.max_size 0 0 w.locks (omega arith) (omega arith),
    )),
  )
]
