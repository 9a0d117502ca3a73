-- ===== src/Concurrency/MemoryLock/Race.antt =====
-- What an eviction does to a key that a task still waits for.
use gitlab_copilot_agent.Prelude.{
  false, ◌≡◌, ◌≢◌, refl, ℕ, ◌<◌, List, [], ◌∷◌, none, leb, length, Text, text_eq, nat_eq,
  text_eq_iff, ◌∙◌, ap, arith, Bool-cases, inl, inr,
}
use mathlib.Core.Path.{subst}
use gitlab_copilot_agent.Concurrency.OrderedDict.{lookup, delete, IsDict}
use gitlab_copilot_agent.Concurrency.MemoryLock.{
  Cell, idle, waiting, holding, World, release, evict_unlocked, find_lock, lock_or_wait, enter,
  resume, leave, Turn, entered, resumed, left, update, delete_all, to_evict,
}
use gitlab_copilot_agent.Concurrency.MemoryLock.Exclusion.{IsSound}

lookup-delete-none :
    (k j : Text) (d : List (Text × ℕ)) → lookup k d ≡ none → lookup k (delete j d) ≡ none
unfolding lookup delete
lookup-delete-none k j [] h = refl
lookup-delete-none k j ((i, l) ∷ d) h = ground (arith, lookup-delete-none k j d)

lookup-delete_all-none :
    (k : Text) (ks : List Text) (d : List (Text × ℕ))
    → lookup k d ≡ none
    → lookup k (delete_all ks d) ≡ none
unfolding delete_all
lookup-delete_all-none k [] d h = h
lookup-delete_all-none k (j ∷ ks) d h =
    lookup-delete_all-none k ks (delete j d) (lookup-delete-none k j d h)

to_evict_oldest :
    (cells : ℕ → Cell) (size max_size : ℕ) (key : Text) (l : ℕ) (rest : List (Text × ℕ))
    → max_size < size
    → (cells l).locked ≡ false
    → to_evict cells size max_size 0 ((key, l) ∷ rest) ≡ key ∷ to_evict cells size max_size 1 rest
unfolding to_evict
to_evict_oldest cells size max_size key l rest over free = rw free (ground arith)

delete_oldest : (key : Text) (l : ℕ) (rest : List (Text × ℕ)) → delete key ((key, l) ∷ rest) ≡ rest
unfolding delete
delete_oldest key l rest = ground (arith, text_eq_iff key key)

lookup-delete_all_oldest :
    (key : Text) (l : ℕ) (rest : List (Text × ℕ)) (ks : List Text)
    → lookup key rest ≡ none
    → lookup key (delete_all (key ∷ ks) ((key, l) ∷ rest)) ≡ none
unfolding delete_all
lookup-delete_all_oldest key l rest ks new =
    ap (λ d. lookup key (delete_all ks d)) (delete_oldest key l rest)
    ∙ lookup-delete_all-none key ks rest new

locks-evict_over :
    (w : World)
    → w.max_size < length w.locks
    → (evict_unlocked w).locks
      ≡ delete_all (to_evict w.cells (length w.locks) w.max_size 0 w.locks) w.locks
unfolding evict_unlocked
locks-evict_over w over = elim (Bool-cases (leb (length w.locks) w.max_size)) [
  | inl small ↦ absurd (ground arith)
  | inr big ↦ rw big
]

-- The oldest entry goes first, if its lock is free.
lookup-evict_oldest :
    (w : World) (key : Text) (l : ℕ) (rest : List (Text × ℕ))
    → w.locks ≡ (key, l) ∷ rest
    → lookup key rest ≡ none
    → w.max_size < length w.locks
    → (w.cells l).locked ≡ false
    → lookup key (evict_unlocked w).locks ≡ none
lookup-evict_oldest w key l rest e new over free =
    let n = length w.locks in
    ap (lookup key) (locks-evict_over w over)
    ∙ ap (λ d. lookup key (delete_all (to_evict w.cells n w.max_size 0 d) d)) e
    ∙ rw (to_evict_oldest w.cells n w.max_size key l rest over free)
        (lookup-delete_all_oldest key l rest _ new)

-- A key that is not in the table gets a lock object of its own, and at once.
enter_new :
    (w : World) (task : ℕ) (key : Text)
    → lookup key w.locks ≡ none
    → ((enter task key w).phase ≡ update w.phase task (holding key w.next_cell))
      × ((i : ℕ) → i < w.next_cell → (enter task key w).cells i ≡ w.cells i)
unfolding enter find_lock lock_or_wait
enter_new w task key new =
    (rw (new, find_lock) (ground arith), (λ i h. rw (new, find_lock) (ground arith)))

-- A full table whose oldest key is held by one task and awaited by another, and a third task that
-- has not asked yet.
pub record IsContended (w : World) (key : Text) (t t' t'' l : ℕ) (ws : List ℕ)
    (rest : List (Text × ℕ)) : Type 0 where
  pub sound : IsSound w
  pub dict : IsDict w.locks
  pub oldest : w.locks ≡ (key, l) ∷ rest
  pub over : w.max_size < length w.locks
  pub holder : w.phase t ≡ holding key l
  pub waiter : w.phase t' ≡ waiting key l
  pub queue : (w.cells l).waiters ≡ t' ∷ ws
  pub newcomer : w.phase t'' ≡ idle

module _ {w : World} {key : Text} {t t' t'' l : ℕ} {ws : List ℕ} {rest : List (Text × ℕ)}
    (c : IsContended w key t t' t'' l ws rest) where
  new_after : lookup key rest ≡ none
  unfolding IsDict
  new_after = (subst IsDict c.oldest c.dict).0

  forgotten : lookup key (leave t l w).locks ≡ none
  unfolding leave release
  forgotten =
      lookup-evict_oldest (release t l w) key l rest c.oldest new_after c.over (ground arith)

  cells-leave : (leave t l w).cells ≡ (release t l w).cells
  unfolding leave evict_unlocked
  cells-leave = ground arith

  phase-leave : (leave t l w).phase ≡ (release t l w).phase
  unfolding leave evict_unlocked
  phase-leave = ground arith

  next-leave : (leave t l w).next_cell ≡ w.next_cell
  unfolding leave evict_unlocked release
  next-leave = ground arith

  made : l < w.next_cell
  made = (c.sound.held t key l c.holder).0

  apart : t' ≢ t''
  apart e = absurd (ground (arith, c.waiter, c.newcomer))

  -- The three turns: the holder leaves, the third task enters, the waiter goes on.
  abbrev left_world : World
  left_world = leave t l w

  abbrev entered_world : World
  entered_world = enter t'' key left_world

  abbrev resumed_world : World
  resumed_world = resume t' key l ws entered_world

  phase-entered :
      entered_world.phase ≡ update left_world.phase t'' (holding key left_world.next_cell)
  phase-entered = (enter_new left_world t'' key forgotten).0

  cell-entered : entered_world.cells l ≡ record { locked = false; waiters = t' ∷ ws }
  unfolding release
  cell-entered =
      (enter_new left_world t'' key forgotten).1 l (rw next-leave made)
      ∙ ap (λ f. f l) cells-leave
      ∙ ground (arith, c.queue)

  waiter-entered : entered_world.phase t' ≡ waiting key l
  unfolding release
  waiter-entered = ground (
    arith,
    ap (λ f. f t') phase-entered,
    ap (λ f. f t') phase-leave,
    c.waiter,
    c.holder,
    c.newcomer,
  )

  newcomer-left : left_world.phase t'' ≡ idle
  unfolding release
  newcomer-left = ground (arith, ap (λ f. f t'') phase-leave, c.newcomer, c.holder)

  holders :
      (resumed_world.phase t' ≡ holding key l) × (resumed_world.phase t'' ≡ holding key w.next_cell)
  unfolding resume
  holders = ground (arith, ap (λ f. f t'') phase-entered, next-leave, apart)

  -- In a full table an eviction can drop a key that is awaited. Where a task holds the oldest key,
  -- another awaits it, and the table is over its bound, three turns are possible: the holder
  -- leaves, a third task enters, the waiter goes on. After them both hold the key, on different
  -- lock objects.
  pub evicts_awaited_lock :
      Turn w left_world
      × Turn left_world entered_world
      × Turn entered_world resumed_world
      × (resumed_world.phase t' ≡ holding key l)
      × (resumed_world.phase t'' ≡ holding key w.next_cell)
      × (t' ≢ t'')
      × (l ≢ w.next_cell)
  evicts_awaited_lock = (
    left t key l c.holder,
    entered t'' key newcomer-left,
    resumed t' key l ws waiter-entered cell-entered,
    holders.0,
    holders.1,
    apart,
    (λ e. absurd (omega (arith, made, e))),
  )
