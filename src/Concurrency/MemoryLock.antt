-- ===== src/Concurrency/MemoryLock.antt =====
-- `MemoryLock` of concurrency/memory.py: an `asyncio.Lock` per key, the unlocked ones dropped
-- oldest first. The tasks of the event loop take turns; a turn runs up to the next `await`.
pub mod Evict
pub mod Exclusion
pub mod Keys
pub mod Race
use gitlab_copilot_agent.Prelude.{
  Bool, true, false, ◌≡◌, ◌&&◌, not, ℕ, zero, suc, ◌+◌, ◌-◌, List, [], ◌∷◌, ◌++◌, Option, none,
  some, leb, if◌then◌else◌, length, Text, text_eq, nat_eq, ◌==◌,
}
use gitlab_copilot_agent.Concurrency.OrderedDict.{lookup, delete}

-- `asyncio.Lock`: its flag, and the tasks that wait for it, first come first.
pub record Cell : Type 0 where
  pub locked : Bool
  pub waiters : List ℕ

abbrev pub fresh_cell : Cell
fresh_cell = record { locked = false; waiters = [] }

-- Where a task stands with respect to `acquire(key)`; the number names the lock object.
pub data Phase : Type 0 where
  idle : Phase
  waiting : Text → ℕ → Phase
  holding : Text → ℕ → Phase

abbrev pub update {ℓ} : {A : Type ℓ} → (ℕ → A) → ℕ → A → ℕ → A
update f i v j = if i == j then v else f j

-- The manager (`_locks`, oldest first, and `_max_size`), the lock objects, and the tasks.
pub record World : Type 0 where
  pub locks : List (Text × ℕ)
  pub max_size : ℕ
  pub cells : ℕ → Cell
  pub next_cell : ℕ
  pub phase : ℕ → Phase

unfoldable pub init : ℕ → World
init max_size = record {
  locks = [];
  max_size = max_size;
  cells = λ _. fresh_cell;
  next_cell = 0;
  phase = λ _. idle;
}

-- The loop of `_evict_unlocked` over the entries, with the length of `to_evict` so far.
unfoldable pub to_evict : (ℕ → Cell) → ℕ → ℕ → ℕ → List (Text × ℕ) → List Text
to_evict cells size max_size chosen [] = []
to_evict cells size max_size chosen ((key, l) ∷ rest) =
    let skip = to_evict cells size max_size chosen rest in
    let take = key ∷ to_evict cells size max_size (suc chosen) rest in
    if leb (size - chosen) max_size then [] else if (cells l).locked then skip else take

-- `for key in to_evict: del self._locks[key]`
unfoldable pub delete_all : List Text → List (Text × ℕ) → List (Text × ℕ)
delete_all [] d = d
delete_all (key ∷ keys) d = delete_all keys (delete key d)

-- `_evict_unlocked`
unfoldable pub evict_unlocked : World → World
evict_unlocked w = if leb (length w.locks) w.max_size then w else record w {
  locks = delete_all (to_evict w.cells (length w.locks) w.max_size 0 w.locks) w.locks;
}

-- The first lines of `acquire`: the lock object of the key, made where there is none, and the key
-- moved to the end.
unfoldable pub find_lock : World → Text → ℕ × World
find_lock w key = elim (lookup key w.locks) [
  | none ↦ (
    w.next_cell,
    record w {
      locks = w.locks ++ (key, w.next_cell) ∷ [];
      cells = update w.cells w.next_cell fresh_cell;
      next_cell = suc w.next_cell;
    },
  )
  | some l ↦ (l, record w { locks = delete key w.locks ++ (key, l) ∷ [] })
]

-- `asyncio.Lock.acquire`: at once if the lock is free and nobody waits, else in the queue.
unfoldable pub lock_or_wait : ℕ → Text → ℕ → World → World
lock_or_wait task key l w =
    let cell = w.cells l in
    if not cell.locked && (length cell.waiters == 0)
    then record w {
      cells = update w.cells l (record cell { locked = true });
      phase = update w.phase task (holding key l);
    }
    else record w {
      cells = update w.cells l (record cell { waiters = cell.waiters ++ task ∷ [] });
      phase = update w.phase task (waiting key l);
    }

-- A task enters `async with locks.acquire(key)`.
unfoldable pub enter : ℕ → Text → World → World
enter task key w = let (l, w') = find_lock w key in lock_or_wait task key l w'

-- The first waiter of a free lock goes on: its future was set by `release`.
unfoldable pub resume : ℕ → Text → ℕ → List ℕ → World → World
resume task key l rest w = record w {
  cells = update w.cells l (record { locked = true; waiters = rest });
  phase = update w.phase task (holding key l);
}

-- `asyncio.Lock.release`: the lock is free, and the first waiter's future is set.
unfoldable pub release : ℕ → ℕ → World → World
release task l w = record w {
  cells = update w.cells l (record (w.cells l) { locked = false });
  phase = update w.phase task idle;
}

-- A task leaves the block: in the turn of the release runs `_evict_unlocked`.
unfoldable pub leave : ℕ → ℕ → World → World
leave task l w = evict_unlocked (release task l w)

-- One turn of the event loop.
pub data Turn (w : World) : World → Type 0 where
  entered : (task : ℕ) (key : Text) → w.phase task ≡ idle → Turn w (enter task key w)
  resumed :
      (task : ℕ) (key : Text) (l : ℕ) (rest : List ℕ)
      → w.phase task ≡ waiting key l
      → w.cells l ≡ record { locked = false; waiters = task ∷ rest }
      → Turn w (resume task key l rest w)
  left : (task : ℕ) (key : Text) (l : ℕ) → w.phase task ≡ holding key l → Turn w (leave task l w)

-- The states that turns lead to.
pub data Reach (n : ℕ) : World → Type 0 where
  start : Reach n (init n)
  turn : {w v : World} → Reach n w → Turn w v → Reach n v
