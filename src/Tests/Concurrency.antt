-- ===== src/Tests/Concurrency.antt =====
-- Instances of the theorems on concurrency/memory.py.
use gitlab_copilot_agent.Prelude.{
  ℕ, Text, text_eq, nat_eq, codes, [], ◌∷◌, true, false, some, ◌≡◌, refl, ◌≢◌, contains, list_beq,
  length, ◌≤◌, ◌⊎◌, arith,
}
use gitlab_copilot_agent.Concurrency.OrderedDict.{lookup, delete, distinct, IsDict}
use gitlab_copilot_agent.Concurrency.MemoryDedup.{
  MemoryDedup, mark_seen, is_seen, assign, evict_if_needed,
}
use gitlab_copilot_agent.Concurrency.MemoryDedup.Bounds.{IsValid}
use gitlab_copilot_agent.Concurrency.MemoryDedup.Recency.{remembers_recent, mark_all}
use gitlab_copilot_agent.Concurrency.MemoryLock.{
  World, holding, init, enter, leave, evict_unlocked, find_lock, lock_or_wait, resume, Turn,
  entered,
}
use gitlab_copilot_agent.Concurrency.MemoryLock.Evict.{evict_unlocked_keeps, AllLocked}
use gitlab_copilot_agent.Concurrency.MemoryLock.Exclusion.{IsSound, Turn-IsSound, init-IsSound}
use gitlab_copilot_agent.Concurrency.MemoryLock.Keys.{Run, one_holder_per_key}
use gitlab_copilot_agent.Concurrency.MemoryLock.Race.{IsContended, evicts_awaited_lock}
use gitlab_copilot_agent.Prelude.{List}
use gitlab_copilot_agent.Concurrency.MemoryQueue.{new_queue}
use gitlab_copilot_agent.Concurrency.MemoryQueue.Fifo.{
  tasks_of, enqueue_all, dequeue_all, dequeues_in_order,
}

abbrev key_a : Text
key_a = codes "a"

abbrev key_b : Text
key_b = codes "b"

abbrev one_task : List (Text × Text)
one_task = (codes "t1", codes "{}") ∷ []

abbrev one : ℕ
one = 1

abbrev two : ℕ
two = 2

abbrev zero_cell : ℕ
zero_cell = 0

abbrev two_keys : MemoryDedup
two_keys = record { seen = key_a ∷ []; max_size = 4 }

two_keys-IsValid : IsValid two_keys
unfolding distinct contains list_beq
two_keys-IsValid = record { bounded = omega arith; distinct_keys = refl }

is_seen_after_mark : is_seen (mark_seen two_keys key_b) key_a ≡ true
unfolding mark_seen is_seen assign evict_if_needed contains list_beq
is_seen_after_mark = refl

not_seen_yet : is_seen two_keys key_b ≡ false
unfolding is_seen contains list_beq
not_seen_yet = refl

remembers_recent_example :
    is_seen (mark_all (mark_seen two_keys key_b) (codes "c" ∷ [])) key_b ≡ true
remembers_recent_example =
    remembers_recent two_keys key_b (codes "c" ∷ []) not_seen_yet (omega arith)

-- One task has entered a manager for at most two keys.
abbrev after_enter : World
after_enter = enter 0 key_a (init 2)

first-Turn : Turn (init 2) after_enter
unfolding init
first-Turn = entered 0 key_a refl

first_run : Run 2 after_enter
unfolding init
first_run = Run.turn Run.start (omega arith) first-Turn

holds_it : after_enter.phase 0 ≡ holding key_a 0
unfolding enter init find_lock lock_or_wait lookup
holds_it = refl

abbrev task_zero : ℕ
task_zero = 0

one_holder_example : task_zero ≡ task_zero
one_holder_example = one_holder_per_key 0 0 key_a 0 0 first_run holds_it holds_it

-- A manager for one key: task 0 holds `a`, task 1 awaits it, and task 3 holds `b`.
abbrev world_a : World
world_a = enter 0 key_a (init 1)

abbrev world_aa : World
world_aa = enter 1 key_a world_a

abbrev world_full : World
world_full = enter 3 key_b world_aa

world_full-IsSound : IsSound world_full
unfolding enter init find_lock lock_or_wait lookup delete list_beq
world_full-IsSound =
    Turn-IsSound (entered 3 key_b refl)
      (Turn-IsSound (entered 1 key_a refl) (Turn-IsSound (entered 0 key_a refl) (init-IsSound 1)))

world_full-IsContended : IsContended world_full key_a 0 1 2 0 [] ((key_b, 1) ∷ [])
unfolding enter init find_lock lock_or_wait lookup delete list_beq IsDict
world_full-IsContended = record {
  sound = world_full-IsSound;
  dict = (refl, (refl, tt));
  oldest = refl;
  over = omega arith;
  holder = refl;
  waiter = refl;
  queue = refl;
  newcomer = refl;
}

evicts_awaited_lock_example :
    Turn world_full (leave 0 0 world_full)
    × Turn (leave 0 0 world_full) (enter 2 key_a (leave 0 0 world_full))
    × Turn
        (enter 2 key_a (leave 0 0 world_full))
        (resume 1 key_a 0 [] (enter 2 key_a (leave 0 0 world_full)))
    × ((resume 1 key_a 0 [] (enter 2 key_a (leave 0 0 world_full))).phase 1 ≡ holding key_a 0)
    × ((resume 1 key_a 0 [] (enter 2 key_a (leave 0 0 world_full))).phase 2
        ≡ holding key_a world_full.next_cell)
    × (one ≢ two)
    × (zero_cell ≢ world_full.next_cell)
evicts_awaited_lock_example = evicts_awaited_lock world_full-IsContended

evict_unlocked_keeps_example :
    ((k : Text) (l : ℕ)
      → lookup k world_full.locks ≡ some l
      → (world_full.cells l).locked ≡ true
      → lookup k (evict_unlocked world_full).locks ≡ some l)
    × ((length (evict_unlocked world_full).locks ≤ world_full.max_size)
        ⊎ AllLocked world_full.cells (evict_unlocked world_full).locks)
    × (world_full.max_size ≤ length world_full.locks
        → world_full.max_size ≤ length (evict_unlocked world_full).locks)
evict_unlocked_keeps_example = evict_unlocked_keeps world_full world_full-IsContended.dict

dequeues_in_order_example :
    tasks_of (
      dequeue_all
        (length (enqueue_all one_task new_queue).messages)
        (enqueue_all one_task new_queue))
    ≡ one_task
dequeues_in_order_example = dequeues_in_order one_task new_queue
