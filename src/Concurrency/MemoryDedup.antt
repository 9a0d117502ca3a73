-- ===== src/Concurrency/MemoryDedup.antt =====
-- `MemoryDedup` of concurrency/memory.py: the keys that were seen, bounded by dropping the oldest.
pub mod Bounds
pub mod Recency
use gitlab_copilot_agent.Prelude.{
  Bool, ℕ, ◌-◌, ◌/◌, ◌<◌, List, [], ◌∷◌, ◌++◌, leb, if◌then◌else◌, length, drop, contains, Text,
  text_eq,
}
use gitlab_copilot_agent.Effects.{Result, ok, Py, pure, gets, modify}
use gitlab_copilot_agent.Concurrency.Protocols.{DeduplicationStore}

abbrev pub default_max_processed : ℕ
default_max_processed = 10000

-- The values of `_seen` are all `None`, so its keys are kept, oldest first.
pub record MemoryDedup : Type 0 where
  pub seen : List Text
  pub max_size : ℕ

-- `MemoryDedup(max_size)`
unfoldable pub new : ℕ → MemoryDedup
new max_size = record { seen = []; max_size = max_size }

-- `popitem(last=False)`, `n` times
abbrev pop_first : ℕ → List Text → List Text
pop_first = drop

unfoldable pub evict_if_needed : MemoryDedup → MemoryDedup
evict_if_needed d =
    if leb (length d.seen) d.max_size
    then d
    else record d { seen = pop_first (length d.seen - d.max_size / 2) d.seen }

-- `self._seen[key] = None`: a key that is there keeps its place.
unfoldable pub assign : Text → MemoryDedup → MemoryDedup
assign key d = if contains d.seen key then d else record d { seen = d.seen ++ key ∷ [] }

unfoldable pub is_seen : MemoryDedup → Text → Bool
is_seen d key = contains d.seen key

unfoldable pub mark_seen : MemoryDedup → Text → MemoryDedup
mark_seen d key = evict_if_needed (assign key d)

-- The class as a `DeduplicationStore`. It ignores `ttl_seconds`, and `aclose` does nothing.
unfoldable pub memory_dedup : DeduplicationStore MemoryDedup
memory_dedup = record {
  is_seen = λ key. gets (λ d. is_seen d key);
  mark_seen = λ key ttl_seconds. modify (λ d. mark_seen d key);
  aclose = pure tt;
}
