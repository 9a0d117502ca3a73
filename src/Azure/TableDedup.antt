-- ===== src/Azure/TableDedup.antt =====
-- `TableDedup` of azure_storage.py: a deduplication store on Azure Table Storage. The table is given. Times are
-- microseconds, as Python's `datetime` keeps them.
mod Keys
pub mod Lawful
use gitlab_copilot_agent.Prelude.{
  ℕ, ◌+◌, ◌*◌, Text, text_eq, nat_eq, codes, occurs, List, [], ◌∷◌, ◌++◌, Bool, true, false, not,
  ◌||◌, ◌&&◌, Option, none, some, ◌==◌, ltb, if◌then◌else◌, ◌≡◌, refl, ap, ◌≢◌, inl, inr,
  Bool-cases, ◌⊎◌, arith,
}
use gitlab_copilot_agent.Effects.{Result, ok, raised, Exn, Py, pure, gets, try_except, ◌>>=◌, ◌>>◌}
use gitlab_copilot_agent.Concurrency.Protocols.{DeduplicationStore}

-- What the code reads of an entity: `ttl_seconds`, where it is a number, and the time stamp, where it is one.
pub record Entity : Type 0 where
  pub ttl_seconds : Option ℕ
  pub timestamp : Option ℕ

pub record Table (S : Type 0) : Type 0 where
  pub get_entity : Text → Text → Py S Entity
  pub upsert_entity : Text → Text → ℕ → Py S (Unit {0})
  pub close : Py S (Unit {0})
  pub now : S → ℕ

-- `":" in key`, with the parts before and after the first one
unfoldable pub split_colon : Text → Option (Text × Text)
split_colon [] = none
split_colon (c ∷ s) =
    let rest = split_colon s in
    if c == 58 then some ([], s) else elim rest [ none ↦ none | some (pk, rk) ↦ some (c ∷ pk, rk) ]

default_or : Text → Option (Text × Text) → Text × Text
default_or key none = (codes "default", key)
default_or key (some parts) = parts

-- `_split_dedup_key`
unfoldable pub split_dedup_key : Text → Text × Text
unfolding default_or
split_dedup_key key = default_or key (split_colon key)

unfoldable pub says_not_found : Text → Bool
says_not_found exc_str =
    occurs (codes "ResourceNotFound") exc_str || occurs (codes "Not Found") exc_str

unfoldable pub says_forbidden : Text → Bool
says_forbidden exc_str =
    occurs (codes "Authorization") exc_str
    || (occurs (codes "Forbidden") exc_str || occurs (codes "Permission") exc_str)

-- The `except` clause of `is_seen`.
unfoldable pub seen_on_error : Exn → Bool
seen_on_error exc =
    if says_not_found exc.message then false else if says_forbidden exc.message then true else false

ttl_or : Option ℕ → ℕ
ttl_or none = 3600
ttl_or (some ttl) = ttl

live_at : ℕ → ℕ → Option ℕ → Bool
live_at now ttl none = true
live_at now ttl (some ts) = not (ltb (ts + ttl * 1000000) now)

-- `age <= ttl`, or no age is known
unfoldable pub is_live : ℕ → Entity → Bool
unfolding ttl_or live_at
is_live now entity = live_at now (ttl_or entity.ttl_seconds) entity.timestamp

module _ {S : Type 0} (table : Table S) where
  -- The entity, or what its absence or an error means.
  unfoldable pub look_up : Text × Text → Py S (Entity ⊎ Bool)
  look_up (pk, rk) =
      try_except (table.get_entity pk rk >>= λ entity. pure (inl entity))
        (λ exc. pure (inr (seen_on_error exc)))

  unfoldable pub judge : Entity ⊎ Bool → Py S Bool
  judge (inl entity) = gets (λ s. is_live (table.now s) entity)
  judge (inr seen) = pure seen

  unfoldable pub is_seen : Text → Py S Bool
  is_seen key = look_up (split_dedup_key key) >>= judge

  unfoldable pub upsert : Text × Text → ℕ → Py S (Unit {0})
  upsert (pk, rk) ttl_seconds = table.upsert_entity pk rk ttl_seconds

  unfoldable pub mark_seen : Text → ℕ → Py S (Unit {0})
  mark_seen key ttl_seconds = try_except (upsert (split_dedup_key key) ttl_seconds) (λ _. pure tt)

  unfoldable pub close_table : Py S (Unit {0})
  close_table = try_except table.close (λ _. pure tt)

  -- `TableDedup` as a `DeduplicationStore`
  unfoldable pub table_dedup : DeduplicationStore S
  table_dedup = record { is_seen = is_seen; mark_seen = mark_seen; aclose = close_table }
