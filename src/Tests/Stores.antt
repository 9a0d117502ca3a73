-- ===== src/Tests/Stores.antt =====
-- Instances of the theorems on azure_storage.py and credential_registry.py.
use gitlab_copilot_agent.Prelude.{
  ℕ, suc, ◌+◌, ◌≤◌, nat_eq, pair_eq, Text, text_eq, codes, list_beq, List, [], ◌∷◌, ◌++◌, Option,
  none, some, true, ◌==◌, if◌then◌else◌, ◌≡◌, ◌≢◌, refl, sym, ◌⊎◌, inl, inr, arith, eq_self,
  Bool-cases,
}
use gitlab_copilot_agent.Effects.{Result, ok, raised, Exn, value_error, not_found_error}
use gitlab_copilot_agent.Concurrency.OrderedDict.{lookup, insert, lookup-insert}
use gitlab_copilot_agent.Discussions.{AgentIdentity}
use gitlab_copilot_agent.Azure.{Azure, enqueue}
use gitlab_copilot_agent.Azure.Poison.{deliveries, was_deleted, delivered}
use gitlab_copilot_agent.Azure.Compensates.{Enqueued, enqueue-Enqueued}
use gitlab_copilot_agent.Azure.TableDedup.{Entity, Table, split_colon, is_seen, mark_seen}
use gitlab_copilot_agent.Azure.TableDedup.Lawful.{IsTable, table_dedup_lem}
use gitlab_copilot_agent.Credentials.{
  Tokens, token_or, resolve, Stamped, Identities, Session, checked, get_cached_identity, remember,
  with_lock, fetch_identity, cached_or, check_again, resolve_identity,
}
use gitlab_copilot_agent.Credentials.Cache.{resolve_identity-cached}

abbrev bad_json : Exn
bad_json = record { kind = value_error; message = codes "Expecting value" }

-- One message, whose content is no JSON, handed out until it is deleted.
abbrev azure : Azure
azure = record {
  upload = λ log. ok tt;
  download = λ log name. ok [];
  delete_blob = λ log. ok tt;
  send_message = λ log. raised bad_json;
  receive_message = λ log.
      if was_deleted (codes "m") (codes "r") log
      then ok none
      else ok (some (delivered (codes "m") (codes "r") (codes "?") (suc (deliveries log))));
  delete_message = λ log. ok tt;
  close = λ log. ok tt;
  dump_reference = λ task_id name. task_id ++ name;
  load_reference = λ content. raised bad_json;
  decode = λ bytes. ok bytes;
}

enqueue-Enqueued_example :
    Enqueued azure (codes "t") (codes "{}") [] (enqueue azure (codes "t") (codes "{}") [])
enqueue-Enqueued_example = enqueue-Enqueued azure (codes "t") (codes "{}") []

-- A table in memory, with a clock that stands still.
abbrev Rows : Type 0
Rows = List ((Text × Text) × Entity)

abbrev not_found : Exn
not_found = record { kind = not_found_error; message = codes "ResourceNotFound" }

row_or : Option Entity → Result Entity
row_or none = raised not_found
row_or (some entity) = ok entity

abbrev memory_table : Table Rows
memory_table = record {
  get_entity = λ pk rk rows. (row_or (lookup (pk, rk) rows), rows);
  upsert_entity = λ pk rk ttl rows.
      (ok tt, insert (pk, rk) (record { ttl_seconds = some ttl; timestamp = some 0 }) rows);
  close = λ rows. (ok tt, rows);
  now = λ rows. 0;
}

row_apart :
    (p q : Text × Text) (entity : Entity) (rows : Rows)
    → p ≢ q
    → row_or (lookup p (insert q entity rows)) ≡ row_or (lookup p rows)
row_apart p q entity rows apart = elim (Bool-cases (q == p)) [
  | inl same ↦ absurd (apart (sym ((pair_eq.beq_iff q p).0 same)))
  | inr other ↦ rw (lookup-insert q p entity rows, other) refl
]

memory_table-IsTable : IsTable memory_table (λ rows. Unit {0})
unfolding row_or
memory_table-IsTable = record {
  writes = λ pk rk ttl rows good. refl;
  keeps_good = λ pk rk ttl rows good. tt;
  reads_back = λ pk rk ttl rows good. (
    0,
    rw (lookup-insert (pk, rk) (pk, rk) _ rows, eq_self {A = Text × Text} (pk, rk)) refl,
    omega arith,
  );
  isolated = λ p q ttl rows apart. row_apart p q _ rows apart;
  later = λ p q ttl rows. omega arith;
}

table_dedup_lem_example :
    ((is_seen memory_table (codes "note:1") (mark_seen memory_table (codes "note:1") 60 []).1).0
      ≡ ok true)
    × ((j : Text)
        → split_colon j ≢ none
        → split_colon (codes "note:1") ≢ none
        → (is_seen memory_table j (mark_seen memory_table (codes "note:1") 60 []).1).0 ≡ ok true
        → (j ≡ codes "note:1") ⊎ ((is_seen memory_table j []).0 ≡ ok true))
table_dedup_lem_example =
    table_dedup_lem memory_table memory_table-IsTable (codes "note:1") 60 [] tt

abbrev agent : AgentIdentity
agent = record { user_id = 1; username = codes "agent" }

-- A session whose world is the time, in which a fetch takes a second.
abbrev session : Session ℕ
session = record {
  fetch = λ url token s. (ok agent, record s { world = suc s.world });
  acquire = λ s. (ok tt, s);
  release = λ s. (ok tt, s);
  now = λ time. time;
}

abbrev tokens : Tokens
tokens = (codes "default", codes "t") ∷ []

abbrev empty_cache : Identities ℕ
empty_cache = record { identities = []; world = 5 }

abbrev full_cache : Identities ℕ
full_cache = record {
  identities = (codes "default", record { identity = agent; cached_at = 6 }) ∷ [];
  world = 6;
}

first_call :
    resolve_identity (λ s. s) session 3600 tokens (codes "default") (codes "u") empty_cache
    ≡ (ok agent, full_cache)
unfolding resolve_identity get_cached_identity checked cached_or with_lock check_again
    fetch_identity remember resolve token_or lookup insert list_beq
first_call = refl

resolve_identity-cached_example :
    (entry : Stamped) × (6 ≤ entry.cached_at + 3600)
    × ((ref' url' : Text) (w : ℕ)
        → ref' ≡ codes "default"
        → w ≤ entry.cached_at + 3600
        → resolve_identity (λ s. s) session 3600 tokens ref' url' (record full_cache { world = w })
          ≡ (ok agent, record full_cache { world = w }))
resolve_identity-cached_example =
    resolve_identity-cached (λ s. s) session 3600 tokens (λ s. refl) (codes "default") (codes "u")
      agent empty_cache full_cache first_call
