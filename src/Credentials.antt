-- ===== src/Credentials.antt =====
-- credential_registry.py: the tokens by alias, and the identities behind them, kept for a time. `str.lower`, the API,
-- the lock and the clock are given; times are in the clock's unit.
pub mod Tokens
pub mod Cache
use gitlab_copilot_agent.Prelude.{
  ℕ, ◌+◌, Text, text_eq, codes, join, sorted_texts, List, [], ◌∷◌, ◌++◌, Bool, true, false, Option,
  none, some, ltb, if◌then◌else◌, drop, length, starts,
}
use gitlab_copilot_agent.Effects.{
  Result, ok, raised, Exn, key_error, value_error, Py, pure, raise, lift, gets, modify, ◌>>=◌, ◌>>◌,
}
use gitlab_copilot_agent.Concurrency.OrderedDict.{lookup, insert, delete, keys}
use gitlab_copilot_agent.Discussions.{AgentIdentity}

abbrev pub Tokens : Type 0
Tokens = List (Text × Text)

unfoldable pub token_or : Exn → Option Text → Result Text
token_or e none = raised e
token_or e (some token) = ok token

non_empty : Text → Option Text
non_empty [] = none
non_empty (c ∷ s) = some (c ∷ s)

-- The alias of a variable: what follows the prefix, if something does.
alias_of : Text → Option Text
unfolding non_empty
alias_of key =
    if starts (codes "GITLAB_TOKEN__") key
    then non_empty (drop (length (codes "GITLAB_TOKEN__")) key)
    else none

add_variable : (Text → Text) → Option Text → Option Text → Tokens → Tokens
add_variable lower (some alias) (some value) named = insert (lower alias) value named
add_variable lower none value named = named
add_variable lower (some alias) none named = named

module _ (lower : Text → Text) where
  -- The loop of `__init__`.
  unfoldable pub add_named : Tokens → Tokens → Tokens
  add_named [] tokens = tokens
  add_named ((alias, token) ∷ named) tokens = add_named named (insert (lower alias) token tokens)

  -- `_tokens` after `__init__`
  unfoldable pub new_tokens : Text → Tokens → Tokens
  new_tokens default_token named = add_named named ((codes "default", default_token) ∷ [])

  unfoldable pub unknown_ref : Tokens → Text → Exn
  unknown_ref tokens credential_ref = record {
    kind = key_error;
    message =
        codes "Unknown credential_ref '"
        ++ (credential_ref
            ++ (codes "'. Available: " ++ join (codes ", ") (sorted_texts (keys tokens))));
  }

  unfoldable pub resolve : Tokens → Text → Result Text
  resolve tokens credential_ref =
      token_or (unknown_ref tokens credential_ref) (lookup (lower credential_ref) tokens)

  -- The named tokens of the environment: the variables with a value whose name has the prefix and more.
  unfoldable pub named_tokens : List (Text × Text) → Tokens → Tokens
  unfolding non_empty alias_of add_variable
  named_tokens [] named = named
  named_tokens ((key, value) ∷ environ) named =
      named_tokens environ (add_variable lower (alias_of key) (non_empty value) named)

  load_tokens : List (Text × Text) → Option Text → Result Tokens
  load_tokens environ none =
      raised (record { kind = value_error; message = codes "GITLAB_TOKEN is required" })
  load_tokens environ (some default_token) = ok (new_tokens default_token (named_tokens environ []))

  -- `from_env`; the first argument is the variable GITLAB_TOKEN, empty where it is missing.
  unfoldable pub from_env : Text → List (Text × Text) → Result Tokens
  unfolding load_tokens non_empty
  from_env gitlab_token environ = load_tokens environ (non_empty gitlab_token)

-- An identity, and when it was fetched.
pub record Stamped : Type 0 where
  pub identity : AgentIdentity
  pub cached_at : ℕ

-- The identities by alias, and the rest of the world.
pub record Identities (W : Type 0) : Type 0 where
  pub identities : List (Text × Stamped)
  pub world : W

-- What is awaited may let other coroutines change the cache.
pub record Session (W : Type 0) : Type 0 where
  pub fetch : Text → Text → Py (Identities W) AgentIdentity
  pub acquire : Py (Identities W) (Unit {0})
  pub release : Py (Identities W) (Unit {0})
  pub now : W → ℕ

module _ {W : Type 0} (session : Session W) (ttl : ℕ) where
  -- An entry that has expired is dropped.
  unfoldable pub checked : Text → Option Stamped → Py (Identities W) (Option AgentIdentity)
  checked ref none s = (ok none, s)
  checked ref (some entry) s =
      if ltb (entry.cached_at + ttl) (session.now s.world)
      then (ok none, record s { identities = delete ref s.identities })
      else (ok (some entry.identity), s)

  -- `_get_cached_identity`
  unfoldable pub get_cached_identity : Text → Py (Identities W) (Option AgentIdentity)
  get_cached_identity ref s = checked ref (lookup ref s.identities) s

  unfoldable pub remember : Text → AgentIdentity → Py (Identities W) (Unit {0})
  remember ref identity = modify (λ s. record s {
    identities =
        insert ref (record { identity = identity; cached_at = session.now s.world }) s.identities;
  })

module _ {S A : Type 0} where
  release_after : Py S (Unit {0}) → Result A × S → Result A × S
  release_after release (ok a, s) = (release >> pure a) s
  release_after release (raised e, s) = (release >> raise e) s

  -- `async with lock: m`
  unfoldable pub with_lock : Py S (Unit {0}) → Py S (Unit {0}) → Py S A → Py S A
  unfolding release_after
  with_lock acquire release m = acquire >> λ s. release_after release (m s)

module _ {W : Type 0} where
  unfoldable pub cached_or :
      Py (Identities W) AgentIdentity → Option AgentIdentity → Py (Identities W) AgentIdentity
  cached_or m none = m
  cached_or m (some identity) = pure identity

module _ {W : Type 0} (lower : Text → Text) (session : Session W) (ttl : ℕ) (tokens : Tokens) where
  unfoldable pub fetch_identity : Text → Text → Py (Identities W) AgentIdentity
  fetch_identity credential_ref gitlab_url = do
    token ← lift (resolve lower tokens credential_ref)
    identity ← session.fetch gitlab_url token
    remember session ttl (lower credential_ref) identity
    pure identity

  -- The body under the lock.
  unfoldable pub check_again : Text → Text → Py (Identities W) AgentIdentity
  check_again credential_ref gitlab_url =
      get_cached_identity session ttl (lower credential_ref)
      >>= cached_or (fetch_identity credential_ref gitlab_url)

  unfoldable pub resolve_identity : Text → Text → Py (Identities W) AgentIdentity
  resolve_identity credential_ref gitlab_url =
      get_cached_identity session ttl (lower credential_ref)
      >>= cached_or
          (with_lock session.acquire session.release (check_again credential_ref gitlab_url))
