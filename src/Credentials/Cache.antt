-- ===== src/Credentials/Cache.antt =====
-- An identity that was resolved is kept until its time is over.
use gitlab_copilot_agent.Prelude.{
  ℕ, ◌+◌, ◌≤◌, Text, text_eq, some, false, ltb, ◌≡◌, refl, inl, inr, Bool-cases, Option-cases,
  eq_self, arith, ◌∙◌, ap,
}
use mathlib.Core.Path.{subst}
use gitlab_copilot_agent.Effects.{Result, ok, raised, Py, pure, continue, Result-cases, ◌>>=◌, ◌>>◌}
use gitlab_copilot_agent.Concurrency.OrderedDict.{lookup, lookup-insert}
use gitlab_copilot_agent.Discussions.{AgentIdentity}
use gitlab_copilot_agent.Credentials.{
  Tokens, resolve, Stamped, Identities, Session, checked, get_cached_identity, remember,
  release_after, with_lock, fetch_identity, cached_or, check_again, resolve_identity,
}

not_late : (a b : ℕ) → ltb a b ≡ false → b ≤ a
not_late a b h = ground arith

in_time : (a b : ℕ) → b ≤ a → ltb a b ≡ false
in_time a b h = ground arith

module _ {W : Type 0} (session : Session W) (ttl : ℕ) (ref : Text) where
  -- The cache holds this identity, and its time is not over.
  pub record IsFresh (identity : AgentIdentity) (s : Identities W) : Type 0 where
    pub entry : Stamped
    pub kept : lookup ref s.identities ≡ some entry
    pub same : entry.identity ≡ identity
    pub in_date : session.now s.world ≤ entry.cached_at + ttl

  Held : Result AgentIdentity × Identities W → Type 0
  Held (ok identity, s) = IsFresh identity s
  Held (raised e, s) = Unit

  check-Held :
      (m : Py (Identities W) AgentIdentity) (s : Identities W)
      → ((t : Identities W) → Held (m t))
      → Held ((get_cached_identity session ttl ref >>= cached_or m) s)
  unfolding get_cached_identity checked cached_or Held
  check-Held m s h = elim (Option-cases (lookup ref s.identities)) [
    | inl absent ↦ rw absent (h s)
    | inr (entry, there) ↦ elim (Bool-cases (ltb (entry.cached_at + ttl) (session.now s.world))) [
      | inl expired ↦ rw (there, expired) (h _)
      | inr live ↦
          rw (there, live)
            (record {
              entry = entry;
              kept = there;
              same = refl;
              in_date = not_late (entry.cached_at + ttl) (session.now s.world) live;
            })
    ]
  ]

module _ {W : Type 0} (lower : Text → Text) (session : Session W) (ttl : ℕ) (tokens : Tokens)
    (released : (s : Identities W) → session.release s ≡ (ok tt, s)) where
  fetch_identity-Held :
      (ref url : Text) (s : Identities W)
      → Held session ttl (lower ref) (fetch_identity lower session ttl tokens ref url s)
  unfolding fetch_identity remember Held
  fetch_identity-Held ref url s = elim (Result-cases (resolve lower tokens ref)) [
    | inr (e, unknown) ↦ rw unknown tt
    | inl (token, known) ↦ rw known (stamped (session.fetch url token s))
  ]
    where
      stamped :
          (r : Result AgentIdentity × Identities W)
          → Held session ttl
              (lower ref)
              (continue (λ identity. remember session ttl (lower ref) identity >> pure identity) r)
      stamped (raised e, t) = tt
      stamped (ok identity, t) = record {
        entry = record { identity = identity; cached_at = session.now t.world };
        kept = lookup-insert (lower ref) (lower ref) _ t.identities ∙ rw (eq_self (lower ref)) refl;
        same = refl;
        in_date = omega arith;
      }

  release_after-Held :
      (ref : Text) (r : Result AgentIdentity × Identities W)
      → Held session ttl ref r
      → Held session ttl ref (release_after session.release r)
  unfolding release_after Held
  release_after-Held ref (ok identity, s) h = rw (released s) h
  release_after-Held ref (raised e, s) h = rw (released s) tt

  locked-Held :
      (ref url : Text) (s : Identities W)
      → Held session ttl (lower ref) (
          with_lock session.acquire session.release
            (check_again lower session ttl tokens ref url)
            s)
  unfolding with_lock check_again
  locked-Held ref url s = locked (session.acquire s)
    where
      locked :
          (r : Result (Unit {0}) × Identities W)
          → Held session ttl (lower ref) (
              continue
                (λ _ t.
                  release_after session.release (check_again lower session ttl tokens ref url t))
                r)
      locked (raised e, t) = unfold Held in tt
      locked (ok u, t) = release_after-Held (lower ref) _ (
          check-Held session ttl (lower ref) (fetch_identity lower session ttl tokens ref url) t
            (fetch_identity-Held ref url))

  resolve_identity-Held :
      (ref url : Text) (s : Identities W)
      → Held session ttl (lower ref) (resolve_identity lower session ttl tokens ref url s)
  unfolding resolve_identity
  resolve_identity-Held ref url s = check-Held session ttl (lower ref) _ s (locked-Held ref url)

  unpacked :
      (ref : Text) (identity : AgentIdentity) (t : Identities W)
      (out : Result AgentIdentity × Identities W)
      → out ≡ (ok identity, t)
      → Held session ttl (lower ref) out
      → IsFresh session ttl (lower ref) identity t
  unfolding Held
  unpacked ref identity t out h held = subst (Held session ttl (lower ref)) h held

  hit :
      (ref url : Text) (identity : AgentIdentity) (s : Identities W)
      → IsFresh session ttl (lower ref) identity s
      → resolve_identity lower session ttl tokens ref url s ≡ (ok identity, s)
  unfolding resolve_identity get_cached_identity checked cached_or
  hit ref url identity s fresh =
      rw (fresh.kept, in_time _ _ fresh.in_date) (ap (λ (i : AgentIdentity). (ok i, s)) fresh.same)

  -- Where the release of the lock changes nothing: once an identity was resolved, whether it was kept or fetched, every
  -- further call for this alias, in whatever case and for whatever URL, returns the same identity, asks nobody and
  -- leaves the cache as it is, as long as the time of the entry is not over. What other
  -- coroutines do to the cache while this one waits for the lock or for GitLab is any function.
  pub resolve_identity-cached :
      (ref url : Text) (identity : AgentIdentity) (s t : Identities W)
      → resolve_identity lower session ttl tokens ref url s ≡ (ok identity, t)
      → (entry : Stamped) × (session.now t.world ≤ entry.cached_at + ttl)
        × ((ref' url' : Text) (w : W)
            → lower ref' ≡ lower ref
            → session.now w ≤ entry.cached_at + ttl
            → resolve_identity lower session ttl tokens ref' url' (record t { world = w })
              ≡ (ok identity, record t { world = w }))
  resolve_identity-cached ref url identity s t resolved =
      let fresh = unpacked ref identity t _ resolved (resolve_identity-Held ref url s) in
      (
        fresh.entry,
        fresh.in_date,
        (λ ref' url' w same_alias early.
            hit ref' url' identity (record t { world = w })
              (record {
                entry = fresh.entry;
                kept = rw same_alias fresh.kept;
                same = fresh.same;
                in_date = early;
              })),
      )
