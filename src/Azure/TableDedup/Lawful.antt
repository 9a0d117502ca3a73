-- ===== src/Azure/TableDedup/Lawful.antt =====
-- What `TableDedup` promises over a table that keeps what is written to it.
use gitlab_copilot_agent.Prelude.{
  ℕ, ◌+◌, ◌*◌, ◌≤◌, Text, text_eq, text_eq_iff, nat_eq, Bool, true, false, not, none, some, ◌==◌,
  ltb, if◌then◌else◌, ◌≡◌, refl, ap, sym, ◌∙◌, ◌≢◌, inl, inr, Bool-cases, ◌⊎◌, arith,
}
use gitlab_copilot_agent.Effects.{Result, ok, raised, Exn, is_exception, pure, continue, handle}
use gitlab_copilot_agent.Azure.TableDedup.{
  Entity, Table, split_colon, split_dedup_key, is_live, ttl_or, live_at, look_up, judge, is_seen,
  upsert, mark_seen, seen_on_error,
}
use gitlab_copilot_agent.Azure.TableDedup.Keys.{split_dedup_key_injective}

-- What Azure documents of a table: a written entity is there with its TTL and the time of the write, entities of
-- other keys stay as they are, and time does not run backwards.
pub record IsTable {S : Type 0} (table : Table S) (Good : S → Type 0) : Type 0 where
  pub writes :
      (pk rk : Text) (ttl : ℕ) (s : S) → Good s → (table.upsert_entity pk rk ttl s).0 ≡ ok tt
  pub keeps_good :
      (pk rk : Text) (ttl : ℕ) (s : S) → Good s → Good (table.upsert_entity pk rk ttl s).1
  pub reads_back :
      (pk rk : Text) (ttl : ℕ) (s : S)
      → Good s
      → (ts : ℕ) × ((table.get_entity pk rk (table.upsert_entity pk rk ttl s).1).0
          ≡ ok (record { ttl_seconds = some ttl; timestamp = some ts }))
        × (table.now (table.get_entity pk rk (table.upsert_entity pk rk ttl s).1).1
            ≤ ts + ttl * 1000000)
  pub isolated :
      (p q : Text × Text) (ttl : ℕ) (s : S)
      → p ≢ q
      → (table.get_entity p.0 p.1 (table.upsert_entity q.0 q.1 ttl s).1).0
        ≡ (table.get_entity p.0 p.1 s).0
  pub later :
      (p q : Text × Text) (ttl : ℕ) (s : S)
      → table.now (table.get_entity p.0 p.1 s).1
        ≤ table.now (table.get_entity p.0 p.1 (table.upsert_entity q.0 q.1 ttl s).1).1

not_later : (a b : ℕ) → a ≤ b → ltb b a ≡ false
not_later a b h = ground arith

-- An entity that is live is live at every earlier time too.
is_live-earlier :
    (a b : ℕ) (entity : Entity) → a ≤ b → is_live b entity ≡ true → is_live a entity ≡ true
unfolding is_live ttl_or live_at
is_live-earlier a b entity h live = ground arith

ok_injective : {A : Type 0} {a b : A} → ok a ≡ ok b → a ≡ b
ok_injective h = cc

raised_injective : {A : Type 0} {d e : Exn} → ◌≡◌ {A = Result A} (raised d) (raised e) → d ≡ e
raised_injective h = cc

different : (j k : Text) → (j == k) ≡ false → j ≢ k
different j k h e = absurd (cc ((text_eq_iff j k).1 e))

suppressed :
    {S : Type 0} (r : Result (Unit {0}) × S) → r.0 ≡ ok tt → (handle (λ _. pure tt) r).1 ≡ r.1
suppressed (ok u, s) h = refl
suppressed (raised e, s) h = absurd (cc)

module _ {S : Type 0} (table : Table S) where
  -- What `is_seen` makes of the table's answer.
  verdict : Result Entity × S → Result Bool
  verdict (ok entity, s) = ok (is_live (table.now s) entity)
  verdict (raised e, s) = if is_exception e then ok (seen_on_error e) else raised e

  judged :
      (r : Result Entity × S)
      → (continue (judge table) (
          handle
            (λ exc. pure (inr (seen_on_error exc)))
            (continue (λ entity. pure (inl entity)) r))).0
        ≡ verdict r
  unfolding verdict judge
  judged (ok entity, s) = refl
  judged (raised e, s) = elim (Bool-cases (is_exception e)) [
    | inl caught ↦ rw caught refl
    | inr through ↦ rw through refl
  ]

  -- The answer for a key, at a state.
  ask : Text → S → Result Entity × S
  ask key s = table.get_entity (split_dedup_key key).0 (split_dedup_key key).1 s

  is_seen-verdict : (key : Text) (s : S) → (is_seen table key s).0 ≡ verdict (ask key s)
  unfolding is_seen look_up ask
  is_seen-verdict key s = judged (ask key s)

  -- The same answer earlier: what is seen later is seen earlier.
  verdict-earlier :
      (r r' : Result Entity × S)
      → r'.0 ≡ r.0
      → table.now r.1 ≤ table.now r'.1
      → verdict r' ≡ ok true
      → verdict r ≡ ok true
  unfolding verdict
  verdict-earlier (ok entity, s) (ok entity', s') same h seen =
      ap (λ (b : Bool). ok b)
        (is_live-earlier (table.now s) (table.now s') entity h
          (ap (is_live (table.now s')) (sym (ok_injective same)) ∙ ok_injective seen))
  verdict-earlier (raised e, s) (raised e', s') same h seen =
      ap (λ (x : Exn). if is_exception x then ok (seen_on_error x) else raised x)
        (sym (raised_injective same))
      ∙ seen
  verdict-earlier (ok entity, s) (raised e, s') same h seen = absurd (cc)
  verdict-earlier (raised e, s) (ok entity, s') same h seen = absurd (cc)

module _ {S : Type 0} (table : Table S) {Good : S → Type 0} (law : IsTable table Good) where
  marked :
      (k : Text) (ttl : ℕ) (s : S)
      → Good s
      → (mark_seen table k ttl s).1
        ≡ (table.upsert_entity (split_dedup_key k).0 (split_dedup_key k).1 ttl s).1
  unfolding mark_seen upsert
  marked k ttl s good = suppressed _ (law.writes _ _ ttl s good)

  remembered :
      (r : Result Entity × S) (ttl ts : ℕ)
      → r.0 ≡ ok (record { ttl_seconds = some ttl; timestamp = some ts })
      → table.now r.1 ≤ ts + ttl * 1000000
      → verdict table r ≡ ok true
  unfolding verdict is_live ttl_or live_at
  remembered (ok entity, s) ttl ts h fresh =
      ap (λ (x : Entity). ok (is_live (table.now s) x)) (ok_injective h)
      ∙ ap (λ (b : Bool). ok (not b)) (not_later (table.now s) (ts + ttl * 1000000) fresh)
  remembered (raised e, s) ttl ts h fresh = absurd (cc)

  remembers :
      (k : Text) (ttl : ℕ) (s : S)
      → Good s
      → (is_seen table k (mark_seen table k ttl s).1).0 ≡ ok true
  unfolding ask
  remembers k ttl s good =
      let (ts, back, fresh) =
        law.reads_back (split_dedup_key k).0 (split_dedup_key k).1 ttl s good in
      rw (marked k ttl s good) (is_seen-verdict table k _ ∙ remembered _ ttl ts back fresh)

  invents_nothing :
      (k : Text) (ttl : ℕ) (s : S)
      → Good s
      → (j : Text) → split_colon j ≢ none
      → split_colon k ≢ none
      → (is_seen table j (mark_seen table k ttl s).1).0 ≡ ok true
      → (j ≡ k) ⊎ ((is_seen table j s).0 ≡ ok true)
  unfolding ask
  invents_nothing k ttl s good j hj hk seen = elim (Bool-cases (j == k)) [
    | inl same ↦ inl ((text_eq_iff j k).0 same)
    | inr other ↦
        let apart : split_dedup_key j ≢ split_dedup_key k =
          λ same. different j k other (split_dedup_key_injective j k hj hk same) in
        let s' = (table.upsert_entity (split_dedup_key k).0 (split_dedup_key k).1 ttl s).1 in
        let seen' : (is_seen table j s').0 ≡ ok true =
          ap (λ (t : S). (is_seen table j t).0) (sym (marked k ttl s good)) ∙ seen in
        inr (
          is_seen-verdict table j s
          ∙ verdict-earlier table (ask table j s) (ask table j s')
              (law.isolated (split_dedup_key j) (split_dedup_key k) ttl s apart)
              (law.later (split_dedup_key j) (split_dedup_key k) ttl s)
              (sym (is_seen-verdict table j s') ∙ seen'))
  ]

  -- Over a table that keeps what is written, with its TTL and the time, and leaves other entities alone: a key is seen
  -- right after it is marked; and of keys with a colon, a mark makes no other key
  -- seen than the one that was marked.
  pub table_dedup_lem :
      (k : Text) (ttl : ℕ) (s : S)
      → Good s
      → ((is_seen table k (mark_seen table k ttl s).1).0 ≡ ok true)
        × ((j : Text)
            → split_colon j ≢ none
            → split_colon k ≢ none
            → (is_seen table j (mark_seen table k ttl s).1).0 ≡ ok true
            → (j ≡ k) ⊎ ((is_seen table j s).0 ≡ ok true))
  table_dedup_lem k ttl s good = (remembers k ttl s good, invents_nothing k ttl s good)
