-- ===== src/Effects/Ensures.antt =====
-- Coroutines that keep an invariant of the state, with what they say of their result.
use gitlab_copilot_agent.Prelude.{
  text_eq, Bool, true, false, ◌≡◌, refl, inl, inr, Bool-cases, if◌then◌else◌,
}
use gitlab_copilot_agent.Effects.{
  Result, ok, raised, Exn, is_exception, Py, pure, lift, continue, handle, try_except, ◌>>=◌, ◌>>◌,
}

module _ {S : Type 0} (I : S → Type 0) where
  -- The state fits, and so does the result, if there is one.
  abbrev pub Post : {A : Type 0} → (A → Type 0) → Result A × S → Type 0
  Post Q (ok a, s) = I s × Q a
  Post Q (raised e, s) = I s

  abbrev pub Ensures : {A : Type 0} → Py S A → (A → Type 0) → Type 0
  Ensures m Q = (s : S) → I s → Post Q (m s)

  abbrev pub Keeps : {A : Type 0} → Py S A → Type 0
  Keeps {A = A} m = Ensures m (λ (a : A). Unit {0})

  continue-Post :
      {A B : Type 0} (P : A → Type 0) (Q : B → Type 0) (r : Result A × S) (f : A → Py S B)
      → Post P r
      → ((a : A) → P a → Ensures (f a) Q)
      → Post Q (continue f r)
  continue-Post P Q (ok a, s) f h k = k a h.1 s h.0
  continue-Post P Q (raised e, s) f h k = h

  pub bind-Ensures :
      {A B : Type 0} (P : A → Type 0) (Q : B → Type 0) (m : Py S A) (f : A → Py S B)
      → Ensures m P
      → ((a : A) → P a → Ensures (f a) Q)
      → Ensures (m >>= f) Q
  bind-Ensures P Q m f h k s i = continue-Post P Q (m s) f (h s i) k

  pub after-Ensures :
      {A B : Type 0} (P : A → Type 0) (Q : B → Type 0) (m : Py S A) (n : Py S B)
      → Ensures m P
      → Ensures n Q
      → Ensures (m >> n) Q
  after-Ensures P Q m n h k s i = continue-Post P Q (m s) (λ _. n) (h s i) (λ a _. k)

  handle-Post :
      {A : Type 0} (Q : A → Type 0) (r : Result A × S) (h : Exn → Py S A)
      → Post Q r
      → ((e : Exn) → Ensures (h e) Q)
      → Post Q (handle h r)
  handle-Post Q (ok a, s) h p k = p
  handle-Post Q (raised e, s) h p k = elim (Bool-cases (is_exception e)) [
    | inl caught ↦ rw caught (k e s p)
    | inr through ↦ rw through p
  ]

  pub try_except-Ensures :
      {A : Type 0} (Q : A → Type 0) (m : Py S A) (h : Exn → Py S A)
      → Ensures m Q
      → ((e : Exn) → Ensures (h e) Q)
      → Ensures (try_except m h) Q
  try_except-Ensures Q m h p k s i = handle-Post Q (m s) h (p s i) k

  pub pure-Ensures : {A : Type 0} (Q : A → Type 0) (a : A) → Q a → Ensures (pure a) Q
  pure-Ensures Q a q s i = (i, q)

  pub if-Ensures :
      {A : Type 0} (Q : A → Type 0) (t : Bool) (m n : Py S A)
      → (t ≡ true → Ensures m Q)
      → (t ≡ false → Ensures n Q)
      → Ensures (if t then m else n) Q
  if-Ensures Q true m n h k = h refl
  if-Ensures Q false m n h k = k refl

  pub lift-Keeps : {A : Type 0} (r : Result A) → Keeps (lift r)
  lift-Keeps (ok a) s i = (i, tt)
  lift-Keeps (raised e) s i = i

  pub forget : {A : Type 0} (Q : A → Type 0) (m : Py S A) → Ensures m Q → Keeps m
  forget {A = A} Q m h s i = drop (m s) (h s i)
    where
      drop : (r : Result A × S) → Post Q r → Post (λ (a : A). Unit {0}) r
      drop (ok a, s') p = (p.0, tt)
      drop (raised e, s') p = p

  pub Post-state : {A : Type 0} (Q : A → Type 0) (r : Result A × S) → Post Q r → I r.1
  Post-state Q (ok a, s) p = p.0
  Post-state Q (raised e, s) p = p

  pub weaken :
      {A : Type 0} (Q R : A → Type 0) (m : Py S A)
      → Ensures m Q
      → ((a : A) → Q a → R a)
      → Ensures m R
  weaken {A = A} Q R m h k s i = widen (m s) (h s i)
    where
      widen : (r : Result A × S) → Post Q r → Post R r
      widen (ok a, s') p = (p.0, k a p.1)
      widen (raised e, s') p = p
