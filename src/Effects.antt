-- ===== src/Effects.antt =====
-- Python's exceptions and state: a coroutine that reads and writes a state `S` and may raise.
-- What was written before a raise stays written, so the state comes back beside the error too.
pub mod Ensures
use gitlab_copilot_agent.Prelude.{
  Bool, true, false, Text, ℕ, if◌then◌else◌, ◌⊎◌, inl, inr, ◌≡◌, refl, List, [], ◌∷◌,
}

-- The exception classes that the code tells apart. `cancelled` stands for the `BaseException`s
-- that are no `Exception` (`CancelledError`, `KeyboardInterrupt`); `other` for every class of a
-- third party.
pub data ExnKind : Type 0 where
  value_error key_error runtime_error timeout_error task_execution_error transport_error : ExnKind
  http_status_error not_found_error cancelled other : ExnKind
  transient_clone_error : ℕ → ExnKind
  http_exception : ℕ → ExnKind

-- `exc`, with `str(exc)`.
pub record Exn : Type 0 where
  pub kind : ExnKind
  pub message : Text

-- `isinstance(exc, Exception)`
unfoldable pub is_exception : Exn → Bool
is_exception e = elim e.kind [ ExnKind.cancelled ↦ false | _ ↦ true ]

-- `isinstance(exc, httpx.TransportError)`
unfoldable pub is_transport_error : Exn → Bool
is_transport_error e = elim e.kind [ ExnKind.transport_error ↦ true | _ ↦ false ]

-- `isinstance(exc, ResourceNotFoundError)` of the Azure SDK
unfoldable pub is_not_found_error : Exn → Bool
is_not_found_error e = elim e.kind [ ExnKind.not_found_error ↦ true | _ ↦ false ]

-- `isinstance(exc, TaskExecutionError)`
unfoldable pub is_task_execution_error : Exn → Bool
is_task_execution_error e = elim e.kind [ ExnKind.task_execution_error ↦ true | _ ↦ false ]

pub data Result {ℓ} (A : Type ℓ) : Type ℓ where
  ok : A → Result A
  raised : Exn → Result A

abbrev pub Py : Type 0 → Type 0 → Type 0
Py S A = S → Result A × S

module _ {S : Type 0} where
  abbrev pub pure : {A : Type 0} → A → Py S A
  pure a s = (ok a, s)

  abbrev pub raise : {A : Type 0} → Exn → Py S A
  raise e s = (raised e, s)

  abbrev pub gets : {A : Type 0} → (S → A) → Py S A
  gets f s = (ok (f s), s)

  abbrev pub modify : (S → S) → Py S (Unit {0})
  modify f s = (ok tt, f s)

  abbrev pub lift : {A : Type 0} → Result A → Py S A
  lift r s = (r, s)

module _ {S A B : Type 0} where
  abbrev pub continue : (A → Py S B) → Result A × S → Result B × S
  continue f (ok a, s) = f a s
  continue f (raised e, s) = (raised e, s)

  infixl 10 ◌>>=◌ ◌>>◌
  abbrev pub ◌>>=◌ : Py S A → (A → Py S B) → Py S B
  ◌>>=◌ m f s = continue f (m s)

  abbrev pub ◌>>◌ : Py S A → Py S B → Py S B
  ◌>>◌ m n s = continue (λ _. n) (m s)

module _ {S A : Type 0} where
  -- the `except Exception` clause, and `except BaseException` left alone
  abbrev pub handle : (Exn → Py S A) → Result A × S → Result A × S
  handle h (ok a, s) = (ok a, s)
  handle h (raised e, s) = if is_exception e then h e s else (raised e, s)

  -- `try: m` / `except Exception as exc: h exc`
  abbrev pub try_except : Py S A → (Exn → Py S A) → Py S A
  try_except m h s = handle h (m s)

pub Result-cases {ℓ} :
    {A : Type ℓ} (r : Result A) → ((a : A) × (r ≡ ok a)) ⊎ ((e : Exn) × (r ≡ raised e))
Result-cases (ok a) = inl (a, refl)
Result-cases (raised e) = inr (e, refl)

cons_result : {B : Type 0} → Result B → Result (List B) → Result (List B)
cons_result (ok b) (ok bs) = ok (b ∷ bs)
cons_result (ok b) (raised e) = raised e
cons_result (raised e) r = raised e

module _ {A B : Type 0} where
  -- `[f(x) for x in xs]`
  unfoldable pub collect : (A → Result B) → List A → Result (List B)
  unfolding cons_result
  collect f [] = ok []
  collect f (x ∷ xs) = cons_result (f x) (collect f xs)

  -- What follows a call that may raise.
  unfoldable pub then_result : Result A → (A → Result B) → Result B
  then_result (ok a) f = f a
  then_result (raised e) f = raised e
