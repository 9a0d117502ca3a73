-- ===== src/Pipeline/Errors.antt =====
-- `post_pipeline_error` of pipeline.py.
use gitlab_copilot_agent.Prelude.{
  Text, codes, List, [], ◌∷◌, ◌++◌, true, if◌then◌else◌, ◌≡◌, refl, ◌⊎◌, inl, inr, Bool-cases, Any,
}
use gitlab_copilot_agent.Effects.{
  Result, ok, raised, Exn, is_exception, is_task_execution_error, Py, pure, try_except, handle,
}
use gitlab_copilot_agent.ErrorMessages.{
  user_error_message, user_error_message_is_fixed, public_messages,
}

-- The message for a failure.
unfoldable pub error_text : (Text → Text) → Text → Text → Exn → Text
error_text to_lower task_error_prefix generic_msg exc =
    if is_task_execution_error exc
    then task_error_prefix ++ (codes "\n\n" ++ user_error_message to_lower exc.message)
    else generic_msg

-- `post_pipeline_error`; a failure to post is logged and forgotten.
unfoldable pub post_pipeline_error :
    {S : Type 0} → (Text → Text) → Exn → (Text → Py S (Unit {0})) → Text → Text → Py S (Unit {0})
post_pipeline_error to_lower exc post_fn task_error_prefix generic_msg =
    try_except (post_fn (error_text to_lower task_error_prefix generic_msg exc)) (λ _. pure tt)

-- The notice is the generic one, or the prefix before a fixed message; it is posted once, the state is the
-- one that the posting leaves, and where the posting raises an `Exception` or nothing, the handler
-- returns.
pub post_pipeline_error_is_safe :
    {S : Type 0} (to_lower : Text → Text) (exc : Exn) (post_fn : Text → Py S (Unit {0}))
    (prefix generic : Text) (s : S)
    → ((text : Text) (e : Exn) → (post_fn text s).0 ≡ raised e → is_exception e ≡ true)
    → (text : Text) × ((text ≡ generic)
        ⊎ Any (λ m. text ≡ prefix ++ (codes "\n\n" ++ m)) public_messages)
      × (post_pipeline_error to_lower exc post_fn prefix generic s ≡ (ok tt, (post_fn text s).1))
unfolding post_pipeline_error error_text
post_pipeline_error_is_safe {S = S} to_lower exc post_fn prefix generic s calm =
    let text = error_text to_lower prefix generic exc in
    (text, which, ended (post_fn text s) (calm text))
  where
    fixed :
        (ms : List Text) (m : Text)
        → Any (λ k. m ≡ k) ms
        → Any (λ k. prefix ++ (codes "\n\n" ++ m) ≡ prefix ++ (codes "\n\n" ++ k)) ms
    fixed [] m h = h
    fixed (k ∷ ms) m (inl e) = inl (rw e refl)
    fixed (k ∷ ms) m (inr h) = inr (fixed ms m h)

    which :
        (error_text to_lower prefix generic exc ≡ generic)
        ⊎ Any
            (λ m. error_text to_lower prefix generic exc ≡ prefix ++ (codes "\n\n" ++ m))
            public_messages
    which = elim (Bool-cases (is_task_execution_error exc)) [
      | inl task ↦
          rw task (inr (fixed public_messages _ (user_error_message_is_fixed to_lower exc.message)))
      | inr other_one ↦ rw other_one (inl refl)
    ]

    ended :
        (r : Result (Unit {0}) × S)
        → ((e : Exn) → r.0 ≡ raised e → is_exception e ≡ true)
        → handle (λ _. pure tt) r ≡ (ok tt, r.1)
    ended (ok _, s') h = refl
    ended (raised e, s') h = rw (h e refl) refl
