-- ===== src/ErrorMessages.antt =====
-- error_messages.py: what a user is told of an internal error.
use gitlab_copilot_agent.Prelude.{
  Text, text_eq, codes, List, [], ◌∷◌, ◌++◌, Bool, false, ◌||◌, if◌then◌else◌, nat_eq, ◌≡◌, refl,
  ◌∙◌, inl, inr, Bool-cases, Any, is_some,
}
use gitlab_copilot_agent.Incremental.{strip_prefix}

abbrev pub auth_msg : Text
auth_msg =
    codes "❌ Unable to process your request due to an authentication issue.\n\n"
    ++ codes
        "The agent's credentials may be expired or misconfigured. Please notify the project administrator to check the service configuration."

abbrev pub permission_msg : Text
permission_msg =
    codes "❌ Unable to process your request due to a permissions issue.\n\n"
    ++ codes
        "The agent's GitLab token may lack the required scopes (api, read_repository, write_repository) or the token role may be insufficient (Developer or higher required)."

abbrev pub clone_msg : Text
clone_msg =
    codes "❌ Unable to clone the repository.\n\n"
    ++ codes "The agent's GitLab token may not have read_repository access to this project."

abbrev pub timeout_msg : Text
timeout_msg =
    codes "❌ The request timed out.\n\n"
    ++ codes
        "The agent took too long to process your request. Please try again with a simpler request."

abbrev pub patch_msg : Text
patch_msg =
    codes "❌ Unable to apply code changes.\n\n"
    ++ codes
        "The generated patch could not be applied to the current branch. This may happen if the branch was modified while the agent was working. Please try again."

abbrev pub fallback_msg : Text
fallback_msg =
    codes "❌ Unable to process your request.\n\n"
    ++ codes "An unexpected error occurred. Please try again or contact the project administrator."

-- `needle in text`
unfoldable pub occurs : Text → Text → Bool
occurs needle [] = is_some (strip_prefix needle [])
occurs needle (c ∷ text) = is_some (strip_prefix needle (c ∷ text)) || occurs needle text

-- `any(kw in lower for kw in keywords)`
unfoldable pub any_occurs : List Text → Text → Bool
any_occurs [] text = false
any_occurs (k ∷ ks) text = occurs k text || any_occurs ks text

-- `_PATTERNS`
abbrev pub patterns : List (List Text × Text)
patterns =
    (codes "authentication failed" ∷ codes "github_token" ∷ [], auth_msg)
    ∷ (codes "403" ∷ codes "forbidden" ∷ [], permission_msg)
    ∷ (codes "not found in upstream" ∷ codes "not allowed to download" ∷ [], clone_msg)
    ∷ (codes "clone failed" ∷ codes "unable to access" ∷ [], clone_msg)
    ∷ (codes "timeout" ∷ codes "timed out" ∷ [], timeout_msg)
    ∷ (codes "corrupt patch" ∷ codes "git apply" ∷ [], patch_msg)
    ∷ []

-- The loop over the patterns, the first match first.
unfoldable pub first_match : List (List Text × Text) → Text → Text
first_match [] lower = fallback_msg
first_match ((keywords, message) ∷ more) lower =
    if any_occurs keywords lower then message else first_match more lower

-- `user_error_message`; `to_lower` is `str.lower`.
unfoldable pub user_error_message : (Text → Text) → Text → Text
user_error_message to_lower error = first_match patterns (to_lower error)

abbrev pub branch_deleted_head : Text
branch_deleted_head = codes "⚠\u{fe0f} The source branch `"

abbrev pub branch_deleted_tail : Text
branch_deleted_tail =
    codes "` has been deleted or is inaccessible.\n\n"
    ++ codes "I can't access the code to process your request."

-- `branch_deleted_message`
unfoldable pub branch_deleted_message : Text → Text
branch_deleted_message branch = branch_deleted_head ++ (branch ++ branch_deleted_tail)

-- The messages that may be posted.
abbrev pub public_messages : List Text
public_messages =
    fallback_msg ∷ auth_msg ∷ permission_msg ∷ clone_msg ∷ clone_msg ∷ timeout_msg ∷ patch_msg ∷ []

abbrev messages_of : List (List Text × Text) → List Text
messages_of [] = []
messages_of ((keywords, message) ∷ more) = message ∷ messages_of more

Any-at : (ms : List Text) (a b : Text) → a ≡ b → Any (λ m. b ≡ m) ms → Any (λ m. a ≡ m) ms
Any-at [] a b e h = h
Any-at (m ∷ ms) a b e (inl h) = inl (e ∙ h)
Any-at (m ∷ ms) a b e (inr h) = inr (Any-at ms a b e h)

first_match-in :
    (ps : List (List Text × Text)) (lower : Text)
    → Any (λ m. first_match ps lower ≡ m) (fallback_msg ∷ messages_of ps)
unfolding first_match
first_match-in [] lower = inl refl
first_match-in ((keywords, message) ∷ more) lower = elim (Bool-cases (any_occurs keywords lower)) [
  | inl hit ↦ rw hit (inr (inl refl))
  | inr miss ↦
      Any-at (fallback_msg ∷ message ∷ messages_of more) _ (first_match more lower) (rw miss refl)
        (later (first_match-in more lower))
]
  where
    later :
        Any (λ m. first_match more lower ≡ m) (fallback_msg ∷ messages_of more)
        → Any (λ m. first_match more lower ≡ m) (fallback_msg ∷ message ∷ messages_of more)
    later (inl h) = inl h
    later (inr h) = inr (inr h)

-- Whatever the internal error says, the message is one of the seven fixed texts: nothing of the error
-- is in it.
pub user_error_message_is_fixed :
    (to_lower : Text → Text) (error : Text)
    → Any (λ m. user_error_message to_lower error ≡ m) public_messages
unfolding user_error_message
user_error_message_is_fixed to_lower error = first_match-in patterns (to_lower error)
