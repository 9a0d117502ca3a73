-- ===== src/Sanitizer.antt =====
-- prompt_sanitizer.py: what is left of a text from outside before it enters a prompt.
use gitlab_copilot_agent.Prelude.{
  ℕ, Text, text_eq, codes, show, List, [], ◌∷◌, ◌++◌, Bool, false, ◌||◌, ◌&&◌, Option, none, some,
  leb, if◌then◌else◌, ◌==◌, nat_eq, length, take, ◌≡◌, refl, Bool-cases, inl, inr, AllChars,
}
use gitlab_copilot_agent.Concurrency.OrderedDict.{lookup}

-- `_FIELD_LIMITS`
abbrev pub field_limits : List (Text × ℕ)
field_limits =
    (codes "mr_title", 500)
    ∷ (codes "mr_description", 5000)
    ∷ (codes "note_body", 5000)
    ∷ (codes "jira_description", 5000)
    ∷ (codes "commit_message", 4000)
    ∷ []

limit_or : Option ℕ → ℕ
limit_or none = 5000
limit_or (some limit) = limit

-- `_FIELD_LIMITS.get(field_name, _DEFAULT_LIMIT)`
unfoldable pub limit_of : Text → ℕ
unfolding limit_or
limit_of field_name = limit_or (lookup field_name field_limits)

unfoldable pub truncation_notice : ℕ → Text
truncation_notice n = codes "\n[TRUNCATED — original length: " ++ (show n ++ codes " chars]")

unfoldable pub truncate_untrusted : Text → Text → Text
truncate_untrusted text field_name =
    let limit = limit_of field_name in
    if leb (length text) limit then text else take limit text ++ truncation_notice (length text)

-- `_DANGEROUS_CHARS`
unfoldable pub is_dangerous : ℕ → Bool
is_dangerous c =
    leb c 8
    || (c == 11
        || (c == 12
            || ((leb 14 c && leb c 31)
                || ((leb 8234 c && leb c 8238) || (leb 8294 c && leb c 8297)))))

unfoldable pub strip_dangerous_chars : Text → Text
strip_dangerous_chars [] = []
strip_dangerous_chars (c ∷ s) =
    if is_dangerous c then strip_dangerous_chars s else c ∷ strip_dangerous_chars s

-- Nothing dangerous is left, a text that holds nothing dangerous is left as it is, and what is dropped anywhere in a
-- text does not depend on what stands around it.
pub strip_dangerous_chars_exact :
    (s t : Text)
    → AllChars (λ c. is_dangerous c ≡ false) (strip_dangerous_chars s)
      × (AllChars (λ c. is_dangerous c ≡ false) s → strip_dangerous_chars s ≡ s)
      × (strip_dangerous_chars (s ++ t) ≡ strip_dangerous_chars s ++ strip_dangerous_chars t)
unfolding strip_dangerous_chars
strip_dangerous_chars_exact [] t = (tt, (λ h. refl), refl)
strip_dangerous_chars_exact (c ∷ s) t =
    let (clean, kept, split) = strip_dangerous_chars_exact s t in
    elim (Bool-cases (is_dangerous c)) [
      | inl bad ↦ rw bad (clean, (λ h. absurd (cc h.0)), split)
      | inr good ↦ rw good ((good, clean), (λ h. rw (kept h.1) refl), rw split refl)
    ]
