-- ===== src/ReviewParser/Paths.antt =====
-- The shapes of what `parse_review` returns.
use gitlab_copilot_agent.Prelude.{Text, text_eq, codes, List, [], ◌∷◌, true, contains, ◌≡◌, ◌≢◌}
use gitlab_copilot_agent.Effects.{Result, ok, raised, Exn, other}
use gitlab_copilot_agent.Json.{Json}
use gitlab_copilot_agent.Comments.Parsed.{ParsedReview}

-- The values of `parse_path` of a review that was read, and of one that is nothing but a summary.
abbrev pub structured_paths : List Text
structured_paths =
    codes "code_fence" ∷ codes "code_fence_array" ∷ codes "bare_array" ∷ codes "raw_decode" ∷ []

abbrev pub plain_paths : List Text
plain_paths =
    codes "code_fence_json_error"
    ∷ codes "code_fence_not_dict"
    ∷ codes "freetext_fallback"
    ∷ codes "raw_decode_json_error"
    ∷ codes "raw_decode_not_dict"
    ∷ []

-- What `parse_review` may come to.
pub data IsParsed : Result ParsedReview → Type 0 where
  structured :
      {review : ParsedReview}
      → contains structured_paths review.parse_path ≡ true
      → review.summary ≢ []
      → IsParsed (ok review)
  plain :
      {review : ParsedReview}
      → contains plain_paths review.parse_path ≡ true
      → review.comments ≡ []
      → review.resolutions ≡ []
      → IsParsed (ok review)
  not_iterable : {e : Exn} → e.kind ≡ other → IsParsed (raised e)

-- Only a value that cannot be iterated over raises.
Iterated : Result (List Json) → Type 0
Iterated (ok items) = Unit
Iterated (raised e) = e.kind ≡ other
