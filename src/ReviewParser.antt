-- ===== src/ReviewParser.antt =====
-- comment_parser.py: `parse_review`, from the agent's answer to the comments, the resolutions and the summary. The
-- regular expressions, `json.loads` and `raw_decode`, and pydantic's validation are given.
pub mod Paths
pub mod Kept
use gitlab_copilot_agent.Prelude.{
  ℕ, suc, Text, text_eq, nat_eq, codes, strip, List, [], ◌∷◌, Bool, true, false, not, ◌&&◌, Option,
  none, some, is_some, ◌==◌, if◌then◌else◌, drop,
}
use gitlab_copilot_agent.Effects.{Result, ok, raised, then_result}
use gitlab_copilot_agent.Json.{
  Json, Items, Fields, array, object, item, no_items, field, no_fields, elements, get_field,
  iterate_field, dicts,
}
use gitlab_copilot_agent.Comments.Parsed.{ReviewComment, Resolution, ParsedReview}

-- What the code calls: the code fence with the text behind it (`re.search`, and `re.sub` on the rest), `json.loads`,
-- `raw_decode` of a text from an index on, with the index behind the value, and the two models' validation.
pub record Readers : Type 0 where
  pub find_fence : Text → Option (Text × Text)
  pub drop_fence : Text → Text
  pub loads : Text → Option Json
  pub raw_decode : Text → ℕ → Option (Json × ℕ)
  pub comment : Fields → Option ReviewComment
  pub resolution : Fields → Option Resolution

-- `_is_bare_comment`
unfoldable pub is_bare_comment : Fields → Bool
is_bare_comment data_ =
    is_some (get_field (codes "file") data_)
    && (is_some (get_field (codes "line") data_)
        && not (is_some (get_field (codes "comments") data_)))

-- `{"comments": items}`
unfoldable pub wrapped : Items → Fields
wrapped items = field (codes "comments") (array items) no_fields

-- The validated ones of the dictionaries; the others are passed over.
unfoldable pub accepted : {A : Type 0} → (Fields → Option A) → List Fields → List A
accepted validate [] = []
accepted validate (x ∷ xs) = elim (validate x) [
  | none ↦ accepted validate xs
  | some a ↦ a ∷ accepted validate xs
]

unfoldable pub normalised : Fields → Fields
normalised data_ = if is_bare_comment data_ then wrapped (item (object data_) no_items) else data_

plain : Text → Text → ParsedReview
plain summary parse_path = record {
  comments = [];
  summary = summary;
  resolutions = [];
  parse_path = parse_path;
}

-- `summary or "Review complete."`
unfoldable pub summary_or : Text → Text
summary_or [] = codes "Review complete."
summary_or (c ∷ s) = c ∷ s

-- `stripped.find("{")`, from an index on
find_brace : Text → ℕ → Option ℕ
find_brace [] idx = none
find_brace (c ∷ s) idx = if c == 123 then some idx else find_brace s (suc idx)

starts_array : Text → Bool
starts_array [] = false
starts_array (c ∷ s) = c == 91

module _ (readers : Readers) where
  -- `_build_parsed_review`
  unfoldable pub build_parsed_review : Fields → Text → Text → Result ParsedReview
  build_parsed_review data_ summary parse_path =
      then_result (iterate_field (codes "comments") (normalised data_)) (λ comments.
        then_result (iterate_field (codes "resolutions") (normalised data_)) (λ resolutions.
          ok (record {
            comments = accepted readers.comment (dicts comments);
            summary = summary;
            resolutions = accepted readers.resolution (dicts resolutions);
            parse_path = parse_path;
          })))

  -- `_build_from_array`
  unfoldable pub build_from_array : Items → Text → Text → Result ParsedReview
  build_from_array items summary parse_path = build_parsed_review (wrapped items) summary parse_path

  -- The value in a code fence; `raw` is the whole answer, `after` what stands behind the fence.
  unfoldable pub from_fence : Text → Text → Option Json → Result ParsedReview
  unfolding plain
  from_fence raw after none = ok (plain (strip raw) (codes "code_fence_json_error"))
  from_fence raw after (some (array items)) =
      build_from_array items (summary_or (strip (readers.drop_fence (strip after))))
        (codes "code_fence_array")
  from_fence raw after (some (object data_)) =
      build_parsed_review data_ (summary_or (strip (readers.drop_fence (strip after))))
        (codes "code_fence")
  from_fence raw after (some other) = ok (plain (strip raw) (codes "code_fence_not_dict"))

  unfoldable pub from_object : Text → Option (Json × ℕ) → Result ParsedReview
  unfolding plain
  from_object stripped none = ok (plain stripped (codes "raw_decode_json_error"))
  from_object stripped (some (object data_, end_idx)) =
      build_parsed_review data_ (summary_or (strip (drop end_idx stripped))) (codes "raw_decode")
  from_object stripped (some (other, end_idx)) = ok (plain stripped (codes "raw_decode_not_dict"))

  at_brace : Text → Option ℕ → Result ParsedReview
  unfolding plain
  at_brace stripped none = ok (plain (summary_or stripped) (codes "freetext_fallback"))
  at_brace stripped (some idx) = from_object stripped (readers.raw_decode stripped idx)

  -- The bare JSON object.
  unfoldable pub from_text : Text → Result ParsedReview
  unfolding at_brace find_brace
  from_text stripped = at_brace stripped (find_brace stripped 0)

  -- The bare JSON array, if it is one.
  unfoldable pub from_array : Text → Option (Json × ℕ) → Result ParsedReview
  from_array stripped (some (array items, end_idx)) =
      build_from_array items (summary_or (strip (drop end_idx stripped))) (codes "bare_array")
  from_array stripped (some (other, end_idx)) = from_text stripped
  from_array stripped none = from_text stripped

  without_fence : Text → Result ParsedReview
  unfolding starts_array
  without_fence stripped =
      if starts_array stripped
      then from_array stripped (readers.raw_decode stripped 0)
      else from_text stripped

  at_fence : Text → Option (Text × Text) → Result ParsedReview
  unfolding without_fence
  at_fence raw none = without_fence (strip raw)
  at_fence raw (some (json, after)) = from_fence raw after (readers.loads json)

  unfoldable pub parse_review : Text → Result ParsedReview
  unfolding at_fence
  parse_review raw = at_fence raw (readers.find_fence raw)
