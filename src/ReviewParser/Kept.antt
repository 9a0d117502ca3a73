-- ===== src/ReviewParser/Kept.antt =====
-- What a well-formed answer says is what `parse_review` returns; and a null in place of a list is not passed over.
use gitlab_copilot_agent.Prelude.{
  Text, text_eq, codes, List, [], ◌∷◌, map, Bool, true, false, Option, some, list_beq, ◌≡◌, refl,
  ap, is_some, ◌&&◌, strip,
}
use gitlab_copilot_agent.Effects.{ok, raised, other, then_result}
use gitlab_copilot_agent.Concurrency.OrderedDict.{lookup}
use gitlab_copilot_agent.Json.{
  Json, null, array, object, Items, item, no_items, Fields, field, no_fields, elements, entries,
  get_field, iterate, iterate_field, iterate_or, not_iterable, dicts,
}
use gitlab_copilot_agent.Comments.Parsed.{ReviewComment, Resolution}
use gitlab_copilot_agent.ReviewParser.{
  Readers, is_bare_comment, accepted, normalised, wrapped, build_parsed_review, build_from_array,
  summary_or, from_fence, at_fence, parse_review,
}

-- The JSON list of some dictionaries.
abbrev pub array_of : List Fields → Items
array_of [] = no_items
array_of (x ∷ xs) = item (object x) (array_of xs)

dicts-array_of : (xs : List Fields) → dicts (elements (array_of xs)) ≡ xs
unfolding dicts elements
dicts-array_of [] = refl
dicts-array_of (x ∷ xs) = ap (λ (ys : List Fields). x ∷ ys) (dicts-array_of xs)

-- `{"comments": [...], "resolutions": [...]}`
abbrev pub answer_of : List Fields → List Fields → Fields
answer_of comments resolutions =
    field (codes "comments") (array (array_of comments))
      (field (codes "resolutions") (array (array_of resolutions)) no_fields)

module _ {A : Type 0} (validate : Fields → Option A) (encode : A → Fields)
    (valid : (a : A) → validate (encode a) ≡ some a) where
  accepted-encode : (xs : List A) → accepted validate (map encode xs) ≡ xs
  unfolding accepted
  accepted-encode [] = refl
  accepted-encode (x ∷ xs) = rw (valid x) (ap (λ (ys : List A). x ∷ ys) (accepted-encode xs))

  read_back : (xs : List A) → accepted validate (dicts (elements (array_of (map encode xs)))) ≡ xs
  read_back xs = rw (dicts-array_of (map encode xs)) (accepted-encode xs)

module _ (readers : Readers) (write_comment : ReviewComment → Fields)
    (write_resolution : Resolution → Fields)
    (comments_valid : (c : ReviewComment) → readers.comment (write_comment c) ≡ some c)
    (resolutions_valid : (r : Resolution) → readers.resolution (write_resolution r) ≡ some r) where
  -- An answer with a fence around the JSON of comments and resolutions that pass validation is read as these comments
  -- and resolutions, all of them, in order; and so are comments without resolutions, written as an array. The summary
  -- is what stands behind the fence.
  pub parse_review-answer_of :
      (raw json after : Text) (cs : List ReviewComment) (rs : List Resolution)
      → readers.find_fence raw ≡ some (json, after)
      → (readers.loads json
            ≡ some (object (answer_of (map write_comment cs) (map write_resolution rs)))
          → parse_review readers raw
            ≡ ok (record {
              comments = cs;
              summary = summary_or (strip (readers.drop_fence (strip after)));
              resolutions = rs;
              parse_path = codes "code_fence";
            }))
        × (readers.loads json ≡ some (array (array_of (map write_comment cs)))
            → parse_review readers raw
              ≡ ok (record {
                comments = cs;
                summary = summary_or (strip (readers.drop_fence (strip after)));
                resolutions = [];
                parse_path = codes "code_fence_array";
              }))
  unfolding parse_review at_fence from_fence build_from_array build_parsed_review normalised
      is_bare_comment wrapped iterate_field iterate_or iterate get_field entries lookup list_beq
      then_result
  parse_review-answer_of raw json after cs rs fence =
      let comments = read_back readers.comment write_comment comments_valid cs in
      let resolutions = read_back readers.resolution write_resolution resolutions_valid rs in
      (
        (λ loaded. rw (fence, loaded, comments, resolutions) refl),
        (λ loaded. rw (fence, loaded, comments) (unfold dicts accepted in refl)),
      )

not_bare :
    (data_ : Fields) (value : Json)
    → get_field (codes "comments") data_ ≡ some value
    → is_bare_comment data_ ≡ false
unfolding is_bare_comment
not_bare data_ value there =
    rw there
      (both (is_some (get_field (codes "file") data_)) (is_some (get_field (codes "line") data_)))
  where
    both : (a b : Bool) → (a && (b && false)) ≡ false
    both true true = refl
    both true false = refl
    both false b = refl

module _ (readers : Readers) where
  -- An answer in whose JSON `comments` is null raises, where a missing key is an empty list: there is no fallback to
  -- a summary.
  pub parse_review-null :
      (raw json after : Text) (data_ : Fields)
      → readers.find_fence raw ≡ some (json, after)
      → readers.loads json ≡ some (object data_)
      → get_field (codes "comments") data_ ≡ some null
      → parse_review readers raw
        ≡ raised (record { kind = other; message = codes "object is not iterable" })
  unfolding parse_review at_fence from_fence build_parsed_review normalised iterate_field iterate_or
      iterate not_iterable then_result
  parse_review-null raw json after data_ fence loaded null_there =
      rw (fence, loaded, not_bare data_ null null_there, null_there) refl
