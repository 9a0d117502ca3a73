-- ===== src/GitlabClient/Details.antt =====
-- `get_mr_details` and `compare_commits` of gitlab_client.py. pydantic's validation is given.
use gitlab_copilot_agent.Prelude.{
  ℕ, zero, suc, ◌-◌, ◌^◌, min, Text, codes, show, List, [], ◌∷◌, ◌++◌, Option, none, some, ltb,
  if◌then◌else◌, text_eq,
}
use gitlab_copilot_agent.Effects.{
  Result, ok, raised, other, runtime_error, Py, pure, lift, ◌>>=◌, ◌>>◌, collect, then_result,
}
use gitlab_copilot_agent.Json.{
  Json, null, array, Fields, no_fields, elements, get_field, iterate_field, as_object, dicts,
}
use gitlab_copilot_agent.Gitlab.{DiffRef, Change}
use gitlab_copilot_agent.Outside.{MrDetails}
use gitlab_copilot_agent.GitlabClient.{
  get, Request, Response, HttpLog, Http, seconds, sleep, request, diff_refs_max_retries,
}
use gitlab_copilot_agent.GitlabClient.Calls.{mr_path}
use gitlab_copilot_agent.GitlabClient.Pages.{Params}

-- `MRDiffRef.model_validate`, `MRChange.model_validate` and `str`
pub record Models : Type 0 where
  pub diff_ref : Json → Result DiffRef
  pub change : Fields → Result Change
  pub text_of : Json → Text

fields_or : Option Fields → Result Fields
fields_or none = raised (record { kind = other; message = codes "object has no attribute 'get'" })
fields_or (some fs) = ok fs

-- `resp.json()`, of which the code asks keys
unfoldable pub json_fields : Response → Result Fields
unfolding fields_or
json_fields resp = then_result resp.json (λ value. fields_or (as_object value))

-- A value that is there and not `null`.
unfoldable pub present : Option Json → Option Json
present none = none
present (some null) = none
present (some value) = some value

unfoldable pub diff_refs_of : Fields → Option Json
diff_refs_of fs = present (get_field (codes "diff_refs") fs)

unfoldable pub get_request : Text → Params → Request
get_request path params = record { method = get; path = path; json = null; params = params }

-- The message of the error when GitLab has computed no diff.
unfoldable pub no_diff_refs : ℕ → ℕ → Text
no_diff_refs project_id mr_iid =
    codes "diff_refs is null for MR !"
    ++ (show mr_iid
        ++ (codes " in project "
            ++ (show project_id
                ++ codes " after retries — GitLab may still be computing the diff")))

title_or : (Json → Text) → Option Json → Text
title_or text_of none = []
title_or text_of (some title) = text_of title

optional_text : (Json → Text) → Option Json → Option Text
optional_text text_of none = none
optional_text text_of (some raw_desc) = some (text_of raw_desc)

module _ (models : Models) where
  -- The `MRDetails` of the answer.
  unfoldable pub details_of : Json → Fields → Result MrDetails
  unfolding title_or optional_text
  details_of diff_refs found = then_result (models.diff_ref diff_refs) (λ refs.
      then_result (iterate_field (codes "changes") found) (λ items.
        then_result (collect models.change (dicts items)) (λ changes. ok (record {
          title = title_or models.text_of (get_field (codes "title") found);
          description =
              optional_text models.text_of (present (get_field (codes "description") found));
          diff_refs = refs;
          changes = changes;
        }))))

  finish_details : ℕ → ℕ → Fields → Option Json → Result MrDetails
  finish_details project_id mr_iid found none =
      raised (record { kind = runtime_error; message = no_diff_refs project_id mr_iid })
  finish_details project_id mr_iid found (some diff_refs) = details_of diff_refs found

module _ (http : Http) where
  pause_before_next : ℕ → Py HttpLog (Unit {0})
  pause_before_next attempt =
      if ltb attempt (diff_refs_max_retries - 1)
      then sleep http (seconds (min (2 ^ attempt) 8))
      else pure tt

  next_fetch : ℕ → Fields → Py HttpLog Fields → Option Json → Py HttpLog Fields
  unfolding pause_before_next
  next_fetch attempt found more (some diff_refs) = pure found
  next_fetch attempt found more none = pause_before_next attempt >> more

  -- The loop, with the attempts that are left.
  unfoldable pub fetch_details : Request → ℕ → ℕ → Fields → Py HttpLog Fields
  unfolding next_fetch
  fetch_details r zero attempt found = pure found
  fetch_details r (suc left) attempt found = do
    resp ← request http none r
    found' ← lift (json_fields resp)
    next_fetch attempt found' (fetch_details r left (suc attempt) found') (diff_refs_of found')

  unfoldable pub get_mr_details : Models → ℕ → ℕ → Py HttpLog MrDetails
  unfolding finish_details
  get_mr_details models project_id mr_iid = do
    found ←
        fetch_details (get_request (mr_path project_id mr_iid (codes "changes")) [])
          diff_refs_max_retries 0 no_fields
    lift (finish_details models project_id mr_iid found (diff_refs_of found))

-- The `diffs` of a comparison: what is no list counts as empty.
diffs_of : (Fields → Result Change) → Option Json → Result (List Change)
diffs_of validate (some (array xs)) = collect validate (dicts (elements xs))
diffs_of validate _ = ok []

unfoldable pub compare_commits :
    Http → (Fields → Result Change) → ℕ → Text → Text → Py HttpLog (List Change)
unfolding diffs_of
compare_commits http validate project_id from_sha to_sha = do
  resp ← request http none (
      get_request (codes "/projects/" ++ (show project_id ++ codes "/repository/compare"))
        ((codes "from", from_sha) ∷ (codes "to", to_sha) ∷ []))
  found ← lift (json_fields resp)
  lift (diffs_of validate (get_field (codes "diffs") found))
