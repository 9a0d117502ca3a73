-- ===== src/GitlabClient/Reads.antt =====
-- The listings of gitlab_client.py, and its other calls that read an answer. pydantic's validation is given.
use gitlab_copilot_agent.Prelude.{ℕ, Text, codes, List, [], ◌∷◌, ◌++◌, Option, none, some, text_eq}
use gitlab_copilot_agent.Effects.{
  Result, ok, raised, key_error, Py, pure, lift, ◌>>=◌, collect, then_result,
}
use gitlab_copilot_agent.Json.{Json, Fields, get_field}
use mathlib.Core.Option as Option
use gitlab_copilot_agent.Discussions.{AgentIdentity, Discussion}
use gitlab_copilot_agent.GitlabClient.Parse.{RawDiscussion, parse_discussions}
use gitlab_copilot_agent.GitlabClient.{Response, HttpLog, Http, request}
use gitlab_copilot_agent.GitlabClient.Calls.{merge_requests, mr_path, merge_request_request}
use gitlab_copilot_agent.GitlabClient.Pages.{Params, paginate}
use gitlab_copilot_agent.GitlabClient.Details.{json_fields, get_request}

-- The items of a listing, validated; `none` means that the fuel of the pages ran out.
validated : {A : Type 0} → (Json → Result A) → Option (List Json) → Py HttpLog (Option (List A))
validated validate none = pure none
validated validate (some items) = lift (collect validate items) >>= λ as'. pure (some as')

module _ (http : Http) (items_of : Response → Result (List Json)) (fuel : ℕ) {A : Type 0}
    (validate : Json → Result A) where
  listing : Text → Params → Py HttpLog (Option (List A))
  unfolding validated
  listing path params = paginate http items_of fuel path params >>= validated validate

  since : Text → Option Text → Params → Params
  since key none params = params
  since key (some time) params = params ++ (key, time) ∷ []

  unfoldable pub get_mr_commits : ℕ → ℕ → Py HttpLog (Option (List A))
  unfolding listing
  get_mr_commits project_id mr_iid = listing (mr_path project_id mr_iid (codes "commits")) []

  unfoldable pub list_project_mrs : ℕ → Text → Option Text → Py HttpLog (Option (List A))
  unfolding listing since
  list_project_mrs project_id state updated_after =
      listing (merge_requests project_id)
        (since (codes "updated_after") updated_after ((codes "state", state) ∷ []))

  unfoldable pub list_mr_notes : ℕ → ℕ → Option Text → Py HttpLog (Option (List A))
  unfolding listing since
  list_mr_notes project_id mr_iid created_after =
      listing (mr_path project_id mr_iid (codes "notes"))
        (since (codes "created_after") created_after [])

-- The numeric ID, or the path to ask for.
pub data IdOrPath : Type 0 where
  id : ℕ → IdOrPath
  path : Text → IdOrPath

or_key_error : Text → Option Json → Result Json
or_key_error key none = raised (record { kind = key_error; message = key })
or_key_error key (some value) = ok value

-- `d[key]`
unfoldable pub field_of : Text → Fields → Result Json
unfolding or_key_error
field_of key found = or_key_error key (get_field key found)

-- `int(...)` and `str(...)` of JSON, and `quote`, are given.
pub record Conversions : Type 0 where
  pub int_of : Json → Result ℕ
  pub text_of : Json → Text
  pub quote : Text → Text

module _ (http : Http) (convert : Conversions) where
  -- `int(resp.json()[key])`
  unfoldable pub number_in : Text → Response → Py HttpLog ℕ
  unfolding field_of
  number_in key resp = do
    found ← lift (json_fields resp)
    value ← lift (field_of key found)
    lift (convert.int_of value)

  unfoldable pub resolve_project : IdOrPath → Py HttpLog ℕ
  unfolding number_in
  resolve_project (id n) = pure n
  resolve_project (path p) = do
    resp ← request http none (get_request (codes "/projects/" ++ convert.quote p) [])
    number_in (codes "id") resp

  unfoldable pub get_current_user : Py HttpLog AgentIdentity
  unfolding field_of
  get_current_user = do
    resp ← request http none (get_request (codes "/user") [])
    found ← lift (json_fields resp)
    user_id ← lift (then_result (field_of (codes "id") found) convert.int_of)
    username ← lift (field_of (codes "username") found)
    pure (record { user_id = user_id; username = convert.text_of username })

  unfoldable pub create_merge_request : ℕ → Text → Text → Text → Text → Py HttpLog ℕ
  unfolding number_in
  create_merge_request project_id source_branch target_branch title description = do
    resp ←
        request http none
          (merge_request_request project_id source_branch target_branch title description)
    number_in (codes "iid") resp

module _ (http : Http) (items_of : Response → Result (List Json)) (fuel : ℕ)
    (read : Json → Result RawDiscussion) where
  -- `read` is what `_parse_discussions` asks of an item.
  unfoldable pub list_mr_discussions : ℕ → ℕ → Py HttpLog (Option (List Discussion))
  unfolding validated
  list_mr_discussions project_id mr_iid = do
    raws ←
        paginate http items_of fuel (mr_path project_id mr_iid (codes "discussions")) []
        >>= validated read
    pure (Option.map parse_discussions raws)
