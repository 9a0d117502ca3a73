-- ===== src/GitlabClient/Pages.antt =====
-- `_paginate` of gitlab_client.py, with the reading calls that go through it.
pub mod Exact
use gitlab_copilot_agent.Prelude.{
  ℕ, zero, suc, Text, text_eq, codes, show, List, [], ◌∷◌, ◌++◌, ltb, Option, none, some, length,
  if◌then◌else◌,
}
use gitlab_copilot_agent.Effects.{Result, Py, pure, lift, ◌>>=◌}
use gitlab_copilot_agent.Json.{Json, null}
use gitlab_copilot_agent.Concurrency.OrderedDict.{insert}
use gitlab_copilot_agent.GitlabClient.{get, Request, Response, HttpLog, Http, page_size, request}
use gitlab_copilot_agent.GitlabClient.Calls.{merge_requests, mr_path}

abbrev pub Params : Type 0
Params = List (Text × Text)

-- `page_params` of a page
unfoldable pub page_params : Params → ℕ → Params
page_params params page =
    insert (codes "page") (show page) (insert (codes "per_page") (show page_size) params)

unfoldable pub page_request : Text → Params → ℕ → Request
page_request path params page = record {
  method = get;
  path = path;
  json = null;
  params = page_params params page;
}

-- The items of a page, as `resp.json()` reads them.
module _ (http : Http) (items_of : Response → Result (List Json)) where
  unfoldable pub page_items : Text → Params → ℕ → Py HttpLog (List Json)
  page_items path params page = do
    resp ← request http none (page_request path params page)
    lift (items_of resp)

  -- What follows a page: `more` is the rest of the loop.
  unfoldable pub after_page :
      List Json
      → (List Json → Py HttpLog (Option (List Json)))
      → List Json
      → Py HttpLog (Option (List Json))
  after_page all_items more [] = pure (some all_items)
  after_page all_items more (x ∷ items) =
      if ltb (length (x ∷ items)) page_size
      then pure (some (all_items ++ (x ∷ items)))
      else more (all_items ++ (x ∷ items))

  -- The loop, on fuel: `none` means that the fuel ran out.
  unfoldable pub pages : ℕ → Text → Params → ℕ → List Json → Py HttpLog (Option (List Json))
  pages zero path params page all_items = pure none
  pages (suc fuel) path params page all_items =
      page_items path params page >>= after_page all_items (pages fuel path params (suc page))

  -- `_paginate`
  unfoldable pub paginate : ℕ → Text → Params → Py HttpLog (Option (List Json))
  paginate fuel path params = pages fuel path params 1 []
