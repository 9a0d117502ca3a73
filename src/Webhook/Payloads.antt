-- ===== src/Webhook/Payloads.antt =====
-- The webhook payloads of models.py, and what the endpoint of gitlab_webhook.py keeps and answers.
use gitlab_copilot_agent.Prelude.{ℕ, Text, text_eq, nat_eq, List, [], ◌∷◌, ◌++◌, Option}
use gitlab_copilot_agent.Effects.{Result, ok, Py}
use gitlab_copilot_agent.Comments.Parsed.{Behavior}
use gitlab_copilot_agent.Dedup.Service.{DedupState}
use gitlab_copilot_agent.Discussions.{AgentIdentity}

-- `WebhookProject`
pub record WebhookProject : Type 0 where
  pub id : ℕ
  pub path_with_namespace : Text
  pub git_http_url : Text

-- `WebhookUser`
pub record WebhookUser : Type 0 where
  pub id : ℕ
  pub username : Text

-- `MRLastCommit`
pub record LastCommit : Type 0 where
  pub id : Text
  pub message : Text

-- `MRObjectAttributes`
pub record MrAttributes : Type 0 where
  pub iid : ℕ
  pub title : Text
  pub description : Option Text
  pub action : Text
  pub source_branch : Text
  pub target_branch : Text
  pub last_commit : LastCommit
  pub url : Text
  pub oldrev : Option Text

-- `MergeRequestWebhookPayload`
pub record MrPayload : Type 0 where
  pub object_kind : Text
  pub user : WebhookUser
  pub project : WebhookProject
  pub object_attributes : MrAttributes

-- `NoteObjectAttributes`
pub record NoteAttributes : Type 0 where
  pub id : ℕ
  pub note : Text
  pub noteable_type : Text
  pub discussion_id : Option Text

-- `NoteMergeRequest`
pub record NoteMr : Type 0 where
  pub iid : ℕ
  pub title : Text
  pub source_branch : Text
  pub target_branch : Text

-- `NoteWebhookPayload`
pub record NotePayload : Type 0 where
  pub object_kind : Text
  pub user : WebhookUser
  pub project : WebhookProject
  pub object_attributes : NoteAttributes
  pub merge_request : NoteMr

-- A JSON body: what the handler reads of it, and what its validation as either payload gives. `project_id` is
-- `body.get("project", {}).get("id")` as a number, `none` where it is no number; a body that is no object raises
-- where it is read, and so does a `project` of `null`.
pub record Body : Type 0 where
  pub project_id : Result (Option ℕ)
  pub object_kind : Result (Option Text)
  pub as_merge_request : Result MrPayload
  pub as_note : Result NotePayload

-- The settings that the handler reads.
pub record Settings : Type 0 where
  pub gitlab_url : Text
  pub gitlab_token : Text
  pub gitlab_webhook_secret : Option Text
  pub resolution_behavior : Behavior
  pub allowed_project_ids : Option (List ℕ)

-- The answers of the endpoint, each with its reason.
pub data Response : Type 0 where
  queued : Response
  ignored : Text → Response
  skipped : Text → Response
  bad_request : Text → Response

-- `background_tasks.add_task(...)`
pub data Job : Type 0 where
  review_job : MrPayload → Job
  discussion_job : NotePayload → AgentIdentity → ℕ → ℕ → Job

-- The service's deduplication, the tasks added so far, and the world of the pipelines.
pub record App (S W : Type 0) : Type 0 where
  pub dedup : DedupState S
  pub tasks : List Job
  pub world : W

module _ {S W : Type 0} where
  -- A step of the deduplication service.
  abbrev pub on_dedup : {A : Type 0} → Py (DedupState S) A → Py (App S W) A
  on_dedup m s = let (r, d) = m s.dedup in (r, record s { dedup = d })

  -- A step of a pipeline.
  abbrev pub on_world : {A : Type 0} → Py W A → Py (App S W) A
  on_world m s = let (r, w) = m s.world in (r, record s { world = w })

  abbrev pub add_task : Job → Py (App S W) Response
  add_task job s = (ok queued, record s { tasks = s.tasks ++ job ∷ [] })
