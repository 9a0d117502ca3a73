-- ===== src/GitlabClient/Calls.antt =====
-- The writing calls of gitlab_client.py: the request that each one makes.
use gitlab_copilot_agent.Prelude.{ℕ, ℤ, Text, codes, show, [], ◌++◌, true, none}
use gitlab_copilot_agent.Effects.{Py, pure, ◌>>◌}
use gitlab_copilot_agent.Json.{Json, bool, int, str, object, Fields, no_fields, field}
use gitlab_copilot_agent.Gitlab.{
  DiffRef, Call, post_mr_comment, create_mr_discussion, reply_to_discussion, resolve_discussion,
}
use gitlab_copilot_agent.GitlabClient.{Method, post, put, Request, HttpLog, Http, request}

-- `f"/projects/{project_id}/merge_requests"`
unfoldable pub merge_requests : ℕ → Text
merge_requests project_id = codes "/projects/" ++ (show project_id ++ codes "/merge_requests")

-- `f"/projects/{project_id}/merge_requests/{mr_iid}/..."`
unfoldable pub mr_path : ℕ → ℕ → Text → Text
mr_path project_id mr_iid rest =
    merge_requests project_id ++ (codes "/" ++ (show mr_iid ++ (codes "/" ++ rest)))

unfoldable pub body_field : Text → Fields → Fields
body_field body rest = field (codes "body") (str body) rest

-- The position that comment_poster.py puts together.
unfoldable pub position_of : DiffRef → Text → ℤ → Json
position_of diff_refs file line = object (
    field (codes "base_sha") (str diff_refs.base_sha) (
      field (codes "start_sha") (str diff_refs.start_sha) (
        field (codes "head_sha") (str diff_refs.head_sha) (
          field (codes "position_type") (str (codes "text")) (
            field (codes "old_path") (str file) (
              field (codes "new_path") (str file)
                (field (codes "new_line") (int line) no_fields)))))))

writing : Method → Text → Fields → Request
writing method path fields = record {
  method = method;
  path = path;
  json = object fields;
  params = [];
}

unfoldable pub comment_request : ℕ → ℕ → Text → Request
unfolding writing
comment_request project_id mr_iid body =
    writing post (mr_path project_id mr_iid (codes "notes")) (body_field body no_fields)

unfoldable pub discussion_request : ℕ → ℕ → Text → Json → Request
unfolding writing
discussion_request project_id mr_iid body position =
    writing post (mr_path project_id mr_iid (codes "discussions"))
      (body_field body (field (codes "position") position no_fields))

unfoldable pub resolve_request : ℕ → ℕ → Text → Request
unfolding writing
resolve_request project_id mr_iid discussion_id =
    writing put (mr_path project_id mr_iid (codes "discussions/" ++ discussion_id))
      (field (codes "resolved") (bool true) no_fields)

unfoldable pub reply_request : ℕ → ℕ → Text → Text → Request
unfolding writing
reply_request project_id mr_iid discussion_id body =
    writing post
      (mr_path project_id mr_iid (codes "discussions/" ++ (discussion_id ++ codes "/notes")))
      (body_field body no_fields)

unfoldable pub merge_request_request : ℕ → Text → Text → Text → Text → Request
unfolding writing
merge_request_request project_id source_branch target_branch title description =
    writing post (merge_requests project_id) (
      field (codes "source_branch") (str source_branch) (
        field (codes "target_branch") (str target_branch) (
          field (codes "title") (str title)
            (field (codes "description") (str description) no_fields))))

-- The request of a call.
unfoldable pub request_of : Call → Request
request_of (post_mr_comment project_id mr_iid body) = comment_request project_id mr_iid body
request_of (create_mr_discussion project_id mr_iid body diff_refs file line) =
    discussion_request project_id mr_iid body (position_of diff_refs file line)
request_of (reply_to_discussion project_id mr_iid discussion_id body) =
    reply_request project_id mr_iid discussion_id body
request_of (resolve_discussion project_id mr_iid discussion_id) =
    resolve_request project_id mr_iid discussion_id

-- `post_mr_comment`, `create_mr_discussion`, `reply_to_discussion` and `resolve_discussion`
unfoldable pub perform_call : Http → Call → Py HttpLog (Unit {0})
perform_call http c = request http none (request_of c) >> pure tt
