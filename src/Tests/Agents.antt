-- ===== src/Tests/Agents.antt =====
-- Instances of the theorems on discussion_pipeline.py and review_pipeline.py.
use gitlab_copilot_agent.Prelude.{
  nat_eq, Text, text_eq, codes, [], ◌∷◌, true, false, Option, none, some,
}
use gitlab_copilot_agent.Effects.{ok}
use gitlab_copilot_agent.Comments.Parsed.{Behavior, Status}
use gitlab_copilot_agent.Discussions.{Discussion, DiscussionNote, AgentIdentity}
use gitlab_copilot_agent.Events.{TaskEvent, TaskType, TriggerSource}
use gitlab_copilot_agent.Tasks.{coding_result}
use gitlab_copilot_agent.Pipeline.{new_context, run_pipeline}
use gitlab_copilot_agent.Outside.{Environment, MrDetails}
use gitlab_copilot_agent.Threads.{AnswerBlock}
use gitlab_copilot_agent.DiscussionPipeline.{PipelineSettings, new_discussion}
use gitlab_copilot_agent.DiscussionPipeline.Process.{discussion_pipeline}
use gitlab_copilot_agent.DiscussionPipeline.Permitted
use gitlab_copilot_agent.DiscussionPipeline.Permitted.Process.{discussion_pipeline_allowed}
use gitlab_copilot_agent.ReviewPipeline.{ReviewTexts, new_review}
use gitlab_copilot_agent.ReviewPipeline.Stages.{review_pipeline}
use gitlab_copilot_agent.ReviewPipeline.Permitted as Reviews
use gitlab_copilot_agent.ReviewPipeline.Permitted.Stages.{review_pipeline_allowed}

abbrev pub note : DiscussionNote
note = record {
  note_id = 7;
  author_id = 1;
  author_username = codes "agent";
  body = codes "Check this.";
  created_at = codes "2024";
  is_system = false;
  resolved = none;
  resolved_by_id = none;
  resolvable = true;
  position = none;
}

abbrev pub thread : Discussion
thread = record {
  discussion_id = codes "d1";
  notes = note ∷ [];
  is_resolved = false;
  is_inline = true;
}

abbrev pub mr : MrDetails
mr = record {
  title = codes "Add a page";
  description = none;
  diff_refs = record { base_sha = codes "a"; start_sha = codes "a"; head_sha = codes "b" };
  changes = [];
}

abbrev pub agent : AgentIdentity
agent = record { user_id = 1; username = codes "agent" }

-- Everything succeeds, and the executor hands back a patch.
abbrev pub calm : Environment
calm = record {
  validate_clone_url_host = λ url gitlab. ok tt;
  clone_repo = λ log. ok (codes "/tmp/r");
  get_mr_details = λ log. ok mr;
  get_mr_commits = λ log. ok [];
  list_mr_discussions = λ log. ok (thread ∷ []);
  resolve_identity = λ log. ok agent;
  compare_commits = λ log a b. ok [];
  git_fetch = λ log. ok true;
  write = λ log. ok tt;
  execute = λ log task. ok (coding_result (codes "Done.") (codes "diff") []);
  git_head_sha = λ log. ok (codes "a");
  git_apply_patch = λ log. ok tt;
  git_commit = λ log. ok true;
  git_push = λ log. ok tt;
  git_unique_branch = λ log prefix. ok prefix;
  create_merge_request = λ log. ok 1;
  transition_issue = λ log. ok tt;
  add_comment = λ log. ok tt;
  gitlab = λ log c. ok tt;
  exists = λ log dir. true;
  remove = λ log. ok tt;
}

abbrev settings : PipelineSettings
settings = record {
  gitlab_url = codes "https://gitlab.example.com";
  prompt_strategy = codes "inline";
  system_prompt = [];
}

abbrev event : TaskEvent
event = record {
  task_type = TaskType.discussion;
  project_id = 3;
  repo = codes "g/a";
  clone_url = codes "https://gitlab.example.com/g/a.git";
  branch = codes "topic";
  target_branch = codes "main";
  mr_iid = some 5;
  head_sha = some (codes "b");
  trigger_source = TriggerSource.webhook;
  token = codes "t";
  credential_ref = codes "default";
  resolution_behavior = Behavior.auto_resolve;
  note_id = some 7;
  discussion_id = none;
  note_body = some (codes "please fix");
  jira_issue_key = none;
}

abbrev pub lower : Text → Text
lower s = s

-- The answer says that the thread is resolved.
abbrev resolved_block : Text → Option (Text × AnswerBlock)
resolved_block raw = some (
  raw,
  record {
    files_changed = false;
    has_resolution = true;
    summary = none;
    resolution =
        some (record { discussion_id = codes "d1"; status = Status.resolved; message = [] });
  },
)

discussion_pipeline_allowed_example :
    Permitted.Good calm resolved_block event 5 7 agent
      (run_pipeline
        (discussion_pipeline calm lower resolved_block settings event 5 7 agent)
        (record { context = new_context; world = record { fields = new_discussion; log = [] } })).1
discussion_pipeline_allowed_example =
    discussion_pipeline_allowed calm lower resolved_block settings event 5 7 agent new_context

abbrev texts : ReviewTexts
texts = record {
  build_review_prompt = λ request context head_sha dir. [];
  format_prior_feedback = λ history head_sha. [];
  format_suppressed_feedback = λ history. [];
  parse_review = λ raw.
      ok (record { comments = []; summary = raw; resolutions = []; parse_path = codes "json" });
}

review_pipeline_allowed_example :
    Reviews.Good calm event 5
      (run_pipeline
        (review_pipeline calm texts lower lower settings event 5 (codes "b") true)
        (record { context = new_context; world = record { fields = new_review; log = [] } })).1
review_pipeline_allowed_example =
    review_pipeline_allowed calm texts lower lower settings event 5 (codes "b") true new_context
