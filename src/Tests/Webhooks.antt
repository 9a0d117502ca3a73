-- ===== src/Tests/Webhooks.antt =====
-- Instances of the theorems on gitlab_webhook.py.
use gitlab_copilot_agent.Prelude.{
  ℕ, nat_eq, Text, text_eq, codes, List, [], Bool, true, false, some, none, ◌≢◌, refl, arith,
}
use gitlab_copilot_agent.Effects.{Result, ok, raised, Exn, other, Py, pure}
use gitlab_copilot_agent.Comments.Parsed.{Behavior}
use gitlab_copilot_agent.Concurrency.OrderedDict.{distinct}
use gitlab_copilot_agent.Concurrency.MemoryDedup.{MemoryDedup, memory_dedup}
use gitlab_copilot_agent.Dedup.Service.Reviews.{IsReady}
use gitlab_copilot_agent.Discussions.{Discussion, AgentIdentity}
use gitlab_copilot_agent.Events.{TaskEvent}
use gitlab_copilot_agent.Webhook.Payloads.{MrPayload, NotePayload, Body, Settings, App}
use gitlab_copilot_agent.Webhook.{webhook}
use gitlab_copilot_agent.Webhook.Branches.{Queues}
use gitlab_copilot_agent.Webhook.Queue.{Admits, webhook-Queues_justified}

abbrev cache : MemoryDedup
cache = record { seen = []; max_size = 10 }

abbrev app : App MemoryDedup (Unit {0})
app = record { dedup = record { local = cache; backend = cache }; tasks = []; world = tt }

abbrev settings : Settings
settings = record {
  gitlab_url = codes "https://gitlab.example.com";
  gitlab_token = codes "t";
  gitlab_webhook_secret = some (codes "s");
  resolution_behavior = Behavior.suggest;
  allowed_project_ids = none;
}

abbrev payload : MrPayload
payload = record {
  object_kind = codes "merge_request";
  user = record { id = 1; username = codes "dev" };
  project = record {
    id = 7;
    path_with_namespace = codes "g/a";
    git_http_url = codes "https://gitlab.example.com/g/a.git";
  };
  object_attributes = record {
    iid = 3;
    title = codes "t";
    description = none;
    action = codes "open";
    source_branch = codes "f";
    target_branch = codes "main";
    last_commit = record { id = codes "abc1234"; message = codes "m" };
    url = [];
    oldrev = none;
  };
}

abbrev note_payload : NotePayload
note_payload = record {
  object_kind = codes "note";
  user = record { id = 1; username = codes "dev" };
  project = record {
    id = 7;
    path_with_namespace = codes "g/a";
    git_http_url = codes "https://gitlab.example.com/g/a.git";
  };
  object_attributes = record {
    id = 9;
    note = codes "@agent hi";
    noteable_type = codes "MergeRequest";
    discussion_id = none;
  };
  merge_request = record {
    iid = 3;
    title = codes "t";
    source_branch = codes "f";
    target_branch = codes "main";
  };
}

abbrev refused : Exn
refused = record { kind = other; message = [] }

abbrev body : Body
body = record {
  project_id = ok (some 7);
  object_kind = ok (some (codes "merge_request"));
  as_merge_request = ok payload;
  as_note = raised refused;
}

abbrev agent : AgentIdentity
agent = record { user_id = 42; username = codes "agent" }

abbrev no_word : ℕ → Bool
no_word c = false

abbrev identify : Text → Result AgentIdentity
identify credential_ref = ok agent

abbrev no_discussions : Text → ℕ → ℕ → Result (List Discussion)
no_discussions token project_id mr_iid = ok []

webhook-Queues_justified_example :
    Queues
      (Admits no_word settings none identify no_discussions memory_dedup true app
        (some (codes "s"))
        (some body))
      (webhook no_word settings none identify no_discussions memory_dedup true
        (some (codes "s"))
        (some body))
      app
webhook-Queues_justified_example =
    webhook-Queues_justified no_word settings none identify no_discussions memory_dedup true
      (some (codes "s")) (some body) app

abbrev run_ok : TaskEvent → Py (Unit {0}) (Unit {0})
run_ok event = pure tt

app-IsReady : IsReady app.dedup
unfolding distinct
app-IsReady = record {
  cache = record { bounded = omega arith; distinct_keys = refl };
  room = omega arith;
}

abbrev nine : ℕ
nine = 9

note_is_known : nine ≢ 0
note_is_known h = omega (arith, h)
