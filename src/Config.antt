-- ===== src/Config.antt =====
-- config_v2.py: the models of the configuration file. pydantic's validation of the single fields is given.
pub mod File
pub mod Validity
use gitlab_copilot_agent.Prelude.{ℕ, Text, List, [], Bool, true, false, Option, none, some, codes}
use gitlab_copilot_agent.Comments.Parsed.{Behavior}

-- `GitLabConfig`
pub record GitlabConfig : Type 0 where
  pub url : Text

-- `Literal["local", "k8s", "aca"]`
pub data Backend : Type 0 where
  local k8s aca : Backend

pub record DispatchConfig : Type 0 where
  pub backend : Backend
  pub k8s_namespace : Text
  pub k8s_job_image : Text
  pub k8s_job_timeout : ℕ
  pub aca_subscription_id : Text
  pub aca_resource_group : Text
  pub aca_job_name : Text
  pub aca_job_timeout : ℕ

abbrev pub default_dispatch : DispatchConfig
default_dispatch = record {
  backend = Backend.local;
  k8s_namespace = codes "default";
  k8s_job_image = [];
  k8s_job_timeout = 600;
  aca_subscription_id = [];
  aca_resource_group = [];
  aca_job_name = [];
  aca_job_timeout = 600;
}

pub record CopilotConfig : Type 0 where
  pub model : Text
  pub plugins : List Text
  pub marketplaces : List Text

abbrev pub default_copilot : CopilotConfig
default_copilot = record { model = codes "gpt-4"; plugins = []; marketplaces = [] }

pub record ServerConfig : Type 0 where
  pub log_level : Text
  pub auto_merge_enabled : Bool
  pub clone_dir : Option Text
  pub shutdown_timeout : ℕ
  pub webhook_ip_allowlist : List Text
  pub trusted_proxies : List Text

abbrev pub default_server : ServerConfig
default_server = record {
  log_level = codes "info";
  auto_merge_enabled = false;
  clone_dir = none;
  shutdown_timeout = 30;
  webhook_ip_allowlist = [];
  trusted_proxies = [];
}

pub record PromptsConfig : Type 0 where
  pub system : Option Text
  pub system_suffix : Option Text
  pub review : Option Text
  pub review_suffix : Option Text
  pub coding : Option Text
  pub coding_suffix : Option Text
  pub discussion : Option Text
  pub discussion_suffix : Option Text

abbrev pub default_prompts : PromptsConfig
default_prompts = record {
  system = none;
  system_suffix = none;
  review = none;
  review_suffix = none;
  coding = none;
  coding_suffix = none;
  discussion = none;
  discussion_suffix = none;
}

pub record PollConfig : Type 0 where
  pub enabled : Bool
  pub interval : ℕ
  pub lookback_minutes : ℕ
  pub review_on_push : Bool

abbrev pub default_poll : PollConfig
default_poll = record {
  enabled = false;
  interval = 30;
  lookback_minutes = 60;
  review_on_push = true;
}

pub record ConfigDefaults : Type 0 where
  pub target_branch : Text
  pub credential_ref : Text
  pub resolution_behavior : Behavior
  pub webhook : Bool
  pub poll : PollConfig

abbrev pub default_defaults : ConfigDefaults
default_defaults = record {
  target_branch = codes "main";
  credential_ref = codes "default";
  resolution_behavior = Behavior.suggest;
  webhook = true;
  poll = default_poll;
}

pub record ProjectConfig : Type 0 where
  pub repo : Text
  pub credential_ref : Option Text
  pub target_branch : Option Text
  pub resolution_behavior : Option Behavior
  pub webhook : Option Bool
  pub poll : Option PollConfig
  pub copilot : Option CopilotConfig
  pub integrations : List Text

-- `JiraIntegrationConfig`; its `type` is always `jira`.
pub record JiraIntegrationConfig : Type 0 where
  pub name : Text
  pub project_key : Text
  pub trigger_status : Text
  pub in_progress_status : Text
  pub in_review_status : Text

-- `ConfigFile`; its `version` is always 2.
pub record ConfigFile : Type 0 where
  pub gitlab : GitlabConfig
  pub dispatch : DispatchConfig
  pub copilot : CopilotConfig
  pub server : ServerConfig
  pub prompts : PromptsConfig
  pub defaults : ConfigDefaults
  pub projects : List ProjectConfig
  pub integrations : List JiraIntegrationConfig
