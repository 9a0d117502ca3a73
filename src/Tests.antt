-- ===== src/Tests.antt =====
-- Instances of the theorems at concrete inputs.
mod Concurrency
mod Dedup
mod Comments
mod Pipelines
mod Webhooks
mod Pollers
mod Configs
mod Agents
mod Jira
mod Engine
mod Clients
mod Stores
mod Parsers
