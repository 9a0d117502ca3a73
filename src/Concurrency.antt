-- ===== src/Concurrency.antt =====
-- src/gitlab_copilot_agent/concurrency: the protocols, and their in-memory implementations.
pub mod Protocols
pub mod OrderedDict
pub mod MemoryDedup
pub mod MemoryLock
pub mod MemoryQueue
