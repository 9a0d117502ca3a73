-- ===== src/Dedup.antt =====
-- dedup.py: `DeduplicationService`, a local cache in front of a shared store.
pub mod Keys
pub mod Service
