-- ===== src/Comments.antt =====
-- comment_poster.py: a parsed review becomes discussions, notes and a summary on the MR.
pub mod Parsed
pub mod Hunks
pub mod Post
