-- ===== src/ReviewEngine/Suppressed.antt =====
-- `format_suppressed_feedback` of review_engine.py.
use gitlab_copilot_agent.Prelude.{
  ℕ, nat_eq, show_int, Text, text_eq, codes, join, List, [], ◌∷◌, ◌++◌, Option, none, some, ◌==◌,
  if◌then◌else◌,
}
use gitlab_copilot_agent.Config.File.{option_or}
use gitlab_copilot_agent.Discussions.{
  int_line, Position, DiscussionNote, Discussion, DiscussionHistory,
}
use gitlab_copilot_agent.Threads.{first_note}
use gitlab_copilot_agent.ReviewEngine.{
  Patterns, position_path, is_human_resolved, is_dismissed, strip_comment_formatting,
}

line_suffix : Option Position → Text
line_suffix none = []
line_suffix (some p) = elim p.new_line [ int_line n ↦ codes ":" ++ show_int n | _ ↦ [] ]

-- `_file_line`
unfoldable pub file_line : DiscussionNote → Text
unfolding line_suffix position_path
file_line note =
    option_or (position_path note.position) (codes "unknown") ++ line_suffix note.position

module _ (patterns : Patterns) where
  suppressed_line : DiscussionNote → Text → Text
  suppressed_line note tag =
      codes "- "
      ++ (file_line note ++ (codes ": " ++ (strip_comment_formatting patterns note.body ++ tag)))

  note_lines : ℕ → Discussion → Option DiscussionNote → List Text
  unfolding suppressed_line
  note_lines agent_user_id disc none = []
  note_lines agent_user_id disc (some note) =
      if note.author_id == agent_user_id
      then (if is_human_resolved disc agent_user_id
          then suppressed_line note (codes " [MANUALLY RESOLVED]") ∷ []
          else if is_dismissed patterns disc.notes agent_user_id
          then suppressed_line note (codes " [DISMISSED]") ∷ []
          else [])
      else []

  -- The loop that fills `suppressed`.
  unfoldable pub suppressed_lines : ℕ → List Discussion → List Text
  unfolding note_lines
  suppressed_lines agent_user_id [] = []
  suppressed_lines agent_user_id (disc ∷ discs) =
      (if disc.is_inline then note_lines agent_user_id disc (first_note disc.notes) else [])
      ++ suppressed_lines agent_user_id discs

  suppressed_text : List Text → Text
  suppressed_text [] = []
  suppressed_text (line ∷ lines) = join (codes "\n") (
      codes "## Suppressed Feedback (Do Not Re-Raise)\n"
      ∷ ((line ∷ lines)
          ++ []
            ∷ codes
                "Rules:\n- Do NOT re-raise, reference, or generate any comment covering the same issue as any item listed below, even if the code pattern persists.\n- These items were reviewed by a human and intentionally resolved or dismissed — respect the developer's decision."
            ∷ []))

  unfoldable pub format_suppressed_feedback : DiscussionHistory → Text
  unfolding suppressed_text
  format_suppressed_feedback history =
      suppressed_text (suppressed_lines history.agent.user_id history.discussions)
