-- ===== src/Tests/Engine.antt =====
-- Instances of the theorems on review_engine.py.
use gitlab_copilot_agent.Prelude.{
  ◌+◌, ◌≤◌, nat_eq, pos, text_eq, codes, length, strip, is_space, lstrip, [], ◌∷◌, true, false,
  none, some, ◌≡◌, refl, arith, list_beq,
}
use gitlab_copilot_agent.Concurrency.OrderedDict.{lookup, insert}
use gitlab_copilot_agent.Discussions.{int_line, DiscussionNote, Discussion, DiscussionHistory}
use gitlab_copilot_agent.Threads.{first_note}
use gitlab_copilot_agent.ReviewPipeline.{allowed_ids}
use gitlab_copilot_agent.ReviewEngine.{
  Patterns, Entry, comments_by_file, add_prior, append_entry, entries_or, prior_entry, note_entry,
  entry, line_number, position_path, strip_comment_formatting,
}
use gitlab_copilot_agent.ReviewEngine.Prompt.{commit_lines}
use gitlab_copilot_agent.ReviewEngine.Bounds.{commit_lines-bounded}
use gitlab_copilot_agent.ReviewEngine.Offers.{ListsOnly, comments_by_file-allowed}
use gitlab_copilot_agent.Tests.Agents.{note, thread, agent}

abbrev patterns : Patterns
patterns = record {
  strip_severity = λ s. s;
  strip_suggestions = λ s. s;
  is_dismissal = λ s. false;
  int_of = λ s. none;
}

commit_lines-bounded_example : 0 + length (commit_lines 0 (codes "Fix" ∷ codes "Tidy" ∷ [])) ≤ 4034
commit_lines-bounded_example =
    commit_lines-bounded 0 (codes "Fix" ∷ codes "Tidy" ∷ []) (omega arith)

abbrev placed : DiscussionNote
placed = record note {
  position =
      some (record { new_path = some (codes "a"); new_line = int_line (pos 4); head_sha = none });
}

abbrev open_thread : Discussion
open_thread = record thread { notes = placed ∷ [] }

abbrev resolved_thread : Discussion
resolved_thread = record open_thread { is_resolved = true }

abbrev history : DiscussionHistory
history = record { discussions = open_thread ∷ resolved_thread ∷ []; agent = agent }

abbrev listed_entry : Entry
listed_entry = record {
  line = some (pos 4);
  body = codes "Check this.";
  discussion_id = codes "d1";
  head_sha = none;
}

-- The open thread is listed, and the resolved one is not.
one_thread_is_listed :
    comments_by_file patterns 1 history.discussions [] ≡ (codes "a", listed_entry ∷ []) ∷ []
unfolding comments_by_file add_prior append_entry entries_or lookup insert prior_entry note_entry
    entry line_number position_path strip_comment_formatting first_note strip lstrip is_space
    list_beq
one_thread_is_listed = refl

comments_by_file-allowed_example :
    ListsOnly (allowed_ids (some history)) (comments_by_file patterns 1 history.discussions [])
comments_by_file-allowed_example = comments_by_file-allowed patterns history
