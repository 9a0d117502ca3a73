-- ===== src/ReviewEngine.antt =====
-- review_engine.py: the agent's earlier comments, as they enter a review. The patterns of dismissals and of a comment's
-- formatting are regular expressions, and given, as `int` on texts is.
pub mod Prompt
pub mod Suppressed
pub mod Offers
pub mod Bounds
use gitlab_copilot_agent.Prelude.{
  ℕ, suc, nat_eq, ℤ, pos, negsuc, show_int, leb, Text, text_eq, codes, join, strip, sorted_texts,
  contains, List, [], ◌∷◌, ◌++◌, Bool, true, false, not, ◌&&◌, ◌||◌, Option, none, some, ◌==◌,
  if◌then◌else◌, is_some,
}
use gitlab_copilot_agent.Concurrency.OrderedDict.{lookup, insert, keys}
use gitlab_copilot_agent.Discussions.{
  LineValue, no_line, int_line, text_line, Position, DiscussionNote, Discussion, DiscussionHistory,
}
use gitlab_copilot_agent.Threads.{first_note}

-- The regular expressions and `int`.
pub record Patterns : Type 0 where
  pub strip_severity : Text → Text
  pub strip_suggestions : Text → Text
  pub is_dismissal : Text → Bool
  pub int_of : Text → Option ℤ

-- One entry of `comments_by_file`.
pub record Entry : Type 0 where
  pub line : Option ℤ
  pub body : Text
  pub discussion_id : Text
  pub head_sha : Option Text

other_resolver : ℕ → Option ℕ → Bool
other_resolver agent_user_id none = false
other_resolver agent_user_id (some user_id) = not (user_id == agent_user_id)

resolved_by_other : ℕ → List DiscussionNote → Bool
unfolding other_resolver
resolved_by_other agent_user_id [] = false
resolved_by_other agent_user_id (note ∷ notes) =
    other_resolver agent_user_id note.resolved_by_id || resolved_by_other agent_user_id notes

-- `_is_human_resolved`
unfoldable pub is_human_resolved : Discussion → ℕ → Bool
unfolding resolved_by_other
is_human_resolved disc agent_user_id =
    disc.is_resolved && resolved_by_other agent_user_id disc.notes

int_leb : ℤ → ℤ → Bool
int_leb (pos a) (pos b) = leb a b
int_leb (pos a) (negsuc b) = false
int_leb (negsuc a) (pos b) = true
int_leb (negsuc a) (negsuc b) = leb b a

-- Entries without a line come last.
entry_leb : Option ℤ → Option ℤ → Bool
unfolding int_leb
entry_leb none none = true
entry_leb none (some b) = false
entry_leb (some a) none = true
entry_leb (some a) (some b) = int_leb a b

insert_entry : Entry → List Entry → List Entry
unfolding entry_leb
insert_entry x [] = x ∷ []
insert_entry x (y ∷ ys) =
    let rest = insert_entry x ys in if entry_leb x.line y.line then x ∷ y ∷ ys else y ∷ rest

-- `sorted(..., key=...)`, which is stable
unfoldable pub sorted_entries : List Entry → List Entry
unfolding insert_entry
sorted_entries [] = []
sorted_entries (x ∷ xs) = insert_entry x (sorted_entries xs)

unfoldable pub entries_or : Option (List Entry) → List Entry
entries_or none = []
entries_or (some es) = es

unfoldable pub append_entry : Text → Entry → List (Text × List Entry) → List (Text × List Entry)
unfolding entries_or
append_entry file_path x d = insert file_path (entries_or (lookup file_path d) ++ x ∷ []) d

-- `raw_path`, where it is a text that is not blank
path_text : Option Text → Option Text
path_text none = none
path_text (some raw_path) = if strip raw_path == [] then none else some raw_path

unfoldable pub position_path : Option Position → Option Text
unfolding path_text
position_path none = none
position_path (some p) = path_text p.new_path

module _ (patterns : Patterns) where
  -- `_is_dismissed`
  unfoldable pub is_dismissed : List DiscussionNote → ℕ → Bool
  is_dismissed [] agent_user_id = false
  is_dismissed (note ∷ notes) agent_user_id =
      (not (note.author_id == agent_user_id) && patterns.is_dismissal note.body)
      || is_dismissed notes agent_user_id

  -- `_strip_comment_formatting`
  unfoldable pub strip_comment_formatting : Text → Text
  strip_comment_formatting body = strip (patterns.strip_suggestions (patterns.strip_severity body))

  unfoldable pub line_number : LineValue → Option ℤ
  line_number no_line = none
  line_number (int_line n) = some n
  line_number (text_line text) = patterns.int_of text

  unfoldable pub entry : Discussion → DiscussionNote → Option Position → Entry
  unfolding line_number
  entry disc note none = record {
    line = none;
    body = strip_comment_formatting note.body;
    discussion_id = disc.discussion_id;
    head_sha = none;
  }
  entry disc note (some p) = record {
    line = line_number p.new_line;
    body = strip_comment_formatting note.body;
    discussion_id = disc.discussion_id;
    head_sha = p.head_sha;
  }

  unfoldable pub note_entry : ℕ → Discussion → Option DiscussionNote → Option (Text × Entry)
  unfolding position_path entry
  note_entry agent_user_id disc none = none
  note_entry agent_user_id disc (some note) =
      if note.author_id == agent_user_id
      then elim (position_path note.position) [
        | none ↦ none
        | some file_path ↦ some (file_path, entry disc note note.position)
      ]
      else none

  -- What a discussion adds to `comments_by_file`.
  unfoldable pub prior_entry : ℕ → Discussion → Option (Text × Entry)
  unfolding note_entry
  prior_entry agent_user_id disc =
      if disc.is_resolved || not disc.is_inline
      then none
      else note_entry agent_user_id disc (first_note disc.notes)

  unfoldable pub add_prior :
      Option (Text × Entry) → List (Text × List Entry) → List (Text × List Entry)
  add_prior none d = d
  add_prior (some (file_path, x)) d = append_entry file_path x d

  unfoldable pub comments_by_file :
      ℕ → List Discussion → List (Text × List Entry) → List (Text × List Entry)
  unfolding add_prior
  comments_by_file agent_user_id [] d = d
  comments_by_file agent_user_id (disc ∷ discs) d =
      comments_by_file agent_user_id discs (add_prior (prior_entry agent_user_id disc) d)

  -- `is_outdated`
  is_outdated : Text → Option Text → Bool
  is_outdated current_head_sha none = false
  is_outdated current_head_sha (some sha) =
      not (current_head_sha == []) && not (sha == current_head_sha)

  line_prefix : Option ℤ → Text
  line_prefix none = codes "General"
  line_prefix (some n) = codes "Line " ++ show_int n

  unfoldable pub prior_line : Text → Entry → Text
  unfolding line_prefix is_outdated
  prior_line current_head_sha x =
      let outdated =
        if is_outdated current_head_sha x.head_sha
        then codes " (outdated position — line may have shifted)"
        else [] in
      codes "- "
      ++ (line_prefix x.line
          ++ (outdated
              ++ (codes ": "
                  ++ (x.body ++ (codes " [discussion: " ++ (x.discussion_id ++ codes "]"))))))

  entry_lines : Text → List Entry → List Text
  entry_lines current_head_sha [] = []
  entry_lines current_head_sha (x ∷ xs) =
      prior_line current_head_sha x ∷ entry_lines current_head_sha xs

  unfoldable pub file_lines : Text → List (Text × List Entry) → List Text → List Text
  unfolding entry_lines
  file_lines current_head_sha d [] = []
  file_lines current_head_sha d (file_path ∷ rest) =
      (codes "### " ++ file_path)
      ∷ (entry_lines current_head_sha (sorted_entries (entries_or (lookup file_path d)))
          ++ [] ∷ file_lines current_head_sha d rest)

  prior_text : Text → List (Text × List Entry) → Text
  prior_text current_head_sha [] = []
  prior_text current_head_sha (x ∷ d) = join (codes "\n") (
      codes "## Agent's Prior Feedback (Unresolved)\n"
      ∷ (file_lines current_head_sha (x ∷ d) (sorted_texts (keys (x ∷ d)))
          ++ codes
              "Rules:\n- Do NOT generate any comment that covers the same issue as any item in Agent's Prior Feedback, even if line numbers have shifted.\n- If the code has changed but the underlying issue remains, the prior feedback still applies — do not re-comment."
            ∷ []))

  unfoldable pub format_prior_feedback : DiscussionHistory → Text → Text
  unfolding prior_text
  format_prior_feedback history current_head_sha =
      prior_text current_head_sha (comments_by_file history.agent.user_id history.discussions [])
