-- ===== src/Threads.antt =====
-- discussion_pipeline.py and discussion_engine.py: the thread that is answered, its texts, and the response.
pub mod Prompt
use gitlab_copilot_agent.Prelude.{
  ℕ, nat_eq, Text, text_eq, codes, show, length, join, strip, List, [], ◌∷◌, ◌++◌, Bool, true,
  false, ◌||◌, not, Option, none, some, ◌==◌, if◌then◌else◌,
}
use gitlab_copilot_agent.Discussions.{DiscussionNote, Discussion}
use gitlab_copilot_agent.Sanitizer.{strip_dangerous_chars}
use gitlab_copilot_agent.Comments.Parsed.{Resolution}

unfoldable pub has_note : ℕ → List DiscussionNote → Bool
has_note note_id [] = false
has_note note_id (note ∷ notes) = note.note_id == note_id || has_note note_id notes

-- `_find_triggering_discussion`
unfoldable pub find_triggering_discussion : List Discussion → ℕ → Option Discussion
find_triggering_discussion [] note_id = none
find_triggering_discussion (disc ∷ discs) note_id =
    if has_note note_id disc.notes then some disc else find_triggering_discussion discs note_id

-- `role`: the agent, or the author's name
unfoldable pub role_of : ℕ → DiscussionNote → Text
role_of agent_user_id note =
    if note.author_id == agent_user_id then codes "Agent" else note.author_username

unfoldable pub note_lines : ℕ → List DiscussionNote → List Text
note_lines agent_user_id [] = []
note_lines agent_user_id (note ∷ notes) =
    (codes "**"
      ++ (role_of agent_user_id note
          ++ (codes "** ("
              ++ (note.created_at
                  ++ (codes "):\n" ++ (strip_dangerous_chars note.body ++ codes "\n"))))))
    ∷ note_lines agent_user_id notes

-- `_format_current_thread`
unfoldable pub format_current_thread : Discussion → ℕ → Text
format_current_thread discussion agent_user_id = join (codes "\n") (
    (codes "# Discussion Thread (ID: " ++ (discussion.discussion_id ++ codes ")\n"))
    ∷ note_lines agent_user_id discussion.notes)

-- The threads other than this one.
unfoldable pub others : List Discussion → Text → List Discussion
others [] triggering_id = []
others (d ∷ ds) triggering_id =
    if d.discussion_id == triggering_id
    then others ds triggering_id
    else d ∷ others ds triggering_id

-- `disc.notes[0] if disc.notes else None`
unfoldable pub first_note : List DiscussionNote → Option DiscussionNote
first_note [] = none
first_note (note ∷ notes) = some note

unfoldable pub status_text : Bool → Text
status_text true = codes "resolved"
status_text false = codes "open"

other_line : Bool → Option DiscussionNote → List Text
unfolding status_text
other_line is_resolved none = []
other_line is_resolved (some note) =
    (codes "- [" ++ (status_text is_resolved ++ (codes "] " ++ strip_dangerous_chars note.body)))
    ∷ []

unfoldable pub other_lines : List Discussion → List Text
unfolding other_line
other_lines [] = []
other_lines (d ∷ ds) = other_line d.is_resolved (first_note d.notes) ++ other_lines ds

other_text : List Discussion → Text
other_text [] = []
other_text (d ∷ ds) = join (codes "\n") (
    (codes "# Other Active Discussions (" ++ (show (length (d ∷ ds)) ++ codes " threads)\n"))
    ∷ other_lines (d ∷ ds))

-- `_format_other_discussions`
unfoldable pub format_other_discussions : List Discussion → Text → Text
unfolding other_text
format_other_discussions discussions triggering_id = other_text (others discussions triggering_id)

pub record DiscussionResponse : Type 0 where
  pub reply : Text
  pub has_code_changes : Bool
  pub resolution : Option Resolution

-- What the code reads of the JSON object at the end of an answer: whether it has the keys, the summary (`none` where
-- it is no text), and the resolution, if `Resolution.model_validate` accepts it.
pub record AnswerBlock : Type 0 where
  pub files_changed : Bool
  pub has_resolution : Bool
  pub summary : Option Text
  pub resolution : Option Resolution

-- `reply or default`
or_text : Text → Text → Text
or_text [] d = d
or_text (c ∷ s) d = c ∷ s

plain_response : Text → DiscussionResponse
plain_response raw = record { reply = strip raw; has_code_changes = false; resolution = none }

changes_response : Text → Text → AnswerBlock → Option Text → DiscussionResponse
unfolding plain_response
changes_response raw (c ∷ reply) block summary = record {
  reply = c ∷ reply;
  has_code_changes = true;
  resolution = block.resolution;
}
changes_response raw [] block (some summary) = record {
  reply = summary;
  has_code_changes = true;
  resolution = block.resolution;
}
changes_response raw [] block none = plain_response raw

block_response : Text → Text → AnswerBlock → DiscussionResponse
unfolding plain_response changes_response or_text
block_response raw before block =
    if block.files_changed
    then changes_response raw (strip before) block block.summary
    else if block.has_resolution
    then record {
      reply = or_text (strip before) (codes "Acknowledged.");
      has_code_changes = false;
      resolution = block.resolution;
    }
    else plain_response raw

answer_response : Text → Option (Text × AnswerBlock) → DiscussionResponse
unfolding plain_response block_response
answer_response raw none = plain_response raw
answer_response raw (some (before, block)) = block_response raw before block

-- `parse_discussion_response`. `find_block` is the regular expression with `json.loads`: the text before the block and
-- the block, where there is one that is JSON; a missing summary is `Changes applied.`.
unfoldable pub parse_discussion_response :
    (Text → Option (Text × AnswerBlock)) → Text → DiscussionResponse
unfolding answer_response
parse_discussion_response find_block raw = answer_response raw (find_block raw)
