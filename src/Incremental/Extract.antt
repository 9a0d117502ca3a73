-- ===== src/Incremental/Extract.antt =====
-- Where the last reviewed SHA comes from.
use mathlib.Core.List.{reverse, reverse-append}
use gitlab_copilot_agent.Prelude.{
  ℕ, Text, List, [], ◌∷◌, ◌++◌, false, some, nat_eq, ◌≡◌, arith, ap, ◌∙◌, Any, Any-of-reverse,
}
use gitlab_copilot_agent.Discussions.{DiscussionNote, Discussion, DiscussionHistory}
use gitlab_copilot_agent.Incremental.{
  search_marker, search_notes, search_discussions, extract_last_reviewed_sha,
}

-- A note of the agent that carries the marker of this SHA.
abbrev pub IsMarked : ℕ → Text → DiscussionNote → Type 0
IsMarked user_id sha note = (note.author_id ≡ user_id) × (search_marker note.body ≡ some sha)

-- An open overview discussion with such a note.
abbrev pub Carries : ℕ → Text → Discussion → Type 0
Carries user_id sha disc =
    (disc.is_inline ≡ false) × (disc.is_resolved ≡ false) × Any (IsMarked user_id sha) disc.notes

search_notes-IsMarked :
    (user_id : ℕ) (notes : List DiscussionNote) (sha : Text)
    → search_notes user_id notes ≡ some sha
    → Any (IsMarked user_id sha) notes
unfolding search_notes
search_notes-IsMarked user_id [] sha h = ground arith
search_notes-IsMarked user_id (note ∷ notes) sha h =
    ground (arith, search_notes-IsMarked user_id notes sha)

search_discussions-Carries :
    (user_id : ℕ) (discs : List Discussion) (sha : Text)
    → search_discussions user_id discs ≡ some sha
    → Any (Carries user_id sha) discs
unfolding search_discussions
search_discussions-Carries user_id [] sha h = absurd (ground arith)
search_discussions-Carries user_id (disc ∷ discs) sha h = ground (
  arith,
  search_discussions-Carries user_id discs sha,
  search_notes-IsMarked user_id (reverse disc.notes) sha,
  Any-of-reverse (IsMarked user_id sha) disc.notes,
)

-- A SHA that is extracted stands in the marker of a note by the agent itself, in an overview
-- discussion that is not resolved.
pub extract-Carries :
    (history : DiscussionHistory) (sha : Text)
    → extract_last_reviewed_sha (some history) ≡ some sha
    → Any (Carries history.agent.user_id sha) history.discussions
unfolding extract_last_reviewed_sha
extract-Carries history sha h =
    Any-of-reverse (Carries history.agent.user_id sha) history.discussions
      (search_discussions-Carries history.agent.user_id (reverse history.discussions) sha h)

extract-snoc :
    (history : DiscussionHistory) (discs : List Discussion) (disc : Discussion)
    → history.discussions ≡ discs ++ disc ∷ []
    → extract_last_reviewed_sha (some history)
      ≡ search_discussions history.agent.user_id (disc ∷ reverse discs)
unfolding extract_last_reviewed_sha
extract-snoc history discs disc e =
    ap (λ d. search_discussions history.agent.user_id (reverse d)) e
    ∙ ap (search_discussions history.agent.user_id) (reverse-append discs (disc ∷ []))

search_notes-snoc :
    (user_id : ℕ) (notes : List DiscussionNote) (note : DiscussionNote) (sha : Text)
    → note.author_id ≡ user_id
    → search_marker note.body ≡ some sha
    → search_notes user_id (reverse (notes ++ note ∷ [])) ≡ some sha
unfolding search_notes
search_notes-snoc user_id notes note sha author marked =
    ap (search_notes user_id) (reverse-append notes (note ∷ [])) ∙ ground arith

-- The latest note counts: where the last discussion is an open overview one and ends with a marked
-- note of the agent, that note's SHA is extracted, whatever the earlier discussions hold.
pub extract-latest :
    (history : DiscussionHistory) (discs : List Discussion) (disc : Discussion)
    (notes : List DiscussionNote) (note : DiscussionNote) (sha : Text)
    → history.discussions ≡ discs ++ disc ∷ []
    → disc.is_inline ≡ false
    → disc.is_resolved ≡ false
    → disc.notes ≡ notes ++ note ∷ []
    → note.author_id ≡ history.agent.user_id
    → search_marker note.body ≡ some sha
    → extract_last_reviewed_sha (some history) ≡ some sha
extract-latest history discs disc notes note sha last overview open_ ends author marked =
    extract-snoc history discs disc last ∙ search_here
  where
    found : search_notes history.agent.user_id (reverse disc.notes) ≡ some sha
    found =
        ap (λ l. search_notes history.agent.user_id (reverse l)) ends
        ∙ search_notes-snoc history.agent.user_id notes note sha author marked

    search_here : search_discussions history.agent.user_id (disc ∷ reverse discs) ≡ some sha
    search_here = unfold search_discussions in rw (overview, open_, found)
