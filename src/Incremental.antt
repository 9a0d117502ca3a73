-- ===== src/Incremental.antt =====
-- incremental.py: the hidden SHA marker of a summary note.
pub mod Marker
pub mod Extract
use mathlib.Core.List.{reverse}
use gitlab_copilot_agent.Prelude.{
  ℕ, suc, zero, Text, codes, List, [], ◌∷◌, ◌++◌, Bool, true, false, Option, none, some, ◌&&◌, ◌||◌,
  not, leb, if◌then◌else◌, ◌==◌, nat_eq, text_eq, length, or_else, is_some,
}
use gitlab_copilot_agent.Effects.{Result, ok, raised, value_error}
use gitlab_copilot_agent.Discussions.{DiscussionNote, Discussion, DiscussionHistory}

-- `[a-f0-9]`
abbrev pub is_hex : ℕ → Bool
is_hex c = (leb b'a' c && leb c b'f') || (leb b'0' c && leb c b'9')

-- The longest run of hex digits, and what follows it.
unfoldable pub hex_run : Text → Text × Text
hex_run [] = ([], [])
hex_run (c ∷ s) = let (run, rest) = hex_run s in if is_hex c then (c ∷ run, rest) else ([], c ∷ s)

abbrev pub is_sha_length : ℕ → Bool
is_sha_length n = leb 7 n && leb n 40

-- `_SHA_HEX_RE.match`: `$` also matches before a final newline.
unfoldable pub is_sha : Text → Bool
is_sha s =
    let (run, rest) = hex_run s in is_sha_length (length run) && (rest == [] || rest == codes "\n")

abbrev pub marker_head : Text
marker_head = codes "<!-- mr-review-agent: last_reviewed_sha="

abbrev pub marker_tail : Text
marker_tail = codes " -->"

-- `format_sha_marker`; `repr` is written for a text without quotes, backslashes or control characters.
unfoldable pub format_sha_marker : Text → Result Text
format_sha_marker head_sha =
    if is_sha head_sha
    then ok (marker_head ++ (head_sha ++ marker_tail))
    else raised (record {
      kind = value_error;
      message = codes "Invalid SHA for marker: '" ++ (head_sha ++ codes "'");
    })

-- What follows a prefix, if the text has it.
unfoldable pub strip_prefix : Text → Text → Option Text
strip_prefix [] s = some s
strip_prefix (c ∷ p) [] = none
strip_prefix (c ∷ p) (d ∷ s) = if c == d then strip_prefix p s else none

-- The run of hex digits before the end of the marker. A space follows it, so no shorter run can
-- match.
unfoldable pub sha_group : Text × Text → Option Text
sha_group (run, rest) =
    if is_sha_length (length run) && is_some (strip_prefix marker_tail rest) then some run else none

unfoldable pub after_head : Option Text → Option Text
after_head none = none
after_head (some s) = sha_group (hex_run s)

-- `_SHA_MARKER_RE` at the start of a text: its group.
unfoldable pub marker_here : Text → Option Text
marker_here s = after_head (strip_prefix marker_head s)

-- `_SHA_MARKER_RE.search(body)`: the group of the first match.
unfoldable pub search_marker : Text → Option Text
search_marker [] = marker_here []
search_marker (c ∷ s) = or_else (marker_here (c ∷ s)) (search_marker s)

-- The inner loop: the notes of one discussion, latest first.
unfoldable pub search_notes : ℕ → List DiscussionNote → Option Text
search_notes user_id [] = none
search_notes user_id (note ∷ notes) =
    let later = search_notes user_id notes in
    if not (note.author_id == user_id) then later else or_else (search_marker note.body) later

-- The outer loop: the discussions, latest first.
unfoldable pub search_discussions : ℕ → List Discussion → Option Text
search_discussions user_id [] = none
search_discussions user_id (disc ∷ discs) =
    let later = search_discussions user_id discs in
    if disc.is_inline || disc.is_resolved
    then later
    else or_else (search_notes user_id (reverse disc.notes)) later

-- `extract_last_reviewed_sha`
unfoldable pub extract_last_reviewed_sha : Option DiscussionHistory → Option Text
extract_last_reviewed_sha none = none
extract_last_reviewed_sha (some history) =
    search_discussions history.agent.user_id (reverse history.discussions)
