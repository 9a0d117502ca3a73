-- ===== src/Comments/Hunks.antt =====
-- `_parse_hunk_lines`: the lines of the new file that a diff shows.
pub mod Walk
pub mod Header
pub mod Render
pub mod Exact
use gitlab_copilot_agent.Prelude.{
  ℕ, zero, suc, ◌+◌, ℤ, pos, int_eq, Text, text_eq, nat_eq, codes, value, List, [], ◌∷◌, ◌++◌, Bool,
  true, false, Option, none, some, ◌&&◌, ◌||◌, not, leb, if◌then◌else◌, ◌==◌, contains, pair_eq,
  length, or_else,
}
use gitlab_copilot_agent.Incremental.{strip_prefix}

-- `\d`, for the digits that a diff holds
abbrev is_digit : ℕ → Bool
is_digit c = leb b'0' c && leb c b'9'

-- The longest run of digits, and what follows it.
unfoldable pub digit_run : Text → Text × Text
digit_run [] = ([], [])
digit_run (c ∷ s) =
    let (run, rest) = digit_run s in if is_digit c then (c ∷ run, rest) else ([], c ∷ s)

-- `\d+`: what follows a number, with its value. The patterns never go on with a digit, so only the
-- longest run can match.
unfoldable pub number : Text × Text → Option (ℕ × Text)
number ([], rest) = none
number (c ∷ run, rest) = some (value (c ∷ run), rest)

-- `(?:,\d+)?`: taken where it fits.
unfoldable pub skip_count : Text → Text
skip_count [] = []
skip_count (c ∷ s) =
    if c == b','
    then elim (number (digit_run s)) [ none ↦ c ∷ s | some (n, rest) ↦ rest ]
    else c ∷ s

infixl 10 ◌>>=◌
abbrev ◌>>=◌ : {A B : Type 0} → Option A → (A → Option B) → Option B
none >>= f = none
some a >>= f = f a

-- `^@@ -\d+(?:,\d+)? \+(\d+)(?:,\d+)? @@` at the start of a line: the number in the group, and the
-- rest of the line.
unfoldable pub match_header : Text → Option (ℕ × Text)
match_header line = do
  s ← strip_prefix (codes "@@ -") line
  (old_start, s) ← number (digit_run s)
  s ← strip_prefix (codes " +") (skip_count s)
  (new_start, s) ← number (digit_run s)
  s ← strip_prefix (codes " @@") (skip_count s)
  some (new_start, s)

abbrev add_first : ℕ → List Text → List Text
add_first c [] = (c ∷ []) ∷ []
add_first c (line ∷ lines) = (c ∷ line) ∷ lines

-- `diff.split("\n")`: the lines that `^` starts under `re.MULTILINE`.
unfoldable pub split_newline : Text → List Text
split_newline [] = [] ∷ []
split_newline (c ∷ s) =
    let lines = split_newline s in if c == 10 then [] ∷ lines else add_first c lines

-- The characters at which `str.splitlines` ends a line.
unfoldable pub is_line_break : ℕ → Bool
is_line_break c =
    (leb 10 c && leb c 13) || (leb 28 c && leb c 30) || c == 133 || c == 8232 || c == 8233

-- The loop of `str.splitlines`, with the line so far; `\r\n` is one break, and a break at the end
-- starts no line.
unfoldable pub split_lines : Text → Text → List Text
split_lines line [] = if line == [] then [] else line ∷ []
split_lines line (c ∷ []) = if is_line_break c then line ∷ [] else (line ++ c ∷ []) ∷ []
split_lines line (c ∷ d ∷ s) =
    let windows = line ∷ split_lines [] s in
    let other = line ∷ split_lines [] (d ∷ s) in
    let more = split_lines (line ++ c ∷ []) (d ∷ s) in
    if c == 13 && d == 10 then windows else if is_line_break c then other else more

-- One line more in front: a line of the hunk before, or the header of a hunk.
unfoldable pub add_line : Option (ℕ × Text) → Text → Text × List (ℕ × Text) → Text × List (ℕ × Text)
add_line none line (after, hunks) = (10 ∷ (line ++ after), hunks)
add_line (some (new_line, rest)) line (after, hunks) = (10 ∷ [], (new_line, rest ++ after) ∷ hunks)

-- The hunks of a diff: the first new line, and the text up to the next header or the end. The lines
-- before the first header belong to none.
unfoldable pub hunk_bodies : List Text → Text × List (ℕ × Text)
hunk_bodies [] = ([], [])
hunk_bodies (line ∷ lines) = add_line (match_header line) line (hunk_bodies lines)

-- The loop over the lines of a hunk: a context or an added line is a position, and counts.
unfoldable pub walk : Text → ℕ → List Text → List (Text × ℤ)
walk new_path new_line [] = []
walk new_path new_line ([] ∷ lines) = walk new_path new_line lines
walk new_path new_line ((prefix ∷ _) ∷ lines) =
    let counted = (new_path, pos new_line) ∷ walk new_path (new_line + 1) lines in
    let passed = walk new_path new_line lines in
    if prefix == b' ' || prefix == b'+' then counted else passed

unfoldable pub walk_hunks : Text → List (ℕ × Text) → List (Text × ℤ)
walk_hunks new_path [] = []
walk_hunks new_path ((new_line, body) ∷ hunks) =
    walk new_path new_line (split_lines [] body) ++ walk_hunks new_path hunks

-- `_parse_hunk_lines`; the set as a list
unfoldable pub parse_hunk_lines : Text → Text → List (Text × ℤ)
parse_hunk_lines diff new_path = walk_hunks new_path (hunk_bodies (split_newline diff)).1

-- `_is_valid_position`
unfoldable pub is_valid_position : Text → ℤ → List (Text × ℤ) → Bool
is_valid_position file line valid_positions = contains valid_positions (file, line)
