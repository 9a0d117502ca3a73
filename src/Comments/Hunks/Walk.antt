-- ===== src/Comments/Hunks/Walk.antt =====
-- Which positions a hunk's lines give.
use gitlab_copilot_agent.Prelude.{
  ℕ, suc, ◌+◌, ◌≤◌, ◌<◌, pos, int_eq, int_beq_iff, Text, text_eq, text_eq_iff, List, [], ◌∷◌, true,
  ◌||◌, ◌≡◌, ◌↔◌, if◌then◌else◌, nat_eq, ◌==◌, contains, pair_eq, arith,
}
use gitlab_copilot_agent.Comments.Hunks.{walk}

-- The lines that the new file has: context and added ones.
unfoldable pub new_lines : List Text → ℕ
new_lines [] = 0
new_lines ([] ∷ lines) = new_lines lines
new_lines ((prefix ∷ _) ∷ lines) =
    if prefix == b' ' || prefix == b'+' then suc (new_lines lines) else new_lines lines

-- A line of this file, among the `count` ones from `start` on.
abbrev pub InRange : Text → ℕ → ℕ → Text → ℕ → Type 0
InRange path start count file line = (file ≡ path) × (start ≤ line) × (line < start + count)

-- The positions are the consecutive lines from the hunk's start on, one for each line that the new
-- file has.
pub walk_exact :
    (path : Text) (start : ℕ) (lines : List Text) (file : Text) (line : ℕ)
    → (contains (walk path start lines) (file, pos line) ≡ true)
      ↔ InRange path start (new_lines lines) file line
unfolding walk new_lines contains
walk_exact path start [] file line = ground arith
walk_exact path start ([] ∷ lines) file line = walk_exact path start lines file line
walk_exact path start ((c ∷ s) ∷ lines) file line = ground (
  arith,
  walk_exact path (start + 1) lines file line,
  walk_exact path start lines file line,
  text_eq_iff file path,
  int_beq_iff (pos line) (pos start),
)
