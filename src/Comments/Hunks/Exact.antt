-- ===== src/Comments/Hunks/Exact.antt =====
-- `_parse_hunk_lines` on the text of a diff.
use gitlab_copilot_agent.Prelude.{
  ℕ, suc, ◌+◌, ◌<◌, Text, text_eq, codes, AllChars, List, [], ◌∷◌, ◌++◌, true, false, pos, int_eq,
  pair_eq, contains, inl, ◌≡◌, ◌↔◌, refl, nat_eq, arith, ap, ◌∙◌, All, Any, All-append, show,
  IsDigit, show-AllChars, AllChars-append, Option, none, some,
}
use gitlab_copilot_agent.Concurrency.OrderedDict.{contains-append}
use gitlab_copilot_agent.Comments.Hunks.{
  is_line_break, parse_hunk_lines, walk, walk_hunks, hunk_bodies, split_newline,
}
use gitlab_copilot_agent.Comments.Hunks.Walk.{new_lines, InRange, walk_exact}
use gitlab_copilot_agent.Comments.Hunks.Header.{count_text, header}
use gitlab_copilot_agent.Comments.Hunks.Render.{
  Hunk, NoBreak, IsLine, IsHunk, hunk_lines, all_lines, render, split_newline-join, positions,
  walk_hunks-bodies,
}

digits-NoBreak : (s : Text) → AllChars IsDigit s → NoBreak s
unfolding is_line_break
digits-NoBreak [] h = tt
digits-NoBreak (c ∷ s) h = (ground arith, digits-NoBreak s h.1)

show-NoBreak : (n : ℕ) → NoBreak (show n)
show-NoBreak n = digits-NoBreak (show n) (show-AllChars n)

join_NoBreak : (s t : Text) → NoBreak s → NoBreak t → NoBreak (s ++ t)
join_NoBreak = AllChars-append (λ c. is_line_break c ≡ false)

count_text-NoBreak : (count : Option ℕ) → NoBreak (count_text count)
unfolding is_line_break
count_text-NoBreak none = tt
count_text-NoBreak (some n) = (refl, show-NoBreak n)

header-NoBreak :
    (a : ℕ) (b : Option ℕ) (c : ℕ) (d : Option ℕ) (heading : Text)
    → NoBreak heading
    → NoBreak (header a b c d heading)
unfolding is_line_break
header-NoBreak a b c d heading h =
    let tail = join_NoBreak (codes " @@") heading (refl, (refl, (refl, tt))) h in
    let fourth = join_NoBreak (count_text d) _ (count_text-NoBreak d) tail in
    let third = join_NoBreak (show c) _ (show-NoBreak c) fourth in
    let plus = join_NoBreak (codes " +") _ (refl, (refl, tt)) third in
    let second = join_NoBreak (count_text b) _ (count_text-NoBreak b) plus in
    let first = join_NoBreak (show a) _ (show-NoBreak a) second in
    join_NoBreak (codes "@@ -") _ (refl, (refl, (refl, (refl, tt)))) first

lines-NoBreak : (lines : List Text) → All IsLine lines → All NoBreak lines
lines-NoBreak [] h = tt
lines-NoBreak (line ∷ lines) h = (h.0.0, lines-NoBreak lines h.1)

hunk_header-NoBreak :
    (h : Hunk) → IsHunk h → NoBreak (header h.old_start h.old_count h.start h.count h.heading)
hunk_header-NoBreak h v =
    header-NoBreak h.old_start h.old_count h.start h.count h.heading v.heading_line

all_lines-NoBreak : (hs : List Hunk) → All IsHunk hs → All NoBreak (all_lines hs)
unfolding all_lines hunk_lines
all_lines-NoBreak [] v = tt
all_lines-NoBreak (h ∷ hs) v = (
  hunk_header-NoBreak h v.0,
  All-append NoBreak h.lines (all_lines hs) (lines-NoBreak h.lines v.0.body_lines)
      (all_lines-NoBreak hs v.1),
)

split_newline-render :
    (h : Hunk) (hs : List Hunk)
    → All IsHunk (h ∷ hs)
    → split_newline (render (h ∷ hs)) ≡ all_lines (h ∷ hs)
unfolding render all_lines hunk_lines
split_newline-render h hs v =
    let rest = h.lines ++ all_lines hs in
    let clean : All NoBreak rest =
      All-append NoBreak h.lines (all_lines hs) (lines-NoBreak h.lines v.0.body_lines)
        (all_lines-NoBreak hs v.1) in
    split_newline-join _ rest (hunk_header-NoBreak h v.0) clean

parse_hunk_lines-render :
    (path : Text) (h : Hunk) (hs : List Hunk)
    → All IsHunk (h ∷ hs)
    → parse_hunk_lines (render (h ∷ hs)) path ≡ positions path (h ∷ hs)
unfolding parse_hunk_lines
parse_hunk_lines-render path h hs v =
    ap (λ ls. walk_hunks path (hunk_bodies ls).1) (split_newline-render h hs v)
    ∙ walk_hunks-bodies path (h ∷ hs) v

-- The position lies in the hunk, its heading counted as a line.
abbrev pub InHunk : Text → Text → ℕ → Hunk → Type 0
InHunk path file line h = InRange path h.start (new_lines (h.heading ∷ h.lines)) file line

positions_exact :
    (path : Text) (hs : List Hunk) (file : Text) (line : ℕ)
    → (contains (positions path hs) (file, pos line) ≡ true) ↔ Any (InHunk path file line) hs
unfolding positions
positions_exact path [] file line = unfold contains in ground arith
positions_exact path (h ∷ hs) file line = ground (
  arith,
  contains-append (walk path h.start (h.heading ∷ h.lines)) (positions path hs) (file, pos line),
  walk_exact path h.start (h.heading ∷ h.lines) file line,
  positions_exact path hs file line,
)

-- On the text of a diff of one or more hunks, whose headers may each leave either count out, a position is valid exactly if
-- it lies in one of the hunks: the file's own lines, counted from the start in the new file over the context and added
-- lines, where the text behind the second `@@` counts as a first line if it starts with a space. The condition is that no line of
-- a hunk reads as a header, and that no line or heading holds, besides its newline, a character at which
-- `str.splitlines` ends a line, such as a form feed.
pub parse_hunk_lines_exact :
    (path : Text) (h : Hunk) (hs : List Hunk) (file : Text) (line : ℕ)
    → All IsHunk (h ∷ hs)
    → (contains (parse_hunk_lines (render (h ∷ hs)) path) (file, pos line) ≡ true)
      ↔ Any (InHunk path file line) (h ∷ hs)
parse_hunk_lines_exact path h hs file line v =
    rw (parse_hunk_lines-render path h hs v) (positions_exact path (h ∷ hs) file line)

-- A hunk whose header has a section heading makes one position too many valid: the line behind the
-- last one that the hunk shows.
pub heading_adds_position :
    (path : Text) (h : Hunk) (title : Text)
    → IsHunk h
    → h.heading ≡ b' ' ∷ title
    → contains (parse_hunk_lines (render (h ∷ [])) path) (path, pos (h.start + new_lines h.lines))
      ≡ true
heading_adds_position path h title v e =
    (parse_hunk_lines_exact path h [] path (h.start + new_lines h.lines) (v, tt)).1
      (inl (refl, omega arith, more))
  where
    counted : new_lines (h.heading ∷ h.lines) ≡ suc (new_lines h.lines)
    counted = ap (λ x. new_lines (x ∷ h.lines)) e ∙ unfold new_lines in refl

    more : h.start + new_lines h.lines < h.start + new_lines (h.heading ∷ h.lines)
    more = omega (arith, counted)
