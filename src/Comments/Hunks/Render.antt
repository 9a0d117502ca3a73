-- ===== src/Comments/Hunks/Render.antt =====
-- The positions of a diff that is written out hunk by hunk.
use mathlib.Core.List.{append_assoc, append-nil}
use gitlab_copilot_agent.Prelude.{
  ℕ, ◌+◌, Text, text_eq, AllChars, List, [], ◌∷◌, ◌++◌, false, ℤ, int_eq, pair_eq, ◌⊎◌, inl, inr,
  ◌≡◌, refl, nat_eq, ◌==◌, arith, Option, some, none, ap, ◌∙◌, sym, All, list_beq,
}
use gitlab_copilot_agent.Comments.Hunks.{
  split_newline, split_lines, is_line_break, hunk_bodies, match_header, walk, walk_hunks, add_line,
}
use gitlab_copilot_agent.Comments.Hunks.Header.{header, match_header-header}

pub record Hunk : Type 0 where
  pub old_start : ℕ
  pub old_count : Option ℕ
  pub start : ℕ
  pub count : Option ℕ
  pub heading : Text
  pub lines : List Text

-- No character at which `str.splitlines` ends a line.
abbrev pub NoBreak : Text → Type 0
NoBreak = AllChars (λ c. is_line_break c ≡ false)

-- A line of a hunk: one line, which does not look like a header.
abbrev pub IsLine : Text → Type 0
IsLine line = NoBreak line × (match_header line ≡ none)

-- Neither the heading nor a line has a line break of `str.splitlines` within, and no line looks like a header.
pub record IsHunk (h : Hunk) : Type 0 where
  pub heading_line : NoBreak h.heading
  pub body_lines : All IsLine h.lines

unfoldable pub join_newline : List Text → Text
join_newline [] = []
join_newline (line ∷ []) = line
join_newline (line ∷ next ∷ lines) = line ++ 10 ∷ join_newline (next ∷ lines)

unfoldable pub hunk_lines : Hunk → List Text
hunk_lines h = header h.old_start h.old_count h.start h.count h.heading ∷ h.lines

unfoldable pub all_lines : List Hunk → List Text
all_lines [] = []
all_lines (h ∷ hs) = hunk_lines h ++ all_lines hs

-- The text of a diff of these hunks.
unfoldable pub render : List Hunk → Text
render hs = join_newline (all_lines hs)

-- The lines as they stand in a hunk's text, each behind its newline.
body_text : List Text → Text
body_text [] = []
body_text (line ∷ lines) = 10 ∷ (line ++ body_text lines)

no_newline : (c : ℕ) → is_line_break c ≡ false → (c == 10) ≡ false
unfolding is_line_break
no_newline c h = ground arith

split_newline-append : (s t : Text) → NoBreak s → split_newline (s ++ 10 ∷ t) ≡ s ∷ split_newline t
unfolding split_newline
split_newline-append [] t h = refl
split_newline-append (c ∷ s) t h = rw (no_newline c h.0, split_newline-append s t h.1)

split_newline_one : (s : Text) → NoBreak s → split_newline s ≡ s ∷ []
unfolding split_newline
split_newline_one [] h = refl
split_newline_one (c ∷ s) h = rw (no_newline c h.0, split_newline_one s h.1)

pub split_newline-join :
    (line : Text) (lines : List Text)
    → NoBreak line
    → All NoBreak lines
    → split_newline (join_newline (line ∷ lines)) ≡ line ∷ lines
unfolding join_newline
split_newline-join line [] h hs = split_newline_one line h
split_newline-join line (next ∷ lines) h hs = rw (
  split_newline-append line (join_newline (next ∷ lines)) h,
  split_newline-join next lines hs.0 hs.1,
)

hunk_bodies-append :
    (lines more : List Text)
    → All IsLine lines
    → hunk_bodies (lines ++ more) ≡ (body_text lines ++ (hunk_bodies more).0, (hunk_bodies more).1)
unfolding hunk_bodies body_text add_line
hunk_bodies-append [] more h = refl
hunk_bodies-append (line ∷ lines) more h =
    ap (λ m. add_line m line (hunk_bodies (lines ++ more))) h.0.1
    ∙ ap (add_line none line) (hunk_bodies-append lines more h.1)
    ∙ ap (λ t. (10 ∷ t, (hunk_bodies more).1))
        (sym (append_assoc line (body_text lines) (hunk_bodies more).0))

hunk_bodies-hunk :
    (h : Hunk) (more : List Text)
    → IsHunk h
    → hunk_bodies (hunk_lines h ++ more) ≡ (
      10 ∷ [],
      (h.start, h.heading ++ (body_text h.lines ++ (hunk_bodies more).0)) ∷ (hunk_bodies more).1,
    )
unfolding hunk_bodies hunk_lines add_line
hunk_bodies-hunk h more v =
    let line = header h.old_start h.old_count h.start h.count h.heading in
    ap (λ m. add_line m line (hunk_bodies (h.lines ++ more)))
      (match_header-header h.old_start h.old_count h.start h.count h.heading)
    ∙ ap (add_line (some (h.start, h.heading)) line) (hunk_bodies-append h.lines more v.body_lines)

no_return : (c : ℕ) → is_line_break c ≡ false → (c == 13) ≡ false
unfolding is_line_break
no_return c h = ground arith

split_lines-break : (line t : Text) → split_lines line (10 ∷ t) ≡ line ∷ split_lines [] t
unfolding split_lines is_line_break list_beq
split_lines-break line [] = refl
split_lines-break line (d ∷ t) = refl

split_lines-step :
    (line : Text) (c d : ℕ) (s : Text)
    → is_line_break c ≡ false
    → split_lines line (c ∷ d ∷ s) ≡ split_lines (line ++ c ∷ []) (d ∷ s)
unfolding split_lines
split_lines-step line c d s h = rw (h, no_return c h)

split_lines-append :
    (line s t : Text) → NoBreak s → split_lines line (s ++ 10 ∷ t) ≡ (line ++ s) ∷ split_lines [] t
split_lines-append line [] t h =
    split_lines-break line t ∙ ap (λ l. l ∷ split_lines [] t) (sym (append-nil line))
split_lines-append line (c ∷ []) t h =
    split_lines-step line c 10 t h.0 ∙ split_lines-break (line ++ c ∷ []) t
split_lines-append line (c ∷ d ∷ s) t h =
    split_lines-step line c d (s ++ 10 ∷ t) h.0
    ∙ split_lines-append (line ++ c ∷ []) (d ∷ s) t h.1
    ∙ ap (λ l. l ∷ split_lines [] t) (append_assoc line (c ∷ []) (d ∷ s))

split_lines-end :
    (line : Text) (c : ℕ)
    → is_line_break c ≡ false
    → split_lines line (c ∷ []) ≡ (line ++ c ∷ []) ∷ []
unfolding split_lines
split_lines-end line c h = rw h

split_lines_rest :
    (line s : Text) (c : ℕ) → NoBreak (c ∷ s) → split_lines line (c ∷ s) ≡ (line ++ c ∷ s) ∷ []
split_lines_rest line [] c h = split_lines-end line c h.0
split_lines_rest line (d ∷ s) c h =
    split_lines-step line c d s h.0
    ∙ split_lines_rest (line ++ c ∷ []) s d h.1
    ∙ ap (λ l. l ∷ []) (append_assoc line (c ∷ []) (d ∷ s))

split_lines-nil : split_lines [] [] ≡ []
unfolding split_lines list_beq
split_lines-nil = refl

-- What may follow a hunk's last line: nothing, or the newline before the next header.
abbrev IsTail : Text → Type 0
IsTail t = (t ≡ []) ⊎ (t ≡ 10 ∷ [])

walk-last :
    (path : Text) (n : ℕ) (s : Text)
    → NoBreak s
    → walk path n (split_lines [] s) ≡ walk path n (s ∷ [])
walk-last path n [] h = ap (walk path n) split_lines-nil ∙ unfold walk in refl
walk-last path n (c ∷ s) h = ap (walk path n) (split_lines_rest [] s c h)

walk-tail :
    (path : Text) (n : ℕ) (s tail : Text)
    → NoBreak s
    → IsTail tail
    → walk path n (split_lines [] (s ++ tail)) ≡ walk path n (s ∷ [])
walk-tail path n s tail h (inl e) =
    ap (λ t. walk path n (split_lines [] (s ++ t))) e
    ∙ ap (λ t. walk path n (split_lines [] t)) (append-nil s)
    ∙ walk-last path n s h
walk-tail path n s tail h (inr e) =
    ap (λ t. walk path n (split_lines [] (s ++ t))) e
    ∙ ap (walk path n) (split_lines-append [] s [] h)
    ∙ ap (λ l. walk path n (s ∷ l)) split_lines-nil

walk-cons :
    (path : Text) (s : Text) (xs ys : List Text)
    → ((n : ℕ) → walk path n xs ≡ walk path n ys)
    → (n : ℕ) → walk path n (s ∷ xs) ≡ walk path n (s ∷ ys)
unfolding walk
walk-cons path [] xs ys h n = h n
walk-cons path (c ∷ s) xs ys h n = ground (arith, h n, h (n + 1))

walk-body :
    (path s : Text) (lines : List Text) (tail : Text)
    → NoBreak s
    → All IsLine lines
    → IsTail tail
    → (n : ℕ)
    → walk path n (split_lines [] (s ++ (body_text lines ++ tail))) ≡ walk path n (s ∷ lines)
unfolding body_text
walk-body path s [] tail h hs t n = walk-tail path n s tail h t
walk-body path s (line ∷ lines) tail h hs t n =
    ap (λ x. walk path n (split_lines [] (s ++ 10 ∷ x))) (append_assoc line (body_text lines) tail)
    ∙ ap (walk path n) (split_lines-append [] s (line ++ (body_text lines ++ tail)) h)
    ∙ walk-cons path s _ (line ∷ lines) (walk-body path line lines tail hs.0.0 hs.1 t) n

-- The positions that the hunks stand for: the heading is read as a line of its own.
unfoldable pub positions : Text → List Hunk → List (Text × ℤ)
positions path [] = []
positions path (h ∷ hs) = walk path h.start (h.heading ∷ h.lines) ++ positions path hs

bodies-IsTail : (hs : List Hunk) → All IsHunk hs → IsTail (hunk_bodies (all_lines hs)).0
unfolding all_lines
bodies-IsTail [] v = inl (unfold hunk_bodies in refl)
bodies-IsTail (h ∷ hs) v = inr (ap (λ r. r.0) (hunk_bodies-hunk h (all_lines hs) v.0))

pub walk_hunks-bodies :
    (path : Text) (hs : List Hunk)
    → All IsHunk hs
    → walk_hunks path (hunk_bodies (all_lines hs)).1 ≡ positions path hs
unfolding positions all_lines walk_hunks
walk_hunks-bodies path [] v = unfold hunk_bodies in refl
walk_hunks-bodies path (h ∷ hs) v =
    ap (λ r. walk_hunks path r.1) (hunk_bodies-hunk h (all_lines hs) v.0)
    ∙ ap (λ w. w ++ walk_hunks path (hunk_bodies (all_lines hs)).1)
        (walk-body path h.heading h.lines _ v.0.heading_line v.0.body_lines (bodies-IsTail hs v.1)
          h.start)
    ∙ ap (λ w. walk path h.start (h.heading ∷ h.lines) ++ w) (walk_hunks-bodies path hs v.1)
