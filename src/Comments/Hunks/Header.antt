-- ===== src/Comments/Hunks/Header.antt =====
-- A printed hunk header is read back.
use gitlab_copilot_agent.Prelude.{
  ℕ, ◌<◌, Text, codes, show, value, value-show, show-ne-nil, AllChars, IsDigit, show-AllChars, [],
  ◌∷◌, ◌++◌, ◌⊎◌, inr, ◌≡◌, ◌≢◌, refl, nat_eq, arith, Option, none, some, ap, ◌∙◌,
}
use gitlab_copilot_agent.Incremental.{strip_prefix}
use gitlab_copilot_agent.Comments.Hunks.{digit_run, number, skip_count, match_header}

digit_run-append :
    (s : Text) (c : ℕ) (rest : Text)
    → AllChars IsDigit s
    → 57 < c ⊎ c < 48
    → digit_run (s ++ c ∷ rest) ≡ (s, c ∷ rest)
unfolding digit_run
digit_run-append [] c rest h n = ground arith
digit_run-append (d ∷ s) c rest h n = ground (arith, digit_run-append s c rest h.1 n)

number-value : (s rest : Text) → s ≢ [] → number (s, rest) ≡ some (value s, rest)
unfolding number
number-value [] rest h = absurd (h refl)
number-value (c ∷ s) rest h = refl

number-show :
    (n c : ℕ) (rest : Text)
    → 57 < c ⊎ c < 48
    → number (digit_run (show n ++ c ∷ rest)) ≡ some (n, c ∷ rest)
number-show n c rest h =
    ap number (digit_run-append (show n) c rest (show-AllChars n) h)
    ∙ number-value (show n) (c ∷ rest) (show-ne-nil n)
    ∙ ap (λ v. some (v, c ∷ rest)) (value-show n)

skip_count-show :
    (n c : ℕ) (rest : Text) → 57 < c ⊎ c < 48 → skip_count (b',' ∷ (show n ++ c ∷ rest)) ≡ c ∷ rest
unfolding skip_count
skip_count-show n c rest h = rw (number-show n c rest h)

-- `,n`, which git leaves out for a count of one.
abbrev pub count_text : Option ℕ → Text
count_text none = []
count_text (some n) = b',' ∷ show n

count_text-start :
    (n : ℕ) (count : Option ℕ) (rest : Text)
    → number (digit_run (show n ++ (count_text count ++ b' ' ∷ rest)))
      ≡ some (n, count_text count ++ b' ' ∷ rest)
count_text-start n none rest = number-show n b' ' rest (inr (omega arith))
count_text-start n (some count) rest = number-show n b',' _ (inr (omega arith))

count_text_skipped :
    (count : Option ℕ) (rest : Text) → skip_count (count_text count ++ b' ' ∷ rest) ≡ b' ' ∷ rest
count_text_skipped none rest = unfold skip_count in refl
count_text_skipped (some n) rest = skip_count-show n b' ' rest (inr (omega arith))

-- `@@ -a,b +c,d @@`, where either count may be left out, with what may follow on the line.
abbrev pub header : ℕ → Option ℕ → ℕ → Option ℕ → Text → Text
header a b c d heading =
    codes "@@ -"
    ++ (show a
        ++ (count_text b ++ (codes " +" ++ (show c ++ (count_text d ++ (codes " @@" ++ heading))))))

-- A header is read back: the start in the new file, and the rest of its line.
pub match_header-header :
    (a : ℕ) (b : Option ℕ) (c : ℕ) (d : Option ℕ) (heading : Text)
    → match_header (header a b c d heading) ≡ some (c, heading)
unfolding match_header strip_prefix
match_header-header a b c d heading =
    rw (
      count_text-start a b _,
      count_text_skipped b _,
      count_text-start c d _,
      count_text_skipped d _,
    )
