-- ===== src/Incremental/Marker.antt =====
-- A marker reads back as the SHA that it was made of.
use gitlab_copilot_agent.Prelude.{
  ℕ, Text, codes, [], ◌∷◌, ◌++◌, true, false, none, some, nat_eq, text_eq, length, drop, ◌≡◌, ◌≢◌,
  refl, AllChars, arith, ◌≤◌, ap, ◌∙◌, list_beq,
}
use mathlib.Core.List.{append_assoc}
use gitlab_copilot_agent.Effects.{ok}
use gitlab_copilot_agent.Incremental.{
  is_hex, hex_run, is_sha, is_sha_length, format_sha_marker, marker_head, marker_tail, strip_prefix,
  marker_here, search_marker, sha_group, after_head,
}

-- 7 to 40 lower-case hex digits, and nothing else.
pub record IsSha (sha : Text) : Type 0 where
  pub hex : AllChars (λ c. is_hex c ≡ true) sha
  pub short : 7 ≤ length sha
  pub long : length sha ≤ 40

hex_run-append :
    (s : Text) (c : ℕ) (t : Text)
    → AllChars (λ d. is_hex d ≡ true) s
    → is_hex c ≡ false
    → hex_run (s ++ c ∷ t) ≡ (s, c ∷ t)
unfolding hex_run
hex_run-append [] c t h n = rw n
hex_run-append (d ∷ s) c t h n = rw (hex_run-append s c t h.1 n, h.0)

pub strip_prefix-append : (p s : Text) → strip_prefix p (p ++ s) ≡ some s
unfolding strip_prefix
strip_prefix-append [] s = refl
strip_prefix-append (c ∷ p) s = ground (arith, strip_prefix-append p s)

is_sha_length-IsSha : (sha : Text) → IsSha sha → is_sha_length (length sha) ≡ true
is_sha_length-IsSha sha h = ground arith

sha_group-IsSha : (sha rest : Text) → IsSha sha → sha_group (sha, marker_tail ++ rest) ≡ some sha
unfolding sha_group
sha_group-IsSha sha rest h = rw (is_sha_length-IsSha sha h, strip_prefix-append marker_tail rest)

after_head-IsSha :
    (sha rest : Text) → IsSha sha → after_head (some (sha ++ (marker_tail ++ rest))) ≡ some sha
unfolding after_head
after_head-IsSha sha rest h =
    ap sha_group (hex_run-append sha b' ' (codes "-->" ++ rest) h.hex refl)
    ∙ sha_group-IsSha sha rest h

marker_here-marker :
    (sha rest : Text)
    → IsSha sha
    → marker_here (marker_head ++ (sha ++ (marker_tail ++ rest))) ≡ some sha
unfolding marker_here
marker_here-marker sha rest h =
    ap after_head (strip_prefix-append marker_head (sha ++ (marker_tail ++ rest)))
    ∙ after_head-IsSha sha rest h

-- A match at the start is the first match.
search_marker_here : (s sha : Text) → marker_here s ≡ some sha → search_marker s ≡ some sha
unfolding search_marker
search_marker_here [] sha h = h
search_marker_here (c ∷ s) sha h = rw h

hex_run_all : (s : Text) → AllChars (λ c. is_hex c ≡ true) s → hex_run s ≡ (s, [])
unfolding hex_run
hex_run_all [] h = refl
hex_run_all (c ∷ s) h = rw (hex_run_all s h.1, h.0)

is_sha-IsSha : (sha : Text) → IsSha sha → is_sha sha ≡ true
unfolding is_sha list_beq
is_sha-IsSha sha h = rw (hex_run_all sha h.hex, is_sha_length-IsSha sha h)

strip_prefix-ne : (c d : ℕ) (p s : Text) → d ≢ c → strip_prefix (c ∷ p) (d ∷ s) ≡ none
unfolding strip_prefix
strip_prefix-ne c d p s h = ground arith

marker_here-ne : (c : ℕ) (s : Text) → c ≢ b'<' → marker_here (c ∷ s) ≡ none
unfolding marker_here after_head
marker_here-ne c s h = ap after_head (strip_prefix-ne b'<' c (drop 1 marker_head) s h)

-- Text without a `<` before a marker is passed over.
search_marker-skip :
    (pre s : Text) → AllChars (λ c. c ≢ b'<') pre → search_marker (pre ++ s) ≡ search_marker s
unfolding search_marker
search_marker-skip [] s h = refl
search_marker-skip (c ∷ pre) s h =
    rw (marker_here-ne c (pre ++ s) h.0) (search_marker-skip pre s h.1)

-- A SHA of 7 to 40 hex digits is accepted. In a text that holds no `<` before its marker the search
-- gives back that SHA, whatever follows the marker, another marker included.
pub search-format_sha_marker :
    (pre sha rest : Text)
    → AllChars (λ c. c ≢ b'<') pre
    → IsSha sha
    → (marker : Text) × (format_sha_marker sha ≡ ok marker)
      × (search_marker (pre ++ (marker ++ rest)) ≡ some sha)
unfolding format_sha_marker
search-format_sha_marker pre sha rest clean h = (
  marker_head ++ (sha ++ marker_tail),
  rw (is_sha-IsSha sha h),
  search_marker-skip pre ((marker_head ++ (sha ++ marker_tail)) ++ rest) clean
      ∙ ap search_marker (append_assoc marker_head (sha ++ marker_tail) rest)
      ∙ ap (λ s. search_marker (marker_head ++ s)) (append_assoc sha marker_tail rest)
      ∙ search_marker_here _ sha (marker_here-marker sha rest h),
)
