-- ===== src/ReviewEngine/Bounds.antt =====
-- What review_engine.py takes into a prompt is bounded, and what it offers for resolution is allowed.
use gitlab_copilot_agent.Prelude.{
  ℕ, ◌+◌, ◌≤◌, nat_eq, Text, text_eq, codes, length, length-append, length-take, take, leb, leb→le,
  List, [], ◌∷◌, ◌++◌, ◌≡◌, inl, inr, Bool-cases, arith, ◌==◌,
}
use gitlab_copilot_agent.ReviewEngine.Prompt.{
  max_commit_chars, flat_message, commit_entry, commits_truncated, cut_message, commit_lines,
}

commit_entry-length : (flat : Text) → length (commit_entry flat) ≡ length flat + 3
unfolding commit_entry
commit_entry-length flat = omega (arith, length-append flat (codes "\n"))

cut_message-length :
    (total : ℕ) (flat : Text) → total ≤ 4000 → total + length (cut_message total flat) ≤ 4034
unfolding cut_message commits_truncated
cut_message-length total flat h = elim (Bool-cases (total == 0)) [
  | inl zero_total ↦ rw zero_total (
      omega (
        arith,
        h,
        (nat_eq.beq_iff total 0).0 zero_total,
        length-append (commit_entry (take 3900 flat ++ codes "..."))
            (codes "- ... (commit messages truncated)\n"),
        commit_entry-length (take 3900 flat ++ codes "..."),
        length-append (take 3900 flat) (codes "..."),
        length-take 3900 flat,
      ))
  | inr more ↦ rw more (omega (arith, h))
]

-- However many and however long the commit messages are, what the prompt takes of them has at most 4,034 characters: the limit of
-- 4,000, and the line that says that messages are left out. From a total within the limit on, the rest keeps to it.
pub commit_lines-bounded :
    (total : ℕ) (messages : List Text)
    → total ≤ max_commit_chars
    → total + length (commit_lines total messages) ≤ 4034
unfolding commit_lines
commit_lines-bounded total [] h = omega (arith, h)
commit_lines-bounded total (message ∷ messages) h =
    let e = commit_entry (flat_message message) in
    elim (Bool-cases (leb (total + length e) max_commit_chars)) [
      | inl fits ↦ rw fits (
          omega (
            arith,
            commit_lines-bounded (total + length e) messages
                (leb→le (total + length e) max_commit_chars fits),
            length-append e (commit_lines (total + length e) messages),
          ))
      | inr out ↦ rw out (cut_message-length total (flat_message message) h)
    ]
