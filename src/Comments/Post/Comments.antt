-- ===== src/Comments/Post/Comments.antt =====
-- What `post_review` does with the comments.
use mathlib.Core.List.{append_assoc, append-nil}
use gitlab_copilot_agent.Prelude.{
  ℕ, suc, ◌+◌, ℤ, int_eq, Text, text_eq, pair_eq, List, [], ◌∷◌, ◌++◌, true, ◌≡◌, refl, ◌⊎◌, inl,
  inr, contains, length, arith, Bool-cases, All, Any, All-append, ap, ◌∙◌, sym,
}
use gitlab_copilot_agent.Effects.{Result, ok, raised, Exn, is_exception, Result-cases}
use gitlab_copilot_agent.Gitlab.{DiffRef, Call, Trace, Gitlab, call}
use gitlab_copilot_agent.Comments.Parsed.{ReviewComment}
use gitlab_copilot_agent.Comments.Hunks.{is_valid_position}
use gitlab_copilot_agent.Comments.Post.{
  Tally, fallback_call, inline_call, post_fallback, post_comment, post_comments,
}

-- GitLab refuses a call only by an `Exception`: no task is cancelled meanwhile.
abbrev pub IsCalm : Gitlab → Type 0
IsCalm gitlab =
    (trace : Trace) (c : Call) (e : Exn) → gitlab trace c ≡ raised e → is_exception e ≡ true

abbrev pub total : Tally → ℕ
total t = t.posted_inline + t.posted_fallback + t.skipped

module _ (gitlab : Gitlab) (upper : Text → Text) (p m : ℕ) (calm : IsCalm gitlab) where
  -- A step that counts the comment and goes on.
  abbrev Counts : Tally → Result Tally × Trace → Type 0
  Counts t r = (t' : Tally) × (r.0 ≡ ok t') × (total t' ≡ suc (total t))

  post_fallback-Counts :
      (c : ReviewComment) (t : Tally) (trace : Trace)
      → Counts t (post_fallback gitlab upper p m c t trace)
  unfolding post_fallback call
  post_fallback-Counts c t trace =
      elim (Result-cases (gitlab trace (fallback_call gitlab upper p m c))) [
        | inl (a, e) ↦
            rw e (record t { posted_fallback = suc t.posted_fallback }, refl, omega arith)
        | inr (x, e) ↦
            rw (e, calm trace _ x e) (record t { skipped = suc t.skipped }, refl, omega arith)
      ]

  post_comment-Counts :
      (refs : DiffRef) (files : List Text) (positions : List (Text × ℤ)) (c : ReviewComment)
      (t : Tally) (trace : Trace)
      → Counts t (post_comment gitlab upper p m refs files positions c t trace)
  unfolding post_comment call
  post_comment-Counts refs files positions c t trace = elim (Bool-cases (contains files c.file)) [
    | inr out ↦ rw out (record t { skipped = suc t.skipped }, refl, omega arith)
    | inl inside ↦ elim (Bool-cases (is_valid_position c.file c.line positions)) [
      | inr bad ↦ rw (inside, bad) (post_fallback-Counts c t trace)
      | inl good ↦ elim (Result-cases (gitlab trace (inline_call gitlab upper p m refs c))) [
        | inl (a, e) ↦
            rw (inside, good, e)
              (record t { posted_inline = suc t.posted_inline }, refl, omega arith)
        | inr (x, e) ↦ rw (inside, good, e, calm trace _ x e) (post_fallback-Counts c t _)
      ]
    ]
  ]

  -- The loop never raises, and every comment is counted once: as an inline discussion, as a fallback
  -- note, or as skipped.
  pub post_comments_accounting :
      (refs : DiffRef) (files : List Text) (positions : List (Text × ℤ)) (cs : List ReviewComment)
      (t : Tally) (trace : Trace)
      → (t' : Tally) × ((post_comments gitlab upper p m refs files positions cs t trace).0 ≡ ok t')
        × (total t' ≡ total t + length cs)
  unfolding post_comments
  post_comments_accounting refs files positions [] t trace = (t, refl, omega arith)
  post_comments_accounting refs files positions (c ∷ cs) t trace =
      let r = post_comment gitlab upper p m refs files positions c t trace in
      let (t₁, e₁, n₁) = post_comment-Counts refs files positions c t trace in
      let (t₂, e₂, n₂) = post_comments_accounting refs files positions cs t₁ r.1 in
      (t₂, rw e₁ e₂, omega (arith, n₁, n₂))

-- The calls that a comment may cause: a discussion at a valid position of a file in the diff, or a
-- note about a file in the diff.
abbrev pub Justifies :
    Gitlab
    → (Text → Text)
    → ℕ
    → ℕ
    → DiffRef
    → List Text
    → List (Text × ℤ)
    → Call
    → ReviewComment
    → Type 0
Justifies gitlab upper p m refs files positions x c =
    (contains files c.file ≡ true)
    × ((x ≡ fallback_call gitlab upper p m c)
        ⊎ ((x ≡ inline_call gitlab upper p m refs c)
            × (is_valid_position c.file c.line positions ≡ true)))

module _ (gitlab : Gitlab) (upper : Text → Text) (p m : ℕ) (refs : DiffRef) (files : List Text)
    (positions : List (Text × ℤ)) where
  abbrev pub Justified : List ReviewComment → Call → Type 0
  Justified cs x = Any (Justifies gitlab upper p m refs files positions x) cs

  -- What a step adds to the trace.
  abbrev pub Adds : List ReviewComment → Trace → Trace → Type 0
  Adds cs old new = (added : Trace) × (new ≡ old ++ added) × All (Justified cs) added

  Adds-nothing : (cs : List ReviewComment) (trace : Trace) → Adds cs trace trace
  Adds-nothing cs trace = ([], sym (append-nil trace), tt)

  Adds-trans : (cs : List ReviewComment) (a b c : Trace) → Adds cs a b → Adds cs b c → Adds cs a c
  Adds-trans cs a b c (x, e, h) (y, e', h') =
      (x ++ y, e' ∙ ap (λ t. t ++ y) e ∙ append_assoc a x y, All-append (Justified cs) x y h h')

  Justified-more :
      (c : ReviewComment) (cs : List ReviewComment) (xs : Trace)
      → All (Justified cs) xs
      → All (Justified (c ∷ cs)) xs
  Justified-more c cs [] h = tt
  Justified-more c cs (x ∷ xs) h = (inr h.0, Justified-more c cs xs h.1)

  Justified-first :
      (c : ReviewComment) (cs : List ReviewComment) (xs : Trace)
      → All (Justified (c ∷ [])) xs
      → All (Justified (c ∷ cs)) xs
  Justified-first c cs [] h = tt
  Justified-first c cs (x ∷ xs) h = (first h.0, Justified-first c cs xs h.1)
    where
      first : Justified (c ∷ []) x → Justified (c ∷ cs) x
      first (inl j) = inl j
      first (inr j) = elim j [ ]

  post_fallback-Adds :
      (c : ReviewComment) (t : Tally) (trace : Trace)
      → contains files c.file ≡ true
      → Adds (c ∷ []) trace (post_fallback gitlab upper p m c t trace).1
  unfolding post_fallback call
  post_fallback-Adds c t trace inside =
      let added : Trace = fallback_call gitlab upper p m c ∷ [] in
      elim (Result-cases (gitlab trace (fallback_call gitlab upper p m c))) [
        | inl (a, e) ↦ rw e (added, refl, (inl (inside, inl refl), tt))
        | inr (x, e) ↦ elim (Bool-cases (is_exception x)) [
          | inl caught ↦ rw (e, caught) (added, refl, (inl (inside, inl refl), tt))
          | inr through ↦ rw (e, through) (added, refl, (inl (inside, inl refl), tt))
        ]
      ]

  post_comment-Adds :
      (c : ReviewComment) (t : Tally) (trace : Trace)
      → Adds (c ∷ []) trace (post_comment gitlab upper p m refs files positions c t trace).1
  unfolding post_comment call
  post_comment-Adds c t trace =
      let x = inline_call gitlab upper p m refs c in
      elim (Bool-cases (contains files c.file)) [
        | inr out ↦ rw out (Adds-nothing (c ∷ []) trace)
        | inl inside ↦ elim (Bool-cases (is_valid_position c.file c.line positions)) [
          | inr bad ↦ rw (inside, bad) (post_fallback-Adds c t trace inside)
          | inl good ↦
              let here : Adds (c ∷ []) trace (trace ++ x ∷ []) =
                (x ∷ [], refl, (inl (inside, inr (refl, good)), tt)) in
              elim (Result-cases (gitlab trace x)) [
                | inl (a, e) ↦ rw (inside, good, e) here
                | inr (z, e) ↦ elim (Bool-cases (is_exception z)) [
                  | inl caught ↦
                      rw (inside, good, e, caught)
                        (Adds-trans (c ∷ []) trace _ _ here (post_fallback-Adds c t _ inside))
                  | inr through ↦ rw (inside, good, e, through) here
                ]
              ]
        ]
      ]

  -- Every call that the loop adds is justified by one of its comments: an inline discussion at a
  -- valid position of a file in the diff, or a note about a file in the diff. This holds for every
  -- GitLab, on whichever calls it fails.
  pub post_comments_justified :
      (cs : List ReviewComment) (t : Tally) (trace : Trace)
      → Adds cs trace (post_comments gitlab upper p m refs files positions cs t trace).1
  unfolding post_comments
  post_comments_justified [] t trace = Adds-nothing [] trace
  post_comments_justified (c ∷ cs) t trace =
      let r = post_comment gitlab upper p m refs files positions c t trace in
      let (xs, e, h) = post_comment-Adds c t trace in
      let first : Adds (c ∷ cs) trace r.1 = (xs, e, Justified-first c cs xs h) in
      elim (Result-cases r.0) [
        | inl (t', counted) ↦
            let (ys, e', h') = post_comments_justified cs t' r.1 in
            rw counted (Adds-trans (c ∷ cs) trace r.1 _ first (ys, e', Justified-more c cs ys h'))
        | inr (x, failed) ↦ rw failed first
      ]
