-- ===== src/ReviewEngine/Offers.antt =====
-- The threads that a review is asked about are the ones that it may resolve.
use gitlab_copilot_agent.Prelude.{
  ℕ, nat_eq, Text, text_eq, contains, List, [], ◌∷◌, true, false, not, ◌||◌, Option, none, some,
  ◌≡◌, refl, ap, sym, ◌∙◌, inl, inr, Any, All, All-append, Bool-cases, Option-cases, arith, ◌==◌,
}
use gitlab_copilot_agent.Concurrency.OrderedDict.{lookup, insert}
use gitlab_copilot_agent.Discussions.{Position, DiscussionNote, Discussion, DiscussionHistory}
use gitlab_copilot_agent.Threads.{first_note}
use gitlab_copilot_agent.ReviewPipeline.{started_by, ids_of, allowed_ids}
use gitlab_copilot_agent.ReviewEngine.{
  Patterns, Entry, position_path, entry, note_entry, prior_entry, entries_or, append_entry,
  add_prior, comments_by_file,
}

entry_id : Option (Text × Entry) → Text → Text
entry_id none d = d
entry_id (some (path, x)) d = x.discussion_id

ids_of-first :
    (user_id : ℕ) (d : Discussion) (ds : List Discussion)
    → (d.is_resolved || not d.is_inline) ≡ false
    → started_by user_id (first_note d.notes) ≡ true
    → contains (ids_of user_id (d ∷ ds)) d.discussion_id ≡ true
unfolding ids_of contains
ids_of-first user_id d ds kept own =
    rw (kept, own) (ground (arith, text_eq.beq_iff d.discussion_id d.discussion_id))

ids_of-later :
    (user_id : ℕ) (e : Discussion) (ds : List Discussion) (id : Text)
    → contains (ids_of user_id ds) id ≡ true
    → contains (ids_of user_id (e ∷ ds)) id ≡ true
unfolding ids_of contains
ids_of-later user_id e ds id h = ground (arith, h)

ids_of_complete :
    (user_id : ℕ) (ds : List Discussion) (d : Discussion)
    → Any (λ e. e ≡ d) ds
    → (d.is_resolved || not d.is_inline) ≡ false
    → started_by user_id (first_note d.notes) ≡ true
    → contains (ids_of user_id ds) d.discussion_id ≡ true
ids_of_complete user_id [] d k kept own = elim k [ ]
ids_of_complete user_id (e ∷ es) d (inl same) kept own =
    rw same (ids_of-first user_id d es kept own)
ids_of_complete user_id (e ∷ es) d (inr k) kept own =
    ids_of-later user_id e es d.discussion_id (ids_of_complete user_id es d k kept own)

module _ (patterns : Patterns) where
  entry-discussion_id :
      (d : Discussion) (note : DiscussionNote) (p : Option Position)
      → (entry patterns d note p).discussion_id ≡ d.discussion_id
  unfolding entry
  entry-discussion_id d note none = refl
  entry-discussion_id d note (some p) = refl

  note_entry-own :
      (user_id : ℕ) (d : Discussion) (o : Option DiscussionNote) (path : Text) (x : Entry)
      → note_entry patterns user_id d o ≡ some (path, x)
      → (started_by user_id o ≡ true) × (x.discussion_id ≡ d.discussion_id)
  unfolding note_entry started_by entry_id
  note_entry-own user_id d none path x h = cc h
  note_entry-own user_id d (some note) path x h = elim (Bool-cases (note.author_id == user_id)) [
    | inr other ↦ cc (h, other)
    | inl own ↦ elim (Option-cases (position_path note.position)) [
      | inl missing ↦
          let nothing : note_entry patterns user_id d (some note) ≡ none = rw (own, missing) refl in
          cc (nothing, h)
      | inr (file_path, found) ↦
          let made : note_entry patterns user_id d (some note)
              ≡ some (file_path, entry patterns d note note.position) =
            rw (own, found) refl in
          (
            own,
            ap (λ t. entry_id t d.discussion_id) (sym h ∙ made)
                ∙ entry-discussion_id d note note.position,
          )
    ]
  ]

  -- What a listed thread is.
  prior_entry-own :
      (user_id : ℕ) (d : Discussion) (path : Text) (x : Entry)
      → prior_entry patterns user_id d ≡ some (path, x)
      → ((d.is_resolved || not d.is_inline) ≡ false)
        × (started_by user_id (first_note d.notes) ≡ true)
        × (x.discussion_id ≡ d.discussion_id)
  unfolding prior_entry
  prior_entry-own user_id d path x h = elim (Bool-cases (d.is_resolved || not d.is_inline)) [
    | inl skipped ↦ cc (h, skipped)
    | inr kept ↦
        let listed : note_entry patterns user_id d (first_note d.notes) ≡ some (path, x) =
          sym (rw kept refl) ∙ h in
        let (own, same) = note_entry-own user_id d (first_note d.notes) path x listed in
        (kept, own, same)
  ]

  -- A thread that is listed may be replied to and resolved.
  prior_entry-allowed :
      (history : DiscussionHistory) (d : Discussion) (path : Text) (x : Entry)
      → Any (λ e. e ≡ d) history.discussions
      → prior_entry patterns history.agent.user_id d ≡ some (path, x)
      → contains (allowed_ids (some history)) x.discussion_id ≡ true
  unfolding allowed_ids
  prior_entry-allowed history d path x there listed =
      let (kept, own, same) = prior_entry-own history.agent.user_id d path x listed in
      rw same (ids_of_complete history.agent.user_id history.discussions d there kept own)

-- Every entry of every file is of one of these threads.
abbrev pub ListsOnly : List Text → List (Text × List Entry) → Type 0
ListsOnly ids d = All (λ file. All (λ x. contains ids x.discussion_id ≡ true) file.1) d

module _ (ids : List Text) where
  lookup-ListsOnly :
      (path : Text) (d : List (Text × List Entry))
      → ListsOnly ids d
      → All (λ x. contains ids x.discussion_id ≡ true) (entries_or (lookup path d))
  unfolding lookup entries_or
  lookup-ListsOnly path [] h = tt
  lookup-ListsOnly path ((key, xs) ∷ d) h = elim (Bool-cases (key == path)) [
    | inl here ↦ rw here h.0
    | inr other ↦ rw other (lookup-ListsOnly path d h.1)
  ]

  insert-ListsOnly :
      (path : Text) (xs : List Entry) (d : List (Text × List Entry))
      → All (λ x. contains ids x.discussion_id ≡ true) xs
      → ListsOnly ids d
      → ListsOnly ids (insert path xs d)
  unfolding insert
  insert-ListsOnly path xs [] k h = (k, tt)
  insert-ListsOnly path xs ((key, ys) ∷ d) k h = elim (Bool-cases (key == path)) [
    | inl here ↦ rw here (k, h.1)
    | inr other ↦ rw other (h.0, insert-ListsOnly path xs d k h.1)
  ]

  append_entry-ListsOnly :
      (path : Text) (x : Entry) (d : List (Text × List Entry))
      → contains ids x.discussion_id ≡ true
      → ListsOnly ids d
      → ListsOnly ids (append_entry path x d)
  unfolding append_entry
  append_entry-ListsOnly path x d k h =
      insert-ListsOnly path _ d
        (All-append (λ x. contains ids x.discussion_id ≡ true) (entries_or (lookup path d)) (x ∷ [])
          (lookup-ListsOnly path d h) (k, tt))
        h

module _ (patterns : Patterns) (history : DiscussionHistory) where
  add_prior-ListsOnly :
      (d : Discussion) (files : List (Text × List Entry))
      → Any (λ e. e ≡ d) history.discussions
      → ListsOnly (allowed_ids (some history)) files
      → ListsOnly
          (allowed_ids (some history))
          (add_prior patterns (prior_entry patterns history.agent.user_id d) files)
  unfolding add_prior
  add_prior-ListsOnly d files there h =
      elim (Option-cases (prior_entry patterns history.agent.user_id d)) [
        | inl skipped ↦ rw skipped h
        | inr ((path, x), listed) ↦
            let allowed = prior_entry-allowed patterns history d path x there listed in
            rw listed (append_entry-ListsOnly (allowed_ids (some history)) path x files allowed h)
      ]

  comments_by_file-ListsOnly :
      (ds : List Discussion) (files : List (Text × List Entry))
      → ((d : Discussion) → Any (λ e. e ≡ d) ds → Any (λ e. e ≡ d) history.discussions)
      → ListsOnly (allowed_ids (some history)) files
      → ListsOnly
          (allowed_ids (some history))
          (comments_by_file patterns history.agent.user_id ds files)
  unfolding comments_by_file
  comments_by_file-ListsOnly [] files k h = h
  comments_by_file-ListsOnly (d ∷ ds) files k h =
      comments_by_file-ListsOnly ds _ (λ e m. k e (inr m))
        (add_prior-ListsOnly d files (k d (inl refl)) h)

  -- Every entry that `format_prior_feedback` lists under a file, of all the threads of a merge request, is of a
  -- thread in the allowlist of those that the same review may reply to and resolve.
  pub comments_by_file-allowed :
      ListsOnly
        (allowed_ids (some history))
        (comments_by_file patterns history.agent.user_id history.discussions [])
  comments_by_file-allowed = comments_by_file-ListsOnly history.discussions [] (λ d there. there) tt
