-- ===== src/Dedup/Keys.antt =====
-- The keys of dedup.py: which events share one.
use gitlab_copilot_agent.Prelude.{
  Bool, true, false, ◌≡◌, ℕ, ◌∷◌, ◌++◌, if◌then◌else◌, Text, codes, show, show_injective,
  show-AllChars, split_unique, arith, ap, drop, sym, get_or, ◌≢◌,
}

abbrev pub default_ttl : ℕ
default_ttl = 86400

-- `f"review:{project_id}:{mr_iid}:{head_sha}"`, or without the SHA if reviews are per MR
unfoldable pub review_key : Bool → ℕ → ℕ → Text → Text
review_key review_on_push project_id mr_iid head_sha =
    if review_on_push
    then codes "review:" ++ (show project_id ++ b':' ∷ (show mr_iid ++ b':' ∷ head_sha))
    else codes "review:" ++ (show project_id ++ b':' ∷ show mr_iid)

-- `f"note:{project_id}:{mr_iid}:{note_id}"`
unfoldable pub note_key : ℕ → ℕ → ℕ → Text
note_key project_id mr_iid note_id =
    codes "note:" ++ (show project_id ++ b':' ∷ (show mr_iid ++ b':' ∷ show note_id))

-- `f"jira:{issue_key}"`
unfoldable pub issue_key : Text → Text
issue_key key = codes "jira:" ++ key

-- What the service tells apart.
pub data Item : Type 0 where
  review : ℕ → ℕ → Text → Item
  note : ℕ → ℕ → ℕ → Item
  issue : Text → Item

unfoldable pub item_key : Bool → Item → Text
item_key push (review p m sha) = review_key push p m sha
item_key push (note p m n) = note_key p m n
item_key push (issue k) = issue_key k

-- The items that count as one: reviews of one commit, or of one MR if reviews are per MR.
abbrev pub SameReview : Bool → ℕ × ℕ × Text → ℕ × ℕ × Text → Type 0
SameReview true (p, m, sha) (p', m', sha') = (p ≡ p') × (m ≡ m') × (sha ≡ sha')
SameReview false (p, m, sha) (p', m', sha') = (p ≡ p') × (m ≡ m')

abbrev pub SameItem : Bool → Item → Item → Type 0
SameItem push (review p m sha) (review p' m' sha') = SameReview push (p, m, sha) (p', m', sha')
SameItem push (note p m n) (note p' m' n') = (p ≡ p') × (m ≡ m') × (n ≡ n')
SameItem push (issue k) (issue k') = k ≡ k'
SameItem push _ _ = ⊥

two_parts :
    (p p' : ℕ) (r r' : Text) → show p ++ b':' ∷ r ≡ show p' ++ b':' ∷ r' → (p ≡ p') × (r ≡ r')
two_parts p p' r r' h =
    let (digits, rest) =
      split_unique b':' (show p) (show p') r r' (omega arith) (show-AllChars p) (show-AllChars p')
        h in
    (show_injective p p' digits, rest)

three_parts :
    (p p' m m' : ℕ) (r r' : Text)
    → show p ++ b':' ∷ (show m ++ b':' ∷ r) ≡ show p' ++ b':' ∷ (show m' ++ b':' ∷ r')
    → (p ≡ p') × (m ≡ m') × (r ≡ r')
three_parts p p' m m' r r' h =
    let (first, rest) = two_parts p p' _ _ h in
    let (second, last) = two_parts m m' r r' rest in (first, second, last)

review_key_injective :
    (push : Bool) (p p' m m' : ℕ) (sha sha' : Text)
    → review_key push p m sha ≡ review_key push p' m' sha'
    → SameReview push (p, m, sha) (p', m', sha')
unfolding review_key
review_key_injective true p p' m m' sha sha' h = three_parts p p' m m' sha sha' (ap (drop 7) h)
review_key_injective false p p' m m' sha sha' h =
    let (first, rest) = two_parts p p' (show m) (show m') (ap (drop 7) h) in
    (first, show_injective m m' rest)

note_key_injective :
    (push : Bool) (p p' m m' n n' : ℕ)
    → note_key p m n ≡ note_key p' m' n'
    → (p ≡ p') × (m ≡ m') × (n ≡ n')
unfolding note_key
note_key_injective push p p' m m' n n' h =
    let (first, second, last) = three_parts p p' m m' (show n) (show n') (ap (drop 5) h) in
    (first, second, show_injective n n' last)

first_char : Text → ℕ
first_char s = get_or s 0 0

review-ne-note :
    (push : Bool) (p m p' m' n' : ℕ) (sha : Text) → review_key push p m sha ≢ note_key p' m' n'
unfolding review_key note_key first_char
review-ne-note true p m p' m' n' sha h = omega (arith, ap first_char h)
review-ne-note false p m p' m' n' sha h = omega (arith, ap first_char h)

review-ne-issue : (push : Bool) (p m : ℕ) (sha k : Text) → review_key push p m sha ≢ issue_key k
unfolding review_key issue_key first_char
review-ne-issue true p m sha k h = omega (arith, ap first_char h)
review-ne-issue false p m sha k h = omega (arith, ap first_char h)

note-ne-issue : (p m n : ℕ) (k : Text) → note_key p m n ≢ issue_key k
unfolding note_key issue_key first_char
note-ne-issue p m n k h = omega (arith, ap first_char h)

-- Two items have one key only if they are the same item: a review, a note and an issue never
-- collide, nor do two of a kind that differ in a project, an MR, a note, an issue or (when reviews
-- are per push) a commit.
pub item_key_injective :
    (push : Bool) (a b : Item) → item_key push a ≡ item_key push b → SameItem push a b
unfolding item_key
item_key_injective push (review p m sha) (review p' m' sha') h =
    review_key_injective push p p' m m' sha sha' h
item_key_injective push (review p m sha) (note p' m' n') h =
    absurd (review-ne-note push p m p' m' n' sha h)
item_key_injective push (review p m sha) (issue k) h = absurd (review-ne-issue push p m sha k h)
item_key_injective push (note p m n) (review p' m' sha) h =
    absurd (review-ne-note push p' m' p m n sha (sym h))
item_key_injective push (note p m n) (note p' m' n') h = note_key_injective push p p' m m' n n' h
item_key_injective push (note p m n) (issue k) h = absurd (note-ne-issue p m n k h)
item_key_injective push (issue k) (review p m sha) h =
    absurd (review-ne-issue push p m sha k (sym h))
item_key_injective push (issue k) (note p m n) h = absurd (note-ne-issue p m n k (sym h))
item_key_injective push (issue k) (issue k') h = unfold issue_key in ap (drop 5) h
