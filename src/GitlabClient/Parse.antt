-- ===== src/GitlabClient/Parse.antt =====
-- `_parse_note` and `_parse_discussions` of gitlab_client.py, on the discussions as GitLab documents them: a key may be
-- missing (`none`), and a value has its documented type.
use gitlab_copilot_agent.Prelude.{
  ℕ, Text, text_eq, codes, List, [], ◌∷◌, ◌++◌, Bool, false, ◌||◌, Option, none, some, ◌==◌, ◌≡◌,
  refl, inl, inr, Bool-cases, if◌then◌else◌, All, ◌≢◌, ap,
}
use gitlab_copilot_agent.Discussions.{Position, DiscussionNote, Discussion}

pub record RawAuthor : Type 0 where
  pub id : Option ℕ
  pub username : Option Text

pub record RawNote : Type 0 where
  pub id : ℕ
  pub type : Option Text
  pub system : Option Bool
  pub author : Option RawAuthor
  pub body : Option Text
  pub created_at : Option Text
  pub resolved : Option Bool
  pub resolved_by : Option (Option ℕ)
  pub resolvable : Option Bool
  pub position : Option Position

pub record RawDiscussion : Type 0 where
  pub id : Text
  pub notes : List RawNote

-- `d.get(k, default)`
get_default {ℓ} : {A : Type ℓ} → Option A → A → A
get_default none d = d
get_default (some a) d = a

no_author : RawAuthor
no_author = record { id = none; username = none }

-- `resolved_by_id`: the ID, where both the user and a number are there
resolver_id : Option (Option ℕ) → Option ℕ
resolver_id none = none
resolver_id (some rbid) = rbid

-- `_parse_note`
unfoldable pub parse_note : RawNote → DiscussionNote
unfolding get_default no_author resolver_id
parse_note raw_note = record {
  note_id = raw_note.id;
  author_id = get_default (get_default raw_note.author no_author).id 0;
  author_username = get_default (get_default raw_note.author no_author).username [];
  body = get_default raw_note.body [];
  created_at = get_default raw_note.created_at [];
  is_system = false;
  resolved = raw_note.resolved;
  resolved_by_id = resolver_id raw_note.resolved_by;
  resolvable = get_default raw_note.resolvable false;
  position = raw_note.position;
}

unfoldable pub is_system_note : RawNote → Bool
unfolding get_default
is_system_note raw_note = get_default raw_note.system false

unfoldable pub is_diff_note : RawNote → Bool
is_diff_note raw_note = elim raw_note.type [ none ↦ false | some type ↦ type == codes "DiffNote" ]

-- The inner loop: the notes, and whether one of them stands on a line.
unfoldable pub parse_notes : List RawNote → List DiscussionNote × Bool
parse_notes [] = ([], false)
parse_notes (raw_note ∷ raw_notes) =
    let (notes, is_inline) = parse_notes raw_notes in
    if is_system_note raw_note
    then (notes, is_inline)
    else (parse_note raw_note ∷ notes, is_diff_note raw_note || is_inline)

-- `is_resolved`, of the first raw note
unfoldable pub is_resolved_raw : List RawNote → Bool
unfolding get_default
is_resolved_raw [] = false
is_resolved_raw (first_note ∷ raw_notes) = get_default first_note.resolved false

add_discussion : RawDiscussion → List DiscussionNote × Bool → List Discussion → List Discussion
add_discussion raw_disc ([], is_inline) discussions = discussions
add_discussion raw_disc (note ∷ notes, is_inline) discussions =
    record {
      discussion_id = raw_disc.id;
      notes = note ∷ notes;
      is_resolved = is_resolved_raw raw_disc.notes;
      is_inline = is_inline;
    }
    ∷ discussions

-- `_parse_discussions`
unfoldable pub parse_discussions : List RawDiscussion → List Discussion
unfolding add_discussion
parse_discussions [] = []
parse_discussions (raw_disc ∷ raw_discussions) =
    add_discussion raw_disc (parse_notes raw_disc.notes) (parse_discussions raw_discussions)

abbrev ids_of_notes : List DiscussionNote → List ℕ
ids_of_notes [] = []
ids_of_notes (note ∷ notes) = note.note_id ∷ ids_of_notes notes

-- The IDs of all notes, in order.
abbrev pub note_ids : List Discussion → List ℕ
note_ids [] = []
note_ids (d ∷ ds) = ids_of_notes d.notes ++ note_ids ds

abbrev raw_ids : List RawNote → List ℕ
raw_ids [] = []
raw_ids (raw_note ∷ raw_notes) =
    if is_system_note raw_note then raw_ids raw_notes else raw_note.id ∷ raw_ids raw_notes

-- The IDs of the notes that are no system notes, in order.
abbrev pub user_note_ids : List RawDiscussion → List ℕ
user_note_ids [] = []
user_note_ids (raw ∷ raws) = raw_ids raw.notes ++ user_note_ids raws

parse_notes-ids :
    (raw_notes : List RawNote) → ids_of_notes (parse_notes raw_notes).0 ≡ raw_ids raw_notes
unfolding parse_notes parse_note
parse_notes-ids [] = refl
parse_notes-ids (raw_note ∷ raw_notes) = elim (Bool-cases (is_system_note raw_note)) [
  | inl system ↦ rw system (parse_notes-ids raw_notes)
  | inr user ↦ rw user (ap (λ (ids : List ℕ). raw_note.id ∷ ids) (parse_notes-ids raw_notes))
]

add_discussion-ids :
    (raw : RawDiscussion) (parsed : List DiscussionNote × Bool) (ds : List Discussion)
    → note_ids (add_discussion raw parsed ds) ≡ ids_of_notes parsed.0 ++ note_ids ds
unfolding add_discussion
add_discussion-ids raw ([], is_inline) ds = refl
add_discussion-ids raw (note ∷ notes, is_inline) ds = refl

add_discussion-filled :
    (raw : RawDiscussion) (parsed : List DiscussionNote × Bool) (ds : List Discussion)
    → All (λ d. d.notes ≢ []) ds
    → All (λ d. d.notes ≢ []) (add_discussion raw parsed ds)
unfolding add_discussion
add_discussion-filled raw ([], is_inline) ds h = h
add_discussion-filled raw (note ∷ notes, is_inline) ds h = ((λ e. cc), h)

-- No note of a user is lost, made up, doubled or moved, and no system note is kept: the notes of the parsed threads
-- are, in order, those of GitLab's answer that are no system notes. And no parsed thread is without notes.
pub parse_discussions-ids :
    (raws : List RawDiscussion)
    → (note_ids (parse_discussions raws) ≡ user_note_ids raws)
      × All (λ d. d.notes ≢ []) (parse_discussions raws)
unfolding parse_discussions
parse_discussions-ids [] = (refl, tt)
parse_discussions-ids (raw ∷ raws) =
    let (ids, filled) = parse_discussions-ids raws in
    (
      rw
          (
            add_discussion-ids raw (parse_notes raw.notes) (parse_discussions raws),
            parse_notes-ids raw.notes,
            ids,
          )
          refl,
      add_discussion-filled raw (parse_notes raw.notes) (parse_discussions raws) filled,
    )
