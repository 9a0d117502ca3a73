-- ===== src/Mentions.antt =====
-- The mention pattern of gitlab_webhook.py and gitlab_poller.py, and thread participation.
use gitlab_copilot_agent.Prelude.{
  ℕ, Text, text_eq, nat_eq, List, [], ◌∷◌, Bool, true, false, Option, none, some, ◌||◌, ◌&&◌, not,
  ◌==◌, if◌then◌else◌,
}
use gitlab_copilot_agent.Incremental.{strip_prefix}
use gitlab_copilot_agent.Discussions.{DiscussionNote, Discussion}

-- `\w` is Unicode's, so it is given.
module _ (is_word : ℕ → Bool) where
  -- `[.\w-]`
  unfoldable pub is_name_char : ℕ → Bool
  is_name_char c = c == 46 || (is_word c || c == 45)

  -- No such character stands here: a lookaround of the pattern.
  unfoldable pub is_boundary : Option ℕ → Bool
  is_boundary none = true
  is_boundary (some c) = not (is_name_char c)

  abbrev head : Text → Option ℕ
  head [] = none
  head (c ∷ s) = some c

  ends_well : Option Text → Bool
  ends_well none = false
  ends_well (some rest) = is_boundary (head rest)

  -- The pattern matches right here, behind the character `prev`.
  unfoldable pub mention_here : Text → Option ℕ → Text → Bool
  unfolding ends_well
  mention_here username prev s = is_boundary prev && ends_well (strip_prefix (64 ∷ username) s)

  -- `re.search`, from here on.
  unfoldable pub mention_from : Text → Option ℕ → Text → Bool
  mention_from username prev [] = false
  mention_from username prev (c ∷ s) =
      mention_here username prev (c ∷ s) || mention_from username (some c) s

  unfoldable pub mentions : Text → Text → Bool
  mentions username body = mention_from username none body

-- `any(n.author_id == agent_identity.user_id for n in disc.notes)`
unfoldable pub wrote_any : ℕ → List DiscussionNote → Bool
wrote_any user_id [] = false
wrote_any user_id (note ∷ notes) = note.author_id == user_id || wrote_any user_id notes

-- The first discussion with this ID has a note of the agent.
unfoldable pub participated : ℕ → Text → List Discussion → Bool
participated user_id discussion_id [] = false
participated user_id discussion_id (d ∷ ds) =
    if d.discussion_id == discussion_id
    then wrote_any user_id d.notes
    else participated user_id discussion_id ds
