-- ===== src/Gitlab.antt =====
-- The GitLab client as the rest of the service sees it: calls that GitLab answers or refuses.
-- GitLab is any function from the calls made so far and the new call to its result; GitlabClient models how
-- a call becomes a request.
use gitlab_copilot_agent.Prelude.{ℕ, ℤ, Text, List, [], ◌∷◌, ◌++◌, Bool, pair_eq}
use gitlab_copilot_agent.Effects.{Result, Py}

-- `MRDiffRef`
pub record DiffRef : Type 0 where
  pub base_sha : Text
  pub start_sha : Text
  pub head_sha : Text

-- `MRChange`
pub record Change : Type 0 where
  pub old_path : Text
  pub new_path : Text
  pub diff : Text
  pub new_file : Bool
  pub deleted_file : Bool
  pub renamed_file : Bool

-- The writing calls; the first two numbers are the project's ID and the MR's IID.
pub data Call : Type 0 where
  post_mr_comment : ℕ → ℕ → Text → Call
  create_mr_discussion : ℕ → ℕ → Text → DiffRef → Text → ℤ → Call
  reply_to_discussion : ℕ → ℕ → Text → Text → Call
  resolve_discussion : ℕ → ℕ → Text → Call

-- The calls made so far, oldest first.
abbrev pub Trace : Type 0
Trace = List Call

abbrev pub Gitlab : Type 0
Gitlab = Trace → Call → Result (Unit {0})

-- `await gl_client....`: the call is on record, whatever comes back.
unfoldable pub call : Gitlab → Call → Py Trace (Unit {0})
call gitlab c trace = (gitlab trace c, trace ++ c ∷ [])
