-- ===== src/Poller/Notes.antt =====
-- `_process_notes` of gitlab_poller.py: the threads of the open MRs.
use mathlib.Core.List.{reverse}
use gitlab_copilot_agent.Prelude.{
  text_leb, ℕ, Text, text_eq, nat_eq, List, [], ◌∷◌, Bool, false, Option, none, some, ◌||◌, ◌&&◌,
  not, ◌==◌, if◌then◌else◌,
}
use gitlab_copilot_agent.Effects.{Result, Py, pure, lift, continue, handle, ◌>>=◌, ◌>>◌, try_except}
use gitlab_copilot_agent.Concurrency.Protocols.{DeduplicationStore}
use gitlab_copilot_agent.Dedup.Service.{is_note_seen, mark_note}
use gitlab_copilot_agent.Discussions.{DiscussionNote, Discussion, AgentIdentity}
use gitlab_copilot_agent.Events.{TaskEvent, validate_task_fields}
use gitlab_copilot_agent.Mentions.{mentions, wrote_any}
use gitlab_copilot_agent.Registry.{ProjectRegistry}
use gitlab_copilot_agent.Webhook.Projects.{resolved_project, ref_of}
use gitlab_copilot_agent.Poller.{
  PollSettings, MrItem, Scan, mention_event, handle_task, in_dedup, in_world, unless_seen,
}

-- The first note of these that is no system note.
unfoldable pub first_spoken : List DiscussionNote → Option DiscussionNote
first_spoken [] = none
first_spoken (note ∷ notes) = if note.is_system then first_spoken notes else some note

-- `self._note_watermark and latest_note.created_at <= self._note_watermark`
unfoldable pub is_old : Option Text → Text → Bool
is_old none created_at = false
is_old (some []) created_at = false
is_old (some (c ∷ mark)) created_at = text_leb created_at (c ∷ mark)

-- The tests on a thread and its latest note, up to the deduplication.
unfoldable pub calls_agent :
    (ℕ → Bool) → AgentIdentity → Option Text → Discussion → DiscussionNote → Bool
calls_agent is_word agent note_watermark disc note =
    not (note.author_id == agent.user_id)
    && (not (is_old note_watermark note.created_at)
        && (mentions is_word agent.username note.body || wrote_any agent.user_id disc.notes))

-- `list_discussions` is the client's `list_mr_discussions`, and `identity_of` is `resolve_identity`, where there is
-- a credential registry.
module _ {S W : Type 0} (is_word : ℕ → Bool) (settings : PollSettings)
    (registry : Option ProjectRegistry) (store : DeduplicationStore S)
    (run : TaskEvent → Py W (Unit {0})) (note_watermark : Option Text)
    (list_discussions : ℕ → ℕ → Py W (List Discussion))
    (identity_of : Option (Text → Py W AgentIdentity)) where
  -- The pipeline for a note, and its mark, after a success or a `TaskExecutionError`.
  unfoldable pub answer_note : ℕ → MrItem → Discussion → DiscussionNote → Py (Scan S W) (Unit {0})
  answer_note project_id mr disc note = do
    event ← lift (
        validate_task_fields
          (mention_event settings (resolved_project registry project_id) project_id mr disc note))
    λ s. handle_task (in_world (run event) s)
    in_dedup (mark_note store project_id mr.iid note.note_id)

  -- The rest of the loop's body, for the latest note.
  unfoldable pub process_note :
      AgentIdentity → ℕ → MrItem → Discussion → Option DiscussionNote → Py (Scan S W) (Unit {0})
  process_note agent project_id mr disc none = pure tt
  process_note agent project_id mr disc (some note) =
      let asked =
        in_dedup (is_note_seen store project_id mr.iid note.note_id)
        >>= unless_seen (answer_note project_id mr disc note) in
      if calls_agent is_word agent note_watermark disc note then asked else pure tt

  unfoldable pub process_thread : AgentIdentity → ℕ → MrItem → Discussion → Py (Scan S W) (Unit {0})
  process_thread agent project_id mr disc =
      if disc.is_resolved
      then pure tt
      else process_note agent project_id mr disc (first_spoken (reverse disc.notes))

  unfoldable pub process_threads :
      AgentIdentity → ℕ → MrItem → List Discussion → Py (Scan S W) (Unit {0})
  process_threads agent project_id mr [] = pure tt
  process_threads agent project_id mr (disc ∷ discs) =
      process_thread agent project_id mr disc >> process_threads agent project_id mr discs

  -- A failure to fetch the threads skips the MR.
  fetched : Result (List Discussion) × Scan S W → Result (List Discussion) × Scan S W
  fetched r = handle (λ _. pure []) r

  process_open : AgentIdentity → ℕ → MrItem → Option Text → Py (Scan S W) (Unit {0})
  unfolding fetched
  process_open agent project_id mr none = pure tt
  process_open agent project_id mr (some sha) = λ s.
      continue (process_threads agent project_id mr)
        (fetched (in_world (list_discussions project_id mr.iid) s))

  unfoldable pub process_mrs : AgentIdentity → ℕ → List MrItem → Py (Scan S W) (Unit {0})
  unfolding process_open
  process_mrs agent project_id [] = pure tt
  process_mrs agent project_id (mr ∷ mrs) =
      process_open agent project_id mr mr.sha >> process_mrs agent project_id mrs

  unfoldable pub some_identity :
      Text → Option (Text → Py W AgentIdentity) → Py W (Option AgentIdentity)
  some_identity ref none = pure none
  some_identity ref (some ask) =
      try_except (ask ref >>= λ agent. pure (some agent)) (λ _. pure none)

  -- `_resolve_agent_identity`
  unfoldable pub resolve_agent_identity : ℕ → Py W (Option AgentIdentity)
  unfolding some_identity
  resolve_agent_identity project_id =
      some_identity (ref_of (resolved_project registry project_id)) identity_of

  unfoldable pub with_identity : ℕ → List MrItem → Option AgentIdentity → Py (Scan S W) (Unit {0})
  with_identity project_id mrs none = pure tt
  with_identity project_id mrs (some agent) = process_mrs agent project_id mrs

  -- `_process_notes`
  unfoldable pub process_notes : ℕ → List MrItem → Py (Scan S W) (Unit {0})
  unfolding with_identity
  process_notes project_id mrs =
      in_world (resolve_agent_identity project_id) >>= with_identity project_id mrs
