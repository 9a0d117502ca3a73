-- ===== src/Tests/Dedup.antt =====
-- Instances of the theorems on dedup.py and incremental.py.
use gitlab_copilot_agent.Prelude.{
  Text, text_eq, nat_eq, codes, [], ◌∷◌, ◌++◌, true, false, some, none, ◌≡◌, refl, arith, list_beq,
}
use gitlab_copilot_agent.Effects.{ok, raised, Exn, is_exception}
use gitlab_copilot_agent.Concurrency.OrderedDict.{distinct}
use gitlab_copilot_agent.Concurrency.MemoryDedup.{MemoryDedup, memory_dedup}
use gitlab_copilot_agent.Concurrency.MemoryDedup.Bounds.{IsValid}
use gitlab_copilot_agent.Dedup.Service.{DedupState}
use gitlab_copilot_agent.Dedup.Service.Reviews.{IsReady}
use gitlab_copilot_agent.Discussions.{DiscussionNote, Discussion, DiscussionHistory}
use gitlab_copilot_agent.Incremental.{
  format_sha_marker, search_marker, extract_last_reviewed_sha, marker_here, after_head,
  strip_prefix, sha_group, hex_run,
}
use gitlab_copilot_agent.Incremental.Marker.{IsSha, search-format_sha_marker}
use gitlab_copilot_agent.Incremental.Extract.{extract-latest}

abbrev sha : Text
sha = codes "abc1234"

abbrev newer_sha : Text
newer_sha = codes "def5678"

abbrev empty_cache : MemoryDedup
empty_cache = record { seen = []; max_size = 10 }

abbrev state : DedupState MemoryDedup
state = record { local = empty_cache; backend = empty_cache }

empty-IsValid : IsValid empty_cache
unfolding distinct
empty-IsValid = record { bounded = omega arith; distinct_keys = refl }

state-IsReady : IsReady state
state-IsReady = record { cache = empty-IsValid; room = omega arith }

never_raises :
    (k : Text) (b : MemoryDedup) (e : Exn)
    → (memory_dedup.is_seen k b).0 ≡ raised e
    → is_exception e ≡ true
unfolding memory_dedup
never_raises k b e h = absurd (cc h)

sha-IsSha : IsSha sha
sha-IsSha = record {
  hex = (refl, (refl, (refl, (refl, (refl, (refl, (refl, tt)))))));
  short = omega arith;
  long = omega arith;
}

search-format_sha_marker_example :
    (marker : Text) × (format_sha_marker sha ≡ ok marker)
    × (search_marker (codes "ok " ++ (marker ++ codes "end")) ≡ some sha)
search-format_sha_marker_example =
    search-format_sha_marker (codes "ok ") sha (codes "end")
      ((λ h. omega (arith, h)), ((λ h. omega (arith, h)), ((λ h. omega (arith, h)), tt))) sha-IsSha

abbrev marked_note : DiscussionNote
marked_note = record {
  note_id = 1;
  author_id = 42;
  author_username = codes "agent";
  body = codes "<!-- mr-review-agent: last_reviewed_sha=abc1234 -->";
  created_at = codes "2025-01-01";
  is_system = false;
  resolved = none;
  resolved_by_id = none;
  resolvable = false;
  position = none;
}

abbrev overview : Discussion
overview = record {
  discussion_id = codes "d1";
  notes = marked_note ∷ [];
  is_resolved = false;
  is_inline = false;
}

abbrev history : DiscussionHistory
history = record {
  discussions = overview ∷ [];
  agent = record { user_id = 42; username = codes "agent" };
}

marked_body : search_marker marked_note.body ≡ some sha
unfolding search_marker marker_here after_head strip_prefix sha_group hex_run list_beq
marked_body = refl

extract-latest_example : extract_last_reviewed_sha (some history) ≡ some sha
extract-latest_example =
    extract-latest history [] overview [] marked_note sha refl refl refl refl refl marked_body
