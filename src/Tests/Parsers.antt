-- ===== src/Tests/Parsers.antt =====
-- Instances of the theorems on comment_parser.py.
use gitlab_copilot_agent.Prelude.{
  suc, zero, ℤ, pos, nat_eq, pair_eq, Text, text_eq, codes, [], ◌∷◌, Option, none, some, ◌≡◌, refl,
  strip,
}
use gitlab_copilot_agent.Effects.{ok}
use gitlab_copilot_agent.Json.{int, str, array, object, Fields, field, no_fields}
use gitlab_copilot_agent.Comments.Parsed.{ReviewComment, Resolution, Status}
use gitlab_copilot_agent.ReviewParser.{Readers, summary_or, parse_review}
use gitlab_copilot_agent.ReviewParser.Kept.{answer_of, array_of, parse_review-answer_of}

abbrev suggestion_fields : Option Text → Fields
suggestion_fields none = no_fields
suggestion_fields (some s) = field (codes "suggestion") (str s) no_fields

abbrev comment_fields : ReviewComment → Fields
comment_fields c = field (codes "file") (str c.file) (
    field (codes "line") (int c.line) (
      field (codes "severity") (str c.severity) (
        field (codes "comment") (str c.comment) (
          field (codes "start") (int c.suggestion_start_offset)
            (field (codes "end") (int c.suggestion_end_offset) (suggestion_fields c.suggestion))))))

suggestion_of : Fields → Option Text
suggestion_of (field k (str s) no_fields) = some s
suggestion_of _ = none

comment_of : Fields → Option ReviewComment
unfolding suggestion_of
comment_of
      (field a (str file) (
        field b (int line) (
          field c
            (str severity)
            (field d (str comment) (field e (int first) (field f (int last) rest)))))) =
    some (record {
      file = file;
      line = line;
      severity = severity;
      comment = comment;
      suggestion = suggestion_of rest;
      suggestion_start_offset = first;
      suggestion_end_offset = last;
    })
comment_of _ = none

suggestion_of-fields : (s : Option Text) → suggestion_of (suggestion_fields s) ≡ s
unfolding suggestion_of
suggestion_of-fields none = refl
suggestion_of-fields (some s) = refl

comment_of-fields : (c : ReviewComment) → comment_of (comment_fields c) ≡ some c
unfolding comment_of
comment_of-fields c = rw (suggestion_of-fields c.suggestion) refl

abbrev status_number : Status → ℤ
status_number Status.resolved = pos 0
status_number Status.not_addressed = pos 1
status_number Status.partial = pos 2

abbrev numbered_status : ℤ → Status
numbered_status (pos zero) = Status.resolved
numbered_status (pos (suc zero)) = Status.not_addressed
numbered_status _ = Status.partial

numbered_status-number : (s : Status) → numbered_status (status_number s) ≡ s
numbered_status-number Status.resolved = refl
numbered_status-number Status.not_addressed = refl
numbered_status-number Status.partial = refl

abbrev remark : ReviewComment
remark = record {
  file = codes "a.py";
  line = pos 3;
  severity = codes "info";
  comment = codes "Check this.";
  suggestion = none;
  suggestion_start_offset = pos 0;
  suggestion_end_offset = pos 0;
}

abbrev resolution_fields : Resolution → Fields
resolution_fields r = field (codes "discussion_id") (str r.discussion_id) (
    field (codes "status") (int (status_number r.status))
      (field (codes "message") (str r.message) no_fields))

resolution_of : Fields → Option Resolution
resolution_of (field a (str discussion_id) (field b (int n) (field c (str message) no_fields))) =
    some (record { discussion_id = discussion_id; status = numbered_status n; message = message })
resolution_of _ = none

resolution_of-fields : (r : Resolution) → resolution_of (resolution_fields r) ≡ some r
unfolding resolution_of
resolution_of-fields r = rw (numbered_status-number r.status) refl

abbrev readers : Readers
readers = record {
  find_fence = λ raw. some (raw, codes "Looks good.");
  drop_fence = λ s. s;
  loads = λ json. some (array (array_of (comment_fields remark ∷ [])));
  raw_decode = λ s idx. none;
  comment = comment_of;
  resolution = resolution_of;
}

parse_review-answer_of_example :
    (readers.loads (codes "[...]") ≡ some (object (answer_of (comment_fields remark ∷ []) []))
      → parse_review readers (codes "[...]")
        ≡ ok (record {
          comments = remark ∷ [];
          summary = summary_or (strip (readers.drop_fence (strip (codes "Looks good."))));
          resolutions = [];
          parse_path = codes "code_fence";
        }))
    × (readers.loads (codes "[...]") ≡ some (array (array_of (comment_fields remark ∷ [])))
        → parse_review readers (codes "[...]")
          ≡ ok (record {
            comments = remark ∷ [];
            summary = summary_or (strip (readers.drop_fence (strip (codes "Looks good."))));
            resolutions = [];
            parse_path = codes "code_fence_array";
          }))
parse_review-answer_of_example =
    parse_review-answer_of readers comment_fields resolution_fields comment_of-fields
      resolution_of-fields (codes "[...]") (codes "[...]") (codes "Looks good.") (remark ∷ []) []
      refl
