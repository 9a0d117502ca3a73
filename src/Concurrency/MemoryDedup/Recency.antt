-- ===== src/Concurrency/MemoryDedup/Recency.antt =====
-- How long `MemoryDedup` remembers a key that it has just stored.
use gitlab_copilot_agent.Prelude.{
  ◌∙◌, sym, inr, inl, true, false, ◌≡◌, refl, ◌+◌, ◌≤◌, ◌<◌, ℕ, zero, suc, ◌-◌, ◌/◌, List, [], ◌∷◌,
  length, length-append, drop, contains, Text, text_eq, arith, Bool-cases, length-drop,
}
use native.Mathlib.Nat.{suc-add}
use gitlab_copilot_agent.Concurrency.OrderedDict.{contains-append, contains-snoc_self}
use gitlab_copilot_agent.Concurrency.MemoryDedup.{
  MemoryDedup, mark_seen, is_seen, assign, evict_if_needed,
}
use gitlab_copilot_agent.Concurrency.MemoryDedup.Bounds.{
  IsValid, contains-drop, drop-snoc, max_size-mark_seen, max_size-assign,
}

-- `key` is among the `n` newest keys.
IsRecent : MemoryDedup → ℕ → Text → Type 0
IsRecent d n key = contains (drop (length d.seen - n) d.seen) key ≡ true

drop-nil {ℓ} : {A : Type ℓ} (n : ℕ) → ◌≡◌ {A = List A} (drop n []) []
drop-nil zero = refl
drop-nil (suc n) = refl

drop-drop {ℓ} : {A : Type ℓ} (m n : ℕ) (l : List A) → drop m (drop n l) ≡ drop (n + m) l
drop-drop m zero l = ground arith
drop-drop {A = A} m (suc n) [] = drop-nil m ∙ sym (drop-nil {A = A} (suc n + m))
drop-drop m (suc n) (x ∷ l) = rw suc-add (drop-drop m n l)

contains-drop_mono :
    (k n : ℕ) (l : List Text) (a : Text)
    → k ≤ n
    → contains (drop n l) a ≡ true
    → contains (drop k l) a ≡ true
contains-drop_mono k n l a h c = ground (
  arith,
  drop-drop (n - k) k l,
  contains-drop (n - k) (drop k l) a,
  Bool-cases (contains (drop k l) a),
)

assign-IsRecent :
    (d : MemoryDedup) (n : ℕ) (key j : Text) → IsRecent d n key → IsRecent (assign j d) (suc n) key
unfolding assign IsRecent
assign-IsRecent d n key j h = ground (
  arith,
  contains-drop_mono (length d.seen - suc n) (length d.seen - n) d.seen key,
  length-append d.seen (j ∷ []),
  drop-snoc (length d.seen - n) d.seen j,
  contains-append (drop (length d.seen - n) d.seen) (j ∷ []) key,
)

assign-IsRecent_self :
    (d : MemoryDedup) (key : Text) → is_seen d key ≡ false → IsRecent (assign key d) 1 key
unfolding assign IsRecent is_seen
assign-IsRecent_self d key h = ground (
  arith,
  length-append d.seen (key ∷ []),
  drop-snoc (length d.seen) d.seen key,
  contains-snoc_self (drop (length d.seen) d.seen) key,
)

evict-IsRecent :
    (d : MemoryDedup) (n : ℕ) (key : Text)
    → n ≤ d.max_size / 2
    → IsRecent d n key
    → IsRecent (evict_if_needed d) n key
unfolding evict_if_needed IsRecent
evict-IsRecent d n key h r = ground (
  arith,
  length-drop (length d.seen - d.max_size / 2) d.seen,
  drop-drop (d.max_size / 2 - n) (length d.seen - d.max_size / 2) d.seen,
)

mark_seen-IsRecent :
    (d : MemoryDedup) (n : ℕ) (key j : Text)
    → suc n ≤ d.max_size / 2
    → IsRecent d n key
    → IsRecent (mark_seen d j) (suc n) key
unfolding mark_seen
mark_seen-IsRecent d n key j h r =
    evict-IsRecent (assign j d) (suc n) key (rw max_size-assign h) (assign-IsRecent d n key j r)

mark_seen-IsRecent_self :
    (d : MemoryDedup) (key : Text)
    → 1 ≤ d.max_size / 2
    → is_seen d key ≡ false
    → IsRecent (mark_seen d key) 1 key
unfolding mark_seen
mark_seen-IsRecent_self d key h fresh =
    evict-IsRecent (assign key d) 1 key (rw max_size-assign h) (assign-IsRecent_self d key fresh)

-- A run of marks.
abbrev pub mark_all : MemoryDedup → List Text → MemoryDedup
mark_all d [] = d
mark_all d (j ∷ js) = mark_all (mark_seen d j) js

is_seen_of_IsRecent :
    (d : MemoryDedup) (n : ℕ) (key : Text) → IsRecent d n key → is_seen d key ≡ true
unfolding IsRecent is_seen
is_seen_of_IsRecent d n key r = contains-drop_mono 0 (length d.seen - n) d.seen key (omega arith) r

mark_all-IsRecent :
    (d : MemoryDedup) (n : ℕ) (key : Text) (js : List Text)
    → n + length js ≤ d.max_size / 2
    → IsRecent d n key
    → is_seen (mark_all d js) key ≡ true
mark_all-IsRecent d n key [] h r = is_seen_of_IsRecent d n key r
mark_all-IsRecent d n key (j ∷ js) h r =
    mark_all-IsRecent (mark_seen d j) (suc n) key js (rw max_size-mark_seen (omega arith))
      (mark_seen-IsRecent d n key j (omega arith) r)

-- A key that is stored afresh is still seen after any further marks, as long as there are fewer
-- than `max_size / 2` of them: evictions cannot forget it earlier.
pub remembers_recent :
    (d : MemoryDedup) (key : Text) (js : List Text)
    → is_seen d key ≡ false
    → length js < d.max_size / 2
    → is_seen (mark_all (mark_seen d key) js) key ≡ true
remembers_recent d key js fresh h =
    mark_all-IsRecent (mark_seen d key) 1 key js (rw max_size-mark_seen (omega arith))
      (mark_seen-IsRecent_self d key (omega arith) fresh)

evict_of_bounded : (d : MemoryDedup) → length d.seen ≤ d.max_size → evict_if_needed d ≡ d
unfolding evict_if_needed
evict_of_bounded d h = ground arith

-- A mark of a key that is stored changes nothing, while the store is within its bound.
pub mark_seen_again :
    (d : MemoryDedup) (key : Text) → IsValid d → is_seen d key ≡ true → mark_seen d key ≡ d
unfolding mark_seen is_seen assign
mark_seen_again d key v h = ground (arith, evict_of_bounded d v.bounded)

-- With room for two keys, a key is seen right after it is marked.
pub is_seen-mark_seen_self :
    (d : MemoryDedup) (key : Text)
    → 2 ≤ d.max_size
    → IsValid d
    → is_seen (mark_seen d key) key ≡ true
is_seen-mark_seen_self d key room v = elim (Bool-cases (is_seen d key)) [
  | inl old ↦ rw (mark_seen_again d key v old) old
  | inr fresh ↦ remembers_recent d key [] fresh (omega arith)
]
