-- ===== src/Concurrency/MemoryDedup/Bounds.antt =====
-- `MemoryDedup` stays within its bound, and forgets oldest first.
use gitlab_copilot_agent.Prelude.{
  ◌∙◌, ◌⊎◌, true, false, ◌≡◌, refl, ◌+◌, ◌≤◌, ◌<◌, ◌||◌, ℕ, zero, suc, ◌-◌, ◌/◌, List, [], ◌∷◌,
  ◌++◌, length, length-append, drop, contains, Text, text_eq, text_eq_iff, arith, ◌==◌, Bool-cases,
  length-drop,
}
use gitlab_copilot_agent.Concurrency.OrderedDict.{distinct, contains-append}
use gitlab_copilot_agent.Concurrency.MemoryDedup.{
  MemoryDedup, mark_seen, is_seen, assign, evict_if_needed,
}

-- The invariant: at most `max_size` keys, and no key twice.
pub record IsValid (d : MemoryDedup) : Type 0 where
  pub bounded : length d.seen ≤ d.max_size
  pub distinct_keys : distinct d.seen ≡ true

pub drop-snoc {ℓ} :
    {A : Type ℓ} (n : ℕ) (xs : List A) (a : A)
    → n ≤ length xs
    → drop n (xs ++ a ∷ []) ≡ drop n xs ++ a ∷ []
drop-snoc zero xs a h = refl
drop-snoc (suc n) [] a h = absurd (omega arith)
drop-snoc (suc n) (x ∷ xs) a h = drop-snoc n xs a (omega arith)

pub contains-drop :
    (n : ℕ) (xs : List Text) (a : Text) → contains xs a ≡ false → contains (drop n xs) a ≡ false
unfolding contains
contains-drop zero xs a h = h
contains-drop (suc n) [] a h = h
contains-drop (suc n) (x ∷ xs) a h = contains-drop n xs a (ground arith)

distinct-drop : (n : ℕ) (xs : List Text) → distinct xs ≡ true → distinct (drop n xs) ≡ true
unfolding distinct
distinct-drop zero xs h = h
distinct-drop (suc n) [] h = h
distinct-drop (suc n) (x ∷ xs) h = distinct-drop n xs (ground arith)

distinct-snoc :
    (xs : List Text) (a : Text)
    → distinct xs ≡ true
    → contains xs a ≡ false
    → distinct (xs ++ a ∷ []) ≡ true
unfolding distinct contains
distinct-snoc [] a h k = refl
distinct-snoc (x ∷ xs) a h k =
    ground
      (arith, contains-append xs (a ∷ []) x, text_eq_iff a x, text_eq_iff x a, distinct-snoc xs a)

-- An eviction keeps the newest `max_size / 2` keys, in order.
seen-evict :
    (d : MemoryDedup)
    → d.max_size < length d.seen
    → (evict_if_needed d).seen ≡ drop (length d.seen - d.max_size / 2) d.seen
unfolding evict_if_needed
seen-evict d h = ground arith

assign-distinct :
    (d : MemoryDedup) (key : Text) → distinct d.seen ≡ true → distinct (assign key d).seen ≡ true
unfolding assign
assign-distinct d key h = ground (arith, distinct-snoc d.seen key h)

length-assign : (d : MemoryDedup) (key : Text) → length (assign key d).seen ≤ length d.seen + 1
unfolding assign
length-assign d key = ground (arith, length-append d.seen (key ∷ []))

evict-bounded : (d : MemoryDedup) → length (evict_if_needed d).seen ≤ d.max_size
unfolding evict_if_needed
evict-bounded d = ground (arith, length-drop (length d.seen - d.max_size / 2) d.seen)

evict-distinct :
    (d : MemoryDedup) → distinct d.seen ≡ true → distinct (evict_if_needed d).seen ≡ true
unfolding evict_if_needed
evict-distinct d h = ground (arith, distinct-drop (length d.seen - d.max_size / 2) d.seen h)

pub max_size-evict : (d : MemoryDedup) → (evict_if_needed d).max_size ≡ d.max_size
unfolding evict_if_needed
max_size-evict d = ground arith

pub max_size-assign : (d : MemoryDedup) (key : Text) → (assign key d).max_size ≡ d.max_size
unfolding assign
max_size-assign d key = ground arith

pub max_size-mark_seen : (d : MemoryDedup) (key : Text) → (mark_seen d key).max_size ≡ d.max_size
max_size-mark_seen d key = unfold mark_seen in max_size-evict (assign key d) ∙ max_size-assign d key

-- Marking a key keeps the invariant: the store never holds more than `max_size` keys, and no key
-- twice.
pub mark_seen-IsValid : (d : MemoryDedup) (key : Text) → IsValid d → IsValid (mark_seen d key)
unfolding mark_seen
mark_seen-IsValid d key v = record {
  bounded =
      omega
        (arith, evict-bounded (assign key d), max_size-evict (assign key d), max_size-assign d key);
  distinct_keys = evict-distinct (assign key d) (assign-distinct d key v.distinct_keys);
}

is_seen-of-evict :
    (d : MemoryDedup) (j : Text) → is_seen (evict_if_needed d) j ≡ true → is_seen d j ≡ true
unfolding evict_if_needed is_seen
is_seen-of-evict d j h =
    ground (
      arith,
      contains-drop (length d.seen - d.max_size / 2) d.seen j,
      Bool-cases (contains d.seen j),
    )

is_seen-assign :
    (d : MemoryDedup) (key j : Text) → is_seen (assign key d) j ≡ (key == j || is_seen d j)
unfolding assign is_seen contains
is_seen-assign d key j =
    ground (arith, contains-append d.seen (key ∷ []) j, text_eq_iff key j, text_eq_iff j key)

-- Marking never invents a key: what is seen afterwards is the marked key or was seen before.
pub is_seen-of-mark_seen :
    (d : MemoryDedup) (key j : Text)
    → is_seen (mark_seen d key) j ≡ true
    → (j ≡ key) ⊎ (is_seen d j ≡ true)
unfolding mark_seen
is_seen-of-mark_seen d key j h =
    ground (arith, is_seen-of-evict (assign key d) j h, is_seen-assign d key j, text_eq_iff key j)
