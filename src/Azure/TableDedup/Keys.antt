-- ===== src/Azure/TableDedup/Keys.antt =====
-- A key with a colon is told by its partition and its row.
use gitlab_copilot_agent.Prelude.{
  ℕ, Text, text_eq, nat_eq, [], ◌∷◌, ◌++◌, Option, none, some, ◌==◌, ◌≡◌, refl, ap, sym, ◌∙◌, ◌≢◌,
  inl, inr, Bool-cases, Option-cases,
}
use gitlab_copilot_agent.Azure.TableDedup.{split_colon, split_dedup_key, default_or}

joined : Text → Option (Text × Text) → Text
joined key none = key
joined key (some (pk, rk)) = pk ++ 58 ∷ rk

-- A text with a colon is the part before the first one, the colon, and the part after it.
joined-split_colon : (key : Text) → joined key (split_colon key) ≡ key
unfolding split_colon joined
joined-split_colon [] = refl
joined-split_colon (c ∷ s) = elim (Bool-cases (c == 58)) [
  | inl colon ↦ rw colon (ap (λ (d : ℕ). d ∷ s) (sym ((nat_eq.beq_iff c 58).0 colon)))
  | inr other ↦ elim (Option-cases (split_colon s)) [
    | inl none_left ↦ rw (other, none_left) refl
    | inr (parts, found) ↦
        rw (other, found)
          (ap (λ (t : Text). c ∷ t) (ap (joined s) (sym found) ∙ joined-split_colon s))
  ]
]

same_parts :
    (j k : Text) (p q : Text × Text)
    → split_colon j ≡ some p
    → split_colon k ≡ some q
    → p ≡ q
    → j ≡ k
unfolding joined
same_parts j k p q hj hk same =
    sym (joined-split_colon j)
    ∙ ap (joined j) hj
    ∙ ap (λ (parts : Text × Text). joined j (some parts)) same
    ∙ ap (joined k) (sym hk)
    ∙ joined-split_colon k

-- Two keys that both have a colon are told apart by their partition and row.
pub split_dedup_key_injective :
    (j k : Text)
    → split_colon j ≢ none
    → split_colon k ≢ none
    → split_dedup_key j ≡ split_dedup_key k
    → j ≡ k
unfolding split_dedup_key default_or
split_dedup_key_injective j k hj hk same = elim (Option-cases (split_colon j)) [
  | inl none_left ↦ absurd (hj none_left)
  | inr (p, ej) ↦ elim (Option-cases (split_colon k)) [
    | inl none_left ↦ absurd (hk none_left)
    | inr (q, ek) ↦
        same_parts j k p q ej ek (ap (default_or j) (sym ej) ∙ same ∙ ap (default_or k) ek)
  ]
]
