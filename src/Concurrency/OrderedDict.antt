-- ===== src/Concurrency/OrderedDict.antt =====
-- Python's insertion-ordered `dict` and `OrderedDict`, as an association list, oldest first.
use gitlab_copilot_agent.Prelude.{
  Bool, true, ◌≡◌, refl, List, [], ◌∷◌, ◌++◌, Option, none, some, arith, Bool-cases, inl, inr,
  if◌then◌else◌, Eq, ◌==◌, contains, ◌&&◌, ◌||◌, eq_self, not,
}

module _ {ℓ κ} {K : Type ℓ} {V : Type κ} ⦃e : Eq K⦄ where
  -- `d.get(k)`
  unfoldable pub lookup : K → List (K × V) → Option V
  lookup k [] = none
  lookup k ((j, v) ∷ d) = if j == k then some v else lookup k d

  -- `d[k] = v`: a key that is there keeps its place.
  unfoldable pub insert : K → V → List (K × V) → List (K × V)
  insert k v [] = (k, v) ∷ []
  insert k v ((j, w) ∷ d) = if j == k then (j, v) ∷ d else (j, w) ∷ insert k v d

  -- `del d[k]`, where the key is there
  unfoldable pub delete : K → List (K × V) → List (K × V)
  delete k [] = []
  delete k ((j, v) ∷ d) = if j == k then d else (j, v) ∷ delete k d

  pub lookup-insert :
      (k j : K) (v : V) (d : List (K × V))
      → lookup j (insert k v d) ≡ (if k == j then some v else lookup j d)
  unfolding lookup insert
  lookup-insert k j v [] = refl
  lookup-insert k j v ((i, w) ∷ d) =
      ground (arith, e.beq_iff k j, e.beq_iff i k, e.beq_iff i j, lookup-insert k j v d)

-- The keys, in order.
unfoldable pub keys {ℓ κ} : {K : Type ℓ} {V : Type κ} → List (K × V) → List K
keys [] = []
keys ((k, v) ∷ d) = k ∷ keys d

module _ {ℓ} {A : Type ℓ} ⦃e : Eq A⦄ where
  -- No element twice.
  unfoldable pub distinct : List A → Bool
  distinct [] = true
  distinct (x ∷ xs) = not (contains xs x) && distinct xs

  pub contains-append :
      (xs ys : List A) (a : A) → contains (xs ++ ys) a ≡ (contains xs a || contains ys a)
  unfolding contains
  contains-append [] ys a = refl
  contains-append (x ∷ xs) ys a = ground (arith, contains-append xs ys a)

  pub contains-snoc_self : (xs : List A) (a : A) → contains (xs ++ a ∷ []) a ≡ true
  unfolding contains
  contains-snoc_self xs a = ground (arith, contains-append xs (a ∷ []) a, eq_self a)

module _ {ℓ κ} {K : Type ℓ} {V : Type κ} ⦃e : Eq K⦄ where
  -- A key is there once, as in every `dict`.
  unfoldable pub IsDict : List (K × V) → Type (ℓ ⊔ κ)
  IsDict [] = Unit
  IsDict ((k, v) ∷ d) = (lookup k d ≡ none) × IsDict d

  pub lookup-append :
      (j : K) (c d : List (K × V))
      → lookup j (c ++ d) ≡ elim (lookup j c) [ none ↦ lookup j d | some v ↦ some v ]
  unfolding lookup
  lookup-append j [] d = refl
  lookup-append j ((i, w) ∷ c) d = elim (Bool-cases (i == j)) [
    | inl same ↦ rw same
    | inr other ↦ rw other (lookup-append j c d)
  ]

  pub lookup-delete :
      (k j : K) (d : List (K × V))
      → IsDict d
      → lookup j (delete k d) ≡ (if k == j then none else lookup j d)
  unfolding lookup delete IsDict
  lookup-delete k j [] h = ground arith
  lookup-delete k j ((i, w) ∷ d) h =
      ground (arith, e.beq_iff k j, e.beq_iff i k, e.beq_iff i j, lookup-delete k j d h.1)

  pub delete-IsDict : (k : K) (d : List (K × V)) → IsDict d → IsDict (delete k d)
  unfolding delete IsDict
  delete-IsDict k [] h = h
  delete-IsDict k ((i, w) ∷ d) h = elim (Bool-cases (i == k)) [
    | inl same ↦ rw same h.1
    | inr other ↦
        rw other
          (rw (lookup-delete k i d h.1) (ground (arith, e.beq_iff k i)), delete-IsDict k d h.1)
  ]

  pub snoc-IsDict :
      (k : K) (v : V) (d : List (K × V)) → IsDict d → lookup k d ≡ none → IsDict (d ++ (k, v) ∷ [])
  unfolding IsDict lookup
  snoc-IsDict k v [] h n = (refl, tt)
  snoc-IsDict k v ((i, w) ∷ d) h n = (
    rw (lookup-append i d ((k, v) ∷ []), h.0) (ground (arith, e.beq_iff k i, e.beq_iff i k)),
    snoc-IsDict k v d h.1 (ground (arith, e.beq_iff k i)),
  )
