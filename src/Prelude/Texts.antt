-- ===== src/Prelude/Texts.antt =====
-- Texts as lists of code points, and decimal printing of a number.
use Prim.Native.Char.{code}
use Prim.Native.String.{String}
use Prim.Native.Nat.{ℕ, zero, suc, ◌+◌, ◌-◌, ◌*◌, ◌/◌, ◌%◌, ◌≤◌, ◌<◌}
use mathlib.Core.Path.{◌≡◌, ap, ◌∙◌, sym}
use mathlib.Core.Logic.{inl, inr, ◌≢◌}
use mathlib.Core.List.{List, [], ◌∷◌, ◌++◌, foldl, foldl-append}
use native.Mathlib.Omega.{arith}
use mathlib.Core.Bool.{true}
use mathlib.Core.Logic.{◌↔◌}
use gitlab_copilot_agent.Prelude.Equality.{Eq, ◌==◌, list_eq, nat_eq}
use gitlab_copilot_agent.Prelude.Tests.{ltb, Bool-cases, if◌then◌else◌}

abbrev pub Text : Type 0
Text = List ℕ

instance abbrev pub text_eq : Eq Text
text_eq = list_eq

pub text_eq_iff : (s t : Text) → ((s == t) ≡ true) ↔ (s ≡ t)
text_eq_iff s t = text_eq.beq_iff s t

-- The code points of a literal.
abbrev pub codes : String → Text
codes String.[] = []
codes (String.◌∷◌ c s) = code c ∷ codes s

-- `str(n)`, with fuel for the digits.
show_digits : ℕ → ℕ → Text
show_digits zero n = []
show_digits (suc fuel) n =
    let more = show_digits fuel (n / 10) ++ (48 + n % 10) ∷ [] in
    if ltb n 10 then (48 + n) ∷ [] else more

-- `str(n)`
unfoldable pub show : ℕ → Text
unfolding show_digits
show n = show_digits (suc n) n

abbrev add_digit : ℕ → ℕ → ℕ
add_digit a c = a * 10 + (c - 48)

-- The number that decimal digits stand for.
unfoldable pub value : Text → ℕ
value = foldl add_digit 0

value-snoc : (s : Text) (c : ℕ) → value (s ++ c ∷ []) ≡ value s * 10 + (c - 48)
unfolding value
value-snoc s c = rw foldl-append

value-show_digits : (fuel n : ℕ) → n < fuel → value (show_digits fuel n) ≡ n
unfolding show_digits
value-show_digits zero n h = elim h [ ]
value-show_digits (suc fuel) n h = elim (Bool-cases (ltb n 10)) [
  | inl small ↦ rw small (unfold value in ground arith)
  | inr big ↦ rw (big, value-snoc) (ground (arith, value-show_digits fuel (n / 10)))
]

-- Printing loses nothing: the digits of `n` read back as `n`.
pub value-show : (n : ℕ) → value (show n) ≡ n
unfolding show
value-show n = value-show_digits (suc n) n (omega arith)

pub show_injective : (m n : ℕ) → show m ≡ show n → m ≡ n
show_injective m n h = sym (value-show m) ∙ ap value h ∙ value-show n

-- Every character satisfies the test.
abbrev pub AllChars : (ℕ → Type 0) → Text → Type 0
AllChars P [] = Unit {0}
AllChars P (c ∷ s) = P c × AllChars P s

pub AllChars-append :
    (P : ℕ → Type 0) (s t : Text) → AllChars P s → AllChars P t → AllChars P (s ++ t)
AllChars-append P [] t hs ht = ht
AllChars-append P (c ∷ s) t hs ht = (hs.0, AllChars-append P s t hs.1 ht)

abbrev pub IsDigit : ℕ → Type 0
IsDigit c = (48 ≤ c) × (c ≤ 57)

show_digits-AllChars : (fuel n : ℕ) → AllChars IsDigit (show_digits fuel n)
unfolding show_digits
show_digits-AllChars zero n = tt
show_digits-AllChars (suc fuel) n = elim (Bool-cases (ltb n 10)) [
  | inl small ↦ rw small ((ground arith, ground arith), tt)
  | inr big ↦ rw big (
      AllChars-append IsDigit _ _ (show_digits-AllChars fuel (n / 10))
        ((omega arith, omega arith), tt))
]

pub show-AllChars : (n : ℕ) → AllChars IsDigit (show n)
unfolding show
show-AllChars n = show_digits-AllChars (suc n) n

-- Two texts of digits before a separator that is no digit are split at the same place.
pub split_unique :
    (c : ℕ) (s t u v : Text)
    → 57 < c
    → AllChars IsDigit s
    → AllChars IsDigit t
    → s ++ c ∷ u ≡ t ++ c ∷ v
    → (s ≡ t) × (u ≡ v)
split_unique c [] [] u v h hs ht e = ground arith
split_unique c [] (b ∷ t) u v h hs ht e = absurd (ground arith)
split_unique c (a ∷ s) [] u v h hs ht e = absurd (ground arith)
split_unique c (a ∷ s) (b ∷ t) u v h hs ht e = ground (arith, split_unique c s t u v h hs.1 ht.1)

snoc-ne-nil : (s : Text) (c : ℕ) → s ++ c ∷ [] ≢ []
snoc-ne-nil [] c h = cc
snoc-ne-nil (d ∷ s) c h = cc

pub show-ne-nil : (n : ℕ) → show n ≢ []
unfolding show show_digits
show-ne-nil n = elim (Bool-cases (ltb n 10)) [
  | inl small ↦ rw small (λ h. cc)
  | inr big ↦ rw big (snoc-ne-nil _ _)
]
