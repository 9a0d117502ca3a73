-- ===== src/Prelude/Strings.antt =====
-- Python's methods on texts, and the order of texts.
use Prim.Native.Nat.{ℕ, zero, suc, ◌-◌}
use mathlib.Core.List.{List, [], ◌∷◌, ◌++◌, reverse}
use mathlib.Core.Bool.{Bool, true, false, ◌&&◌, ◌||◌}
use mathlib.Core.Option.{Option, none, some}
use gitlab_copilot_agent.Prelude.Equality.{◌==◌, nat_eq}
use gitlab_copilot_agent.Prelude.Tests.{ltb, leb, if◌then◌else◌}
use gitlab_copilot_agent.Prelude.Lists.{length}
use gitlab_copilot_agent.Prelude.Texts.{Text, text_eq}

-- `s <= t`
unfoldable pub text_leb : Text → Text → Bool
text_leb [] t = true
text_leb (c ∷ s) [] = false
text_leb (c ∷ s) (d ∷ t) = ltb c d || (c == d && text_leb s t)

-- A set of texts as a sorted list: a text that is there is not put in again.
unfoldable pub insert_text : Text → List Text → List Text
insert_text s [] = s ∷ []
insert_text s (t ∷ ts) =
    let more = insert_text s ts in
    if s == t then t ∷ ts else if text_leb s t then s ∷ t ∷ ts else t ∷ more

-- `sorted(set(texts))`
unfoldable pub sorted_texts : List Text → List Text
sorted_texts [] = []
sorted_texts (s ∷ ts) = insert_text s (sorted_texts ts)

-- `sep.join(texts)`
unfoldable pub join : Text → List Text → Text
join sep [] = []
join sep (s ∷ []) = s
join sep (s ∷ t ∷ ts) = s ++ (sep ++ join sep (t ∷ ts))

-- The white space of `str.strip`.
unfoldable pub is_space : ℕ → Bool
is_space c =
    (leb 9 c && leb c 13)
    || ((leb 28 c && leb c 32)
        || (c == 133
            || (c == 160
                || (c == 5760
                    || ((leb 8192 c && leb c 8202)
                        || (c == 8232
                            || (c == 8233 || (c == 8239 || (c == 8287 || c == 12288)))))))))

unfoldable pub lstrip : Text → Text
lstrip [] = []
lstrip (c ∷ s) = if is_space c then lstrip s else c ∷ s

-- `s.strip()`
unfoldable pub strip : Text → Text
strip s = reverse (lstrip (reverse (lstrip s)))

-- `value or default`, where the value may be `None` or empty
abbrev pub text_or : Option Text → Text → Text
text_or none d = d
text_or (some []) d = d
text_or (some (c ∷ s)) d = c ∷ s

-- `t.startswith(s)`
unfoldable pub starts : Text → Text → Bool
starts [] t = true
starts (c ∷ s) [] = false
starts (c ∷ s) (d ∷ t) = c == d && starts s t

-- `s in t`
unfoldable pub occurs : Text → Text → Bool
occurs s [] = starts s []
occurs s (c ∷ t) = starts s (c ∷ t) || occurs s t

-- The rest of a replacement; the first `skip` characters are of an occurrence that was replaced.
replace_from : Text → Text → ℕ → Text → Text
replace_from old new skip [] = []
replace_from old new (suc skip) (c ∷ s) = replace_from old new skip s
replace_from old new zero (c ∷ s) =
    let replaced = replace_from old new (length old - 1) s in
    let kept = replace_from old new zero s in
    if starts old (c ∷ s) then new ++ replaced else c ∷ kept

weave : Text → Text → Text
weave new [] = new
weave new (c ∷ s) = new ++ (c ∷ weave new s)

-- `s.replace(old, new)`: an empty text is found before each character and at the end.
unfoldable pub replace : Text → Text → Text → Text
unfolding replace_from weave
replace [] new s = weave new s
replace (c ∷ old) new s = replace_from (c ∷ old) new 0 s
