-- ===== src/Credentials/Tokens.antt =====
-- Which token an alias stands for.
use gitlab_copilot_agent.Prelude.{
  Text, text_eq, codes, [], ◌∷◌, Option, none, some, or_else, ◌==◌, if◌then◌else◌, ◌≡◌, refl, Bool,
  true, false, ap, ◌∙◌,
}
use gitlab_copilot_agent.Concurrency.OrderedDict.{lookup, insert, lookup-insert}
use gitlab_copilot_agent.Credentials.{Tokens, add_named, new_tokens, unknown_ref, resolve, token_or}

module _ (lower : Text → Text) where
  -- The last of the named tokens whose alias is the reference, up to case.
  unfoldable pub last_named : Text → Tokens → Option Text
  last_named ref [] = none
  last_named ref ((alias, token) ∷ named) =
      or_else (last_named ref named) (if lower alias == lower ref then some token else none)

  or_else_assoc :
      {A : Type 0} (a b c : Option A) → or_else a (or_else b c) ≡ or_else (or_else a b) c
  or_else_assoc none b c = refl
  or_else_assoc (some a) b c = refl

  found_or :
      (ref alias token : Text) (tokens : Tokens)
      → lookup (lower ref) (insert (lower alias) token tokens)
        ≡ or_else
            (if lower alias == lower ref then some token else none)
            (lookup (lower ref) tokens)
  found_or ref alias token tokens =
      lookup-insert (lower alias) (lower ref) token tokens ∙ chosen (lower alias == lower ref)
    where
      chosen :
          (b : Bool)
          → (if b then some token else lookup (lower ref) tokens)
            ≡ or_else (if b then some token else none) (lookup (lower ref) tokens)
      chosen true = refl
      chosen false = refl

  lookup-add_named :
      (ref : Text) (named tokens : Tokens)
      → lookup (lower ref) (add_named lower named tokens)
        ≡ or_else (last_named ref named) (lookup (lower ref) tokens)
  unfolding add_named last_named
  lookup-add_named ref [] tokens = refl
  lookup-add_named ref ((alias, token) ∷ named) tokens =
      lookup-add_named ref named (insert (lower alias) token tokens)
      ∙ ap (or_else (last_named ref named)) (found_or ref alias token tokens)
      ∙ or_else_assoc (last_named ref named) _ _

  -- A reference resolves, whatever its case, to the last named token of this alias; without one `default` is the
  -- default token; and any other reference raises. So a named token with the alias `default` takes the place of the
  -- default token.
  pub resolve-new_tokens :
      (default_token ref : Text) (named : Tokens)
      → resolve lower (new_tokens lower default_token named) ref
        ≡ token_or (unknown_ref lower (new_tokens lower default_token named) ref) (
            or_else
              (last_named ref named)
              (if codes "default" == lower ref then some default_token else none))
  unfolding resolve new_tokens lookup
  resolve-new_tokens default_token ref named =
      ap (token_or (unknown_ref lower (new_tokens lower default_token named) ref))
        (lookup-add_named ref named ((codes "default", default_token) ∷ []))
