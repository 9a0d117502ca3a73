-- ===== src/Git/Accepts.antt =====
-- What the checks on a clone URL let through.
use gitlab_copilot_agent.Prelude.{
  Text, text_eq, text_eq_iff, codes, [], Bool, true, false, not, ◌&&◌, ◌||◌, ◌==◌, if◌then◌else◌,
  ◌≡◌, ◌≢◌, refl, inl, inr, Bool-cases, ◌⊎◌, arith,
}
use gitlab_copilot_agent.Effects.{Result, ok, raised}
use gitlab_copilot_agent.Git.{
  Url, Platform, is_given, allow_http, check_parts, check_url, check_hosts, validate_clone_url,
  validate_clone_url_host, invalid_url,
}

-- A URL without credentials, with a host and a path.
pub record IsPlain (parsed : Url) : Type 0 where
  pub no_username : is_given parsed.username ≡ false
  pub no_password : is_given parsed.password ≡ false
  pub has_host : (parsed.netloc == []) ≡ false
  pub has_path : (parsed.path == []) ≡ false

nothing_given : (a b : Bool) → (a || b) ≡ false → (a ≡ false) × (b ≡ false)
nothing_given a b h = ground arith

both : (a b : Bool) → (a && b) ≡ true → (a ≡ true) × (b ≡ true)
both a b h = ground arith

true_of_negated : (a : Bool) → not a ≡ false → a ≡ true
true_of_negated a h = ground arith

refused : (message : Text) → invalid_url {A = Unit {0}} message ≢ ok tt
unfolding invalid_url
refused message h = cc

-- `if a then refuse else m` lets through what `m` does, where `a` is false.
guarded :
    (a : Bool) (message : Text) (m : Result (Unit {0}))
    → (if a then invalid_url message else m) ≡ ok tt
    → (a ≡ false) × (m ≡ ok tt)
guarded true message m h = absurd (refused message h)
guarded false message m h = (refl, h)

module _ (platform : Platform) where
  check_parts-IsPlain : (parsed : Url) → check_parts platform parsed ≡ ok tt → IsPlain parsed
  unfolding check_parts
  check_parts-IsPlain parsed h =
      let (open_url, h') = guarded (is_given parsed.username || is_given parsed.password) _ _ h in
      let (full, h'') = guarded (parsed.netloc == [] || parsed.path == []) _ _ h' in
      let (u, p) = nothing_given (is_given parsed.username) (is_given parsed.password) open_url in
      let (n, q) = nothing_given (parsed.netloc == []) (parsed.path == []) full in
      record { no_username = u; no_password = p; has_host = n; has_path = q }

  check_url-IsPlain :
      (parsed : Url)
      → check_url platform (ok parsed) ≡ ok tt
      → IsPlain parsed
        × ((parsed.scheme ≡ codes "https")
            ⊎ ((parsed.scheme ≡ codes "http") × (allow_http platform ≡ true)))
  unfolding check_url
  check_url-IsPlain parsed h =
      elim (Bool-cases (parsed.scheme == codes "http" && allow_http platform)) [
        | inl http ↦
            let (is_http, allowed) =
              both (parsed.scheme == codes "http") (allow_http platform) http in
            (
              check_parts-IsPlain parsed (rw http at h),
              inr ((text_eq_iff parsed.scheme (codes "http")).0 is_http, allowed),
            )
        | inr other ↦
            let (not_not, h') =
              guarded (not (parsed.scheme == codes "https")) _ _ (rw other at h) in
            (
              check_parts-IsPlain parsed h',
              inl ((text_eq_iff parsed.scheme (codes "https")).0 (true_of_negated _ not_not)),
            )
      ]

  check_hosts-same :
      (clone gitlab : Result Url)
      → check_hosts platform clone gitlab ≡ ok tt
      → (c : Url) × (g : Url) × (clone ≡ ok c)
        × (gitlab ≡ ok g)
        × (platform.lower c.netloc ≡ platform.lower g.netloc)
  unfolding check_hosts
  check_hosts-same (raised e) gitlab h = absurd (cc)
  check_hosts-same (ok c) (raised e) h = absurd (cc)
  check_hosts-same (ok c) (ok g) h =
      elim (Bool-cases (platform.lower c.netloc == platform.lower g.netloc)) [
        | inl same ↦ (c, g, refl, refl, (text_eq_iff _ _).0 same)
        | inr other ↦ absurd (refused _ (rw other at h))
      ]

  -- A clone URL that both checks accept is read by `urlparse`, and then it has no user name and no password, but a host
  -- and a path; its scheme is https, or http where the environment allows it; and its host is that of the configured
  -- GitLab, up to case.
  pub accepted_url_is_safe :
      (clone_url gitlab_url : Text)
      → validate_clone_url platform clone_url ≡ ok tt
      → validate_clone_url_host platform clone_url gitlab_url ≡ ok tt
      → (parsed : Url) × (gitlab : Url) × (platform.urlparse clone_url ≡ ok parsed)
        × (platform.urlparse gitlab_url ≡ ok gitlab)
        × IsPlain parsed
        × ((parsed.scheme ≡ codes "https")
            ⊎ ((parsed.scheme ≡ codes "http") × (allow_http platform ≡ true)))
        × (platform.lower parsed.netloc ≡ platform.lower gitlab.netloc)
  unfolding validate_clone_url validate_clone_url_host
  accepted_url_is_safe clone_url gitlab_url valid same_host =
      let (parsed, gitlab, read, read', same) =
        check_hosts-same (platform.urlparse clone_url) (platform.urlparse gitlab_url) same_host in
      let (is_plain, scheme) = check_url-IsPlain parsed (rw read at valid) in
      (parsed, gitlab, read, read', is_plain, scheme, same)
