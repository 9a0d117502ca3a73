-- ===== src/Git.antt =====
-- src/gitlab_copilot_agent/git: the checks on clone URLs and patches, and the clone with its retries. `urlparse`, the
-- regular expressions and `str.lower` are given.
pub mod Clone
pub mod Accepts
use gitlab_copilot_agent.Prelude.{
  ℕ, Text, text_eq, nat_eq, codes, show, contains, List, [], ◌∷◌, ◌++◌, Bool, true, false, not,
  ◌||◌, ◌&&◌, Option, none, some, ◌==◌, if◌then◌else◌,
}
use gitlab_copilot_agent.Effects.{Result, ok, raised, Exn, value_error, is_exception}

-- What the code reads of the result of `urlparse`; the port may raise.
pub record Url : Type 0 where
  pub scheme : Text
  pub netloc : Text
  pub path : Text
  pub username : Option Text
  pub password : Option Text
  pub hostname : Option Text
  pub port : Result (Option ℕ)

-- `urlparse`, `str.lower`, `p.search(s)` for the text of a pattern, and the value of ALLOW_HTTP_CLONE.
pub record Platform : Type 0 where
  pub urlparse : Text → Result Url
  pub lower : Text → Text
  pub search : Text → Text → Bool
  pub allow_http_clone : Text

-- `if value`, of an optional text
unfoldable pub is_given : Option Text → Bool
is_given none = false
is_given (some []) = false
is_given (some (c ∷ s)) = true

-- `TRANSIENT_PATTERNS` and `PERMANENT_PATTERNS`
abbrev pub transient_patterns : List Text
transient_patterns =
    codes "The requested URL returned error: 403"
    ∷ codes "The requested URL returned error: 5\\d{2}"
    ∷ codes "HTTP/\\d[\\d.]* 5\\d{2}"
    ∷ codes "connection refused"
    ∷ codes "timed out"
    ∷ codes "Could not resolve host"
    ∷ []

abbrev pub permanent_patterns : List Text
permanent_patterns =
    codes "repository not found"
    ∷ codes "not valid"
    ∷ codes "The requested URL returned error: 401"
    ∷ codes "The requested URL returned error: 404"
    ∷ []

invalid_url : {A : Type 0} → Text → Result A
invalid_url message = raised (record { kind = value_error; message = message })

module _ (platform : Platform) where
  any_match : List Text → Text → Bool
  any_match [] stderr = false
  any_match (p ∷ ps) stderr = platform.search p stderr || any_match ps stderr

  unfoldable pub is_transient_clone_error : Text → Bool
  unfolding any_match
  is_transient_clone_error stderr =
      if any_match permanent_patterns stderr then false else any_match transient_patterns stderr

  -- `_allow_http`
  unfoldable pub allow_http : Bool
  allow_http =
      contains (codes "true" ∷ codes "1" ∷ codes "yes" ∷ [])
        (platform.lower platform.allow_http_clone)

  check_parts : Url → Result (Unit {0})
  unfolding invalid_url
  check_parts parsed =
      if is_given parsed.username || is_given parsed.password
      then invalid_url (codes "Clone URL must not contain embedded credentials")
      else if parsed.netloc == [] || parsed.path == []
      then invalid_url (codes "Clone URL must have valid host and path")
      else ok tt

  check_url : Result Url → Result (Unit {0})
  unfolding check_parts invalid_url
  check_url (raised e) =
      if is_exception e then invalid_url (codes "Invalid URL format: " ++ e.message) else raised e
  check_url (ok parsed) =
      if parsed.scheme == codes "http" && allow_http
      then check_parts parsed
      else if not (parsed.scheme == codes "https")
      then invalid_url (codes "Clone URL must use HTTPS scheme, got: " ++ parsed.scheme)
      else check_parts parsed

  unfoldable pub validate_clone_url : Text → Result (Unit {0})
  unfolding check_url
  validate_clone_url url = check_url (platform.urlparse url)

  other_host : Url → Url → Text
  other_host clone gitlab =
      codes "Clone URL host '"
      ++ (clone.netloc
          ++ (codes "' does not match configured GitLab host '" ++ (gitlab.netloc ++ codes "'")))

  check_hosts : Result Url → Result Url → Result (Unit {0})
  unfolding other_host invalid_url
  check_hosts (raised e) gitlab = raised e
  check_hosts (ok clone) (raised e) = raised e
  check_hosts (ok clone) (ok gitlab) =
      if platform.lower clone.netloc == platform.lower gitlab.netloc
      then ok tt
      else invalid_url (other_host clone gitlab)

  unfoldable pub validate_clone_url_host : Text → Text → Result (Unit {0})
  unfolding check_hosts
  validate_clone_url_host clone_url gitlab_url =
      check_hosts (platform.urlparse clone_url) (platform.urlparse gitlab_url)

host_text : Option Text → Text
host_text none = codes "None"
host_text (some hostname) = hostname

with_port : Text → Option ℕ → Text
with_port host none = host
with_port host (some port) = if port == 0 then host else host ++ (codes ":" ++ show port)

without_credentials : Url → Result (Option ℕ) → Text
without_credentials parsed (raised e) = codes "<invalid-url>"
without_credentials parsed (ok port) =
    parsed.scheme ++ (codes "://" ++ (with_port (host_text parsed.hostname) port ++ parsed.path))

sanitize : Text → Result Url → Text
unfolding host_text with_port without_credentials
sanitize url (raised e) = codes "<invalid-url>"
sanitize url (ok parsed) =
    if parsed.scheme == []
    then codes "<invalid-url>"
    else if is_given parsed.username || is_given parsed.password
    then without_credentials parsed parsed.port
    else url

-- `sanitize_url_for_log`; what `urlparse` and the port raise are `Exception`s.
unfoldable pub sanitize_url_for_log : Platform → Text → Text
unfolding sanitize
sanitize_url_for_log platform url = sanitize url (platform.urlparse url)

-- `_validate_patch`: `is_traversal` says of a line that it is a file header with a `..` component.
unfoldable pub check_lines : (Text → Bool) → (Text → Text) → List Text → Result (Unit {0})
unfolding invalid_url
check_lines is_traversal repr [] = ok tt
check_lines is_traversal repr (line ∷ lines) =
    if is_traversal line
    then invalid_url (codes "Patch contains path traversal: " ++ repr line)
    else check_lines is_traversal repr lines
