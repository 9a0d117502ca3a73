-- ===== src/GitlabClient.antt =====
-- gitlab_client.py: `GitLabClient` over HTTP. What GitLab answers, and how a pause ends, is any function of the requests
-- and pauses so far; `raise_for_status` and the reading of JSON and floats are given.
pub mod Calls
pub mod Pages
pub mod Details
pub mod Reads
pub mod Parse
pub mod Retries
pub mod Once
pub mod Recover
use gitlab_copilot_agent.Prelude.{
  ℕ, zero, suc, ◌+◌, ◌-◌, ◌^◌, Text, codes, List, [], ◌∷◌, ◌++◌, Bool, true, false, ◌&&◌, ◌||◌, ltb,
  leb, Option, none, some, ◌==◌, nat_eq, if◌then◌else◌,
}
use gitlab_copilot_agent.Effects.{
  Result, ok, raised, Exn, is_transport_error, runtime_error, Py, pure, raise, lift, ◌>>=◌, ◌>>◌,
}
use gitlab_copilot_agent.Json.{Json}

-- The methods that the client sends, and HEAD.
pub data Method : Type 0 where
  get head post put : Method

pub record Request : Type 0 where
  pub method : Method
  pub path : Text
  pub json : Json
  pub params : List (Text × Text)

pub record Response : Type 0 where
  pub status_code : ℕ
  pub retry_after : Option Text
  pub json : Result Json

-- `float(retry_after)` of a header, or a number of seconds
pub data Delay : Type 0 where
  of_header : Text → Delay
  seconds : ℕ → Delay

pub data HttpStep : Type 0 where
  sent : Request → HttpStep
  slept : Delay → HttpStep

abbrev pub HttpLog : Type 0
HttpLog = List HttpStep

pub record Http : Type 0 where
  pub answer : HttpLog → Request → Result Response
  pub pause : HttpLog → Result (Unit {0})
  pub raise_for_status : Response → Result (Unit {0})
  pub is_float : Text → Bool

-- `_MAX_RETRIES`, `_DIFF_REFS_MAX_RETRIES` and `_PAGE_SIZE`
abbrev pub max_retries : ℕ
max_retries = 3

abbrev pub diff_refs_max_retries : ℕ
diff_refs_max_retries = 5

abbrev pub page_size : ℕ
page_size = 100

delay_or : (Text → Bool) → Option Text → ℕ → Delay
delay_or is_float none attempt = seconds (2 ^ attempt)
delay_or is_float (some s) attempt = if is_float s then of_header s else seconds (2 ^ attempt)

-- `_retry_delay`, where `_RETRY_BACKOFF` is a second
unfoldable pub retry_delay : (Text → Bool) → Response → ℕ → Delay
unfolding delay_or
retry_delay is_float resp attempt = delay_or is_float resp.retry_after attempt

-- The default of `can_retry`
unfoldable pub is_safe : Method → Bool
is_safe get = true
is_safe head = true
is_safe post = false
is_safe put = false

unfoldable pub can_retry : Option Bool → Method → Bool
can_retry none method = is_safe method
can_retry (some idempotent) method = idempotent

unfoldable pub max_attempts_of : Bool → ℕ
max_attempts_of true = max_retries
max_attempts_of false = 1

-- `resp.status_code == 429 or resp.status_code >= 500`
unfoldable pub is_retryable : Response → Bool
is_retryable resp = resp.status_code == 429 || leb 500 resp.status_code

-- The end of `_request`, after the loop.
unfoldable pub give_up : Option Exn → Exn
give_up none = record { kind = runtime_error; message = codes "Request failed after retries" }
give_up (some exc) = exc

module _ (http : Http) where
  unfoldable pub send : Request → Py HttpLog Response
  send r log = (http.answer log r, log ++ sent r ∷ [])

  unfoldable pub sleep : Delay → Py HttpLog (Unit {0})
  sleep d log = (http.pause log, log ++ slept d ∷ [])

  -- What is done with an answer; `none` is `continue`.
  unfoldable pub judge : ℕ → ℕ → Response → Py HttpLog (Option Response)
  judge max_attempts attempt resp =
      if is_retryable resp && ltb attempt (max_attempts - 1)
      then (sleep (retry_delay http.is_float resp attempt) >> pure none)
      else (lift (http.raise_for_status resp) >> pure (some resp))

  unfoldable pub backoff : ℕ → ℕ → Py HttpLog (Unit {0})
  backoff max_attempts attempt =
      if ltb attempt (max_attempts - 1) then sleep (seconds (2 ^ attempt)) else pure tt

  -- What follows the `try` of an attempt; `again` is the loop from the next attempt on.
  unfoldable pub settle_attempt :
      ℕ
      → ℕ
      → Option Exn
      → (Option Exn → Py HttpLog Response)
      → Result (Option Response) × HttpLog
      → Result Response × HttpLog
  settle_attempt max_attempts attempt last_exc again (ok (some resp), log) = (ok resp, log)
  settle_attempt max_attempts attempt last_exc again (ok none, log) = again last_exc log
  settle_attempt max_attempts attempt last_exc again (raised exc, log) =
      if is_transport_error exc
      then (backoff max_attempts attempt >> again (some exc)) log
      else (raised exc, log)

  -- The loop, with the attempts that are left.
  unfoldable pub attempts : Request → ℕ → ℕ → ℕ → Option Exn → Py HttpLog Response
  attempts r max_attempts zero attempt last_exc log = raise (give_up last_exc) log
  attempts r max_attempts (suc left) attempt last_exc log =
      settle_attempt max_attempts attempt last_exc (attempts r max_attempts left (suc attempt))
        ((send r >>= judge max_attempts attempt) log)

  -- `_request`
  unfoldable pub request : Option Bool → Request → Py HttpLog Response
  request idempotent r =
      let max_attempts = max_attempts_of (can_retry idempotent r.method) in
      attempts r max_attempts max_attempts 0 none
