-- ===== src/GitlabClient/Retries.antt =====
-- The retries of `_request`: their bound, and what they get past.
use gitlab_copilot_agent.Prelude.{
  ℕ, zero, suc, ◌+◌, ◌-◌, ◌≤◌, [], ◌∷◌, ◌++◌, Bool, none, some, Option, ◌≡◌, refl, inl, inr,
  Bool-cases, ltb, ◌&&◌, arith, ◌∙◌, ap,
}
use gitlab_copilot_agent.Effects.{
  Result, ok, raised, Exn, is_transport_error, Py, pure, lift, continue, ◌>>◌, ◌>>=◌, Result-cases,
}
use gitlab_copilot_agent.GitlabClient.{
  Request, Response, Http, HttpLog, sent, slept, Delay, send, sleep, judge, backoff, settle_attempt,
  attempts, request, can_retry, max_attempts_of, is_retryable, retry_delay, max_retries,
}
use gitlab_copilot_agent.GitlabClient.Once.{sends, sends-append}

module _ (http : Http) where
  pub sleep-sends : (d : Delay) (log : HttpLog) → sends (sleep http d log).1 ≡ sends log
  unfolding sleep sends
  sleep-sends d log = omega (arith, sends-append log (slept d ∷ []))

  pub send-sends : (r : Request) (log : HttpLog) → sends (log ++ sent r ∷ []) ≡ suc (sends log)
  unfolding sends
  send-sends r log = omega (arith, sends-append log (sent r ∷ []))

  after_pause :
      {A : Type 0} (r : Result (Unit {0}) × HttpLog) (a : A) → (continue (λ _. pure a) r).1 ≡ r.1
  after_pause (ok u, log) a = refl
  after_pause (raised e, log) a = refl

  lifted :
      {A : Type 0} (r : Result (Unit {0})) (a : A) (log : HttpLog)
      → ((lift r >> pure a) log).1 ≡ log
  lifted (ok u) a log = refl
  lifted (raised e) a log = refl

  judge-sends :
      (max_attempts attempt : ℕ) (resp : Response) (log : HttpLog)
      → sends (judge http max_attempts attempt resp log).1 ≡ sends log
  unfolding judge
  judge-sends max_attempts attempt resp log =
      elim (Bool-cases (is_retryable resp && ltb attempt (max_attempts - 1))) [
        | inl retry ↦
            let delay = retry_delay http.is_float resp attempt in
            rw retry (ap sends (after_pause (sleep http delay log) none) ∙ sleep-sends delay log)
        | inr final ↦ rw final (ap sends (lifted (http.raise_for_status resp) (some resp) log))
      ]

  backoff-sends :
      (max_attempts attempt : ℕ) (log : HttpLog)
      → sends (backoff http max_attempts attempt log).1 ≡ sends log
  unfolding backoff
  backoff-sends max_attempts attempt log = elim (Bool-cases (ltb attempt (max_attempts - 1))) [
    | inl early ↦ rw early (sleep-sends _ log)
    | inr last ↦ rw last refl
  ]

  attempt-sends :
      (r : Request) (max_attempts attempt : ℕ) (log : HttpLog)
      → sends ((send http r >>= judge http max_attempts attempt) log).1 ≡ suc (sends log)
  unfolding send
  attempt-sends r max_attempts attempt log = elim (Result-cases (http.answer log r)) [
    | inl (resp, e) ↦ rw e (judge-sends max_attempts attempt resp _ ∙ send-sends r log)
    | inr (exc, e) ↦ rw e (send-sends r log)
  ]

  -- The rest of a loop that sends at most `left` requests more.
  Sends : ℕ → Py HttpLog Response → Type 0
  Sends left m = (log : HttpLog) → sends (m log).1 ≤ sends log + left

  continue-sends :
      (left : ℕ) (m : Py HttpLog Response) (r : Result (Unit {0}) × HttpLog)
      → Sends left m
      → sends (continue (λ _. m) r).1 ≤ sends r.1 + left
  unfolding Sends
  continue-sends left m (ok u, log) h = h log
  continue-sends left m (raised e, log) h = omega arith

  settle_attempt-sends :
      (max_attempts attempt left : ℕ) (last_exc : Option Exn)
      (again : Option Exn → Py HttpLog Response) (out : Result (Option Response) × HttpLog)
      → ((e : Option Exn) → Sends left (again e))
      → sends (settle_attempt http max_attempts attempt last_exc again out).1 ≤ sends out.1 + left
  unfolding settle_attempt Sends
  settle_attempt-sends max_attempts attempt left last_exc again (ok (some resp), log) h =
      omega arith
  settle_attempt-sends max_attempts attempt left last_exc again (ok none, log) h = h last_exc log
  settle_attempt-sends max_attempts attempt left last_exc again (raised e, log) h =
      elim (Bool-cases (is_transport_error e)) [
        | inl t ↦ rw t (
            omega (
              arith,
              continue-sends left (again (some e)) (backoff http max_attempts attempt log)
                  (h (some e)),
              backoff-sends max_attempts attempt log,
            ))
        | inr f ↦ rw f (omega arith)
      ]

  attempts-Sends :
      (r : Request) (max_attempts left attempt : ℕ) (last_exc : Option Exn)
      → Sends left (attempts http r max_attempts left attempt last_exc)
  unfolding attempts Sends
  attempts-Sends r max_attempts zero attempt last_exc log = omega arith
  attempts-Sends r max_attempts (suc left) attempt last_exc log = omega (
    arith,
    settle_attempt-sends max_attempts attempt left last_exc
        (attempts http r max_attempts left (suc attempt))
        ((send http r >>= judge http max_attempts attempt) log)
        (attempts-Sends r max_attempts left (suc attempt)),
    attempt-sends r max_attempts attempt log,
  )

  -- Whatever GitLab answers and however the pauses end, a request is sent three times at most.
  pub request-sends :
      (idempotent : Option Bool) (r : Request) (log : HttpLog)
      → sends (request http idempotent r log).1 ≤ sends log + max_retries
  unfolding request Sends max_attempts_of
  request-sends idempotent r log = elim (Bool-cases (can_retry idempotent r.method)) [
    | inl yes' ↦ rw yes' (attempts-Sends r 3 3 0 none log)
    | inr no' ↦ rw no' (omega (arith, attempts-Sends r 1 1 0 none log))
  ]
