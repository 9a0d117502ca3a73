-- ===== src/GitlabClient/Recover.antt =====
-- A request that may be retried gets past failures that pass.
use gitlab_copilot_agent.Prelude.{
  ℕ, zero, suc, ◌+◌, ◌-◌, ◌^◌, ◌<◌, [], ◌∷◌, ◌++◌, Bool, true, false, none, some, Option, ◌≡◌, refl,
  inl, inr, Bool-cases, lt→ltb, arith, ◌∙◌, ap,
}
use gitlab_copilot_agent.Effects.{Result, ok, raised, Exn, is_transport_error}
use gitlab_copilot_agent.GitlabClient.{
  Request, Response, Http, HttpLog, sent, slept, Delay, seconds, send, sleep, judge, backoff,
  settle_attempt, attempts, request, can_retry, max_attempts_of, is_retryable, retry_delay,
  max_retries,
}
use gitlab_copilot_agent.GitlabClient.Once.{sends}
use gitlab_copilot_agent.GitlabClient.Retries.{sleep-sends, send-sends}

-- An answer after which the client tries again: a failed transport, a 429 or a 5xx.
pub data IsTransient : Result Response → Type 0 where
  lost : {e : Exn} → is_transport_error e ≡ true → IsTransient (raised e)
  busy : {resp : Response} → is_retryable resp ≡ true → IsTransient (ok resp)

-- GitLab's answer to a request depends only on how many were sent, and pauses are not cut short.
pub record IsServer (http : Http) (r : Request) (answers : ℕ → Result Response) : Type 0 where
  pub answered : (log : HttpLog) → http.answer log r ≡ answers (sends log)
  pub paused : (log : HttpLog) → http.pause log ≡ ok tt

-- An answer that the client returns.
pub record IsFinal (http : Http) (resp : Response) : Type 0 where
  pub not_retryable : is_retryable resp ≡ false
  pub accepted : http.raise_for_status resp ≡ ok tt

shifted : {a b : ℕ} → a ≡ suc b → (i : ℕ) → a + i ≡ b + suc i
shifted h i = omega arith

module _ (http : Http) (r : Request) where
  last_attempt :
      (max_attempts left attempt : ℕ) (last_exc : Option Exn) (log : HttpLog) (resp : Response)
      → http.answer log r ≡ ok resp
      → IsFinal http resp
      → attempts http r max_attempts (suc left) attempt last_exc log ≡ (ok resp, log ++ sent r ∷ [])
  unfolding attempts settle_attempt send judge
  last_attempt max_attempts left attempt last_exc log resp h final =
      rw (h, final.not_retryable, final.accepted) refl

  -- An answer that is accepted is returned at once.
  pub request-accepted :
      (log : HttpLog) (resp : Response)
      → http.answer log r ≡ ok resp
      → IsFinal http resp
      → request http none r log ≡ (ok resp, log ++ sent r ∷ [])
  unfolding request max_attempts_of
  request-accepted log resp h final = elim (Bool-cases (can_retry none r.method)) [
    | inl safe ↦ rw safe (last_attempt 3 2 0 none log resp h final)
    | inr once ↦ rw once (last_attempt 1 0 0 none log resp h final)
  ]

module _ (http : Http) (r : Request) {answers : ℕ → Result Response}
    (server : IsServer http r answers) where
  -- A transient answer that is not the last leads to the next attempt.
  next_attempt :
      (max_attempts left attempt : ℕ) (last_exc : Option Exn) (log : HttpLog) (a : Result Response)
      → http.answer log r ≡ a
      → IsTransient a
      → attempt < max_attempts - 1
      → (last' : Option Exn) × (d : Delay) × (attempts http r max_attempts
            (suc left)
            attempt
            last_exc
            log
          ≡ attempts http r max_attempts left
              (suc attempt)
              last'
              ((log ++ sent r ∷ []) ++ slept d ∷ []))
  unfolding attempts settle_attempt send judge backoff sleep
  next_attempt max_attempts left attempt last_exc log (raised e) h (lost t) early = (
    some e,
    seconds (2 ^ attempt),
    rw (h, t, lt→ltb attempt (max_attempts - 1) early, server.paused (log ++ sent r ∷ [])) refl,
  )
  next_attempt max_attempts left attempt last_exc log (ok resp) h (busy t) early = (
    last_exc,
    retry_delay http.is_float resp attempt,
    rw (h, t, lt→ltb attempt (max_attempts - 1) early, server.paused (log ++ sent r ∷ [])) refl,
  )

  after_step :
      (d : Delay) (log : HttpLog) → sends ((log ++ sent r ∷ []) ++ slept d ∷ []) ≡ suc (sends log)
  unfolding sleep
  after_step d log = sleep-sends http d (log ++ sent r ∷ []) ∙ send-sends http r log

  recovers :
      (max_attempts k left attempt : ℕ) (last_exc : Option Exn) (log : HttpLog) (resp : Response)
      → attempt + left ≡ max_attempts
      → k < left
      → ((i : ℕ) → i < k → IsTransient (answers (sends log + i)))
      → answers (sends log + k) ≡ ok resp
      → IsFinal http resp
      → ((attempts http r max_attempts left attempt last_exc log).0 ≡ ok resp)
        × (sends (attempts http r max_attempts left attempt last_exc log).1 ≡ sends log + suc k)
  recovers max_attempts k zero attempt last_exc log resp total few failing answered final =
      elim few [ ]
  recovers max_attempts zero (suc left) attempt last_exc log resp total few failing answered final =
      let here : http.answer log r ≡ ok resp =
        server.answered log ∙ ap answers (omega arith) ∙ answered in
      rw (last_attempt http r max_attempts left attempt last_exc log resp here final)
        (refl, omega (arith, send-sends http r log))
  recovers max_attempts (suc k) (suc left) attempt last_exc log resp total few failing answered
        final =
      let now : IsTransient (answers (sends log)) =
        rw (ap answers (let e : sends log ≡ sends log + 0 = omega arith in e))
          (failing 0 (omega arith)) in
      let (last', d, step) =
        next_attempt max_attempts left attempt last_exc log (answers (sends log))
          (server.answered log) now (omega arith) in
      let log' = (log ++ sent r ∷ []) ++ slept d ∷ [] in
      let more : sends log' ≡ suc (sends log) = after_step d log in
      let rest =
        recovers max_attempts k left (suc attempt) last' log' resp (omega arith) (omega arith)
          (λ i small. rw (ap answers (shifted more i)) (failing (suc i) (omega arith)))
          (ap answers (shifted more k) ∙ answered) final in
      rw step (rest.0, omega (arith, rest.1, more))

  -- Where GitLab's answer to a request that may be retried depends on the number of requests sent only, and pauses are
  -- not cut short: if it answers fewer than three times by a failure that passes, and then by a response that is
  -- accepted, the request returns this response, after one send for each of these answers and no further one.
  pub request-recovers :
      (idempotent : Option Bool) (k : ℕ) (log : HttpLog) (resp : Response)
      → can_retry idempotent r.method ≡ true
      → k < max_retries
      → ((i : ℕ) → i < k → IsTransient (answers (sends log + i)))
      → answers (sends log + k) ≡ ok resp
      → IsFinal http resp
      → ((request http idempotent r log).0 ≡ ok resp)
        × (sends (request http idempotent r log).1 ≡ sends log + suc k)
  unfolding request max_attempts_of
  request-recovers idempotent k log resp safe few failing answered final =
      rw safe (recovers 3 k 3 0 none log resp refl few failing answered final)
