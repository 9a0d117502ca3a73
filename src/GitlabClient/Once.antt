-- ===== src/GitlabClient/Once.antt =====
-- How often a request is sent, and what a writing call costs.
use gitlab_copilot_agent.Prelude.{
  ℕ, suc, ◌+◌, [], ◌∷◌, ◌++◌, Bool, false, none, Text, codes, Option, ◌≡◌, refl, inl, inr,
  Bool-cases, arith,
}
use gitlab_copilot_agent.Effects.{
  Result, ok, raised, Exn, is_transport_error, pure, continue, Result-cases, then_result,
}
use gitlab_copilot_agent.Gitlab.{
  Call, post_mr_comment, create_mr_discussion, reply_to_discussion, resolve_discussion,
}
use gitlab_copilot_agent.GitlabClient.{
  Request, Response, Http, HttpLog, sent, slept, send, judge, backoff, settle_attempt, give_up,
  attempts, request, can_retry, max_attempts_of, is_safe, is_retryable,
}
use gitlab_copilot_agent.GitlabClient.Calls.{
  request_of, perform_call, merge_request_request, comment_request, discussion_request,
  resolve_request, reply_request,
}
use gitlab_copilot_agent.GitlabClient.Details.{json_fields}
use gitlab_copilot_agent.GitlabClient.Reads.{Conversions, field_of, number_in, create_merge_request}

-- How many requests a log holds.
unfoldable pub sends : HttpLog → ℕ
sends [] = 0
sends (sent r ∷ log) = suc (sends log)
sends (slept d ∷ log) = sends log

pub sends-append : (log more : HttpLog) → sends (log ++ more) ≡ sends log + sends more
unfolding sends
sends-append [] more = omega arith
sends-append (sent r ∷ log) more = omega (arith, sends-append log more)
sends-append (slept d ∷ log) more = omega (arith, sends-append log more)

-- What one answer comes to, if it is the last: the answer, if `raise_for_status` accepts it.
abbrev pub accept : Response → Result (Unit {0}) → Result Response
accept resp (ok u) = ok resp
accept resp (raised e) = raised e

abbrev pub done : Result Response → Result (Unit {0})
done (ok resp) = ok tt
done (raised e) = raised e

abbrev pub verdict : Http → Result Response → Result Response
verdict http (ok resp) = accept resp (http.raise_for_status resp)
verdict http (raised e) = raised e

module _ (http : Http) where
  no_more :
      (r : Request) (e : Exn) (log : HttpLog)
      → settle_attempt http 1 0 none (attempts http r 1 0 1) (raised e, log) ≡ (raised e, log)
  unfolding settle_attempt backoff attempts give_up
  no_more r e log = elim (Bool-cases (is_transport_error e)) [
    | inl t ↦ rw t refl
    | inr f ↦ rw f refl
  ]

  judged_last :
      (r : Request) (resp : Response) (log : HttpLog)
      → settle_attempt http 1 0 none (attempts http r 1 0 1) (judge http 1 0 resp log)
        ≡ (accept resp (http.raise_for_status resp), log)
  unfolding settle_attempt judge
  judged_last r resp log = elim (Result-cases (http.raise_for_status resp)) [
    | inl (u, fine) ↦ elim (Bool-cases (is_retryable resp)) [
      | inl retry ↦ rw (fine, retry) refl
      | inr final ↦ rw (fine, final) refl
    ]
    | inr (e, bad) ↦ elim (Bool-cases (is_retryable resp)) [
      | inl retry ↦ rw (bad, retry) (no_more r e log)
      | inr final ↦ rw (bad, final) (no_more r e log)
    ]
  ]

  -- A request that may not be retried is sent once, without a pause.
  single :
      (r : Request) (log : HttpLog)
      → attempts http r 1 1 0 none log ≡ (verdict http (http.answer log r), log ++ sent r ∷ [])
  unfolding attempts send
  single r log = elim (Result-cases (http.answer log r)) [
    | inl (resp, e) ↦ rw e (judged_last r resp (log ++ sent r ∷ []))
    | inr (e, h) ↦ rw h (no_more r e (log ++ sent r ∷ []))
  ]

  pub request-single :
      (idempotent : Option Bool) (r : Request) (log : HttpLog)
      → can_retry idempotent r.method ≡ false
      → request http idempotent r log ≡ (verdict http (http.answer log r), log ++ sent r ∷ [])
  unfolding request max_attempts_of
  request-single idempotent r log h = rw h (single r log)

  no_retry : (c : Call) → can_retry none (request_of c).method ≡ false
  unfolding can_retry is_safe request_of comment_request discussion_request resolve_request
      reply_request
  no_retry (post_mr_comment p m body) = refl
  no_retry (create_mr_discussion p m body d file line) = refl
  no_retry (reply_to_discussion p m i body) = refl
  no_retry (resolve_discussion p m i) = refl

  ended :
      (v : Result Response) (log : HttpLog)
      → ((continue (λ _. pure tt) (v, log)).1 ≡ log)
        × ((continue (λ _. pure tt) (v, log)).0 ≡ done v)
  ended (ok resp) log = (refl, refl)
  ended (raised e) log = (refl, refl)

  perform_call-once :
      (c : Call) (log : HttpLog)
      → ((perform_call http c log).1 ≡ log ++ sent (request_of c) ∷ [])
        × ((perform_call http c log).0 ≡ done (verdict http (http.answer log (request_of c))))
  unfolding perform_call
  perform_call-once c log =
      rw (request-single none (request_of c) log (no_retry c))
        (ended (verdict http (http.answer log (request_of c))) (log ++ sent (request_of c) ∷ []))

-- The number of a merge request, of an answer to its creation.
abbrev pub iid_of : Conversions → Response → Result ℕ
iid_of convert resp =
    then_result (json_fields resp)
      (λ found. then_result (field_of (codes "iid") found) convert.int_of)

module _ (http : Http) (convert : Conversions) where
  number_in_lem :
      (resp : Response) (log : HttpLog)
      → number_in http convert (codes "iid") resp log ≡ (iid_of convert resp, log)
  unfolding number_in then_result
  number_in_lem resp log = elim (Result-cases (json_fields resp)) [
    | inr (e, bad) ↦ rw bad refl
    | inl (found, fields) ↦ elim (Result-cases (field_of (codes "iid") found)) [
      | inr (e, missing) ↦ rw (fields, missing) refl
      | inl (value, there) ↦ elim (Result-cases (convert.int_of value)) [
        | inr (e, no_int) ↦ rw (fields, there, no_int) refl
        | inl (n, is_int) ↦ rw (fields, there, is_int) refl
      ]
    ]
  ]

  merge_request-no_retry :
      (project_id : ℕ) (source_branch target_branch title description : Text)
      → can_retry none
          (merge_request_request project_id source_branch target_branch title description).method
        ≡ false
  unfolding can_retry is_safe merge_request_request
  merge_request-no_retry project_id source_branch target_branch title description = refl

  created_lem :
      (v : Result Response) (log : HttpLog)
      → continue (number_in http convert (codes "iid")) (v, log)
        ≡ (then_result v (iid_of convert), log)
  unfolding then_result
  created_lem (ok resp) log = number_in_lem resp log
  created_lem (raised e) log = refl

  create_merge_request-once :
      (project_id : ℕ) (source_branch target_branch title description : Text) (log : HttpLog)
      → let r = merge_request_request project_id source_branch target_branch title description in
        create_merge_request http convert project_id source_branch target_branch title description
          log
        ≡ (then_result (verdict http (http.answer log r)) (iid_of convert), log ++ sent r ∷ [])
  unfolding create_merge_request
  create_merge_request-once project_id source_branch target_branch title description log =
      let r = merge_request_request project_id source_branch target_branch title description in
      rw
        (request-single http none r log
          (merge_request-no_retry project_id source_branch target_branch title description))
        (created_lem (verdict http (http.answer log r)) (log ++ sent r ∷ []))

  -- Each of the five calls that write, which are a comment, a discussion, a reply, the resolution of a thread and a new
  -- merge request, sends its request once and pauses never, whatever GitLab answers: also after a 429, a 5xx or a
  -- failed transport, so that nothing is posted twice. Where GitLab's answer is not accepted, it raises the error
  -- of that answer; otherwise the first four end well, and the fifth ends with the `iid` of the
  -- answer or the error of reading that.
  pub writes-once :
      (c : Call) (project_id : ℕ) (source_branch target_branch title description : Text)
      (log : HttpLog)
      → ((perform_call http c log).1 ≡ log ++ sent (request_of c) ∷ [])
        × ((perform_call http c log).0 ≡ done (verdict http (http.answer log (request_of c))))
        × (let r = merge_request_request project_id source_branch target_branch title description in
            create_merge_request http convert project_id source_branch target_branch title
              description log
            ≡ (then_result (verdict http (http.answer log r)) (iid_of convert), log ++ sent r ∷ []))
  writes-once c project_id source_branch target_branch title description log =
      let (one_request, ends) = perform_call-once http c log in
      (
        one_request,
        ends,
        create_merge_request-once project_id source_branch target_branch title description log,
      )
