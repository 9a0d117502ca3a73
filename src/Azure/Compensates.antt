-- ===== src/Azure/Compensates.antt =====
-- How an `enqueue` ends, and what it leaves behind.
use gitlab_copilot_agent.Prelude.{Text, [], ◌∷◌, ◌++◌, true, false, ◌≡◌, inl, inr, Bool-cases}
use gitlab_copilot_agent.Effects.{Result, ok, raised, Exn, is_exception, Result-cases}
use gitlab_copilot_agent.Azure.{
  Azure, AzureLog, uploaded, sent, deleted_blob, step, params_blob, upload_blob, compensate,
  enqueue,
}

module _ (azure : Azure) (task_id payload : Text) (log : AzureLog) where
  abbrev after_upload : AzureLog
  after_upload = log ++ uploaded (params_blob task_id) payload ∷ []

  abbrev after_send : AzureLog
  after_send = after_upload ++ sent (azure.dump_reference task_id (params_blob task_id)) ∷ []

  abbrev after_delete : AzureLog
  after_delete = after_send ++ deleted_blob (params_blob task_id) ∷ []

-- The ways in which an `enqueue` can end: the result, and the log.
pub data Enqueued (azure : Azure) (task_id payload : Text) (log : AzureLog)
    : Result (Unit {0}) × AzureLog → Type 0 where
  not_uploaded :
      {e : Exn}
      → azure.upload log ≡ raised e
      → Enqueued azure task_id payload log (raised e, after_upload azure task_id payload log)
  queued :
      azure.upload log ≡ ok tt
      → azure.send_message (after_upload azure task_id payload log) ≡ ok tt
      → Enqueued azure task_id payload log (ok tt, after_send azure task_id payload log)
  compensated :
      {e : Exn}
      → azure.upload log ≡ ok tt
      → azure.send_message (after_upload azure task_id payload log) ≡ raised e
      → is_exception e ≡ true
      → Enqueued azure task_id payload log (raised e, after_delete azure task_id payload log)
  interrupted :
      {e : Exn}
      → azure.send_message (after_upload azure task_id payload log) ≡ raised e
      → is_exception e ≡ false
      → Enqueued azure task_id payload log (raised e, after_send azure task_id payload log)
  interrupted_again :
      {e : Exn}
      → azure.delete_blob (after_send azure task_id payload log) ≡ raised e
      → is_exception e ≡ false
      → Enqueued azure task_id payload log (raised e, after_delete azure task_id payload log)

module _ (azure : Azure) (task_id payload : Text) (log : AzureLog) where
  -- However Azure answers, an `enqueue` ends in one of these ways: the upload fails, and nothing is sent; the message
  -- is sent, and nothing is deleted; the message fails by an `Exception`, and then the blob is deleted and the error
  -- of the message is raised, also where this delete fails by an `Exception`; or an interruption cuts it short.
  pub enqueue-Enqueued : Enqueued azure task_id payload log (enqueue azure task_id payload log)
  unfolding enqueue upload_blob step compensate
  enqueue-Enqueued = elim (Result-cases (azure.upload log)) [
    | inr (e, failed) ↦ rw failed (not_uploaded failed)
    | inl (u, up) ↦
        rw up (elim (Result-cases (azure.send_message (after_upload azure task_id payload log))) [
          | inl (v, out) ↦ rw out (queued up out)
          | inr (e, failed) ↦ elim (Bool-cases (is_exception e)) [
            | inr through ↦ rw (failed, through) (interrupted failed through)
            | inl caught ↦
                rw (failed, caught)
                  (elim (Result-cases (azure.delete_blob (after_send azure task_id payload log))) [
                    | inl (w, gone) ↦ rw gone (compensated up failed caught)
                    | inr (d, kept) ↦ elim (Bool-cases (is_exception d)) [
                      | inl quiet ↦ rw (kept, quiet) (compensated up failed caught)
                      | inr loud ↦ rw (kept, loud) (interrupted_again kept loud)
                    ]
                  ])
          ]
        ])
  ]
