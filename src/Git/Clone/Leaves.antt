-- ===== src/Git/Clone/Leaves.antt =====
-- The directories that a clone leaves behind.
use gitlab_copilot_agent.Prelude.{
  ℕ, zero, suc, nat_eq, Text, text_eq, List, [], ◌∷◌, ◌++◌, ◌==◌, if◌then◌else◌, ◌≡◌, refl, inl,
  inr, Bool-cases, eq_self, ap, ◌∙◌, strip, ltb,
}
use gitlab_copilot_agent.Effects.{Result, ok, raised, Exn, Py, Result-cases}
use gitlab_copilot_agent.Git.{Platform, is_transient_clone_error, validate_clone_url}
use gitlab_copilot_agent.Git.Clone.{
  Outcome, exited, timed_out, made, ran, removed, slept, GitLog, Git, CloneRequest, recorded,
  make_dir, run_git, remove_dir, pause, retry, after_failure, after_run, attempt_clone, attempts,
  git_clone,
}

remove_first : Text → List Text → List Text
remove_first d [] = []
remove_first d (x ∷ xs) = if x == d then xs else x ∷ remove_first d xs

left_from : List Text → GitLog → List Text
left_from dirs [] = dirs
left_from dirs (made d ∷ log) = left_from (d ∷ dirs) log
left_from dirs (removed d ∷ log) = left_from (remove_first d dirs) log
left_from dirs (ran args ∷ log) = left_from dirs log
left_from dirs (slept n ∷ log) = left_from dirs log

-- The directories that were made and not removed since, the latest first.
unfoldable pub left_over : GitLog → List Text
unfolding left_from remove_first
left_over log = left_from [] log

left_from-append :
    (dirs : List Text) (log more : GitLog)
    → left_from dirs (log ++ more) ≡ left_from (left_from dirs log) more
unfolding left_from
left_from-append dirs [] more = refl
left_from-append dirs (made d ∷ log) more = left_from-append (d ∷ dirs) log more
left_from-append dirs (removed d ∷ log) more = left_from-append (remove_first d dirs) log more
left_from-append dirs (ran args ∷ log) more = left_from-append dirs log more
left_from-append dirs (slept n ∷ log) more = left_from-append dirs log more

-- What a clone may come to, from a log on.
pub data Leaves (git : Git) (log : GitLog) : Result Text × GitLog → Type 0 where
  returned :
      {dir : Text} {log' : GitLog}
      → left_over log' ≡ dir ∷ left_over log
      → Leaves git log (ok dir, log')
  cleaned :
      {e : Exn} {log' : GitLog} → left_over log' ≡ left_over log → Leaves git log (raised e, log')
  interrupted :
      {e : Exn} {log' : GitLog} (during : GitLog) (dir : Text)
      → git.run during ≡ raised e
      → left_over log' ≡ dir ∷ left_over log
      → Leaves git log (raised e, log')

module _ (git : Git) where
  -- What is left is the same, so that a later start makes no difference.
  Leaves-from :
      (log mid : GitLog) (out : Result Text × GitLog)
      → left_over mid ≡ left_over log
      → Leaves git mid out
      → Leaves git log out
  Leaves-from log mid (ok dir, log') same (returned h) =
      returned (h ∙ ap (λ (ds : List Text). dir ∷ ds) same)
  Leaves-from log mid (raised e, log') same (cleaned h) = cleaned (h ∙ same)
  Leaves-from log mid (raised e, log') same (interrupted during dir h k) =
      interrupted during dir h (k ∙ ap (λ (ds : List Text). dir ∷ ds) same)

after_made : (log : GitLog) (dir : Text) → left_over (log ++ made dir ∷ []) ≡ dir ∷ left_over log
unfolding left_over left_from
after_made log dir = left_from-append [] log (made dir ∷ [])

after_ran : (log : GitLog) (args : List Text) → left_over (log ++ ran args ∷ []) ≡ left_over log
unfolding left_over left_from
after_ran log args = left_from-append [] log (ran args ∷ [])

after_slept : (log : GitLog) (n : ℕ) → left_over (log ++ slept n ∷ []) ≡ left_over log
unfolding left_over left_from
after_slept log n = left_from-append [] log (slept n ∷ [])

after_removed :
    (log : GitLog) (dir : Text) (dirs : List Text)
    → left_over log ≡ dir ∷ dirs
    → left_over (log ++ removed dir ∷ []) ≡ dirs
unfolding left_over left_from remove_first
after_removed log dir dirs h = left_from-append [] log (removed dir ∷ []) ∙ rw (h, eq_self dir) refl

module _ (platform : Platform) (git : Git) (r : CloneRequest) where
  retry-Leaves :
      (attempt : ℕ) (last_error : Text) (again : Text → Py GitLog Text) (log : GitLog)
      → ((t : Text) (l : GitLog) → Leaves git l (again t l))
      → Leaves git log (retry platform git r attempt last_error again log)
  unfolding retry pause
  retry-Leaves attempt last_error again log h = elim (Bool-cases (ltb attempt r.max_retries)) [
    | inr last ↦ rw last (cleaned refl)
    | inl more ↦ elim (Result-cases (git.sleep log)) [
      | inl (u, slept_well) ↦
          rw (more, slept_well) (Leaves-from git log _ _ (after_slept log _) (h last_error _))
      | inr (e, woken) ↦ rw (more, woken) (cleaned (after_slept log _))
    ]
  ]

  after_failure-Leaves :
      (attempt : ℕ) (again : Text → Py GitLog Text) (stderr : Text) (log : GitLog)
      → ((t : Text) (l : GitLog) → Leaves git l (again t l))
      → Leaves git log (after_failure platform git r attempt again stderr log)
  unfolding after_failure
  after_failure-Leaves attempt again stderr log h =
      elim (Bool-cases (is_transient_clone_error platform (strip stderr))) [
        | inl transient ↦ rw transient (retry-Leaves attempt _ again _ h)
        | inr permanent ↦ rw permanent (cleaned refl)
      ]

  after_run-Leaves :
      (attempt : ℕ) (dir : Text) (again : Text → Py GitLog Text) (outcome : Outcome)
      (start log : GitLog)
      → left_over log ≡ dir ∷ left_over start
      → ((t : Text) (l : GitLog) → Leaves git l (again t l))
      → Leaves git start (after_run platform git r attempt dir again outcome log)
  unfolding after_run remove_dir
  after_run-Leaves attempt dir again timed_out start log here h =
      Leaves-from git start _ _ (after_removed log dir (left_over start) here)
        (retry-Leaves attempt _ again _ h)
  after_run-Leaves attempt dir again (exited code stderr) start log here h =
      elim (Bool-cases (code == 0)) [
        | inl fine ↦ rw fine (returned here)
        | inr failed ↦ elim (Result-cases stderr) [
          | inl (text, decoded) ↦
              rw (failed, decoded)
                (Leaves-from git start _ _ (after_removed log dir (left_over start) here)
                  (after_failure-Leaves attempt again text _ h))
          | inr (e, undecodable) ↦
              rw (failed, undecodable) (cleaned (after_removed log dir (left_over start) here))
        ]
      ]

  attempt_clone-Leaves :
      (attempt : ℕ) (again : Text → Py GitLog Text) (log : GitLog)
      → ((t : Text) (l : GitLog) → Leaves git l (again t l))
      → Leaves git log (attempt_clone platform git r attempt again log)
  unfolding attempt_clone make_dir run_git recorded
  attempt_clone-Leaves attempt again log h = elim (Result-cases (git.mkdtemp log)) [
    | inr (e, full) ↦ rw full (cleaned refl)
    | inl (dir, there) ↦ elim (Result-cases (git.run (log ++ made dir ∷ []))) [
      | inl (outcome, ended) ↦
          rw (there, ended)
            (after_run-Leaves attempt dir again outcome log _
              (after_ran (log ++ made dir ∷ []) _ ∙ after_made log dir) h)
      | inr (e, cut) ↦
          rw (there, cut)
            (interrupted (log ++ made dir ∷ []) dir cut
              (after_ran (log ++ made dir ∷ []) _ ∙ after_made log dir))
    ]
  ]

  attempts-Leaves :
      (left attempt : ℕ) (last_error : Text) (log : GitLog)
      → Leaves git log (attempts platform git r left attempt last_error log)
  unfolding attempts
  attempts-Leaves zero attempt last_error log = cleaned refl
  attempts-Leaves (suc left) attempt last_error log =
      attempt_clone-Leaves attempt _ log (attempts-Leaves left (suc attempt))

  -- However git and the pauses end: a clone that succeeds leaves the one directory that it returns; one that fails has
  -- removed each directory that it made, except where starting git or the wait for it is itself cut short by an error
  -- that is no time-out, such as a cancellation. Then the directory of that attempt stays.
  pub git_clone-Leaves : (log : GitLog) → Leaves git log (git_clone platform git r log)
  unfolding git_clone
  git_clone-Leaves log = elim (Result-cases (validate_clone_url platform r.clone_url)) [
    | inl (u, valid) ↦ rw valid (attempts-Leaves r.max_retries 1 [] log)
    | inr (e, refused) ↦ rw refused (cleaned refl)
  ]
