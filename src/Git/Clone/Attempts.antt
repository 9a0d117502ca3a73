-- ===== src/Git/Clone/Attempts.antt =====
-- How often a clone is tried, and which URLs are cloned at all.
use gitlab_copilot_agent.Prelude.{
  ℕ, zero, suc, nat_eq, ◌+◌, ◌≤◌, Text, text_eq, List, [], ◌∷◌, ◌++◌, ◌==◌, ◌≡◌, refl, inl, inr,
  Bool-cases, ltb, strip, arith, ap, ◌∙◌,
}
use gitlab_copilot_agent.Effects.{raised, Exn, Py, Result-cases}
use gitlab_copilot_agent.Git.{Platform, is_transient_clone_error, validate_clone_url}
use gitlab_copilot_agent.Git.Clone.{
  Outcome, exited, timed_out, made, ran, removed, slept, GitLog, Git, CloneRequest, recorded,
  make_dir, run_git, remove_dir, pause, retry, after_failure, after_run, attempt_clone, attempts,
  git_clone,
}

-- How often git was started.
unfoldable pub runs : GitLog → ℕ
runs [] = 0
runs (ran args ∷ log) = suc (runs log)
runs (made d ∷ log) = runs log
runs (removed d ∷ log) = runs log
runs (slept n ∷ log) = runs log

runs-append : (log more : GitLog) → runs (log ++ more) ≡ runs log + runs more
unfolding runs
runs-append [] more = omega arith
runs-append (ran args ∷ log) more = omega (arith, runs-append log more)
runs-append (made d ∷ log) more = runs-append log more
runs-append (removed d ∷ log) more = runs-append log more
runs-append (slept n ∷ log) more = runs-append log more

after_slept : (log : GitLog) (n : ℕ) → runs (log ++ slept n ∷ []) ≡ runs log
unfolding runs
after_slept log n = omega (arith, runs-append log (slept n ∷ []))

after_made : (log : GitLog) (dir : Text) → runs (log ++ made dir ∷ []) ≡ runs log
unfolding runs
after_made log dir = omega (arith, runs-append log (made dir ∷ []))

after_removed : (log : GitLog) (dir : Text) → runs (log ++ removed dir ∷ []) ≡ runs log
unfolding runs
after_removed log dir = omega (arith, runs-append log (removed dir ∷ []))

after_ran : (log : GitLog) (args : List Text) → runs (log ++ ran args ∷ []) ≡ suc (runs log)
unfolding runs
after_ran log args = omega (arith, runs-append log (ran args ∷ []))

-- Starts git at most `n` times more.
abbrev Tries : ℕ → Py GitLog Text → Type 0
Tries n m = (log : GitLog) → runs (m log).1 ≤ runs log + n

-- The same from a log with as many starts.
from :
    (n : ℕ) (log mid : GitLog) (out : GitLog)
    → runs mid ≡ runs log
    → runs out ≤ runs mid + n
    → runs out ≤ runs log + n
from n log mid out same h = omega arith

le_self : (a n : ℕ) → a ≤ a + n
le_self a n = omega arith

from_suc :
    (n : ℕ) (log mid : GitLog) (out : GitLog)
    → runs mid ≡ suc (runs log)
    → runs out ≤ runs mid + n
    → runs out ≤ runs log + suc n
from_suc n log mid out same h = omega arith

module _ (platform : Platform) (git : Git) (r : CloneRequest) where
  retry-Tries :
      (n attempt : ℕ) (last_error : Text) (again : Text → Py GitLog Text)
      → ((t : Text) → Tries n (again t))
      → Tries n (retry platform git r attempt last_error again)
  unfolding retry pause
  retry-Tries n attempt last_error again h log = elim (Bool-cases (ltb attempt r.max_retries)) [
    | inr last ↦ rw last (omega arith)
    | inl more ↦ elim (Result-cases (git.sleep log)) [
      | inl (u, e) ↦ rw (more, e) (from n log _ _ (after_slept log _) (h last_error _))
      | inr (e, f) ↦ rw (more, f) (from n log _ _ (after_slept log _) (le_self _ n))
    ]
  ]

  after_failure-Tries :
      (n attempt : ℕ) (again : Text → Py GitLog Text) (stderr : Text)
      → ((t : Text) → Tries n (again t))
      → Tries n (after_failure platform git r attempt again stderr)
  unfolding after_failure
  after_failure-Tries n attempt again stderr h log =
      elim (Bool-cases (is_transient_clone_error platform (strip stderr))) [
        | inl transient ↦ rw transient (retry-Tries n attempt _ again h log)
        | inr permanent ↦ rw permanent (omega arith)
      ]

  after_run-Tries :
      (n attempt : ℕ) (dir : Text) (again : Text → Py GitLog Text) (outcome : Outcome)
      → ((t : Text) → Tries n (again t))
      → Tries n (after_run platform git r attempt dir again outcome)
  unfolding after_run remove_dir
  after_run-Tries n attempt dir again timed_out h log =
      from n log _ _ (after_removed log dir) (retry-Tries n attempt _ again h _)
  after_run-Tries n attempt dir again (exited code stderr) h log = elim (Bool-cases (code == 0)) [
    | inl fine ↦ rw fine (omega arith)
    | inr failed ↦ elim (Result-cases stderr) [
      | inl (text, decoded) ↦
          rw (failed, decoded)
            (from n log _ _ (after_removed log dir) (after_failure-Tries n attempt again text h _))
      | inr (e, undecodable) ↦ rw (failed, undecodable) (omega (arith, after_removed log dir))
    ]
  ]

  attempt_clone-Tries :
      (n attempt : ℕ) (again : Text → Py GitLog Text)
      → ((t : Text) → Tries n (again t))
      → Tries (suc n) (attempt_clone platform git r attempt again)
  unfolding attempt_clone make_dir run_git recorded
  attempt_clone-Tries n attempt again h log = elim (Result-cases (git.mkdtemp log)) [
    | inr (e, full) ↦ rw full (omega arith)
    | inl (dir, there) ↦
        let start = log ++ made dir ∷ [] in
        elim (Result-cases (git.run start)) [
          | inl (outcome, ended) ↦
              rw (there, ended)
                (from_suc n log _ _ (after_ran start _ ∙ ap suc (after_made log dir))
                  (after_run-Tries n attempt dir again outcome h _))
          | inr (e, cut) ↦
              rw (there, cut)
                (from_suc n log _ _ (after_ran start _ ∙ ap suc (after_made log dir)) (le_self _ n))
        ]
  ]

  attempts-Tries :
      (left attempt : ℕ) (last_error : Text)
      → Tries left (attempts platform git r left attempt last_error)
  unfolding attempts
  attempts-Tries zero attempt last_error log = omega arith
  attempts-Tries (suc left) attempt last_error log =
      attempt_clone-Tries left attempt _ (attempts-Tries left (suc attempt)) log

  -- A clone starts git `max_retries` times at most, however it ends and however long GitLab fails; and not at all for a
  -- URL that is refused, which leaves no directory either.
  pub git_clone-runs :
      (log : GitLog)
      → (runs (git_clone platform git r log).1 ≤ runs log + r.max_retries)
        × ((e : Exn)
            → validate_clone_url platform r.clone_url ≡ raised e
            → git_clone platform git r log ≡ (raised e, log))
  unfolding git_clone
  git_clone-runs log = (
    elim (Result-cases (validate_clone_url platform r.clone_url)) [
      | inl (u, valid) ↦ rw valid (attempts-Tries r.max_retries 1 [] log)
      | inr (e, refused) ↦ rw refused (omega arith)
    ],
    (λ e refused. rw refused refl),
  )
