-- ===== src/Poller/Cycle.antt =====
-- `_poll_once` and `_poll_loop` of gitlab_poller.py: the watermarks and the back-off.
use gitlab_copilot_agent.Prelude.{
  ℕ, suc, ◌*◌, ◌^◌, ◌≤◌, min, Text, List, [], ◌∷◌, Bool, true, false, Option, some, ◌≡◌, ◌≢◌, ap,
  sym, ◌∙◌, refl, ◌⊎◌, inl, inr, if◌then◌else◌, arith, Bool-cases,
}
use gitlab_copilot_agent.Effects.{
  Result, ok, raised, Exn, is_exception, Py, pure, continue, ◌>>=◌, ◌>>◌, try_except, Result-cases,
}
use gitlab_copilot_agent.Poller.{MrItem, Scan, Poller, in_world, sleep_seconds}

-- `list_mrs` is `client.list_project_mrs`; `process_mr` and `process_notes` are the methods of these names.
module _ {S W : Type 0} (list_mrs : ℕ → Py W (List MrItem))
    (process_mr : ℕ → MrItem → Py (Scan S W) (Unit {0}))
    (process_notes : Option Text → ℕ → List MrItem → Py (Scan S W) (Unit {0})) where
  unfoldable pub process_all : ℕ → List MrItem → Py (Scan S W) (Unit {0})
  process_all project_id [] = pure tt
  process_all project_id (mr ∷ mrs) = process_mr project_id mr >> process_all project_id mrs

  -- The `try` block for a project.
  unfoldable pub scan_project : Option Text → ℕ → Py (Scan S W) (Unit {0})
  scan_project note_watermark project_id = do
    mrs ← in_world (list_mrs project_id)
    process_all project_id mrs
    process_notes note_watermark project_id mrs

  -- The loop over the projects: whether all succeeded.
  unfoldable pub scan_projects : Option Text → List ℕ → Bool → Py (Scan S W) Bool
  scan_projects note_watermark [] all_succeeded = pure all_succeeded
  scan_projects note_watermark (project_id ∷ rest) all_succeeded =
      try_except (scan_project note_watermark project_id >> pure all_succeeded) (λ _. pure false)
      >>= scan_projects note_watermark rest

  -- The end of `_poll_once`.
  unfoldable pub advance :
      Text → Poller S W → Result Bool × Scan S W → Result (Unit {0}) × Poller S W
  advance poll_start s (ok true, scan) = (
    ok tt,
    record s { scan = scan; watermark = some poll_start; note_watermark = some poll_start },
  )
  advance poll_start s (ok false, scan) = (ok tt, record s { scan = scan })
  advance poll_start s (raised e, scan) = (raised e, record s { scan = scan })

  -- `_poll_once`; `poll_start` is the time of its first line.
  unfoldable pub poll_once : Text → List ℕ → Py (Poller S W) (Unit {0})
  poll_once poll_start project_ids s =
      advance poll_start s (scan_projects s.note_watermark project_ids true s.scan)

  count_failure : Result (Unit {0}) × Poller S W → Result (Unit {0}) × Poller S W
  count_failure (ok _, s) = (ok tt, record s { failures = 0 })
  count_failure (raised e, s) =
      if is_exception e then (ok tt, record s { failures = suc s.failures }) else (raised e, s)

  -- The body of the loop of `_poll_loop`, up to the sleep: the seconds to sleep.
  unfoldable pub poll_step : ℕ → Text → List ℕ → Py (Poller S W) ℕ
  unfolding count_failure
  poll_step interval poll_start project_ids s =
      continue (λ _ s'. (ok (sleep_seconds interval s'.failures), s'))
        (count_failure (poll_once poll_start project_ids s))

  -- Every project was scanned without a raise, one after the other.
  pub data Scanned (note_watermark : Option Text) : List ℕ → Scan S W → Scan S W → Type 0 where
    none_left : {s : Scan S W} → Scanned note_watermark [] s s
    scanned :
        {project_id : ℕ} {rest : List ℕ} {s s' : Scan S W}
        → (scan_project note_watermark project_id s).0 ≡ ok tt
        → Scanned note_watermark rest (scan_project note_watermark project_id s).1 s'
        → Scanned note_watermark (project_id ∷ rest) s s'

  scan-fine :
      (wm : Option Text) (i : ℕ) (ids : List ℕ) (b : Bool) (s : Scan S W) (u : Unit {0})
      → (scan_project wm i s).0 ≡ ok u
      → scan_projects wm (i ∷ ids) b s ≡ scan_projects wm ids b (scan_project wm i s).1
  unfolding scan_projects
  scan-fine wm i ids b s u fine = rw (scan_projects, fine) refl

  scan-bad :
      (wm : Option Text) (i : ℕ) (ids : List ℕ) (b : Bool) (s : Scan S W) (x : Exn)
      → (scan_project wm i s).0 ≡ raised x
      → is_exception x ≡ true
      → scan_projects wm (i ∷ ids) b s ≡ scan_projects wm ids false (scan_project wm i s).1
  unfolding scan_projects
  scan-bad wm i ids b s x bad caught = rw (scan_projects, bad, caught) refl

  scan-through :
      (wm : Option Text) (i : ℕ) (ids : List ℕ) (b : Bool) (s : Scan S W) (x : Exn)
      → (scan_project wm i s).0 ≡ raised x
      → is_exception x ≡ false
      → (scan_projects wm (i ∷ ids) b s).0 ≡ raised x
  unfolding scan_projects
  scan-through wm i ids b s x bad through = rw (scan_projects, bad, through) refl

  stays_false :
      (wm : Option Text) (ids : List ℕ) (s : Scan S W) → (scan_projects wm ids false s).0 ≢ ok true
  unfolding scan_projects
  stays_false wm [] s e = cc e
  stays_false wm (i ∷ ids) s e = elim (Result-cases (scan_project wm i s).0) [
    | inl (u, fine) ↦
        stays_false wm ids (scan_project wm i s).1
          (ap (λ r. r.0) (sym (scan-fine wm i ids false s u fine)) ∙ e)
    | inr (x, bad) ↦ elim (Bool-cases (is_exception x)) [
      | inl caught ↦
          stays_false wm ids (scan_project wm i s).1
            (ap (λ r. r.0) (sym (scan-bad wm i ids false s x bad caught)) ∙ e)
      | inr through ↦ cc (e, scan-through wm i ids false s x bad through)
    ]
  ]

  scan_projects-Scanned :
      (wm : Option Text) (ids : List ℕ) (s : Scan S W)
      → (scan_projects wm ids true s).0 ≡ ok true
      → Scanned wm ids s (scan_projects wm ids true s).1
  unfolding scan_projects
  scan_projects-Scanned wm [] s e = none_left
  scan_projects-Scanned wm (i ∷ ids) s e = elim (Result-cases (scan_project wm i s).0) [
    | inl (u, fine) ↦
        let same = scan-fine wm i ids true s u fine in
        let rest =
          scan_projects-Scanned wm ids (scan_project wm i s).1 (ap (λ r. r.0) (sym same) ∙ e) in
        rw same (scanned fine rest)
    | inr (x, bad) ↦ elim (Bool-cases (is_exception x)) [
      | inl caught ↦ absurd (
          stays_false wm ids (scan_project wm i s).1
            (ap (λ r. r.0) (sym (scan-bad wm i ids true s x bad caught)) ∙ e))
      | inr through ↦ absurd (cc (e, scan-through wm i ids true s x bad through))
    ]
  ]

  Scanned-scan_projects :
      (wm : Option Text) (ids : List ℕ) (s s' : Scan S W)
      → Scanned wm ids s s'
      → scan_projects wm ids true s ≡ (ok true, s')
  unfolding scan_projects
  Scanned-scan_projects wm [] s s' none_left = refl
  Scanned-scan_projects wm (i ∷ ids) s s' (scanned fine rest) =
      scan-fine wm i ids true s tt fine ∙ Scanned-scan_projects wm ids _ s' rest

  -- A poll moves the watermarks exactly where the scan of every project, one after the other, ends without a raise: then
  -- both are set to the time at which the poll began. Otherwise, where there is no such run of scans, both
  -- stay as they were. What the scan of a project does about its notes is given.
  pub poll_once-advances :
      (poll_start : Text) (ids : List ℕ) (s : Poller S W)
      → (((s' : Scan S W) → ¬ Scanned s.note_watermark ids s.scan s')
          × ((poll_once poll_start ids s).1.watermark ≡ s.watermark)
          × ((poll_once poll_start ids s).1.note_watermark ≡ s.note_watermark))
        ⊎ (Scanned s.note_watermark ids s.scan (poll_once poll_start ids s).1.scan
            × ((poll_once poll_start ids s).1.watermark ≡ some poll_start)
            × ((poll_once poll_start ids s).1.note_watermark ≡ some poll_start))
  unfolding poll_once advance
  poll_once-advances poll_start ids s =
      let r = scan_projects s.note_watermark ids true s.scan in
      elim (Result-cases r.0) [
        | inr (x, bad) ↦ rw bad (
            inl (
              (λ s' h.
                  cc (bad, ap (λ r. r.0) (Scanned-scan_projects s.note_watermark ids s.scan s' h))),
              refl,
              refl,
            ))
        | inl (false, some_failed) ↦ rw some_failed (
            inl (
              (λ s' h. cc (
                some_failed,
                ap (λ r. r.0) (Scanned-scan_projects s.note_watermark ids s.scan s' h),
              )),
              refl,
              refl,
            ))
        | inl (true, all) ↦
            let done = scan_projects-Scanned s.note_watermark ids s.scan all in
            rw all (inr (done, refl, refl))
      ]

  min_bounded : (a : ℕ) → min a 300 ≤ 300
  min_bounded a = omega arith

  sleep_bounded : (interval failures : ℕ) → sleep_seconds interval failures ≤ 300
  unfolding sleep_seconds
  sleep_bounded interval failures = min_bounded (interval * 2 ^ failures)

  failures-poll_once :
      (poll_start : Text) (ids : List ℕ) (s : Poller S W)
      → (poll_once poll_start ids s).1.failures ≡ s.failures
  unfolding poll_once advance
  failures-poll_once poll_start ids s =
      elim (Result-cases (scan_projects s.note_watermark ids true s.scan).0) [
        | inr (x, bad) ↦ rw bad refl
        | inl (false, some_failed) ↦ rw some_failed refl
        | inl (true, all) ↦ rw all refl
      ]

  -- A poll that returns or raises an `Exception` is followed by a sleep of at most 300 seconds: of the interval times
  -- two to the power of the failures in a row, which a poll that returns sets to 0 and one that raises makes one more.
  pub poll_step-backoff :
      (interval : ℕ) (poll_start : Text) (ids : List ℕ) (s : Poller S W)
      → ((e : Exn) → (poll_once poll_start ids s).0 ≡ raised e → is_exception e ≡ true)
      → (failures : ℕ) × ((poll_step interval poll_start ids s).0
          ≡ ok (sleep_seconds interval failures))
        × ((poll_step interval poll_start ids s).1.failures ≡ failures)
        × (sleep_seconds interval failures ≤ 300)
        × ((((poll_once poll_start ids s).0 ≡ ok tt) × (failures ≡ 0))
            ⊎ (failures ≡ suc s.failures))
  unfolding poll_step count_failure
  poll_step-backoff interval poll_start ids s only =
      let r = poll_once poll_start ids s in
      elim (Result-cases r.0) [
        | inl (u, fine) ↦ rw fine (0, refl, refl, sleep_bounded interval 0, inl (refl, refl))
        | inr (e, bad) ↦
            rw (bad, only e bad, failures-poll_once poll_start ids s)
              (suc s.failures, refl, refl, sleep_bounded interval (suc s.failures), inr refl)
      ]
