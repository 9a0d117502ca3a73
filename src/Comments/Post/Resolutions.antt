-- ===== src/Comments/Post/Resolutions.antt =====
-- What `_handle_resolutions` may do to the threads.
use mathlib.Core.List.{append_assoc, append-nil}
use gitlab_copilot_agent.Prelude.{
  ℕ, ◌+◌, Text, text_eq, List, [], ◌∷◌, ◌++◌, true, false, ◌≡◌, ◌≢◌, refl, ◌⊎◌, inl, inr, contains,
  Bool-cases, All, Any, All-append, ap, ◌∙◌, sym, codes,
}
use gitlab_copilot_agent.Effects.{
  Result, ok, raised, is_exception, pure, continue, handle, ◌>>◌, Result-cases,
}
use gitlab_copilot_agent.Gitlab.{Call, Trace, Gitlab, call}
use gitlab_copilot_agent.Comments.Parsed.{Resolution, Status, Behavior}
use gitlab_copilot_agent.Comments.Post.{
  reply_call, resolve_call, act_on, handle_resolution, resolution_loop, handle_resolutions,
  is_not_addressed,
}

live_status : (s : Status) → is_not_addressed s ≡ false → s ≢ Status.not_addressed
unfolding is_not_addressed
live_status s live dead = cc (live, ap is_not_addressed dead)

module _ (gitlab : Gitlab) (upper : Text → Text) (p m : ℕ) (behavior : Behavior)
    (allowed : List Text) where
  -- A reply to an allowed thread, or the resolution of an allowed thread that the review calls
  -- resolved, where threads are resolved automatically.
  abbrev pub Permits : Call → Resolution → Type 0
  Permits x r =
      (contains allowed r.discussion_id ≡ true)
      × (r.status ≢ Status.not_addressed)
      × (((prefix : Text) × (x ≡ reply_call gitlab upper p m prefix r))
          ⊎ ((x ≡ resolve_call gitlab upper p m r)
              × (r.status ≡ Status.resolved)
              × (behavior ≡ Behavior.auto_resolve)))

  abbrev pub Permitted : List Resolution → Call → Type 0
  Permitted rs x = Any (Permits x) rs

  abbrev pub Adds : List Resolution → Trace → Trace → Type 0
  Adds rs old new = (added : Trace) × (new ≡ old ++ added) × All (Permitted rs) added

  Adds-nothing : (rs : List Resolution) (trace : Trace) → Adds rs trace trace
  Adds-nothing rs trace = ([], sym (append-nil trace), tt)

  Adds-trans : (rs : List Resolution) (a b c : Trace) → Adds rs a b → Adds rs b c → Adds rs a c
  Adds-trans rs a b c (x, e, h) (y, e', h') =
      (x ++ y, e' ∙ ap (λ t. t ++ y) e ∙ append_assoc a x y, All-append (Permitted rs) x y h h')

  Permitted-more :
      (r : Resolution) (rs : List Resolution) (xs : Trace)
      → All (Permitted rs) xs
      → All (Permitted (r ∷ rs)) xs
  Permitted-more r rs [] h = tt
  Permitted-more r rs (x ∷ xs) h = (inr h.0, Permitted-more r rs xs h.1)

  Permitted-first :
      (r : Resolution) (rs : List Resolution) (xs : Trace)
      → All (Permitted (r ∷ [])) xs
      → All (Permitted (r ∷ rs)) xs
  Permitted-first r rs [] h = tt
  Permitted-first r rs (x ∷ xs) h = (first h.0, Permitted-first r rs xs h.1)
    where
      first : Permitted (r ∷ []) x → Permitted (r ∷ rs) x
      first (inl j) = inl j
      first (inr j) = elim j [ ]

  -- A handler that only returns keeps the trace.
  handle-trace : (r : Result ℕ × Trace) → (handle (λ _. pure 0) r).1 ≡ r.1
  handle-trace (ok n, trace) = refl
  handle-trace (raised e, trace) = elim (Bool-cases (is_exception e)) [
    | inl caught ↦ rw caught refl
    | inr through ↦ rw through refl
  ]

  reply-Adds :
      (r : Resolution) (prefix : Text) (n : ℕ) (trace : Trace)
      → contains allowed r.discussion_id ≡ true
      → r.status ≢ Status.not_addressed
      → Adds
          (r ∷ [])
          trace
          (continue (λ _. pure n) (call gitlab (reply_call gitlab upper p m prefix r) trace)).1
  unfolding call
  reply-Adds r prefix n trace inside live =
      let x = reply_call gitlab upper p m prefix r in
      let added : Adds (r ∷ []) trace (trace ++ x ∷ []) =
        (x ∷ [], refl, (inl (inside, live, inl (prefix, refl)), tt)) in
      elim (Result-cases (gitlab trace x)) [ inl (a, e) ↦ rw e added | inr (z, e) ↦ rw e added ]

  resolve-Adds :
      (r : Resolution) (prefix : Text) (trace : Trace)
      → contains allowed r.discussion_id ≡ true
      → r.status ≡ Status.resolved
      → r.status ≢ Status.not_addressed
      → behavior ≡ Behavior.auto_resolve
      → Adds
          (r ∷ [])
          trace
          (continue
            (λ _. call gitlab (resolve_call gitlab upper p m r) >> pure {A = ℕ} 1)
            (call gitlab (reply_call gitlab upper p m prefix r) trace)).1
  unfolding call
  resolve-Adds r prefix trace inside solved live auto =
      let x = reply_call gitlab upper p m prefix r in
      let y = resolve_call gitlab upper p m r in
      let added : Adds (r ∷ []) trace (trace ++ x ∷ []) =
        (x ∷ [], refl, (inl (inside, live, inl (prefix, refl)), tt)) in
      let next : Adds (r ∷ []) (trace ++ x ∷ []) ((trace ++ x ∷ []) ++ y ∷ []) =
        (y ∷ [], refl, (inl (inside, live, inr (refl, solved, auto)), tt)) in
      elim (Result-cases (gitlab trace x)) [
        | inl (a, e) ↦ elim (Result-cases (gitlab (trace ++ x ∷ []) y)) [
          | inl (b, e') ↦ rw (e, e') (Adds-trans (r ∷ []) trace _ _ added next)
          | inr (z, e') ↦ rw (e, e') (Adds-trans (r ∷ []) trace _ _ added next)
        ]
        | inr (z, e) ↦ rw e added
      ]

  act_on-Adds :
      (r : Resolution) (s : Status) (trace : Trace)
      → contains allowed r.discussion_id ≡ true
      → r.status ≡ s
      → r.status ≢ Status.not_addressed
      → (b : Behavior) → behavior ≡ b
      → Adds (r ∷ []) trace (act_on gitlab upper p m b s r trace).1
  unfolding act_on
  act_on-Adds r Status.not_addressed trace inside e live b _ = elim (live e) [ ]
  act_on-Adds r Status.partial trace inside e live b _ =
      reply-Adds r (codes "⚠\u{fe0f}") 0 trace inside live
  act_on-Adds r Status.resolved trace inside e live Behavior.auto_resolve auto =
      resolve-Adds r (codes "✅") trace inside e live auto
  act_on-Adds r Status.resolved trace inside e live Behavior.suggest _ =
      reply-Adds r (codes "✅") 0 trace inside live
  act_on-Adds r Status.resolved trace inside e live Behavior.off _ =
      reply-Adds r (codes "✅") 0 trace inside live

  handle_resolution-Adds :
      (r : Resolution) (trace : Trace)
      → Adds (r ∷ []) trace (handle_resolution gitlab upper p m behavior allowed r trace).1
  unfolding handle_resolution
  handle_resolution-Adds r trace = elim (Bool-cases (is_not_addressed r.status)) [
    | inl dead ↦ rw dead (Adds-nothing (r ∷ []) trace)
    | inr live ↦ elim (Bool-cases (contains allowed r.discussion_id)) [
      | inr out ↦ rw (live, out) (Adds-nothing (r ∷ []) trace)
      | inl inside ↦
          let (xs, e, h) =
            act_on-Adds r r.status trace inside refl (live_status r.status live) behavior refl in
          rw (live, inside)
            (xs, handle-trace (act_on gitlab upper p m behavior r.status r trace) ∙ e, h)
    ]
  ]

  resolution_loop-Adds :
      (rs : List Resolution) (count : ℕ) (trace : Trace)
      → Adds rs trace (resolution_loop gitlab upper p m behavior allowed rs count trace).1
  unfolding resolution_loop
  resolution_loop-Adds [] count trace = Adds-nothing [] trace
  resolution_loop-Adds (r ∷ rs) count trace =
      let step = handle_resolution gitlab upper p m behavior allowed r trace in
      let (xs, e, h) = handle_resolution-Adds r trace in
      let first : Adds (r ∷ rs) trace step.1 = (xs, e, Permitted-first r rs xs h) in
      elim (Result-cases step.0) [
        | inl (n, counted) ↦
            let (ys, e', h') = resolution_loop-Adds rs (count + n) step.1 in
            rw counted
              (Adds-trans (r ∷ rs) trace step.1 _ first (ys, e', Permitted-more r rs ys h'))
        | inr (x, failed) ↦ rw failed first
      ]

-- Every call that `_handle_resolutions` makes belongs to one of the resolutions, whose thread is in the
-- allowlist and whose status is not `not_addressed`: a reply to that thread, or its resolution where
-- the status is `resolved` and the behavior `auto_resolve`. This holds for every GitLab, on whichever
-- calls it fails.
pub handle_resolutions_permitted :
    (gitlab : Gitlab) (upper : Text → Text) (p m : ℕ) (behavior : Behavior) (allowed : List Text)
    (rs : List Resolution) (trace : Trace)
    → Adds gitlab upper p m behavior allowed rs trace
        (handle_resolutions gitlab upper p m behavior allowed rs trace).1
unfolding handle_resolutions
handle_resolutions_permitted gitlab upper p m Behavior.auto_resolve allowed rs trace =
    resolution_loop-Adds gitlab upper p m Behavior.auto_resolve allowed rs 0 trace
handle_resolutions_permitted gitlab upper p m Behavior.suggest allowed rs trace =
    resolution_loop-Adds gitlab upper p m Behavior.suggest allowed rs 0 trace
handle_resolutions_permitted gitlab upper p m Behavior.off allowed rs trace =
    Adds-nothing gitlab upper p m Behavior.off allowed rs trace
