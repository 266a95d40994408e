-- ===== src/Supervisor/Refines.antt =====
-- The supervisor with its attempts makes only the moves of Supervisor/Spec.
use astroix.Base.{
  ℕ, String, true, false, Option, none, some, ◌≡◌, inl, inr, refl, sym, subst, ap, arith, ◌∙◌, ◌==◌,
  ==_iff, Bool-cases,
}
use astroix.Session.{SessionRef, RollbackReason, FailureCategory}
use astroix.CloseReport.{SupervisionStopReason}
use astroix.Supervisor.{
  Supervision, ActiveEntry, AttemptContext, AttemptEnd, active_on, attempt_ended, end_context,
  notify, swap, retire_active, begin, begin_free, root_has_plane, crashed, crash_active,
  revoke_deactivated, revoke_active,
}
use astroix.Supervisor.Attempt.{
  AttemptPhase, ProjectRunBootErrorCode, waiting, rejected, starting, staged, cancelling,
  committing, ended, ActivationAttempt, Sessions, end_attempt, commit, linearized, rollback,
  rollback_in, cancel, cancel_in, ready_resolved, ready_rejected, ready_rejected_in, stop_settled,
  begin_session,
}
use astroix.Supervisor.Attempts.{is_open, open-InFlight, Fit, ended_waits}
use astroix.Supervisor.Invariant.{IsSupervised}
use astroix.Supervisor.Linearized.{commit_staged}
use astroix.Supervisor.Reach.{Reach-IsSupervised}
use astroix.Supervisor.Steps.{
  Event, begins, ready_resolves, ready_rejects, commits, rolls_back, cancels, stop_settles,
  run_closes, deactivates, calls_clients, mints_launcher, revokes_host, on_attempt, step, OfAttempt,
  Enabled, Reach,
}
use astroix.Supervisor.Linearized.{swap_context, is_staged, commit_unstaged}
use astroix.Supervisor.Spec.{
  plane_of, planes, EndsAttempt, Move, stays, reserves, swaps, withdraws, clears,
}

abbrev number_of : Option AttemptContext → ℕ
number_of none = 0
number_of (some c) = c.ref.generation

end_context-Move :
    (epoch : String) (e : Event) (ctx : Option AttemptContext) (end : AttemptEnd) (s : Supervision)
    (c : AttemptContext)
    → s.attempt_ctx ≡ ctx
    → ctx ≡ some c
    → EndsAttempt e c.ref.generation
    → Move epoch e (planes s) (planes (end_context ctx end s))
unfolding notify
end_context-Move epoch e none end s c at on ends = cc
end_context-Move epoch e (some d) end s c at on ends =
    withdraws e (planes s) (record { ref = d.ref; project_key = d.project_key }) (ap plane_of at)
      (subst (λ x. EndsAttempt e (number_of x)) (sym on) ends)

end_attempt-Move :
    (epoch : String) (e : Event) (g : ℕ) (phase : AttemptPhase) (end : AttemptEnd)
    (a b : ActivationAttempt) (s : Sessions)
    → s.attempts g ≡ some a
    → is_open a.phase ≡ true
    → EndsAttempt e g
    → IsSupervised epoch s
    → Move epoch e (planes s.supervisor) (planes (end_attempt g phase end b s).supervisor)
unfolding end_attempt attempt_ended
end_attempt-Move epoch e g phase end a b s at open_ ends v =
    let here = v.placed g a at in
    let (c, on, own) = open-InFlight s.supervisor.attempt_ctx a open_ here.in_flight in
    end_context-Move epoch e s.supervisor.attempt_ctx end s.supervisor c refl on
      (subst (EndsAttempt e) (sym (ap SessionRef.generation own ∙ here.is_fit.own_number)) ends)

rejected-Move :
    (epoch : String) (error : Option ProjectRunBootErrorCode) (g : ℕ) (category : FailureCategory)
    (phase : AttemptPhase) (a : ActivationAttempt) (s : Sessions)
    → a.phase ≡ phase
    → a.readiness ≡ waiting
    → s.attempts g ≡ some a
    → IsSupervised epoch s
    → Move epoch (ready_rejects g error) (planes s.supervisor) (
        planes
          (ready_rejected_in phase g category (record a { readiness = rejected }) s).supervisor)
rejected-Move epoch error g category starting a s is waits at v =
    end_attempt-Move epoch (ready_rejects g error) g ended _ a _ s at (rw is refl) refl v
rejected-Move epoch error g category staged a s is waits at v =
    end_attempt-Move epoch (ready_rejects g error) g ended _ a _ s at (rw is refl) refl v
rejected-Move epoch error g category cancelling a s is waits at v = stays _ _
rejected-Move epoch error g category committing a s is waits at v =
    absurd (subst (λ p. Fit p a.readiness a.stopping a.closed) is (v.placed g a at).is_fit.fit)
rejected-Move epoch error g category ended a s is waits at v = absurd (
    ended_waits a.readiness a.stopping a.closed waits
      (subst (λ p. Fit p a.readiness a.stopping a.closed) is (v.placed g a at).is_fit.fit))

rollback-Move :
    (epoch : String) (g : ℕ) (reason : RollbackReason) (phase : AttemptPhase)
    (a : ActivationAttempt) (s : Sessions)
    → a.phase ≡ phase
    → s.attempts g ≡ some a
    → IsSupervised epoch s
    → Move epoch
        (rolls_back g reason)
        (planes s.supervisor)
        (planes (rollback_in phase g reason a s).0.supervisor)
rollback-Move epoch g reason staged a s is at v =
    end_attempt-Move epoch (rolls_back g reason) g ended _ a a s at (rw is refl) refl v
rollback-Move epoch g reason starting a s is at v = stays _ _
rollback-Move epoch g reason cancelling a s is at v = stays _ _
rollback-Move epoch g reason committing a s is at v = stays _ _
rollback-Move epoch g reason ended a s is at v = stays _ _

cancel-Move :
    (epoch : String) (g : ℕ) (phase : AttemptPhase) (a : ActivationAttempt) (s : Sessions)
    → a.phase ≡ phase
    → s.attempts g ≡ some a
    → IsSupervised epoch s
    → Move epoch (cancels g) (planes s.supervisor) (planes (cancel_in phase g a s).0.supervisor)
cancel-Move epoch g staged a s is at v =
    end_attempt-Move epoch (cancels g) g ended _ a a s at (rw is refl) refl v
cancel-Move epoch g starting a s is at v =
    end_attempt-Move epoch (cancels g) g cancelling _ a a s at (rw is refl) refl v
cancel-Move epoch g cancelling a s is at v = stays _ _
cancel-Move epoch g committing a s is at v = stays _ _
cancel-Move epoch g ended a s is at v = stays _ _

swap-Move :
    (epoch minted : String) (g : ℕ) (c : AttemptContext) (s : Supervision)
    → s.attempt_ctx ≡ some c
    → c.ref.generation ≡ g
    → Move epoch (commits g minted) (planes s) (planes (swap minted c s))
unfolding swap notify
swap-Move epoch minted g c s on own =
    let (gone, number) = swap_context minted c s in
    let e : planes (swap minted c s)
        ≡ (record (planes s) { active = plane_of (some c); attempt = none }) =
      cc (gone, number, ap plane_of gone) in
    subst (λ k. Move epoch (commits k minted) (planes s) (planes (swap minted c s))) own
      (subst (Move epoch (commits c.ref.generation minted) (planes s)) (sym e) (
        swaps minted (planes s) (record { ref = c.ref; project_key = c.project_key })
          (ap plane_of on)))

commit-Move :
    (epoch minted : String) (g : ℕ) (a : ActivationAttempt) (s : Sessions)
    → s.attempts g ≡ some a
    → IsSupervised epoch s
    → Move epoch
        (commits g minted)
        (planes s.supervisor)
        (planes (commit g minted a s).0.supervisor)
unfolding linearized
commit-Move epoch minted g a s at v = elim (is_staged a.phase) [
  | inl is ↦
      let (c, on, own, e) = commit_staged epoch minted g a s at is v in
      subst (λ r. Move epoch (commits g minted) (planes s.supervisor) (planes r.0.supervisor))
        (sym e)
        (swap-Move epoch minted g c s.supervisor on
          (ap SessionRef.generation own ∙ (v.placed g a at).is_fit.own_number))
  | inr other ↦
      subst (λ r. Move epoch (commits g minted) (planes s.supervisor) (planes r.0.supervisor))
        (sym (commit_unstaged g minted a s other)) (stays (commits g minted) (planes s.supervisor))
]

begin_free-Move :
    (epoch key : String) (ctx : Option AttemptContext) (s : Supervision)
    → s.attempt_ctx ≡ ctx
    → active_on s.active key ≡ false
    → Move epoch (begins key) (planes s) (planes (begin_free epoch ctx key s).0)
unfolding notify
begin_free-Move epoch key none s at free = reserves key (planes s) (ap plane_of at) free
begin_free-Move epoch key (some c) s at free = stays _ _

begin-Move :
    (epoch key : String) (s : Supervision)
    → Move epoch (begins key) (planes s) (planes (begin epoch key s).0)
unfolding begin root_has_plane
begin-Move epoch key s = elim (Bool-cases (root_has_plane key s)) [
  | inl held ↦ rw held (stays (begins key) (planes s))
  | inr free ↦ rw free (begin_free-Move epoch key s.attempt_ctx s refl (ground (arith, free)))
]

crash-Move :
    (epoch : String) (g : ℕ) (reason : Option SupervisionStopReason) (category : FailureCategory)
    (active : Option ActiveEntry) (s : Supervision)
    → s.active ≡ active
    → Move epoch (run_closes g reason) (planes s) (planes (crash_active active g category s))
unfolding notify retire_active
crash-Move epoch g reason category none s on = stays _ _
crash-Move epoch g reason category (some entry) s on =
    elim (Bool-cases (entry.ref.generation == g)) [
      | inl own ↦
          rw own (clears (run_closes g reason) (planes s) entry on (sym ((==_iff _ _).0 own)))
      | inr other ↦ rw other (stays (run_closes g reason) (planes s))
    ]

revoke-Move :
    (epoch : String) (active : Option ActiveEntry) (s : Supervision)
    → s.active ≡ active
    → Move epoch deactivates (planes s) (planes (revoke_active active s).0)
unfolding notify retire_active
revoke-Move epoch none s on = stays _ _
revoke-Move epoch (some entry) s on = clears deactivates (planes s) entry on tt

on_attempt-Move :
    (epoch : String) (e : Event) (P : ActivationAttempt → Type 0)
    (act : ActivationAttempt → Sessions) (s : Sessions) (found : Option ActivationAttempt)
    → ((a : ActivationAttempt)
        → found ≡ some a
        → P a
        → Move epoch e (planes s.supervisor) (planes (act a).supervisor))
    → OfAttempt P found
    → Move epoch e (planes s.supervisor) (planes (on_attempt found act s).supervisor)
on_attempt-Move epoch e P act s none each h = stays _ _
on_attempt-Move epoch e P act s (some a) each h = each a refl h

-- Each event of a supervisor moves its sessions as promised or leaves them: a begin puts a fresh
-- generation in flight where none is and its root is free, a commit makes its own attempt active,
-- a rejected readiness, a rollback or a cancel withdraws its own attempt and no other, and the
-- active session is cleared only by a deactivation or the close of its own run.
pub step_refines :
    (epoch : String) {s : Sessions}
    → Reach epoch s
    → (e : Event) → Enabled s e
    → Move epoch e (planes s.supervisor) (planes (step epoch s e).supervisor)
unfolding step begin_session ready_resolved ready_rejected rollback cancel stop_settled crashed
    revoke_deactivated
step_refines epoch {s} r (begins key) h = begin-Move epoch key s.supervisor
step_refines epoch {s} r (ready_resolves g) h =
    on_attempt-Move epoch _ _ _ s (s.attempts g) (λ a at waits. stays _ _) h
step_refines epoch {s} r (ready_rejects g error) h =
    on_attempt-Move epoch _ _ _ s (s.attempts g)
      (λ a at waits.
        rejected-Move epoch error g _ a.phase a s refl waits at (Reach-IsSupervised epoch r))
      h
step_refines epoch {s} r (commits g minted) h =
    on_attempt-Move epoch _ _ _ s (s.attempts g)
      (λ a at settled. commit-Move epoch minted g a s at (Reach-IsSupervised epoch r)) h
step_refines epoch {s} r (rolls_back g reason) h =
    on_attempt-Move epoch _ _ _ s (s.attempts g)
      (λ a at settled.
        rollback-Move epoch g reason a.phase a s refl at (Reach-IsSupervised epoch r))
      h
step_refines epoch {s} r (cancels g) h =
    on_attempt-Move epoch _ _ _ s (s.attempts g)
      (λ a at any. cancel-Move epoch g a.phase a s refl at (Reach-IsSupervised epoch r)) h
step_refines epoch {s} r (stop_settles g end report) h =
    on_attempt-Move epoch _ _ _ s (s.attempts g) (λ a at stops. stays _ _) h
step_refines epoch {s} r (run_closes g reason) h =
    crash-Move epoch g reason _ s.supervisor.active s.supervisor refl
step_refines epoch {s} r deactivates h = revoke-Move epoch s.supervisor.active s.supervisor refl
step_refines epoch {s} r (calls_clients c) h = stays _ _
step_refines epoch {s} r (mints_launcher minted) h = stays _ _
step_refines epoch {s} r (revokes_host target) h = stays _ _
