-- ===== src/Supervisor/Reach.antt =====
-- After any history the supervisor and its attempts satisfy the invariant.
use astroix.Base.{
  ℕ, String, true, Option, none, some, ◌≡◌, inl, inr, refl, subst, arith, ◌==◌, Bool-cases,
  Option-cases,
}
use astroix.Base.Dict.{get, All-put, All-drop_where}
use astroix.CloseReport.{SupervisionCloseReport}
use astroix.Hosts.{launcher, current}
use astroix.Hosts.Table.{mint-HasDistinctKeys, revoke_host-HasDistinctKeys}
use astroix.Clients.{
  Live, ClientBindingRecord, bind, capacity, navigated, renderer_lost, revoke_session, revoke,
}
use astroix.Clients.Caps.{Call, call, binds, navigates, loses, revokes_session, revokes}
use astroix.Session.{FailureCategory, RollbackReason}
use astroix.Supervisor.{
  Supervision, ActiveEntry, AttemptEnd, notify, retire_active, crashed, crash_active,
  revoke_deactivated, revoke_active, create_session_supervisor, snapshot,
}
use astroix.Supervisor.Attempt.{
  AttemptPhase, starting, staged, cancelling, committing, ended, waiting, rejected,
  ActivationAttempt, Sessions, rollback, rollback_in, cancel, cancel_in, ready_resolved,
  ready_rejected, ready_rejected_in, stop_settled,
}
use astroix.Supervisor.Attempts.{
  Fit, staged_open, staged-Fit, stopped-Fit, cancelling-Fit, ended_waits,
}
use astroix.Supervisor.Sound.{
  IsSound, AllShown, is_shown, crashed-IsSound, revoke_deactivated-IsSound,
}
use astroix.Supervisor.Shared.{
  with_clients-IsSound, with_hosts-IsSound, Capable-mint_launcher, Capable-revoke_host,
}
use astroix.Supervisor.Invariant.{IsSupervised, silent-IsSupervised, end_attempt-IsSupervised}
use astroix.Supervisor.Linearized.{commit-IsSupervised}
use astroix.Supervisor.Begun.{begin_session-IsSupervised}
use astroix.Supervisor.Steps.{
  Event, begins, ready_resolves, ready_rejects, commits, rolls_back, cancels, stop_settles,
  run_closes, deactivates, calls_clients, mints_launcher, revokes_host, on_attempt, with_supervisor,
  step, OfAttempt, Enabled, BindsShown, create_sessions, Reach, created, next,
}

-- Without a begin the attempts stay, and so does the attempt in flight.
with_supervisor-IsSupervised :
    (epoch : String) (t : Supervision) (s : Sessions)
    → t.attempt_ctx ≡ s.supervisor.attempt_ctx
    → t.next_generation ≡ s.supervisor.next_generation
    → IsSound epoch t
    → IsSupervised epoch s
    → IsSupervised epoch (with_supervisor t s)
with_supervisor-IsSupervised epoch t s same number sound v = record {
  sound = sound;
  placed = rw (same, number) v.placed;
  known = rw same v.known;
}

crash_context :
    (active : Option ActiveEntry) (g : ℕ) (category : FailureCategory) (s : Supervision)
    → ((crash_active active g category s).attempt_ctx ≡ s.attempt_ctx)
      × ((crash_active active g category s).next_generation ≡ s.next_generation)
unfolding notify retire_active
crash_context none g category s = (refl, refl)
crash_context (some entry) g category s = elim (Bool-cases (entry.ref.generation == g)) [
  | inl own ↦ rw own (refl, refl)
  | inr other ↦ rw other (refl, refl)
]

revoke_context :
    (active : Option ActiveEntry) (s : Supervision)
    → ((revoke_active active s).0.attempt_ctx ≡ s.attempt_ctx)
      × ((revoke_active active s).0.next_generation ≡ s.next_generation)
unfolding notify retire_active
revoke_context none s = (refl, refl)
revoke_context (some entry) s = (refl, refl)

-- The private readiness of the candidate moves no authority.
ready_resolved-IsSupervised :
    (epoch : String) (g : ℕ) (a : ActivationAttempt) (s : Sessions)
    → s.attempts g ≡ some a
    → a.readiness ≡ waiting
    → IsSupervised epoch s
    → IsSupervised epoch (ready_resolved g a s)
unfolding ready_resolved
ready_resolved-IsSupervised epoch g a s at waits v =
    silent-IsSupervised epoch g a _ s at refl (staged_open a.phase)
      (staged-Fit a.phase a.readiness a.stopping a.closed waits (v.placed g a at).is_fit.fit) v

rollback-IsSupervised :
    (epoch : String) (g : ℕ) (reason : RollbackReason) (phase : AttemptPhase)
    (a : ActivationAttempt) (s : Sessions)
    → a.phase ≡ phase
    → s.attempts g ≡ some a
    → IsSupervised epoch s
    → IsSupervised epoch (rollback_in phase g reason a s).0
rollback-IsSupervised epoch g reason staged a s is at v =
    let fit = subst (λ p. Fit p a.readiness a.stopping a.closed) is (v.placed g a at).is_fit.fit in
    end_attempt-IsSupervised epoch g ended _ a a s at (rw is refl) refl refl
      ((λ e. cc (e, fit.0)), fit.2) v
rollback-IsSupervised epoch g reason starting a s is at v = v
rollback-IsSupervised epoch g reason cancelling a s is at v = v
rollback-IsSupervised epoch g reason committing a s is at v = v
rollback-IsSupervised epoch g reason ended a s is at v = v

cancel-IsSupervised :
    (epoch : String) (g : ℕ) (phase : AttemptPhase) (a : ActivationAttempt) (s : Sessions)
    → a.phase ≡ phase
    → s.attempts g ≡ some a
    → IsSupervised epoch s
    → IsSupervised epoch (cancel_in phase g a s).0
cancel-IsSupervised epoch g staged a s is at v =
    rollback-IsSupervised epoch g RollbackReason.cancelled staged a s is at v
cancel-IsSupervised epoch g starting a s is at v =
    let fit = subst (λ p. Fit p a.readiness a.stopping a.closed) is (v.placed g a at).is_fit.fit in
    end_attempt-IsSupervised epoch g cancelling _ a a s at (rw is refl) refl refl fit.2 v
cancel-IsSupervised epoch g cancelling a s is at v = v
cancel-IsSupervised epoch g committing a s is at v = v
cancel-IsSupervised epoch g ended a s is at v = v

ready_rejected-IsSupervised :
    (epoch : String) (g : ℕ) (category : FailureCategory) (phase : AttemptPhase)
    (a : ActivationAttempt) (s : Sessions)
    → a.phase ≡ phase
    → a.readiness ≡ waiting
    → s.attempts g ≡ some a
    → IsSupervised epoch s
    → IsSupervised epoch (ready_rejected_in phase g category (record a { readiness = rejected }) s)
ready_rejected-IsSupervised epoch g category starting a s is waits at v =
    let fit = subst (λ p. Fit p a.readiness a.stopping a.closed) is (v.placed g a at).is_fit.fit in
    end_attempt-IsSupervised epoch g ended _ a _ s at (rw is refl) refl refl ((λ e. cc), fit.2) v
ready_rejected-IsSupervised epoch g category staged a s is waits at v =
    let fit = subst (λ p. Fit p a.readiness a.stopping a.closed) is (v.placed g a at).is_fit.fit in
    cc (waits, fit.0)
ready_rejected-IsSupervised epoch g category cancelling a s is waits at v =
    silent-IsSupervised epoch g a _ s at refl refl
      (cancelling-Fit a.phase a.readiness rejected a.stopping a.closed is
        (v.placed g a at).is_fit.fit)
      v
ready_rejected-IsSupervised epoch g category committing a s is waits at v =
    absurd (subst (λ p. Fit p a.readiness a.stopping a.closed) is (v.placed g a at).is_fit.fit)
ready_rejected-IsSupervised epoch g category ended a s is waits at v = absurd (
    ended_waits a.readiness a.stopping a.closed waits
      (subst (λ p. Fit p a.readiness a.stopping a.closed) is (v.placed g a at).is_fit.fit))

stop_settled-IsSupervised :
    (epoch : String) (g : ℕ) (end : AttemptEnd) (report : Option SupervisionCloseReport)
    (a : ActivationAttempt) (s : Sessions)
    → s.attempts g ≡ some a
    → a.stopping ≡ some end
    → IsSupervised epoch s
    → IsSupervised epoch (stop_settled g end report a s)
unfolding stop_settled
stop_settled-IsSupervised epoch g end report a s at stops v =
    silent-IsSupervised epoch g a _ s at refl refl
      (stopped-Fit a.phase a.readiness a.stopping a.closed end _ stops (v.placed g a at).is_fit.fit)
      v

-- A call of the client registry adds no binding but that of the session that it is made for.
bind_shown :
    (s : Supervision) (live : Live) (minted : String) (input : ClientBindingRecord)
    → is_shown s input.session_ref ≡ true
    → AllShown s live
    → AllShown s (bind minted input live).0
unfolding bind
bind_shown s live minted input shown v = elim (Option-cases (capacity input.role live)) [
  | inl free ↦ rw free (All-put _ live minted input v shown)
  | inr (reason, full) ↦ rw full v
]

call_shown :
    (s : Sessions) (live : Live) (c : Call)
    → BindsShown s (calls_clients c)
    → AllShown s.supervisor live
    → AllShown s.supervisor (call live c)
unfolding call navigated renderer_lost revoke_session revoke
call_shown s live (binds minted input) shown v = bind_shown s.supervisor live minted input shown v
call_shown s live (navigates d) shown v = All-drop_where _ _ live v
call_shown s live (loses id) shown v = All-drop_where _ _ live v
call_shown s live (revokes_session ref) shown v = All-drop_where _ _ live v
call_shown s live (revokes c) shown v = All-drop_where _ _ live v

-- An event of an attempt, where that attempt is.
on_attempt-IsSupervised :
    (epoch : String) (P : ActivationAttempt → Type 0) (act : ActivationAttempt → Sessions)
    (s : Sessions) (found : Option ActivationAttempt)
    → ((a : ActivationAttempt) → found ≡ some a → P a → IsSupervised epoch (act a))
    → OfAttempt P found
    → IsSupervised epoch s
    → IsSupervised epoch (on_attempt found act s)
on_attempt-IsSupervised epoch P act s none each h v = v
on_attempt-IsSupervised epoch P act s (some a) each h v = each a refl h

pub step-IsSupervised :
    (epoch : String) (s : Sessions) (e : Event)
    → Enabled s e
    → BindsShown s e
    → IsSupervised epoch s
    → IsSupervised epoch (step epoch s e)
unfolding step rollback cancel ready_rejected crashed revoke_deactivated
step-IsSupervised epoch s (begins key) h b v = begin_session-IsSupervised epoch key s v
step-IsSupervised epoch s (ready_resolves g) h b v =
    on_attempt-IsSupervised epoch _ _ s (s.attempts g)
      (λ a at waits. ready_resolved-IsSupervised epoch g a s at waits v) h v
step-IsSupervised epoch s (ready_rejects g error) h b v =
    on_attempt-IsSupervised epoch _ _ s (s.attempts g)
      (λ a at waits. ready_rejected-IsSupervised epoch g _ a.phase a s refl waits at v) h v
step-IsSupervised epoch s (commits g minted) h b v =
    on_attempt-IsSupervised epoch _ _ s (s.attempts g)
      (λ a at settled. commit-IsSupervised epoch minted g a s at v) h v
step-IsSupervised epoch s (rolls_back g reason) h b v =
    on_attempt-IsSupervised epoch _ _ s (s.attempts g)
      (λ a at settled. rollback-IsSupervised epoch g reason a.phase a s refl at v) h v
step-IsSupervised epoch s (cancels g) h b v =
    on_attempt-IsSupervised epoch _ _ s (s.attempts g)
      (λ a at any. cancel-IsSupervised epoch g a.phase a s refl at v) h v
step-IsSupervised epoch s (stop_settles g end report) h b v =
    on_attempt-IsSupervised epoch _ _ s (s.attempts g)
      (λ a at stops. stop_settled-IsSupervised epoch g end report a s at stops v) h v
step-IsSupervised epoch s (run_closes g reason) h b v =
    let (same, number) = crash_context s.supervisor.active g _ s.supervisor in
    with_supervisor-IsSupervised epoch _ s same number
      (crashed-IsSound epoch g _ s.supervisor v.sound) v
step-IsSupervised epoch s deactivates h b v =
    let (same, number) = revoke_context s.supervisor.active s.supervisor in
    with_supervisor-IsSupervised epoch _ s same number
      (revoke_deactivated-IsSound epoch s.supervisor v.sound) v
step-IsSupervised epoch s (calls_clients c) h b v =
    with_supervisor-IsSupervised epoch _ s refl refl
      (with_clients-IsSound epoch _ s.supervisor
        (call_shown s s.supervisor.clients c b v.sound.bound_shown) v.sound)
      v
step-IsSupervised epoch s (mints_launcher minted) h b v =
    with_supervisor-IsSupervised epoch _ s refl refl
      (with_hosts-IsSound epoch _ s.supervisor
        (mint-HasDistinctKeys minted launcher s.supervisor.hosts v.sound.one_each)
        (Capable-mint_launcher s.supervisor.active minted s.supervisor.hosts v.sound.capable)
        v.sound)
      v
step-IsSupervised epoch s (revokes_host target) h b v =
    with_supervisor-IsSupervised epoch _ s refl refl
      (with_hosts-IsSound epoch _ s.supervisor
        (revoke_host-HasDistinctKeys target s.supervisor.hosts v.sound.one_each)
        (Capable-revoke_host s.supervisor.active target s.supervisor.hosts v.sound.one_each
          v.sound.capable)
        v.sound)
      v

created-IsSupervised : (epoch : String) → IsSupervised epoch create_sessions
unfolding create_session_supervisor snapshot current get
created-IsSupervised epoch = record {
  sound = record {
    positive = omega arith;
    active_drawn = tt;
    attempt_drawn = tt;
    apart = tt;
    bound_shown = tt;
    one_each = tt;
    capable = λ key capability e. cc;
    told = refl;
  };
  placed = λ g a e. cc;
  known = tt;
}

-- After any history of a supervisor in which documents are bound only to the session that is
-- active or in flight, its references are of its epoch and drawn in order, at most one attempt is
-- open, on another root than the active session and exactly as its phase says, bindings are of the
-- sessions shown, a project has a host capability only while it is active, the latest frame of the
-- listeners is the snapshot, and every attempt has its outcome or awaits it.
pub Reach-IsSupervised : (epoch : String) {s : Sessions} → Reach epoch s → IsSupervised epoch s
Reach-IsSupervised epoch created = created-IsSupervised epoch
Reach-IsSupervised epoch (next r e h b) =
    step-IsSupervised epoch _ e h b (Reach-IsSupervised epoch r)
