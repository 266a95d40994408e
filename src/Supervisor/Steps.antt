-- ===== src/Supervisor/Steps.antt =====
-- The histories of a supervisor: the calls of its methods and of its attempts', the settlements of
-- the promises of runs, and what other parts do to the tables that it shares.
use astroix.Base.{ℕ, String, true, Option, none, some, ◌≡◌, []}
use astroix.Session.{RollbackReason}
use astroix.CloseReport.{SupervisionCloseReport, SupervisionStopReason}
use astroix.Hosts.{CapabilityHost, launcher, mint, revoke_host}
use astroix.Clients.Caps.{Call, call, binds}
use astroix.Supervisor.{
  Supervision, AttemptEnd, create_session_supervisor, crashed, crash_category, revoke_deactivated,
}
use astroix.Supervisor.Attempt.{
  ActivationAttempt, committed, Sessions, waiting, resolved, ProjectRunBootErrorCode, commit,
  rollback, cancel, ready_resolved, ready_rejected, stop_settled, begin_session,
}
use astroix.Supervisor.Sound.{is_shown}

pub data Event : Type 0 where
  begins : (project_key : String) → Event
  ready_resolves : ℕ → Event
  ready_rejects : ℕ → Option ProjectRunBootErrorCode → Event
  commits : ℕ → (minted : String) → Event
  rolls_back : ℕ → RollbackReason → Event
  cancels : ℕ → Event
  stop_settles : ℕ → AttemptEnd → Option SupervisionCloseReport → Event
  run_closes : ℕ → Option SupervisionStopReason → Event
  deactivates : Event
  calls_clients : Call → Event
  mints_launcher : String → Event
  revokes_host : CapabilityHost → Event

abbrev pub on_attempt :
    Option ActivationAttempt → (ActivationAttempt → Sessions) → Sessions → Sessions
on_attempt none act s = s
on_attempt (some a) act s = act a

abbrev pub with_supervisor : Supervision → Sessions → Sessions
with_supervisor supervisor s = record s { supervisor = supervisor }

unfoldable pub step : String → Sessions → Event → Sessions
step epoch s (begins key) = (begin_session epoch key s).0
step epoch s (ready_resolves g) = on_attempt (s.attempts g) (λ a. ready_resolved g a s) s
step epoch s (ready_rejects g error) = on_attempt (s.attempts g) (λ a. ready_rejected g error a s) s
step epoch s (commits g minted) = on_attempt (s.attempts g) (λ a. (commit g minted a s).0) s
step epoch s (rolls_back g reason) = on_attempt (s.attempts g) (λ a. (rollback g reason a s).0) s
step epoch s (cancels g) = on_attempt (s.attempts g) (λ a. (cancel g a s).0) s
step epoch s (stop_settles g end report) =
    on_attempt (s.attempts g) (λ a. stop_settled g end report a s) s
step epoch s (run_closes g reason) =
    with_supervisor (crashed g (crash_category reason) s.supervisor) s
step epoch s deactivates = with_supervisor (revoke_deactivated s.supervisor).0 s
step epoch s (calls_clients c) =
    let t = s.supervisor in with_supervisor (record t { clients = call t.clients c }) s
step epoch s (mints_launcher minted) =
    let t = s.supervisor in with_supervisor (record t { hosts = mint minted launcher t.hosts }) s
step epoch s (revokes_host target) =
    let t = s.supervisor in with_supervisor (record t { hosts = revoke_host target t.hosts }) s

-- The condition on the attempt that an event is about.
abbrev pub OfAttempt : (ActivationAttempt → Type 0) → Option ActivationAttempt → Type 0
OfAttempt P none = ⊥
OfAttempt P (some a) = P a

-- A promise settles once; a candidate is got from the promise `ready`; and the close of a run is
-- observed once its attempt has committed.
abbrev pub Enabled : Sessions → Event → Type 0
Enabled s (ready_resolves g) = OfAttempt (λ a. a.readiness ≡ waiting) (s.attempts g)
Enabled s (ready_rejects g error) = OfAttempt (λ a. a.readiness ≡ waiting) (s.attempts g)
Enabled s (commits g minted) = OfAttempt (λ a. a.readiness ≡ resolved) (s.attempts g)
Enabled s (rolls_back g reason) = OfAttempt (λ a. a.readiness ≡ resolved) (s.attempts g)
Enabled s (cancels g) = OfAttempt (λ a. Unit {0}) (s.attempts g)
Enabled s (stop_settles g end report) = OfAttempt (λ a. a.stopping ≡ some end) (s.attempts g)
Enabled s (run_closes g reason) = OfAttempt (λ a. a.closed ≡ some (committed a.ref)) (s.attempts g)
Enabled s _ = Unit {0}

-- What the histories assume of the callers: a document is bound only to the active session or to the
-- attempt in flight. `bind` does not check it.
abbrev pub BindsShown : Sessions → Event → Type 0
BindsShown s (calls_clients (binds minted input)) = is_shown s.supervisor input.session_ref ≡ true
BindsShown s _ = Unit {0}

abbrev pub create_sessions : Sessions
create_sessions = record { supervisor = create_session_supervisor [] []; attempts = λ g. none }

pub data Reach (epoch : String) : Sessions → Type 0 where
  created : Reach epoch create_sessions
  next :
      {s : Sessions}
      → Reach epoch s
      → (e : Event) → Enabled s e
      → BindsShown s e
      → Reach epoch (step epoch s e)
