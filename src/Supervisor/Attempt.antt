-- ===== src/Supervisor/Attempt.antt =====
-- packages/runtime/session-supervisor/staging/activation-attempt.ts: the staged transaction that
-- commits a candidate run or rolls it back.
--
-- The closures of the attempts are kept by generation, beside the supervisor whose hooks they call.
-- The messages of failures are not modelled: each is the fixed template of its category, and that of
-- a certification names the detected pair.
use astroix.Base.{ℕ, String, Bool, true, false, Option, none, some, ◌∷◌, if◌then◌else◌, ◌==◌}
use astroix.Session.{
  SessionRef, FailureCategory, RollbackReason, startup, certification, crash, unknown,
}
use astroix.CloseReport.{SupervisionCloseReport, never_spawned_report}
use astroix.Supervisor.{
  Supervision, AttemptEnd, commit_candidate, attempt_ended, begin, begun, BeginActivationResult,
}

pub data AttemptPhase : Type 0 where
  starting staged cancelling committing ended : AttemptPhase

-- The promise `ready` of the candidate's run.
pub data Readiness : Type 0 where
  waiting resolved rejected : Readiness

pub data StageRejectionCode : Type 0 where
  not_ready settled committing not_current : StageRejectionCode

pub data ActivationOutcome : Type 0 where
  committed : SessionRef → ActivationOutcome
  failed : FailureCategory → SupervisionCloseReport → ActivationOutcome
  rolled_back : RollbackReason → SupervisionCloseReport → ActivationOutcome
  cancelled : SupervisionCloseReport → ActivationOutcome

pub data ProjectRunBootErrorCode : Type 0 where
  cancelled startup_timeout worker_crash managed_astro_crash proxy_health launch_failed
        uncertified_pair :
      ProjectRunBootErrorCode

abbrev pub boot_failure_category : ProjectRunBootErrorCode → FailureCategory
boot_failure_category ProjectRunBootErrorCode.cancelled = startup
boot_failure_category ProjectRunBootErrorCode.startup_timeout = FailureCategory.startup_timeout
boot_failure_category worker_crash = crash
boot_failure_category managed_astro_crash = crash
boot_failure_category proxy_health = startup
boot_failure_category launch_failed = startup
boot_failure_category uncertified_pair = certification

-- What `ready` was rejected with: a boot error, or anything else.
abbrev pub readiness_failure_of : Option ProjectRunBootErrorCode → FailureCategory
readiness_failure_of (some code) = boot_failure_category code
readiness_failure_of none = unknown

-- `stopping` is how the attempt ended, while the stop of its run that will settle `closed` is awaited.
pub record ActivationAttempt : Type 0 where
  pub ref : SessionRef
  pub phase : AttemptPhase
  pub readiness : Readiness
  pub stopping : Option AttemptEnd
  pub closed : Option ActivationOutcome

abbrev pub create_activation_attempt : SessionRef → ActivationAttempt
create_activation_attempt ref = record {
  ref = ref;
  phase = starting;
  readiness = waiting;
  stopping = none;
  closed = none;
}

pub record Sessions : Type 0 where
  pub supervisor : Supervision
  pub attempts : ℕ → Option ActivationAttempt

unfoldable pub assign :
    ℕ → ActivationAttempt → (ℕ → Option ActivationAttempt) → ℕ → Option ActivationAttempt
assign g a attempts k = if k == g then some a else attempts k

-- `closed` settles once, with the first outcome.
abbrev pub first_of : Option ActivationOutcome → ActivationOutcome → Option ActivationOutcome
first_of none outcome = some outcome
first_of (some before) outcome = some before

abbrev pub settle_outcome : ActivationOutcome → ActivationAttempt → ActivationAttempt
settle_outcome outcome a = record a { closed = first_of a.closed outcome }

unfoldable pub outcome_of : AttemptEnd → SupervisionCloseReport → ActivationOutcome
outcome_of (AttemptEnd.failed category) report = ActivationOutcome.failed category report
outcome_of (AttemptEnd.rolled_back reason) report = ActivationOutcome.rolled_back reason report
outcome_of AttemptEnd.cancelled report = ActivationOutcome.cancelled report

-- The three ways to end an attempt share the steps: the new phase, the supervisor's hook, and the
-- stop of the run that settles `closed`.
unfoldable pub end_attempt : ℕ → AttemptPhase → AttemptEnd → ActivationAttempt → Sessions → Sessions
end_attempt g phase end a s =
    let told = attempt_ended end s.supervisor in
    record {
      supervisor = record told { stops = g ∷ told.stops };
      attempts = assign g (record a { phase = phase; stopping = some end }) s.attempts;
    }

pub data Answer : Type 0 where
  done : Answer
  refused : StageRejectionCode → Answer

abbrev pub disown : ℕ → Supervision → Supervision
disown g s = record s { stops = g ∷ s.stops }

-- After the supervisor's answer: the swap ran, or the attempt is not the live one.
unfoldable pub linearized :
    ℕ → ActivationAttempt → Sessions → Supervision × Bool → Sessions × Answer
linearized g a s (swapped, true) = (
  record {
    supervisor = swapped;
    attempts = assign g (settle_outcome (committed a.ref) (record a { phase = ended })) s.attempts;
  },
  done,
)
linearized g a s (kept, false) = (
  record {
    supervisor = disown g kept;
    attempts =
        assign g
          (settle_outcome (ActivationOutcome.cancelled never_spawned_report)
            (record a { phase = ended }))
          s.attempts;
  },
  refused not_current,
)

abbrev pub commit_in : AttemptPhase → ℕ → String → ActivationAttempt → Sessions → Sessions × Answer
commit_in ended g minted a s = (s, refused settled)
commit_in AttemptPhase.committing g minted a s = (s, refused settled)
commit_in starting g minted a s = (s, refused not_ready)
commit_in cancelling g minted a s = (s, refused not_ready)
commit_in staged g minted a s = linearized g a s (commit_candidate a.ref minted s.supervisor)

unfoldable pub commit : ℕ → String → ActivationAttempt → Sessions → Sessions × Answer
commit g minted a s = commit_in a.phase g minted a s

abbrev pub rollback_in :
    AttemptPhase → ℕ → RollbackReason → ActivationAttempt → Sessions → Sessions × Answer
rollback_in AttemptPhase.committing g reason a s = (s, refused StageRejectionCode.committing)
rollback_in staged g reason a s = (end_attempt g ended (AttemptEnd.rolled_back reason) a s, done)
rollback_in _ g reason a s = (s, refused settled)

unfoldable pub rollback : ℕ → RollbackReason → ActivationAttempt → Sessions → Sessions × Answer
rollback g reason a s = rollback_in a.phase g reason a s

abbrev pub cancel_in : AttemptPhase → ℕ → ActivationAttempt → Sessions → Sessions × Answer
cancel_in AttemptPhase.committing g a s = (s, refused StageRejectionCode.committing)
cancel_in staged g a s =
    (end_attempt g ended (AttemptEnd.rolled_back RollbackReason.cancelled) a s, done)
cancel_in starting g a s = (end_attempt g cancelling AttemptEnd.cancelled a s, done)
cancel_in _ g a s = (s, refused settled)

unfoldable pub cancel : ℕ → ActivationAttempt → Sessions → Sessions × Answer
cancel g a s = cancel_in a.phase g a s

abbrev pub staged_from : AttemptPhase → AttemptPhase
staged_from starting = staged
staged_from phase = phase

unfoldable pub ready_resolved : ℕ → ActivationAttempt → Sessions → Sessions
ready_resolved g a s = record s {
  attempts = assign g (record a { phase = staged_from a.phase; readiness = resolved }) s.attempts;
}

abbrev pub ready_rejected_in :
    AttemptPhase → ℕ → FailureCategory → ActivationAttempt → Sessions → Sessions
ready_rejected_in cancelling g category a s = record s { attempts = assign g a s.attempts }
ready_rejected_in _ g category a s = end_attempt g ended (AttemptEnd.failed category) a s

unfoldable pub ready_rejected :
    ℕ → Option ProjectRunBootErrorCode → ActivationAttempt → Sessions → Sessions
ready_rejected g error a s =
    ready_rejected_in a.phase g (readiness_failure_of error) (record a { readiness = rejected }) s

-- The stop of the run answers; `none` where it rejects.
abbrev pub or_never_spawned : Option SupervisionCloseReport → SupervisionCloseReport
or_never_spawned (some report) = report
or_never_spawned none = never_spawned_report

unfoldable pub stop_settled :
    ℕ → AttemptEnd → Option SupervisionCloseReport → ActivationAttempt → Sessions → Sessions
stop_settled g end report a s = record s {
  attempts =
      assign g
        (settle_outcome (outcome_of end (or_never_spawned report)) (record a { stopping = none }))
        s.attempts;
}

-- A begin that is admitted builds the attempt of its generation.
abbrev pub with_attempt :
    (ℕ → Option ActivationAttempt) → BeginActivationResult → ℕ → Option ActivationAttempt
with_attempt attempts (begun ref) = assign ref.generation (create_activation_attempt ref) attempts
with_attempt attempts _ = attempts

unfoldable pub begin_session : String → String → Sessions → Sessions × BeginActivationResult
begin_session runtime_epoch key s =
    let (supervisor, answer) = begin runtime_epoch key s.supervisor in
    (record { supervisor = supervisor; attempts = with_attempt s.attempts answer }, answer)
