-- ===== src/CloseReport.antt =====
-- packages/runtime/project-plane/supervision/close-report.ts: the report with which a run closes, and
-- the report of a run that never spawned, of
-- packages/runtime/session-supervisor/staging/activation-attempt.ts.
use astroix.Base.{
  Bool, true, false, not, ◌&&◌, List, [], ◌∷◌, ◌++◌, ◌≡◌, ◌↔◌, if◌then◌else◌, is_empty, arith,
}

pub data SupervisionStopReason : Type 0 where
  stopped cancelled startup_timeout worker_crash managed_astro_crash : SupervisionStopReason

pub data SupervisionChild : Type 0 where
  worker managed_astro : SupervisionChild

pub data SupervisionCleanupCategory : Type 0 where
  worker_close_report worker_cleanup_incomplete worker_reap managed_astro_reap probe_abort :
      SupervisionCleanupCategory

pub record SupervisionCloseAccounting : Type 0 where
  pub worker_report_received : Bool
  pub worker_cleanup_complete : Bool
  pub worker_reaped : Bool
  pub managed_astro_reaped : Bool
  pub probes_settled : Bool
  pub kill_escalations : List SupervisionChild

-- The outcome of a report.
pub data Completeness : Type 0 where
  complete incomplete : Completeness

pub record SupervisionCloseReport : Type 0 where
  pub reason : SupervisionStopReason
  pub outcome : Completeness
  pub failures : List SupervisionCleanupCategory
  pub accounting : SupervisionCloseAccounting

pub record SupervisionCloseFacts : Type 0 where
  pub reason : SupervisionStopReason
  pub worker_report_expected : Bool
  pub observed : SupervisionCloseAccounting

abbrev pub failing : Bool → SupervisionCleanupCategory → List SupervisionCleanupCategory
failing fails category = if fails then category ∷ [] else []

unfoldable pub failed_categories : SupervisionCloseFacts → List SupervisionCleanupCategory
failed_categories facts =
    let seen = facts.observed in
    (if facts.worker_report_expected && not seen.worker_report_received
      then worker_close_report ∷ []
      else failing (seen.worker_report_received && not seen.worker_cleanup_complete)
          worker_cleanup_incomplete)
    ++ (failing (not seen.worker_reaped) worker_reap
        ++ (failing (not seen.managed_astro_reaped) managed_astro_reap
            ++ failing (not seen.probes_settled) probe_abort))

unfoldable pub classify_supervision_close : SupervisionCloseFacts → SupervisionCloseReport
classify_supervision_close facts = record {
  reason = facts.reason;
  outcome = if is_empty (failed_categories facts) then complete else incomplete;
  failures = failed_categories facts;
  accounting = facts.observed;
}

unfoldable pub never_spawned_report : SupervisionCloseReport
never_spawned_report = record {
  reason = cancelled;
  outcome = complete;
  failures = [];
  accounting = record {
    worker_report_received = false;
    worker_cleanup_complete = true;
    worker_reaped = true;
    managed_astro_reaped = true;
    probes_settled = true;
    kill_escalations = [];
  };
}

-- What a complete cleanup means.
pub record IsClean (facts : SupervisionCloseFacts) : Type 0 where
  pub reported : facts.worker_report_expected ≡ true → facts.observed.worker_report_received ≡ true
  pub cleaned :
      facts.observed.worker_report_received ≡ true → facts.observed.worker_cleanup_complete ≡ true
  pub worker_gone : facts.observed.worker_reaped ≡ true
  pub astro_gone : facts.observed.managed_astro_reaped ≡ true
  pub probes_gone : facts.observed.probes_settled ≡ true

-- A close is complete exactly when the worker reported if a report was expected, a worker that
-- reported had cleaned up, both children were reaped, and the probes settled.
pub classify_complete_iff :
    (facts : SupervisionCloseFacts)
    → ((classify_supervision_close facts).outcome ≡ complete) ↔ IsClean facts
unfolding classify_supervision_close failed_categories
classify_complete_iff facts = (
  λ e. record {
    reported = λ h. ground arith;
    cleaned = λ h. ground arith;
    worker_gone = ground arith;
    astro_gone = ground arith;
    probes_gone = ground arith;
  },
  λ v. let a = v.reported in let b = v.cleaned in ground (arith, a, b),
)
