-- ===== src/DrainReport.antt =====
-- packages/runtime/session-supervisor/fence/drain-report.ts, over the outcome vocabulary of
-- packages/runtime/edit-authority/executor/write-outcomes.ts. A message is the fixed template of its
-- code, so the code carries it.
use astroix.Base.{ℕ, String}
use astroix.Session.{FailureCategory, RollbackReason}

pub data WriteRejectionCode : Type 0 where
  cross_session wrong_root operation_not_allowed operation_target_mismatch target_moved
        target_absent parent_absent parent_not_directory not_a_file hard_linked_target
        changed_baseline target_exists range_outside_baseline fenced malformed_plan :
      WriteRejectionCode

pub data WriteFailureCode : Type 0 where
  read_failed write_failed replace_failed create_failed : WriteFailureCode

pub data WriteOutcome : Type 0 where
  committed : String → WriteOutcome
  rejected : WriteRejectionCode → WriteOutcome
  failed : WriteFailureCode → WriteOutcome
  unknown : WriteOutcome

pub data DrainOperationOutcome : Type 0 where
  success conflict failure : DrainOperationOutcome

pub data DrainFailureCause : Type 0 where
  conflict write_failure : DrainFailureCause

pub record DrainFailureDetail : Type 0 where
  pub key : String
  pub cause : DrainFailureCause
  pub outcome : WriteOutcome

pub data DrainReport : Type 0 where
  drained : (settled : ℕ) → DrainReport
  failed :
      (cause : DrainFailureCause) (first_failure : DrainFailureDetail) (settled : ℕ)
      (failure : FailureCategory) (rollback_reason : RollbackReason)
      → DrainReport
  timed_out :
      (settled pending : ℕ) (failure : FailureCategory) (rollback_reason : RollbackReason)
      → DrainReport

unfoldable pub classify_write_outcome : WriteOutcome → DrainOperationOutcome
classify_write_outcome (committed revision) = DrainOperationOutcome.success
classify_write_outcome (rejected changed_baseline) = DrainOperationOutcome.conflict
classify_write_outcome (rejected target_exists) = DrainOperationOutcome.conflict
classify_write_outcome _ = DrainOperationOutcome.failure
