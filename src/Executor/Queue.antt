-- ===== src/Executor/Queue.antt =====
-- The queue of packages/runtime/edit-authority/executor/write-executor.ts: execute, stop and pump
-- around the operations.
--
-- A promise is the value that it was resolved with. The `then` of an operation and its `finally` run
-- at different moments, so they are two callbacks.
pub mod Orderly
pub mod Reach
pub mod Drive
use astroix.Base.{
  ℕ, suc, Bool, true, false, ◌&&◌, not, Option, none, some, List, [], ◌∷◌, ◌++◌, if◌then◌else◌,
}
use astroix.DrainReport.{WriteOutcome, write_failed}
use astroix.Plans.{DomainWritePlan}

pub data WriteExecutorState : Type 0 where
  running stopping closed : WriteExecutorState

pub record ExecutorCloseReport : Type 0 where
  pub settled : ℕ

-- The variables of `createWriteExecutor`; `current` is the operation whose promise is pending,
-- `outcomes` what the operations resolved with.
pub record WriteExecutor : Type 0 where
  pub accepted : List DomainWritePlan
  pub settled : ℕ
  pub state : WriteExecutorState
  pub draining : Bool
  pub current : Option DomainWritePlan
  pub outcomes : List (DomainWritePlan × WriteOutcome)
  pub report : Option ExecutorCloseReport

abbrev pub create_write_executor : WriteExecutor
create_write_executor = record {
  accepted = [];
  settled = 0;
  state = running;
  draining = false;
  current = none;
  outcomes = [];
  report = none;
}

abbrev pub take_next : List DomainWritePlan → WriteExecutor → WriteExecutor
take_next [] q = q
take_next (next ∷ rest) q = record q { accepted = rest; draining = true; current = some next }

unfoldable pub pump : WriteExecutor → WriteExecutor
pump q = if q.draining then q else take_next q.accepted q

-- A promise keeps the first value that it is resolved with.
abbrev pub resolve_closed : ℕ → Option ExecutorCloseReport → Option ExecutorCloseReport
resolve_closed settled none = some (record { settled = settled })
resolve_closed settled (some first) = some first

abbrev pub close : WriteExecutor → WriteExecutor
close q = record q { state = closed; report = resolve_closed q.settled q.report }

pub data Submission : Type 0 where
  queued fenced : Submission

abbrev pub execute_in :
    WriteExecutorState → DomainWritePlan → WriteExecutor → WriteExecutor × Submission
execute_in running plan q = (pump (record q { accepted = q.accepted ++ (plan ∷ []) }), queued)
execute_in _ plan q = (q, fenced)

unfoldable pub execute : DomainWritePlan → WriteExecutor → WriteExecutor × Submission
execute plan q = execute_in q.state plan q

abbrev pub outcome_of : Option WriteOutcome → WriteOutcome
outcome_of (some outcome) = outcome
outcome_of none = WriteOutcome.failed write_failed

abbrev pub settle_current :
    Option DomainWritePlan → Option WriteOutcome → WriteExecutor → WriteExecutor
settle_current none raw q = q
settle_current (some plan) raw q = record q {
  settled = suc q.settled;
  current = none;
  outcomes = q.outcomes ++ ((plan, outcome_of raw) ∷ []);
}

-- The `then` and the `catch` of the operation; `none` is a rejection.
unfoldable pub settle : Option WriteOutcome → WriteExecutor → WriteExecutor
settle raw q = settle_current q.current raw q

abbrev pub is_running : WriteExecutorState → Bool
is_running running = true
is_running _ = false

abbrev pub is_nil : List DomainWritePlan → Bool
is_nil [] = true
is_nil (plan ∷ plans) = false

-- The `finally` of the operation.
unfoldable pub finish : WriteExecutor → WriteExecutor
finish q =
    let idle : WriteExecutor = record q { draining = false } in
    if not (is_running q.state) && is_nil q.accepted then close idle else pump idle

abbrev pub stop_open : WriteExecutor → WriteExecutor
stop_open q =
    let stopped : WriteExecutor = record q { state = stopping } in
    if not q.draining && is_nil q.accepted then close stopped else stopped

abbrev pub stop_in : WriteExecutorState → WriteExecutor → WriteExecutor
stop_in closed q = q
stop_in _ q = stop_open q

unfoldable pub stop : WriteExecutor → WriteExecutor
stop q = stop_in q.state q
