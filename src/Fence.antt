-- ===== src/Fence.antt =====
-- packages/runtime/session-supervisor/fence/edit-fence.ts: the edit fence of a session and its one
-- bounded drain.
--
-- The closure of `createEditFence` is the record `EditFence`; each method and each callback is a
-- function on it. A promise is the value that it has been resolved with, if any: `reported` of an
-- edit, `outcome` and `settled` of the drain. The `execute` thunk of an edit runs outside: its
-- settlement is the argument of `settle`, `none` when the promise was rejected. The pending seam
-- is the list that it hands back, `none` when it throws.
pub mod Order
pub mod Blame
pub mod Keys
pub mod Serial
pub mod Steps
pub mod Sound
pub mod Invariant
pub mod Verdict
pub mod Tests
use astroix.Base.{
  ℕ, zero, suc, ◌-◌, String, Bool, true, false, Option, none, some, List, [], ◌∷◌, ◌++◌, map, ◌==◌,
  if◌then◌else◌, length, get_elem?, drop,
}
use astroix.Session.{FailureCategory, RollbackReason}
use astroix.DrainReport.{
  WriteOutcome, write_failed, DrainOperationOutcome, DrainFailureCause, DrainFailureDetail,
  DrainReport, classify_write_outcome,
}

pub data FenceState : Type 0 where
  opened draining drained failed timed_out terminal_after_timeout : FenceState

pub data EditPhase : Type 0 where
  queued in_flight terminal : EditPhase

pub record AcceptedEdit : Type 0 where
  pub key : String
  pub phase : EditPhase
  pub reported : Option DrainOperationOutcome

-- The queue's half of the closure.
pub record Ledger : Type 0 where
  pub accepted : List AcceptedEdit
  pub cursor : ℕ
  pub terminal_count : ℕ
  pub is_in_flight : Bool
  pub first_failure : Option DrainFailureDetail

-- The two promises of one drain.
pub record Drain : Type 0 where
  pub outcome : Option DrainReport
  pub settled : Bool

-- `armed`: the deadline's timer is pending.
pub record EditFence : Type 0 where
  pub ledger : Ledger
  pub open ledger use *
  pub state : FenceState
  pub drain : Option Drain
  pub armed : Bool

abbrev pub empty_ledger : Ledger
empty_ledger = record {
  accepted = [];
  cursor = 0;
  terminal_count = 0;
  is_in_flight = false;
  first_failure = none;
}

abbrev pub create_edit_fence : EditFence
create_edit_fence = record { ledger = empty_ledger; state = opened; drain = none; armed = false }

abbrev pub is_queued : EditPhase → Bool
is_queued queued = true
is_queued _ = false

-- The `while` loop of `pump`, over the edits from the cursor on.
unfoldable pub advance : List AcceptedEdit → ℕ → ℕ
advance [] c = c
advance (op ∷ ops) c = if is_queued op.phase then c else advance ops (suc c)

-- An assignment to the fields of the edit at an index.
unfoldable pub update_at : ℕ → (AcceptedEdit → AcceptedEdit) → List AcceptedEdit → List AcceptedEdit
update_at i g [] = []
update_at zero g (op ∷ ops) = g op ∷ ops
update_at (suc i) g (op ∷ ops) = op ∷ update_at i g ops

abbrev pub start : AcceptedEdit → AcceptedEdit
start op = record op { phase = in_flight }

-- The rest of `pump`, at the edit that the loop stopped at.
abbrev pub launch : Option AcceptedEdit → ℕ → Ledger → Ledger
launch none c l = record l { cursor = c }
launch (some op) c l = record l {
  cursor = c;
  is_in_flight = true;
  accepted = update_at c start l.accepted;
}

abbrev pub pump_at : ℕ → Ledger → Ledger
pump_at c l = launch (get_elem? l.accepted c) c l

unfoldable pub pump : Ledger → Ledger
pump l = if l.is_in_flight then l else pump_at (advance (drop l.cursor l.accepted) l.cursor) l

abbrev pub admitted : String → AcceptedEdit
admitted key = record { key = key; phase = queued; reported = none }

abbrev pub admit : List String → Ledger → Ledger
admit keys l = record l { accepted = l.accepted ++ map admitted keys }

-- A promise keeps the first value that it is resolved with.
abbrev pub resolve_once : DrainReport → Option DrainReport → Option DrainReport
resolve_once r none = some r
resolve_once r (some old) = some old

abbrev pub resolve_outcome : DrainReport → Option Drain → Option Drain
resolve_outcome r none = none
resolve_outcome r (some d) = some (record d { outcome = resolve_once r d.outcome })

abbrev pub resolve_settled : Option Drain → Option Drain
resolve_settled none = none
resolve_settled (some d) = some (record d { settled = true })

-- The verdict of a drain whose last edit has settled.
abbrev pub verdict : Option DrainFailureDetail → EditFence → EditFence
verdict none f = record f {
  state = drained;
  armed = false;
  drain = resolve_outcome (DrainReport.drained (length f.accepted)) f.drain;
}
verdict (some d) f = record f {
  state = failed;
  armed = false;
  drain =
      resolve_outcome
        (DrainReport.failed d.cause d (length f.accepted) FailureCategory.drain_conflict
          RollbackReason.drain_conflict)
        f.drain;
}

abbrev pub converge : FenceState → EditFence → EditFence
converge draining f = verdict f.first_failure f
converge timed_out f = record f { state = terminal_after_timeout }
converge _ f = f

unfoldable pub on_terminality : EditFence → EditFence
on_terminality f =
    if f.terminal_count == length f.accepted
    then converge f.state (record f { drain = resolve_settled f.drain })
    else f

abbrev pub finish : DrainOperationOutcome → AcceptedEdit → AcceptedEdit
finish classified op = record op { phase = terminal; reported = some classified }

abbrev pub note_failure :
    String
    → WriteOutcome
    → DrainOperationOutcome
    → Option DrainFailureDetail
    → Option DrainFailureDetail
note_failure key raw DrainOperationOutcome.success first = first
note_failure key raw _ (some d) = some d
note_failure key raw DrainOperationOutcome.conflict none =
    some (record { key = key; cause = DrainFailureCause.conflict; outcome = raw })
note_failure key raw DrainOperationOutcome.failure none =
    some (record { key = key; cause = DrainFailureCause.write_failure; outcome = raw })

-- A rejected promise settles as `writeFailure('write-failed')`.
abbrev pub settled_with : Option WriteOutcome → WriteOutcome
settled_with (some raw) = raw
settled_with none = WriteOutcome.failed write_failed

unfoldable pub record_outcome : ℕ → AcceptedEdit → WriteOutcome → Ledger → Ledger
record_outcome i op raw l =
    let classified = classify_write_outcome raw in
    record l {
      accepted = update_at i (finish classified) l.accepted;
      first_failure = note_failure op.key raw classified l.first_failure;
      terminal_count = suc l.terminal_count;
      is_in_flight = false;
    }

unfoldable pub pumped : EditFence → EditFence
pumped f = record f { ledger = pump f.ledger }

-- The settlement of the edit at index `i`.
unfoldable pub settle : ℕ → Option WriteOutcome → EditFence → EditFence
settle i raw f = elim (get_elem? f.accepted i) [
  | none ↦ f
  | some op ↦
      pumped
        (on_terminality (record f { ledger = record_outcome i op (settled_with raw) f.ledger }))
]

abbrev pub time_out : FenceState → EditFence → EditFence
time_out draining f = record f {
  state = timed_out;
  drain =
      resolve_outcome
        (DrainReport.timed_out f.terminal_count (length f.accepted - f.terminal_count)
          FailureCategory.drain_timeout RollbackReason.drain_timeout)
        f.drain;
}
time_out _ f = f

unfoldable pub on_deadline : EditFence → EditFence
on_deadline f = time_out f.state (record f { armed = false })

pub data Answer : Type 0 where
  accepted fenced refused threw : Answer

abbrev pub submit_in : FenceState → String → EditFence → EditFence × Answer
submit_in opened key f = (pumped (record f { ledger = admit (key ∷ []) f.ledger }), Answer.accepted)
submit_in _ key f = (f, Answer.refused)

unfoldable pub submit : String → EditFence → EditFence × Answer
submit key f = submit_in f.state key f

-- `fence` up to the convergence: admission is closed, the flushed edits are in the ledger, the
-- timer runs, and the queue moves.
abbrev pub begin_drain : List String → EditFence → EditFence
begin_drain flushed f = pumped (record f {
  state = draining;
  drain = some (record { outcome = none; settled = false });
  ledger = admit flushed f.ledger;
  armed = true;
})

abbrev pub fence_in : FenceState → Option (List String) → EditFence → EditFence × Answer
fence_in opened (some flushed) f = (on_terminality (begin_drain flushed f), Answer.fenced)
fence_in opened none f = (f, Answer.threw)
fence_in _ _ f = (f, Answer.refused)

unfoldable pub fence : Option (List String) → EditFence → EditFence × Answer
fence pending f = fence_in f.state pending f

pub data ResumeResult : Type 0 where
  resumed not_fenced drain_in_flight work_not_terminal : ResumeResult

abbrev pub reopen_ledger : Ledger → Ledger
reopen_ledger l = record l { accepted = []; cursor = 0; terminal_count = 0; first_failure = none }

abbrev pub reopen : EditFence → EditFence
reopen f = record f { state = opened; ledger = reopen_ledger f.ledger }

abbrev pub resume_in : FenceState → EditFence → EditFence × ResumeResult
resume_in opened f = (f, not_fenced)
resume_in draining f = (f, drain_in_flight)
resume_in timed_out f = (f, work_not_terminal)
resume_in _ f = (reopen f, resumed)

unfoldable pub resume : EditFence → EditFence × ResumeResult
resume f = resume_in f.state f
