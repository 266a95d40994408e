-- ===== src/Fence/Sound.antt =====
-- What is sound in each state of the fence.
use astroix.Base.{ℕ, ◌+◌, ◌≤◌, ◌<◌, ◌≡◌, Bool, true, false, Option, none, some, length}
use astroix.Session.{FailureCategory, RollbackReason}
use astroix.DrainReport.{DrainReport, DrainFailureDetail}
use astroix.Fence.{
  FenceState, opened, draining, drained, failed, timed_out, terminal_after_timeout, Drain,
  EditFence,
}
use astroix.Fence.Serial.{IsSerial}

abbrev pub unresolved : Option Drain
unresolved = some (record { outcome = none; settled = false })

abbrev pub resolved : DrainReport → Bool → Option Drain
resolved r s = some (record { outcome = some r; settled = s })

abbrev pub failed_report : DrainFailureDetail → ℕ → DrainReport
failed_report d n =
    DrainReport.failed d.cause d n FailureCategory.drain_conflict RollbackReason.drain_conflict

abbrev pub timed_out_report : ℕ → ℕ → DrainReport
timed_out_report a b =
    DrainReport.timed_out a b FailureCategory.drain_timeout RollbackReason.drain_timeout

-- The timeout verdict of a drain over `n` edits, the number of edits pending not being 0.
abbrev pub TimedOut : ℕ → Bool → Option Drain → Type 0
TimedOut n s d = (a : ℕ) × (b : ℕ) × (d ≡ resolved (timed_out_report a b) s) × (a + b ≡ n) × (0 < b)

-- What each state says of `t` terminal edits among `n`, the timer, the failure and the promises.
abbrev pub Fits : FenceState → ℕ → ℕ → Bool → Option DrainFailureDetail → Option Drain → Type 0
Fits opened t n a ff d = a ≡ false
Fits draining t n a ff d = (t < n) × (a ≡ true) × (d ≡ unresolved)
Fits drained t n a ff d =
    (t ≡ n) × (a ≡ false) × (ff ≡ none) × (d ≡ resolved (DrainReport.drained n) true)
Fits failed t n a ff d =
    (t ≡ n)
    × (a ≡ false)
    × ((e : DrainFailureDetail) × (ff ≡ some e) × (d ≡ resolved (failed_report e n) true))
Fits timed_out t n a ff d = (t < n) × (a ≡ false) × TimedOut n false d
Fits terminal_after_timeout t n a ff d = (t ≡ n) × (a ≡ false) × TimedOut n true d

abbrev pub FitsFence : EditFence → Type 0
FitsFence f = Fits f.state f.terminal_count (length f.accepted) f.armed f.first_failure f.drain

pub record IsSound (f : EditFence) : Type 0 where
  pub serial : IsSerial f.ledger
  pub fits : FitsFence f

-- The same just before `on_terminality`, which moves a state whose last edit has settled.
abbrev pub Waits : FenceState → ℕ → ℕ → Bool → Option DrainFailureDetail → Option Drain → Type 0
Waits opened t n a ff d = a ≡ false
Waits draining t n a ff d = (t ≤ n) × (a ≡ true) × (d ≡ unresolved)
Waits timed_out t n a ff d = (t ≤ n) × (a ≡ false) × TimedOut n false d
Waits _ t n a ff d = ⊥

abbrev pub WaitsFence : EditFence → Type 0
WaitsFence f = Waits f.state f.terminal_count (length f.accepted) f.armed f.first_failure f.drain
