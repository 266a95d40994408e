-- ===== src/Session.antt =====
-- The public session identity of packages/protocol/src/session-state.ts, and the pair comparison
-- of packages/runtime/edit-authority/grants/canonical-bounds.ts, which session-clients.ts,
-- menu-actions.ts and session-supervisor.ts repeat word for word.
use astroix.Base.{
  ℕ, String, Bool, true, ◌&&◌, ◌≡◌, ◌↔◌, Option, none, some, arith, ◌==◌, str_eq, eq_iff,
}

pub record SessionRef : Type 0 where
  pub runtime_epoch : String
  pub generation : ℕ

unfoldable pub same_session : SessionRef → SessionRef → Bool
same_session a b = str_eq a.runtime_epoch b.runtime_epoch && a.generation == b.generation

-- Two references are the same session exactly when they are equal.
pub same_session_iff : (a b : SessionRef) → (same_session a b ≡ true) ↔ (a ≡ b)
unfolding same_session
same_session_iff a b = ground (arith, eq_iff a.runtime_epoch b.runtime_epoch)

-- `SessionFailure` of the protocol; the message is the fixed template of its category
-- (`FAILURE_MESSAGES` of activation-attempt.ts), so the category carries it.
pub data FailureCategory : Type 0 where
  startup startup_timeout certification drain_conflict drain_timeout incomplete_reap revocation
        crash unknown :
      FailureCategory

pub data RollbackReason : Type 0 where
  cancelled drain_conflict drain_timeout incomplete_reap : RollbackReason

-- A plain cancel records no failure.
unfoldable pub rollback_failure_category : RollbackReason → Option FailureCategory
rollback_failure_category RollbackReason.cancelled = none
rollback_failure_category RollbackReason.drain_conflict = some FailureCategory.drain_conflict
rollback_failure_category RollbackReason.drain_timeout = some FailureCategory.drain_timeout
rollback_failure_category RollbackReason.incomplete_reap = some FailureCategory.incomplete_reap
