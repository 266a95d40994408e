-- ===== src/Switch/Commit.antt =====
-- The second half of packages/runtime/session-supervisor/commit/switch-coordinator.ts: the consumption
-- of a receipt, which is the linearization of a switch, and what follows it.
use astroix.Base.{ℕ, String, Bool, true, false, not, ◌&&◌, Option, none, some, if◌then◌else◌}
use astroix.Session.{SessionRef, same_session}
use astroix.Fence.{FenceState}
use astroix.Receipts.{
  SwitchTarget, replacement, deactivation, PreparationResult, normal, forced, ReceiptBindings,
  ReceiptLedger, lookup, valid, ReceiptLookup, consume,
}
use astroix.Revocation.{
  RevocationSurfaces, RevocationStep, RevocationReport, RevokeOldAuthorityInput,
  LeaseRevocationView, revoke_old_authority,
}
use astroix.Supervisor.Attempt.{ActivationAttempt, Sessions, Answer, done}
use astroix.Supervisor.Attempt
use astroix.Switch.{ControlPlane, surfaces_of, with_surfaces, is_drained, is_timed_out}

abbrev pub fence_still_certified : PreparationResult → FenceState → Bool
fence_still_certified (normal report) state = is_drained state
fence_still_certified (forced exit) state = is_timed_out state

pub data ReceiptRejection : Type 0 where
  unknown_receipt already_consumed candidate_mismatch not_a_replacement not_a_deactivation
        fence_resumed :
      ReceiptRejection

pub data SpentTransition : Type 0 where
  spent : ReceiptBindings → RevocationReport → SpentTransition
  rejected : ReceiptRejection → SpentTransition

pub data CommittedTransition : Type 0 where
  committed : SessionRef → RevocationReport → CommittedTransition
  deactivated : SessionRef → RevocationReport → CommittedTransition
  failed : RevocationReport → CommittedTransition
  rejected : ReceiptRejection → CommittedTransition

abbrev pub revocation_of : ReceiptBindings → Option LeaseRevocationView → RevokeOldAuthorityInput
revocation_of b lease = record {
  session = b.old_session;
  host = b.host;
  client_capability = b.client.http_capability;
  lease = lease;
}

-- What happens meanwhile: others at the surfaces during the pass, the answer of the lease, and others
-- at the rest until the pass has settled.
pub record Meanwhile : Type 0 where
  pub others : RevocationStep → RevocationSurfaces → RevocationSurfaces
  pub lease : Option LeaseRevocationView
  pub between : ControlPlane → ControlPlane

-- From the linearization on.
abbrev pub linearize :
    Meanwhile
    → ReceiptBindings
    → ControlPlane
    → ReceiptLedger × Bool
    → ControlPlane × SpentTransition
linearize m b c (ledger, false) = (c, rejected ReceiptRejection.already_consumed)
linearize m b c (ledger, true) =
    let (surfaces, report) =
      revoke_old_authority m.others (revocation_of b m.lease) (surfaces_of c) in
    (m.between (with_surfaces surfaces (record c { ledger = ledger })), spent b report)

abbrev pub spend_guarded :
    Option ReceiptRejection
    → Meanwhile
    → ℕ
    → ReceiptBindings
    → ControlPlane
    → ControlPlane × SpentTransition
spend_guarded (some reason) m receipt b c = (c, rejected reason)
spend_guarded none m receipt b c =
    if not (fence_still_certified b.preparation (c.fences b.fence).state)
    then (c, rejected ReceiptRejection.fence_resumed)
    else linearize m b c (consume receipt c.ledger)

abbrev pub spend_found :
    ReceiptLookup
    → (ReceiptBindings → Option ReceiptRejection)
    → Meanwhile
    → ℕ
    → ControlPlane
    → ControlPlane × SpentTransition
spend_found ReceiptLookup.unknown_receipt guard m receipt c =
    (c, rejected ReceiptRejection.unknown_receipt)
spend_found ReceiptLookup.already_consumed guard m receipt c =
    (c, rejected ReceiptRejection.already_consumed)
spend_found (valid b) guard m receipt c = spend_guarded (guard b) m receipt b c

unfoldable pub spend_receipt :
    (ReceiptBindings → Option ReceiptRejection)
    → Meanwhile
    → ℕ
    → ControlPlane
    → ControlPlane × SpentTransition
spend_receipt guard m receipt c = spend_found (lookup receipt c.ledger) guard m receipt c

abbrev pub guard_target : SwitchTarget → SessionRef → Option ReceiptRejection
guard_target deactivation candidate = some not_a_replacement
guard_target (replacement bound) candidate =
    if not (same_session bound candidate) then some candidate_mismatch else none

abbrev pub guard_deactivation : ReceiptBindings → Option ReceiptRejection
guard_deactivation b = elim b.target [
  | deactivation ↦ none
  | replacement bound ↦ some not_a_deactivation
]

abbrev pub granted :
    SessionRef
    → RevocationReport
    → ControlPlane
    → Sessions × Answer
    → ControlPlane × CommittedTransition
granted ref report c (sessions, done) = (record c { sessions = sessions }, committed ref report)
granted ref report c (sessions, Answer.refused code) =
    (record c { sessions = sessions }, failed report)

-- The grant: the candidate's own commit, at its attempt's state of that moment.
abbrev pub grant :
    ℕ
    → String
    → RevocationReport
    → Option ActivationAttempt
    → ControlPlane
    → ControlPlane × CommittedTransition
grant g capability report none c = (c, failed report)
grant g capability report (some a) c =
    granted a.ref report c (Attempt.commit g capability a c.sessions)

abbrev pub commit_spent :
    ℕ → String → ControlPlane → SpentTransition → ControlPlane × CommittedTransition
commit_spent g capability c (SpentTransition.rejected reason) =
    (c, CommittedTransition.rejected reason)
commit_spent g capability c (spent b report) = grant g capability report (c.sessions.attempts g) c

-- The commit of the candidate with generation `g` and reference `ref`.
unfoldable pub commit_switch :
    Meanwhile → ℕ → ℕ → SessionRef → String → ControlPlane → ControlPlane × CommittedTransition
commit_switch m receipt g ref capability c =
    let (after, answer) = spend_receipt (λ b. guard_target b.target ref) m receipt c in
    commit_spent g capability after answer

-- The stop of the outgoing run: whether it threw.
abbrev pub deactivate_spent :
    Bool → ControlPlane → SpentTransition → ControlPlane × CommittedTransition
deactivate_spent threw c (SpentTransition.rejected reason) =
    (c, CommittedTransition.rejected reason)
deactivate_spent threw c (spent b report) =
    (c, if b.stop_old_run && threw then failed report else deactivated b.old_session report)

unfoldable pub deactivate : Meanwhile → ℕ → Bool → ControlPlane → ControlPlane × CommittedTransition
deactivate m receipt threw c =
    let (after, answer) = spend_receipt guard_deactivation m receipt c in
    deactivate_spent threw after answer
