-- ===== src/Switch.antt =====
-- packages/runtime/session-supervisor/commit/switch-coordinator.ts: the coordinator of switches.
--
-- The surfaces that the coordinator is given, with the supervisor, the ledger of receipts and the
-- fences, are the record ControlPlane. A call that awaits takes the states of its two moments: before
-- the await, and after it, with what the awaited promise gave. The kill of the executor and the stop
-- of the outgoing run are outside.
pub mod Commit
pub mod Certified
pub mod Spent
pub mod Tests
use astroix.Base.{ℕ, String, Bool, true, false, not, ◌&&◌, Option, none, some, if◌then◌else◌}
use astroix.Session.{SessionRef, same_session}
use astroix.DrainReport.{DrainReport}
use astroix.Fence.{EditFence, FenceState, drained, timed_out, terminal_after_timeout}
use astroix.Bindings.{
  HttpBindings, ClientBinding, ClientRole, VirtualHostClass, editor, same_role, resolve,
}
use astroix.Streams.{SseHub}
use astroix.Clients
use astroix.Clients.{Authorization, authorized}
use astroix.Grants
use astroix.Receipts.{
  SwitchTarget, replacement, deactivation, ExecutorExitView, PreparationResult, normal, forced,
  AuthoritativeClient, ReceiptBindings, ReceiptLedger, mint_receipt, MintResult, minted, lookup,
  valid, ReceiptLookup, consume,
}
use astroix.Revocation.{
  RevocationSurfaces, RevocationStep, RevocationReport, RevokeOldAuthorityInput,
  LeaseRevocationView, revoke_old_authority,
}
use astroix.Supervisor.{Supervision}
use astroix.Supervisor.Attempt.{ActivationAttempt, Sessions, Answer, done}
use astroix.Supervisor.Attempt

pub record ControlPlane : Type 0 where
  pub streams : SseHub
  pub grants : Grants.Table
  pub http_bindings : HttpBindings
  pub sessions : Sessions
  pub ledger : ReceiptLedger
  pub fences : ℕ → EditFence

abbrev pub surfaces_of : ControlPlane → RevocationSurfaces
surfaces_of c = record {
  streams = c.streams;
  grants = c.grants;
  clients = c.sessions.supervisor.clients;
  http_bindings = c.http_bindings;
  host_capabilities = c.sessions.supervisor.hosts;
}

abbrev pub with_surfaces : RevocationSurfaces → ControlPlane → ControlPlane
with_surfaces r c =
    let sessions = c.sessions in
    let supervisor = sessions.supervisor in
    record c {
      streams = r.streams;
      grants = r.grants;
      http_bindings = r.http_bindings;
      sessions = record sessions {
        supervisor = record supervisor { clients = r.clients; hosts = r.host_capabilities };
      };
    }

pub record SwitchPreparationInput : Type 0 where
  pub old_session : SessionRef
  pub target : SwitchTarget
  pub client : AuthoritativeClient
  pub fence : ℕ
  pub host : String
  pub routes : ℕ
  pub stop_old_run : Bool

pub data PreparationRefusal : Type 0 where
  drain_failed drain_timed_out fence_resumed client_not_authoritative fence_not_timed_out
        deactivation_without_stop transition_already_prepared :
      PreparationRefusal

pub data Preparation : Type 0 where
  prepared : (receipt : ℕ) → Preparation
  refused : PreparationRefusal → Preparation
  incomplete_reap : Preparation

abbrev pub is_project : VirtualHostClass → Bool
is_project VirtualHostClass.project = true
is_project VirtualHostClass.launcher = false

abbrev pub bound_at : Option SessionRef → SessionRef → Bool
bound_at none session = false
bound_at (some own) session = same_session own session

abbrev pub edits : SessionRef → Option ClientBinding → Bool
edits session none = false
edits session (some b) =
    same_role b.role editor && is_project b.host && bound_at b.session_ref session

abbrev pub is_authorized : Authorization → Bool
is_authorized (authorized role) = true
is_authorized _ = false

abbrev pub editor_request : SwitchPreparationInput → Clients.ClientAuthorizationRequest
editor_request input = record {
  capability = some input.client.capability;
  document = input.client.document;
  session_ref = input.old_session;
  role = some Clients.editor;
}

abbrev pub is_well_formed : SwitchTarget → Bool → Bool
is_well_formed deactivation stops = stops
is_well_formed (replacement candidate) stops = true

abbrev pub bindings_for : SwitchPreparationInput → PreparationResult → ReceiptBindings
bindings_for input preparation = record {
  old_session = input.old_session;
  target = input.target;
  client = input.client;
  fence = input.fence;
  preparation = preparation;
  host = input.host;
  routes = input.routes;
  stop_old_run = input.stop_old_run;
}

abbrev pub tail_of : MintResult → Preparation
tail_of (minted receipt) = prepared receipt
tail_of MintResult.transition_already_prepared =
    refused PreparationRefusal.transition_already_prepared

unfoldable pub mint_for :
    SwitchPreparationInput → PreparationResult → ControlPlane → ControlPlane × Preparation
mint_for input preparation c =
    let (ledger, result) = mint_receipt (bindings_for input preparation) c.ledger in
    (record c { ledger = ledger }, tail_of result)

abbrev pub is_drained : FenceState → Bool
is_drained drained = true
is_drained _ = false

abbrev pub is_timed_out : FenceState → Bool
is_timed_out timed_out = true
is_timed_out terminal_after_timeout = true
is_timed_out _ = false

-- After the drain's outcome.
abbrev pub normal_tail :
    DrainReport → SwitchPreparationInput → ControlPlane → ControlPlane × Preparation
normal_tail (DrainReport.timed_out settled pending failure reason) input c =
    (c, refused drain_timed_out)
normal_tail (DrainReport.failed cause first settled failure reason) input c =
    (c, refused drain_failed)
normal_tail (DrainReport.drained settled) input c =
    if not (is_drained (c.fences input.fence).state)
    then (c, refused PreparationRefusal.fence_resumed)
    else mint_for input (normal (DrainReport.drained settled)) c

abbrev pub forced_tail :
    Option ExecutorExitView → SwitchPreparationInput → ControlPlane → ControlPlane × Preparation
forced_tail none input c = (c, incomplete_reap)
forced_tail (some exit) input c = mint_for input (forced exit) c

module _ (digest : String → String) where
  unfoldable pub client_is_authoritative : SwitchPreparationInput → ControlPlane → Bool
  client_is_authoritative input c =
      is_authorized (Clients.authorize digest (editor_request input) c.sessions.supervisor.clients)
      && edits input.old_session
          (resolve digest (some input.client.http_capability) c.http_bindings)

  unfoldable pub refuse_preparation :
      SwitchPreparationInput → ControlPlane → Option PreparationRefusal
  refuse_preparation input c =
      if not (client_is_authoritative input c)
      then some client_not_authoritative
      else if not (is_well_formed input.target input.stop_old_run)
      then some deactivation_without_stop
      else none

  abbrev pub unless_refused :
      Option PreparationRefusal
      → ControlPlane
      → ControlPlane × Preparation
      → ControlPlane × Preparation
  unless_refused (some reason) c go = (c, refused reason)
  unless_refused none c go = go

  unfoldable pub prepare_normal :
      SwitchPreparationInput
      → DrainReport
      → ControlPlane
      → ControlPlane
      → ControlPlane × Preparation
  prepare_normal input report before after =
      unless_refused (refuse_preparation input before) after (normal_tail report input after)

  unfoldable pub prepare_forced :
      SwitchPreparationInput
      → Option ExecutorExitView
      → ControlPlane
      → ControlPlane
      → ControlPlane × Preparation
  prepare_forced input exit before after = unless_refused (refuse_preparation input before) after (
      if not (is_timed_out (before.fences input.fence).state)
      then (after, refused fence_not_timed_out)
      else forced_tail exit input after)
