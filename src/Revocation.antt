-- ===== src/Revocation.antt =====
-- packages/runtime/session-supervisor/revocation/authority-revocation.ts: the ordered revocation of an
-- outgoing session.
--
-- The entry points are the modelled operations, which do not throw; the origin lease is outside, and
-- its answer is an argument, `none` where it throws. The pass awaits between its steps: what others do
-- to the surfaces before a step is a function of the step.
pub mod Complete
use astroix.Base.{
  ℕ, ◌+◌, String, Bool, true, false, Option, none, some, List, [], ◌∷◌, if◌then◌else◌, any,
}
use astroix.Session.{SessionRef}
use astroix.Hosts.{HostGrants, project, revoke_host}
use astroix.Bindings.{HttpBindings, unbind}
use astroix.Streams.{SseHub, end_for_host, end_for_session, end_for_binding}
use astroix.Clients
use astroix.Grants
use astroix.CloseReport.{Completeness, complete, incomplete}

pub record LeaseRevocationView : Type 0 where
  pub outcome : Completeness
  pub destroyed_sockets : ℕ

pub record RevocationSurfaces : Type 0 where
  pub streams : SseHub
  pub grants : Grants.Table
  pub clients : Clients.Live
  pub http_bindings : HttpBindings
  pub host_capabilities : HostGrants

pub data RevocationStep : Type 0 where
  streams routes edit_grants client_bindings host_capability : RevocationStep

pub data RevocationStepResult : Type 0 where
  streams_ended : (ended : ℕ) → RevocationStepResult
  lease_revoked : LeaseRevocationView → RevocationStepResult
  grants_evicted : (evicted : ℕ) → RevocationStepResult
  bindings_revoked capability_revoked failed : RevocationStepResult

pub record RevocationStepOutcome : Type 0 where
  pub step : RevocationStep
  pub result : RevocationStepResult

pub record RevocationReport : Type 0 where
  pub session : SessionRef
  pub steps : List RevocationStepOutcome
  pub outcome : Completeness

pub record RevokeOldAuthorityInput : Type 0 where
  pub session : SessionRef
  pub host : String
  pub client_capability : String
  pub lease : Option LeaseRevocationView

-- Three scopes, one count.
unfoldable pub end_streams : RevokeOldAuthorityInput → SseHub → ℕ × SseHub
end_streams input hub =
    let (bound, hub1) = end_for_binding input.client_capability hub in
    let (host, hub2) = end_for_host (project input.host) hub1 in
    let (session, hub3) = end_for_session input.session hub2 in (bound + host + session, hub3)

abbrev pub lease_result : Option LeaseRevocationView → RevocationStepResult
lease_result none = failed
lease_result (some view) = lease_revoked view

unfoldable pub run_step :
    RevokeOldAuthorityInput
    → RevocationStep
    → RevocationSurfaces
    → RevocationSurfaces × RevocationStepResult
run_step input streams s =
    let (ended, hub) = end_streams input s.streams in
    (record s { streams = hub }, streams_ended ended)
run_step input routes s = (s, lease_result input.lease)
run_step input edit_grants s =
    let (evicted, table) = Grants.revoke_session input.session s.grants in
    (record s { grants = table }, grants_evicted evicted)
run_step input client_bindings s = (
  record s {
    clients = Clients.revoke_session input.session s.clients;
    http_bindings = unbind input.client_capability s.http_bindings;
  },
  bindings_revoked,
)
run_step input host_capability s = (
  record s { host_capabilities = revoke_host (project input.host) s.host_capabilities },
  capability_revoked,
)

unfoldable pub plan : List RevocationStep
plan = streams ∷ routes ∷ edit_grants ∷ client_bindings ∷ host_capability ∷ []

abbrev pub fell_short : RevocationStepResult → Bool
fell_short failed = true
fell_short (lease_revoked view) = elim view.outcome [ complete ↦ false | incomplete ↦ true ]
fell_short _ = false

abbrev pub report_of : SessionRef → List RevocationStepOutcome → RevocationReport
report_of session steps = record {
  session = session;
  steps = steps;
  outcome = if any (λ s. fell_short s.result) steps then incomplete else complete;
}

module _ (others : RevocationStep → RevocationSurfaces → RevocationSurfaces) where
  unfoldable pub run_plan :
      RevokeOldAuthorityInput
      → List RevocationStep
      → RevocationSurfaces
      → RevocationSurfaces × List RevocationStepOutcome
  run_plan input [] s = (s, [])
  run_plan input (step ∷ steps) s =
      let (done, result) = run_step input step (others step s) in
      let (after, later) = run_plan input steps done in
      (after, record { step = step; result = result } ∷ later)

  unfoldable pub revoke_old_authority :
      RevokeOldAuthorityInput → RevocationSurfaces → RevocationSurfaces × RevocationReport
  revoke_old_authority input s =
      let (after, steps) = run_plan input plan s in (after, report_of input.session steps)
