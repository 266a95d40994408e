-- ===== src/Switch/Tests.antt =====
-- A switch from one project to another, with its receipt.
use astroix.Base.{
  ℕ, String, true, false, none, some, [], ◌∷◌, ◌≡◌, ◌≢◌, ◌⊎◌, ◌==◌, if◌then◌else◌, refl, get_elem?,
}
use astroix.Session.{SessionRef, same_session}
use astroix.DrainReport.{DrainReport}
use astroix.Fence.{EditFence, create_edit_fence, fence, on_terminality, pumped, pump}
use astroix.Fence.Steps
use astroix.Bindings
use astroix.CloseReport.{complete}
use astroix.Streams.{
  SseStreamRecord, create_sse_hub, SsePublication, session_scope, invalidation, delivered, publish,
  end_for_session,
}
use astroix.Streams.History.{
  admits, publishes, ends_binding, revoked_is_silent, run_hub-IsCapped, IsCapped,
}
use astroix.Streams.History
use astroix.Clients
use astroix.Hosts.{project}
use astroix.Receipts.{
  ReceiptBindings, ReceiptLedger, LedgerEntry, create_receipt_ledger, mint_receipt, live_receipt,
  same_transition, replacement, normal, consume, lookup, already_consumed,
}
use astroix.Receipts.Spent.{mints, consumes, one_live_receipt, spent_once}
use astroix.Receipts.Spent
use astroix.Revocation.{client_bindings, revoke_old_authority, RevokeOldAuthorityInput}
use astroix.Revocation.Complete.{Abstains, Emptied, revoke_old_authority-empties}
use astroix.Supervisor.{Supervision}
use astroix.Supervisor.Attempt.{ActivationAttempt, staged, resolved}
use astroix.Switch.{
  ControlPlane, surfaces_of, SwitchPreparationInput, prepare_normal, prepared, bindings_for,
  refuse_preparation, client_is_authoritative, mint_for,
}
use astroix.Switch.Commit.{
  Meanwhile, revocation_of, commit_switch, grant, CommittedTransition, ReceiptRejection,
  guard_target,
}
use astroix.Switch.Certified.{IsCertified, prepare_normal_certifies}
use astroix.Switch.Spent.{IsSpent, commit_switch_cases, revoked_of, report_of_pass}

abbrev plain : String → String
plain s = s

abbrev old : SessionRef
old = record { runtime_epoch = "e"; generation = 1 }

abbrev new : SessionRef
new = record { runtime_epoch = "e"; generation = 2 }

abbrev page : Clients.ClientDocument
page = record { web_contents_id = 7; navigation_id = 1 }

abbrev length_of : SsePublication → ℕ
length_of p = 100

unfoldable quiet : EditFence
quiet = Steps.step create_edit_fence (Steps.fences (some []))

quiet-Reach : Steps.Reach quiet
unfolding quiet
quiet-Reach = Steps.next Steps.created (Steps.fences (some [])) tt

abbrev supervisor : Supervision
supervisor = record {
  next_generation = 3;
  active = some (record { ref = old; project_key = "blog" });
  attempt_ctx = some (record { ref = new; project_key = "shop"; committing = false });
  last_failure = none;
  clients = ("key", record { role = Clients.editor; document = page; session_ref = old }) ∷ [];
  hosts = ("project/blog", "secret") ∷ [];
  stops = [];
  frames = [];
}

abbrev candidate : ActivationAttempt
candidate = record {
  ref = new;
  phase = staged;
  readiness = resolved;
  stopping = none;
  closed = none;
}

abbrev plane : ControlPlane
plane = record {
  streams = create_sse_hub;
  grants = [];
  http_bindings =
      (
        "http",
        record {
          role = Bindings.editor;
          host = Bindings.VirtualHostClass.project;
          session_ref = some old;
        },
      )
      ∷ [];
  sessions = record {
    supervisor = supervisor;
    attempts = λ g. if g == 2 then some candidate else none;
  };
  ledger = create_receipt_ledger;
  fences = λ f. quiet;
}

abbrev input : SwitchPreparationInput
input = record {
  old_session = old;
  target = replacement new;
  client = record { document = page; capability = "key"; http_capability = "http" };
  fence = 0;
  host = "blog";
  routes = 0;
  stop_old_run = false;
}

receipt_prepared : (prepare_normal plain input (DrainReport.drained 0) plane plane).1 ≡ prepared 0
unfolding prepare_normal refuse_preparation client_is_authoritative Clients.authorize
    Clients.find_secret Clients.same_secret same_session Bindings.resolve_secret quiet Steps.step
    fence on_terminality pumped pump mint_for mint_receipt live_receipt create_receipt_ledger
receipt_prepared = refl

prepare_normal_certifies_example : IsCertified plain input plane plane
prepare_normal_certifies_example =
    prepare_normal_certifies plain input (DrainReport.drained 0) plane plane 0 quiet-Reach
      receipt_prepared

unfoldable ready : ControlPlane
ready = (prepare_normal plain input (DrainReport.drained 0) plane plane).0

abbrev bound : ReceiptBindings
bound = bindings_for input (normal (DrainReport.drained 0))

abbrev alone : Meanwhile
alone = record {
  others = λ before s. s;
  lease = some (record { outcome = complete; destroyed_sockets = 1 });
  between = λ c. c;
}

alone-Abstains : (i : RevokeOldAuthorityInput) → Abstains i alone.others
alone-Abstains i = record { keeps = λ before emptied s v. v }

commit_switch_cases_example :
    ((reason : ReceiptRejection) × (commit_switch alone 0 2 new "fresh" ready
        ≡ (ready, CommittedTransition.rejected reason)))
    ⊎ ((b : ReceiptBindings) × IsSpent (λ d. guard_target d.target new) alone 0 ready b
        × (b.target ≡ replacement new)
        × (commit_switch alone 0 2 new "fresh" ready
            ≡ grant 2 "fresh"
                (report_of_pass alone b ready)
                ((revoked_of alone b ready (consume 0 ready.ledger).0).sessions.attempts 2)
                (revoked_of alone b ready (consume 0 ready.ledger).0)))
commit_switch_cases_example =
    commit_switch_cases alone 0 2 new "fresh" ready
      (λ b held. alone-Abstains (revocation_of b alone.lease))

abbrev outgoing : RevokeOldAuthorityInput
outgoing = revocation_of bound alone.lease

revoke_old_authority-empties_example :
    Emptied outgoing client_bindings
      (revoke_old_authority alone.others outgoing (surfaces_of plane)).0
revoke_old_authority-empties_example =
    revoke_old_authority-empties alone.others outgoing (surfaces_of plane) (alone-Abstains outgoing)
      client_bindings

abbrev entry : LedgerEntry
entry = record { bindings = bound; consumed = false }

entry_held :
    get_elem? (Spent.run create_receipt_ledger (mints bound ∷ mints bound ∷ [])).entries 0
    ≡ some entry
unfolding mint_receipt live_receipt create_receipt_ledger Spent.run Spent.call same_transition
    same_session
entry_held = refl

one_live_receipt_example : ◌≡◌ {A = ℕ} 0 0
one_live_receipt_example =
    one_live_receipt (mints bound ∷ mints bound ∷ []) 0 0 entry entry entry_held entry_held refl
      refl refl

unfoldable ledger : ReceiptLedger
ledger = (mint_receipt bound create_receipt_ledger).0

ledger_spends : (consume 0 ledger).1 ≡ true
unfolding ledger consume mint_receipt live_receipt create_receipt_ledger
ledger_spends = refl

spent_once_example :
    ((consume 0 (Spent.run (consume 0 ledger).0 (mints bound ∷ consumes 0 ∷ []))).1 ≡ false)
    × (lookup 0 (Spent.run (consume 0 ledger).0 (mints bound ∷ consumes 0 ∷ [])) ≡ already_consumed)
spent_once_example = spent_once 0 ledger (mints bound ∷ consumes 0 ∷ []) ledger_spends

abbrev stream : SseStreamRecord
stream = record {
  role = Bindings.editor;
  host = project "blog";
  session = some old;
  client_capability = "http";
}

revoked_is_silent_example :
    (publish length_of
      (λ id. false)
      (session_scope old invalidation)
      (History.run length_of (end_for_session old create_sse_hub).1 (admits stream ∷ []))).1
    ≢ delivered 1
revoked_is_silent_example =
    revoked_is_silent length_of old create_sse_hub (admits stream ∷ []) (λ id. false) invalidation 1
