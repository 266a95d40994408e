-- ===== src/Supervisor/Tests.antt =====
-- A supervisor that commits one project and starts the next.
use astroix.Base.{String, ◌≡◌, ◌≢◌, ◌⊎◌, refl, true, none, some, arith}
use astroix.Session.{SessionRef, same_session}
use astroix.Hosts.{project, verify_host, mint, current, capability_key, revoke_host}
use astroix.Clients.{
  ClientBindingRecord, editor, authorize, authorized, own_request, bind, editors, diagnostics,
  same_secret, find_secret, revoke_session,
}
use astroix.Base.Dict.{count_if, put, get, drop_where}
use astroix.Clients.Caps.{binds, call}
use astroix.Supervisor.{
  AttemptContext, begin, root_has_plane, create_session_supervisor, notify, snapshot,
  commit_candidate, swap, retire_outgoing, retire_active, attempt_ended,
}
use astroix.Supervisor.Attempt.{
  ActivationAttempt, Sessions, staged, resolved, commit, done, refused, begin_session, assign,
  ready_resolved, linearized, cancel, end_attempt,
}
use astroix.Supervisor.Invariant.{IsSupervised}
use astroix.Supervisor.Linearized.{commit_refusal}
use astroix.Supervisor.Reach.{Reach-IsSupervised}
use astroix.Supervisor.Spec.{planes, Move}
use astroix.Supervisor.Refines.{step_refines}
use astroix.Supervisor.Authority.{
  gone_is_unauthorized, IsGone, IsCommitted, commit_cases, Later, now, after,
}
use astroix.Supervisor.Steps.{
  begins, ready_resolves, commits, cancels, calls_clients, deactivates, step, create_sessions,
  Reach, created, next,
}

abbrev plain : String → String
plain s = s

abbrev first : SessionRef
first = record { runtime_epoch = "e"; generation = 1 }

abbrev author : ClientBindingRecord
author = record {
  role = editor;
  document = record { web_contents_id = 7; navigation_id = 1 };
  session_ref = first;
}

unfoldable at_ready : Sessions
at_ready = step "e" (step "e" create_sessions (begins "blog")) (ready_resolves 1)

at_ready-Reach : Reach "e" at_ready
unfolding at_ready step begin_session begin root_has_plane create_session_supervisor assign
    ready_resolved notify snapshot
at_ready-Reach = next (next created (begins "blog") tt tt) (ready_resolves 1) refl tt

abbrev ready_first : ActivationAttempt
ready_first = record {
  ref = first;
  phase = staged;
  readiness = resolved;
  stopping = none;
  closed = none;
}

at_first : at_ready.attempts 1 ≡ some ready_first
unfolding at_ready step begin_session begin root_has_plane create_session_supervisor assign
    ready_resolved notify snapshot
at_first = refl

commit_cases_example :
    ((c : AttemptContext) × (ready_first.phase ≡ staged)
      × (at_ready.supervisor.attempt_ctx ≡ some c)
      × ((commit 1 "secret" ready_first at_ready).1 ≡ done)
      × IsCommitted "secret" ready_first c (commit 1 "secret" ready_first at_ready).0)
    ⊎ ((ready_first.phase ≢ staged)
        × (commit 1 "secret" ready_first at_ready
            ≡ (at_ready, refused (commit_refusal ready_first.phase))))
commit_cases_example = commit_cases "e" "secret" 1 ready_first at_ready-Reach at_first

-- The first project is active and has an editor.
unfoldable active_first : Sessions
active_first =
    step "e" (step "e" at_ready (commits 1 "secret")) (calls_clients (binds "key" author))

active_first-Reach : Reach "e" active_first
unfolding at_ready active_first step begin_session begin root_has_plane create_session_supervisor
    assign ready_resolved notify snapshot commit commit_candidate swap retire_outgoing retire_active
    mint linearized call bind editors diagnostics count_if put capability_key same_session cancel
    end_attempt attempt_ended revoke_session drop_where revoke_host verify_host current get
    same_secret find_secret authorize
active_first-Reach =
    next (next at_ready-Reach (commits 1 "secret") refl tt) (calls_clients (binds "key" author)) tt
      refl

Reach-IsSupervised_example : IsSupervised "e" active_first
Reach-IsSupervised_example = Reach-IsSupervised "e" active_first-Reach

first_authorized :
    authorize plain (own_request "key" author) active_first.supervisor.clients ≡ authorized editor
unfolding at_ready active_first step begin_session begin root_has_plane create_session_supervisor
    assign ready_resolved notify snapshot commit commit_candidate swap retire_outgoing retire_active
    mint linearized call bind editors diagnostics count_if put capability_key same_session cancel
    end_attempt attempt_ended revoke_session drop_where revoke_host verify_host current get
    same_secret find_secret authorize
first_authorized = refl

first_verified :
    verify_host plain (some "secret") (project "blog") active_first.supervisor.hosts ≡ true
unfolding at_ready active_first step begin_session begin root_has_plane create_session_supervisor
    assign ready_resolved notify snapshot commit commit_candidate swap retire_outgoing retire_active
    mint linearized call bind editors diagnostics count_if put capability_key same_session cancel
    end_attempt attempt_ended revoke_session drop_where revoke_host verify_host current get
    same_secret find_secret authorize
first_verified = refl

step_refines_example :
    Move "e" deactivates
      (planes active_first.supervisor)
      (planes (step "e" active_first deactivates).supervisor)
step_refines_example = step_refines "e" active_first-Reach deactivates tt

-- A first attempt is cancelled; a second project becomes active and has an editor.
unfoldable cancelled_first : Sessions
cancelled_first = step "e" at_ready (cancels 1)

cancelled_first-Reach : Reach "e" cancelled_first
unfolding at_ready cancelled_first step begin_session begin root_has_plane create_session_supervisor
    assign ready_resolved notify snapshot commit commit_candidate swap retire_outgoing retire_active
    mint linearized call bind editors diagnostics count_if put capability_key same_session cancel
    end_attempt attempt_ended revoke_session drop_where revoke_host verify_host current get
    same_secret find_secret authorize
cancelled_first-Reach = next at_ready-Reach (cancels 1) tt tt

first-IsGone : IsGone 1 (planes cancelled_first.supervisor)
unfolding at_ready cancelled_first step begin_session begin root_has_plane create_session_supervisor
    assign ready_resolved notify snapshot commit commit_candidate swap retire_outgoing retire_active
    mint linearized call bind editors diagnostics count_if put capability_key same_session cancel
    end_attempt attempt_ended revoke_session drop_where revoke_host verify_host current get
    same_secret find_secret authorize
first-IsGone = record { drawn = omega arith; inactive = λ h. h; unattempted = λ h. h }

abbrev other_author : ClientBindingRecord
other_author = record {
  role = editor;
  document = record { web_contents_id = 7; navigation_id = 2 };
  session_ref = record { runtime_epoch = "e"; generation = 2 };
}

unfoldable with_second : Sessions
with_second =
    step "e" (step "e" cancelled_first (begins "shop")) (calls_clients (binds "k2" other_author))

with_second-Later : Later "e" cancelled_first with_second
unfolding at_ready cancelled_first with_second step begin_session begin root_has_plane
    create_session_supervisor assign ready_resolved notify snapshot commit commit_candidate swap
    retire_outgoing retire_active mint linearized call bind editors diagnostics count_if put
    capability_key same_session cancel end_attempt attempt_ended revoke_session drop_where
    revoke_host verify_host current get same_secret find_secret authorize
with_second-Later =
    after (after now (begins "shop") tt tt) (calls_clients (binds "k2" other_author)) tt refl

second_authorized :
    authorize plain (own_request "k2" other_author) with_second.supervisor.clients
    ≡ authorized editor
unfolding at_ready cancelled_first with_second step begin_session begin root_has_plane
    create_session_supervisor assign ready_resolved notify snapshot commit commit_candidate swap
    retire_outgoing retire_active mint linearized call bind editors diagnostics count_if put
    capability_key same_session cancel end_attempt attempt_ended revoke_session drop_where
    revoke_host verify_host current get same_secret find_secret authorize
second_authorized = refl

gone_is_unauthorized_example : (own_request "k2" other_author).session_ref.generation ≢ 1
gone_is_unauthorized_example =
    gone_is_unauthorized plain "e" 1 (own_request "k2" other_author) editor cancelled_first-Reach
      first-IsGone with_second-Later second_authorized
