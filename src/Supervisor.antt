-- ===== src/Supervisor.antt =====
-- packages/runtime/session-supervisor/staging/session-supervisor.ts: the supervisor of sessions.
--
-- The variables of the closure are the record Supervision, with the client registry and the host
-- capabilities that it is given. A run is named by the generation that it was started for, so the
-- comparison of entries by identity is the comparison of their references. A listener only observes:
-- `frames` are the snapshots it was called with, the latest first. `stops` are the generations whose
-- run was told to stop, the latest first. The capability that a mint draws is an argument.

pub mod Attempt
pub mod Attempts
pub mod Sound
pub mod Swap
pub mod Shared
pub mod Steps
pub mod Invariant
pub mod Linearized
pub mod Begun
pub mod Reach
pub mod Spec
pub mod Refines
pub mod Authority
pub mod Tests
use astroix.Base.{
  ℕ, ◌+◌, String, Bool, true, false, not, Option, none, some, List, [], ◌∷◌, ◌||◌, if◌then◌else◌,
  str_eq, ◌==◌,
}
use astroix.Session.{
  SessionRef, same_session, FailureCategory, crash, RollbackReason, rollback_failure_category,
}
use astroix.CloseReport.{SupervisionCloseReport, SupervisionStopReason, startup_timeout}
use astroix.Hosts.{HostGrants, project, mint, revoke_host}
use astroix.Clients
use astroix.Clients.{revoke_session}

pub record ActiveEntry : Type 0 where
  pub ref : SessionRef
  pub project_key : String

pub record AttemptContext : Type 0 where
  pub ref : SessionRef
  pub project_key : String
  pub committing : Bool

pub data AttemptState : Type 0 where
  starting committing : AttemptState

pub record AttemptSnapshot : Type 0 where
  pub ref : SessionRef
  pub project_key : String
  pub state : AttemptState

-- An active session is shown as `ready`, the one state it has.
pub record SessionSnapshot : Type 0 where
  pub active : Option ActiveEntry
  pub attempt : Option AttemptSnapshot
  pub last_failure : Option FailureCategory

pub record Supervision : Type 0 where
  pub next_generation : ℕ
  pub active : Option ActiveEntry
  pub attempt_ctx : Option AttemptContext
  pub last_failure : Option FailureCategory
  pub clients : Clients.Live
  pub hosts : HostGrants
  pub stops : List ℕ
  pub frames : List SessionSnapshot

abbrev pub shown_attempt : Option AttemptContext → Option AttemptSnapshot
shown_attempt none = none
shown_attempt (some ctx) = some (record {
  ref = ctx.ref;
  project_key = ctx.project_key;
  state = if ctx.committing then AttemptState.committing else AttemptState.starting;
})

unfoldable pub snapshot : Supervision → SessionSnapshot
snapshot s = record {
  active = s.active;
  attempt = shown_attempt s.attempt_ctx;
  last_failure = s.last_failure;
}

unfoldable pub notify : Supervision → Supervision
notify s = record s { frames = snapshot s ∷ s.frames }

unfoldable pub retire_active : ActiveEntry → Supervision → Supervision
retire_active entry s = record s {
  clients = revoke_session entry.ref s.clients;
  hosts = revoke_host (project entry.project_key) s.hosts;
}

-- What a commit does to the session that it replaces.
unfoldable pub retire_outgoing : Option ActiveEntry → Supervision → Supervision
retire_outgoing none s = s
retire_outgoing (some outgoing) s =
    let retired = retire_active outgoing s in
    record retired { stops = outgoing.ref.generation ∷ retired.stops }

-- The swap of authority, once the context is the caller's.
unfoldable pub swap : String → AttemptContext → Supervision → Supervision
swap minted ctx s =
    let shown = notify (record s { attempt_ctx = some (record ctx { committing = true }) }) in
    let alone = retire_outgoing shown.active (record shown { attempt_ctx = none }) in
    notify (record alone {
      active = some (record { ref = ctx.ref; project_key = ctx.project_key });
      hosts = mint minted (project ctx.project_key) alone.hosts;
    })

abbrev pub commit_context :
    Option AttemptContext → SessionRef → String → Supervision → Supervision × Bool
commit_context none ref minted s = (s, false)
commit_context (some ctx) ref minted s =
    if not (same_session ctx.ref ref) then (s, false) else (swap minted ctx s, true)

unfoldable pub commit_candidate : SessionRef → String → Supervision → Supervision × Bool
commit_candidate ref minted s = commit_context s.attempt_ctx ref minted s

-- How an attempt ended without a commit.
pub data AttemptEnd : Type 0 where
  failed : FailureCategory → AttemptEnd
  rolled_back : RollbackReason → AttemptEnd
  cancelled : AttemptEnd

-- The failure that an end records, or else the one that was recorded before.
abbrev pub or_before : Option FailureCategory → Option FailureCategory → Option FailureCategory
or_before none before = before
or_before (some category) before = some category

abbrev pub failure_after : AttemptEnd → Option FailureCategory → Option FailureCategory
failure_after (failed category) before = some category
failure_after (rolled_back reason) before = or_before (rollback_failure_category reason) before
failure_after cancelled before = before

abbrev pub end_context : Option AttemptContext → AttemptEnd → Supervision → Supervision
end_context none end s = s
end_context (some ctx) end s = notify (record s {
  attempt_ctx = none;
  clients = revoke_session ctx.ref s.clients;
  last_failure = failure_after end s.last_failure;
})

unfoldable pub attempt_ended : AttemptEnd → Supervision → Supervision
attempt_ended end s = end_context s.attempt_ctx end s

-- The close of a run, or `none` where its observation was rejected.
abbrev pub crash_category : Option SupervisionStopReason → FailureCategory
crash_category (some startup_timeout) = FailureCategory.startup_timeout
crash_category _ = crash

abbrev pub crash_active : Option ActiveEntry → ℕ → FailureCategory → Supervision → Supervision
crash_active none generation category s = s
crash_active (some entry) generation category s =
    if not (entry.ref.generation == generation)
    then s
    else notify
        (record (retire_active entry (record s { active = none })) { last_failure = some category })

unfoldable pub crashed : ℕ → FailureCategory → Supervision → Supervision
crashed generation category s = crash_active s.active generation category s

abbrev pub active_on : Option ActiveEntry → String → Bool
active_on none key = false
active_on (some entry) key = str_eq entry.project_key key

abbrev pub attempt_on : Option AttemptContext → String → Bool
attempt_on none key = false
attempt_on (some ctx) key = str_eq ctx.project_key key

unfoldable pub root_has_plane : String → Supervision → Bool
root_has_plane key s = active_on s.active key || attempt_on s.attempt_ctx key

pub data BeginRefusalReason : Type 0 where
  concurrent_activation same_root_active : BeginRefusalReason

pub data BeginActivationResult : Type 0 where
  begun : SessionRef → BeginActivationResult
  refused : BeginRefusalReason → BeginActivationResult

pub data RevokeResult : Type 0 where
  revoked : SessionRef → RevokeResult
  no_active_session : RevokeResult

abbrev pub revoke_active : Option ActiveEntry → Supervision → Supervision × RevokeResult
revoke_active none s = (s, no_active_session)
revoke_active (some entry) s =
    (notify (retire_active entry (record s { active = none })), revoked entry.ref)

unfoldable pub revoke_deactivated : Supervision → Supervision × RevokeResult
revoke_deactivated s = revoke_active s.active s

module _ (runtime_epoch : String) where
  abbrev pub reserved : Supervision → SessionRef
  reserved s = record { runtime_epoch = runtime_epoch; generation = s.next_generation }

  abbrev pub begin_free :
      Option AttemptContext → String → Supervision → Supervision × BeginActivationResult
  begin_free (some ctx) key s = (s, refused concurrent_activation)
  begin_free none key s = (
    notify (record s {
      next_generation = s.next_generation + 1;
      attempt_ctx = some (record { ref = reserved s; project_key = key; committing = false });
    }),
    begun (reserved s),
  )

  unfoldable pub begin : String → Supervision → Supervision × BeginActivationResult
  begin key s =
      if root_has_plane key s then (s, refused same_root_active) else begin_free s.attempt_ctx key s

-- A supervisor over the tables that the composition gives it.
unfoldable pub create_session_supervisor : Clients.Live → HostGrants → Supervision
create_session_supervisor clients hosts = record {
  next_generation = 1;
  active = none;
  attempt_ctx = none;
  last_failure = none;
  clients = clients;
  hosts = hosts;
  stops = [];
  frames = [];
}
