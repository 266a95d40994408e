-- ===== src/WriteLoop.antt =====
-- packages/app-shell/src/editor/edit-drain/write-loop-state.ts: the state of the browser's write
-- loop, and the classification of a settled write.
--
-- An error is told by its class; the code of an envelope is `none` where it is undefined.
pub mod History
pub mod Tests
use astroix.Base.{
  ℕ, String, Bool, true, false, not, ◌&&◌, Option, none, some, List, [], ◌∷◌, ltb, ◌==◌, str_eq,
  any, if◌then◌else◌,
}
use astroix.Grants.Vocabulary.{ResourceGrant}

pub data WritePhase : Type 0 where
  idle pending committed rejected irreversible_postcommit refresh_required : WritePhase

pub record WriteLoopState : Type 0 where
  pub phase : WritePhase
  pub seq : ℕ
  pub revision : Option ℕ
  pub code : Option String
  pub conflict_sha256 : Option String

abbrev pub idle_write : WriteLoopState
idle_write = record { phase = idle; seq = 0; revision = none; code = none; conflict_sha256 = none }

pub data WriteLoopEvent : Type 0 where
  submits : (seq : ℕ) → WriteLoopEvent
  commits : (seq revision : ℕ) → WriteLoopEvent
  doubts : (seq : ℕ) → WriteLoopEvent
  rejects : (seq : ℕ) (code : String) → WriteLoopEvent
  conflicts : (seq : ℕ) (current_sha256 : String) → WriteLoopEvent
  refresh_begins : (seq : ℕ) → WriteLoopEvent
  refresh_lands : (seq : ℕ) → WriteLoopEvent
  resets : WriteLoopEvent

abbrev pub is_idle : WritePhase → Bool
is_idle idle = true
is_idle _ = false

abbrev pub is_pending : WritePhase → Bool
is_pending pending = true
is_pending _ = false

abbrev pub has_landed : WritePhase → Bool
has_landed committed = true
has_landed irreversible_postcommit = true
has_landed _ = false

abbrev pub is_refreshing : WritePhase → Bool
is_refreshing refresh_required = true
is_refreshing _ = false

abbrev pub pending_state : ℕ → WriteLoopState
pending_state seq = record {
  phase = pending;
  seq = seq;
  revision = none;
  code = none;
  conflict_sha256 = none;
}

abbrev pub committed_state : ℕ → ℕ → WriteLoopState
committed_state seq revision = record (pending_state seq) {
  phase = committed;
  revision = some revision;
}

abbrev pub uncertain_state : ℕ → WriteLoopState
uncertain_state seq = record (pending_state seq) { phase = irreversible_postcommit }

abbrev pub rejected_state : ℕ → String → WriteLoopState
rejected_state seq code = record (pending_state seq) { phase = rejected; code = some code }

abbrev pub conflict_state : ℕ → String → WriteLoopState
conflict_state seq current = record (pending_state seq) {
  phase = rejected;
  code = some "revision-conflict";
  conflict_sha256 = some current;
}

-- An event of the live dispatch: the state that it leads to from its own phases.
abbrev pub settle_live : Bool → WriteLoopState → WriteLoopState → WriteLoopState
settle_live legal target state = if legal then target else state

-- The law of stale settlements, for the dispatch of the event.
abbrev pub live : ℕ → WriteLoopState → WriteLoopState → WriteLoopState
live seq target state = if not (seq == state.seq) then state else target

unfoldable pub reduce_write : WriteLoopState → WriteLoopEvent → WriteLoopState
reduce_write state resets = idle_write
reduce_write state (submits seq) =
    if is_idle state.phase && ltb state.seq seq then pending_state seq else state
reduce_write state (refresh_begins seq) =
    live seq
      (settle_live (has_landed state.phase) (record state { phase = refresh_required }) state) state
reduce_write state (refresh_lands seq) =
    live seq (settle_live (is_refreshing state.phase) idle_write state) state
reduce_write state (commits seq revision) =
    live seq (settle_live (is_pending state.phase) (committed_state seq revision) state) state
reduce_write state (doubts seq) =
    live seq (settle_live (is_pending state.phase) (uncertain_state seq) state) state
reduce_write state (rejects seq code) =
    live seq (settle_live (is_pending state.phase) (rejected_state seq code) state) state
reduce_write state (conflicts seq current) =
    live seq (settle_live (is_pending state.phase) (conflict_state seq current) state) state

pub data SettleClassification : Type 0 where
  committed_as : (revision : ℕ) (next_grant : Option ResourceGrant) → SettleClassification
  rejected_as : (code : String) → SettleClassification
  conflicting : (code current_sha256 : String) → SettleClassification
  uncertain : (code : String) → SettleClassification

pub record Envelope : Type 0 where
  pub code : Option String
  pub current_sha256 : Option String

pub data Outcome : Type 0 where
  landed : (revision : ℕ) (next_grant : Option ResourceGrant) → Outcome
  stale_session_result transport_failed aborted other_error : Outcome
  answered : Option Envelope → Outcome

abbrev pub refusal_codes : List String
refusal_codes =
    "grant-rejected" ∷ "stale-session" ∷ "unauthorized" ∷ "malformed-request" ∷ "resource-not-found"
    ∷ "concurrent-activation" ∷ "unsupported-protocol-version" ∷ "payload-too-large" ∷ []

abbrev pub classify_conflict : String → Option String → SettleClassification
classify_conflict code none = rejected_as code
classify_conflict code (some current) = conflicting code current

abbrev pub classify_code : Option String → Option String → SettleClassification
classify_code none current = uncertain "internal-error"
classify_code (some code) current =
    if str_eq code "revision-conflict"
    then classify_conflict code current
    else if any (str_eq code) refusal_codes
    then rejected_as code
    else uncertain code

unfoldable pub classify_settle : Outcome → SettleClassification
classify_settle (landed revision next_grant) = committed_as revision next_grant
classify_settle stale_session_result = uncertain "stale-response"
classify_settle transport_failed = uncertain "transport"
classify_settle (answered none) = uncertain "internal-error"
classify_settle (answered (some envelope)) = classify_code envelope.code envelope.current_sha256
classify_settle aborted = uncertain "aborted"
classify_settle other_error = uncertain "unknown"
