-- ===== src/Streams.antt =====
-- packages/runtime/sse/sse-hub.ts: the hub of server-sent event streams.
--
-- The map of live streams is the list of its entries, in the order of their admission. A stream's sink
-- is told by the streams whose connection is dead; `close` only tells the connection. The set of
-- revoked pairs is the list of pairs: the text of a pair, its epoch, a mark and its generation in
-- digits, determines it. The length of an event's frame is a parameter.
pub mod History
use astroix.Base.{
  ℕ, ◌+◌, String, Bool, true, false, not, ◌&&◌, ◌||◌, Option, none, some, List, [], ◌∷◌, ◌++◌,
  if◌then◌else◌, leb, ltb, ◌==◌, str_eq, any, remove, count,
}
use astroix.Session.{SessionRef, same_session}
use astroix.Hosts.{CapabilityHost, launcher, project}
use astroix.Bindings.{ClientRole, editor, same_role}

pub record SseStreamRecord : Type 0 where
  pub role : ClientRole
  pub host : CapabilityHost
  pub session : Option SessionRef
  pub client_capability : String

pub record LiveStream : Type 0 where
  pub id : ℕ
  pub stream : SseStreamRecord

pub data EventType : Type 0 where
  session_state invalidation diagnostic registry_changed : EventType

pub data SsePublication : Type 0 where
  session_scope : SessionRef → EventType → SsePublication
  idle : EventType → SsePublication

pub data SseAdmitRefusalReason : Type 0 where
  authoritative_cap diagnostic_cap : SseAdmitRefusalReason

pub data SseAdmission : Type 0 where
  admitted : (id : ℕ) → SseAdmission
  refused : SseAdmitRefusalReason → SseAdmission

pub data SsePublishOutcome : Type 0 where
  delivered : (streams : ℕ) → SsePublishOutcome
  stale_publication : (bytes : ℕ) → SsePublishOutcome
  oversized_event : (bytes : ℕ) → SsePublishOutcome

pub record SseHub : Type 0 where
  pub live : List LiveStream
  pub next_id : ℕ
  pub watermark : Option SessionRef
  pub revoked_pairs : List SessionRef

unfoldable pub create_sse_hub : SseHub
create_sse_hub = record { live = []; next_id = 1; watermark = none; revoked_pairs = [] }

abbrev pub session_stream_events : EventType → Bool
session_stream_events registry_changed = false
session_stream_events _ = true

abbrev pub launcher_stream_events : EventType → Bool
launcher_stream_events session_state = true
launcher_stream_events registry_changed = true
launcher_stream_events _ = false

abbrev pub same_host : CapabilityHost → CapabilityHost → Bool
same_host launcher launcher = true
same_host (project a) (project b) = str_eq a b
same_host _ _ = false

abbrev pub is_bound_at : Option SessionRef → SessionRef → Bool
is_bound_at none session = false
is_bound_at (some own) session = same_session own session

abbrev pub event_of : SsePublication → EventType
event_of (session_scope session event) = event
event_of (idle event) = event

abbrev pub addresses_session : Option SessionRef → SsePublication → Bool
addresses_session own (session_scope session event) =
    session_stream_events event && is_bound_at own session
addresses_session own (idle event) = false

unfoldable pub addresses_record : SseStreamRecord → SsePublication → Bool
addresses_record r publication =
    if same_role r.role ClientRole.launcher
    then launcher_stream_events (event_of publication)
    else addresses_session r.session publication

abbrev pub count_streams : ClientRole → List LiveStream → ℕ
count_streams role = count (λ s. same_role s.stream.role role)

abbrev pub stream_cap : ClientRole → List LiveStream → Option SseAdmitRefusalReason
stream_cap editor live = if leb 1 (count_streams editor live) then some authoritative_cap else none
stream_cap ClientRole.diagnostic live =
    if leb 3 (count_streams ClientRole.diagnostic live) then some diagnostic_cap else none
stream_cap ClientRole.launcher live = none

abbrev pub admit_under :
    Option SseAdmitRefusalReason → SseStreamRecord → SseHub → SseHub × SseAdmission
admit_under (some reason) r hub = (hub, refused reason)
admit_under none r hub = (
  record hub {
    live = hub.live ++ (record { id = hub.next_id; stream = r } ∷ []);
    next_id = hub.next_id + 1;
  },
  admitted hub.next_id,
)

-- Any stream of the same capability is superseded before the caps are tested.
unfoldable pub admit : SseStreamRecord → SseHub → SseHub × SseAdmission
admit r hub =
    let left = remove (λ s. str_eq s.stream.client_capability r.client_capability) hub.live in
    admit_under (stream_cap r.role left) r (record hub { live = left })

unfoldable pub drop_stream : ℕ → SseHub → SseHub
drop_stream id hub = record hub { live = remove (λ s. s.id == id) hub.live }

abbrev pub end_where : (SseStreamRecord → Bool) → SseHub → ℕ × SseHub
end_where p hub =
    (count (λ s. p s.stream) hub.live, record hub { live = remove (λ s. p s.stream) hub.live })

unfoldable pub end_for_host : CapabilityHost → SseHub → ℕ × SseHub
end_for_host host = end_where (λ r. same_host r.host host)

unfoldable pub end_for_session : SessionRef → SseHub → ℕ × SseHub
end_for_session session hub =
    end_where (λ r. is_bound_at r.session session)
      (record hub { revoked_pairs = session ∷ hub.revoked_pairs })

unfoldable pub end_for_binding : String → SseHub → ℕ × SseHub
end_for_binding capability = end_where (λ r. str_eq r.client_capability capability)

abbrev pub behind : Option SessionRef → SessionRef → Bool
behind none minted = false
behind (some mark) minted =
    not (str_eq minted.runtime_epoch mark.runtime_epoch) || ltb minted.generation mark.generation

abbrev pub is_stale : SessionRef → SseHub → Bool
is_stale minted hub =
    any (λ r. same_session r minted) hub.revoked_pairs || behind hub.watermark minted

-- The fan-out: a dead connection is ended and does not count.
abbrev pub deliver : (ℕ → Bool) → SsePublication → SseHub → SseHub × SsePublishOutcome
deliver dead publication hub = (
  record hub { live = remove (λ s. addresses_record s.stream publication && dead s.id) hub.live },
  delivered (count (λ s. addresses_record s.stream publication && not (dead s.id)) hub.live),
)

abbrev pub sse_event_bytes : ℕ
sse_event_bytes = 262144

module _ (byte_length : SsePublication → ℕ) where
  abbrev pub publish_fitting : (ℕ → Bool) → SsePublication → SseHub → SseHub × SsePublishOutcome
  publish_fitting dead (session_scope minted event) hub =
      if is_stale minted hub
      then (hub, stale_publication (byte_length (session_scope minted event)))
      else deliver dead (session_scope minted event) (record hub { watermark = some minted })
  publish_fitting dead (idle event) hub = deliver dead (idle event) hub

  unfoldable pub publish : (ℕ → Bool) → SsePublication → SseHub → SseHub × SsePublishOutcome
  publish dead publication hub =
      if not (leb (byte_length publication) sse_event_bytes)
      then (hub, oversized_event (byte_length publication))
      else publish_fitting dead publication hub
