-- ===== src/DocumentAuthority.antt =====
-- packages/runtime/src/client-authority/document-authority.ts: the authority of documents over the two
-- tables of client bindings.
--
-- The variables of the closure are the record DocumentAuthority, with the two tables that it is given.
-- The two capabilities that a bind mints are arguments. A map from numbers is a function.
pub mod Tables
pub mod Sweep
pub mod Lockstep
pub mod Bind
pub mod Reach
pub mod Injection
pub mod Shared
pub mod Verdict
mod Tests
use astroix.Base.{
  ℕ, String, Bool, true, false, not, ◌&&◌, Option, none, some, List, [], ◌∷◌, ◌==◌, ltb,
  if◌then◌else◌, any, str_eq,
}
use astroix.Base.Dict.{get, put, delete}
use astroix.Session.{SessionRef, same_session}
use astroix.Clients.{
  ClientDocument, SessionClientRole, editor, diagnostic, ClientBindingRefusal, Live, BindResult,
}
use astroix.Clients
use astroix.Bindings.{
  ClientRole, HttpBindings, BindingRefusalReason, second_editor, bind_http, unbind,
}
use astroix.Bindings

pub data DocumentAuthorityRefusal : Type 0 where
  editor_already_bound diagnostics_full stale_document not_authoritative_target
        document_already_bound :
      DocumentAuthorityRefusal

pub record BindInput : Type 0 where
  pub document : ClientDocument
  pub session_ref : SessionRef
  pub project_key : String

-- The grant's own capability is its key in the map.
pub record DocumentAuthorityGrant : Type 0 where
  pub client_capability : String
  pub role : SessionClientRole
  pub input : BindInput

pub record DocumentAuthority : Type 0 where
  pub http_bindings : HttpBindings
  pub clients : Live
  pub live : List (String × DocumentAuthorityGrant)
  pub latest_navigation : ℕ → Option ℕ
  pub authoritative_target : Option ℕ

pub data BindOutcome : Type 0 where
  bound : (capability : String) → DocumentAuthorityGrant → BindOutcome
  refused : DocumentAuthorityRefusal → BindOutcome

abbrev pub set : ℕ → Option ℕ → (ℕ → Option ℕ) → ℕ → Option ℕ
set key new table asked = if key == asked then new else table asked

abbrev pub is_some : ℕ → Option ℕ → Bool
is_some n none = false
is_some n (some m) = m == n

abbrev pub http_role : SessionClientRole → ClientRole
http_role editor = ClientRole.editor
http_role diagnostic = ClientRole.diagnostic

abbrev pub http_refusal : BindingRefusalReason → DocumentAuthorityRefusal
http_refusal second_editor = DocumentAuthorityRefusal.editor_already_bound
http_refusal _ = DocumentAuthorityRefusal.diagnostics_full

abbrev pub client_refusal : ClientBindingRefusal → DocumentAuthorityRefusal
client_refusal ClientBindingRefusal.editor_already_bound =
    DocumentAuthorityRefusal.editor_already_bound
client_refusal ClientBindingRefusal.diagnostics_full = DocumentAuthorityRefusal.diagnostics_full

-- An editor is bound only at the declared target.
abbrev pub misses_target : SessionClientRole → BindInput → DocumentAuthority → Bool
misses_target editor input s = not (is_some input.document.web_contents_id s.authoritative_target)
misses_target diagnostic input s = false

abbrev pub is_at : ClientDocument → DocumentAuthorityGrant → Bool
is_at d g =
    g.input.document.web_contents_id == d.web_contents_id
    && g.input.document.navigation_id == d.navigation_id

abbrev pub guard :
    SessionClientRole → BindInput → DocumentAuthority → Option DocumentAuthorityRefusal
guard role input s =
    if not
      (is_some input.document.navigation_id (s.latest_navigation input.document.web_contents_id))
    then some stale_document
    else if misses_target role input s
    then some not_authoritative_target
    else if any (λ e. is_at input.document e.1) s.live
    then some document_already_bound
    else none

-- The mint into the supervisor's table, which rolls back the other one when it refuses.
abbrev pub bind_client :
    SessionClientRole
    → BindInput
    → (capability : String) → DocumentAuthority
    → Live × BindResult
    → DocumentAuthority × BindOutcome
bind_client role input capability s (clients, Clients.refused reason) = (
  record s { http_bindings = unbind capability s.http_bindings; clients = clients },
  refused (client_refusal reason),
)
bind_client role input capability s (clients, Clients.bound client_capability) =
    let grant : DocumentAuthorityGrant = record {
      client_capability = client_capability;
      role = role;
      input = input;
    } in
    (record s { clients = clients; live = put s.live capability grant }, bound capability grant)

abbrev pub bind_tables :
    SessionClientRole
    → BindInput
    → (client_minted : String) → DocumentAuthority
    → HttpBindings × Bindings.BindingResult
    → DocumentAuthority × BindOutcome
bind_tables role input client_minted s (http, Bindings.refused reason) =
    (record s { http_bindings = http }, refused (http_refusal reason))
bind_tables role input client_minted s (http, Bindings.bound capability) =
    bind_client role input capability (record s { http_bindings = http })
      (Clients.bind client_minted
        (record { role = role; document = input.document; session_ref = input.session_ref })
        s.clients)

abbrev pub bind_unless :
    Option DocumentAuthorityRefusal
    → SessionClientRole
    → BindInput
    → (minted client_minted : String) → DocumentAuthority
    → DocumentAuthority × BindOutcome
bind_unless (some reason) role input minted client_minted s = (s, refused reason)
bind_unless none role input minted client_minted s = bind_tables role input client_minted s (
    bind_http minted
      (record {
        role = http_role role;
        host = Bindings.project;
        session_ref = some input.session_ref;
      })
      s.http_bindings)

unfoldable pub refuse_or_bind :
    SessionClientRole
    → BindInput
    → (minted client_minted : String) → DocumentAuthority
    → DocumentAuthority × BindOutcome
refuse_or_bind role input minted client_minted s =
    bind_unless (guard role input s) role input minted client_minted s

-- One grant leaves all three tables.
abbrev pub kill : String → DocumentAuthorityGrant → DocumentAuthority → DocumentAuthority
kill capability g s = record s {
  live = delete capability s.live;
  http_bindings = unbind capability s.http_bindings;
  clients = Clients.revoke g.client_capability s.clients;
}

-- The loop of `sweep`, over the entries that the map had when it began.
unfoldable pub sweep_over :
    (DocumentAuthorityGrant → Bool)
    → List (String × DocumentAuthorityGrant)
    → DocumentAuthority
    → DocumentAuthority
sweep_over matches [] s = s
sweep_over matches ((capability, g) ∷ later) s =
    sweep_over matches later (if matches g then kill capability g s else s)

abbrev pub sweep : (DocumentAuthorityGrant → Bool) → DocumentAuthority → DocumentAuthority
sweep matches s = sweep_over matches s.live s

abbrev pub declare_authoritative_target : ℕ → DocumentAuthority → DocumentAuthority
declare_authoritative_target id s = record s { authoritative_target = some id }

abbrev pub is_of : ℕ → DocumentAuthorityGrant → Bool
is_of id g = g.input.document.web_contents_id == id

-- The monotonic maximum of the observations.
abbrev pub next_navigation : Option ℕ → ℕ → ℕ
next_navigation none navigation = navigation
next_navigation (some observed) navigation =
    if ltb navigation observed then observed else navigation

unfoldable pub document_navigated : ClientDocument → DocumentAuthority → DocumentAuthority
document_navigated d s =
    let id = d.web_contents_id in
    let next = next_navigation (s.latest_navigation id) d.navigation_id in
    sweep (λ g. is_of id g && not (g.input.document.navigation_id == next))
      (record s {
        latest_navigation = set id (some next) s.latest_navigation;
        clients =
            Clients.navigated (record { web_contents_id = id; navigation_id = next }) s.clients;
      })

unfoldable pub renderer_lost : ℕ → DocumentAuthority → DocumentAuthority
renderer_lost id s = sweep (is_of id) (record s { clients = Clients.renderer_lost id s.clients })

abbrev pub forget : ℕ → DocumentAuthority → DocumentAuthority
forget id s = record s {
  latest_navigation = set id none s.latest_navigation;
  authoritative_target = if is_some id s.authoritative_target then none else s.authoritative_target;
}

unfoldable pub target_destroyed : ℕ → DocumentAuthority → DocumentAuthority
target_destroyed id s =
    forget id (sweep (is_of id) (record s { clients = Clients.renderer_lost id s.clients }))

unfoldable pub session_replaced : SessionRef → DocumentAuthority → DocumentAuthority
session_replaced ref s =
    sweep (λ g. same_session g.input.session_ref ref)
      (record s { clients = Clients.revoke_session ref s.clients })

abbrev pub revoke_found :
    String → Option DocumentAuthorityGrant → DocumentAuthority → DocumentAuthority
revoke_found capability none s = record s { http_bindings = unbind capability s.http_bindings }
revoke_found capability (some g) s = kill capability g s

unfoldable pub revoke : String → DocumentAuthority → DocumentAuthority
revoke capability s = revoke_found capability (get s.live capability) s

-- The loop of `injectableCapability`.
unfoldable pub find_at : ClientDocument → List (String × DocumentAuthorityGrant) → Option String
find_at d [] = none
find_at d ((capability, g) ∷ later) = if is_at d g then some capability else find_at d later

abbrev pub injectable_at : ℕ → Option ℕ → DocumentAuthority → Option String
injectable_at id none s = none
injectable_at id (some observed) s =
    find_at (record { web_contents_id = id; navigation_id = observed }) s.live

unfoldable pub injectable_capability : ℕ → DocumentAuthority → Option String
injectable_capability id s = injectable_at id (s.latest_navigation id) s

-- Over the tables of the options, which others change too.
abbrev pub create_document_authority :
    (http_bindings : HttpBindings) (clients : Live) → DocumentAuthority
create_document_authority http_bindings clients = record {
  http_bindings = http_bindings;
  clients = clients;
  live = [];
  latest_navigation = λ id. none;
  authoritative_target = none;
}
