-- ===== src/Clients.antt =====
-- packages/runtime/session-supervisor/clients/session-clients.ts: the registry of client bindings,
-- with the comparator of packages/runtime/api/http/secret-compare.ts, and menu-actions.ts beside it.
--
-- The `live` map of the closure is the state. The digest of node:crypto is a parameter, and the
-- capability that `randomBytes` mints is an argument of `bind`.
pub mod Authority
pub mod Caps
pub mod Tests
use astroix.Base.{
  ℕ, String, Bool, true, false, not, Option, none, some, List, [], ◌∷◌, ◌&&◌, ◌==◌, leb,
  if◌then◌else◌, str_eq,
}
use astroix.Base.Dict.{put, drop_where, count_if}
use astroix.Session.{SessionRef, same_session}

pub record ClientDocument : Type 0 where
  pub web_contents_id : ℕ
  pub navigation_id : ℕ

pub data SessionClientRole : Type 0 where
  editor diagnostic : SessionClientRole

pub data ClientBindingRefusal : Type 0 where
  editor_already_bound diagnostics_full : ClientBindingRefusal

pub data ClientRejectionReason : Type 0 where
  no_binding wrong_document stale_navigation stale_session wrong_role : ClientRejectionReason

pub record ClientBindingRecord : Type 0 where
  pub role : SessionClientRole
  pub document : ClientDocument
  pub session_ref : SessionRef

pub record ClientAuthorizationRequest : Type 0 where
  pub capability : Option String
  pub document : ClientDocument
  pub session_ref : SessionRef
  pub role : Option SessionClientRole

abbrev pub Live : Type 0
Live = List (String × ClientBindingRecord)

pub data BindResult : Type 0 where
  bound : (capability : String) → BindResult
  refused : ClientBindingRefusal → BindResult

pub data Authorization : Type 0 where
  authorized : SessionClientRole → Authorization
  rejected : ClientRejectionReason → Authorization

abbrev pub is_editor : SessionClientRole → Bool
is_editor editor = true
is_editor diagnostic = false

-- The one walk of `countByRole`.
unfoldable pub editors : Live → ℕ
editors = count_if (λ r. is_editor r.role)

unfoldable pub diagnostics : Live → ℕ
diagnostics = count_if (λ r. not (is_editor r.role))

abbrev pub capacity : SessionClientRole → Live → Option ClientBindingRefusal
capacity editor live = if leb 1 (editors live) then some editor_already_bound else none
capacity diagnostic live = if leb 3 (diagnostics live) then some diagnostics_full else none

abbrev pub install :
    Option ClientBindingRefusal → String → ClientBindingRecord → Live → Live × BindResult
install (some reason) minted record_ live = (live, refused reason)
install none minted record_ live = (put live minted record_, bound minted)

unfoldable pub bind : String → ClientBindingRecord → Live → Live × BindResult
bind minted input live = install (capacity input.role live) minted input live

unfoldable pub navigated : ClientDocument → Live → Live
navigated document = drop_where (λ _ r.
    r.document.web_contents_id == document.web_contents_id
    && not (r.document.navigation_id == document.navigation_id))

unfoldable pub renderer_lost : ℕ → Live → Live
renderer_lost id = drop_where (λ _ r. r.document.web_contents_id == id)

unfoldable pub revoke_session : SessionRef → Live → Live
revoke_session ref = drop_where (λ _ r. same_session r.session_ref ref)

unfoldable pub revoke : String → Live → Live
revoke capability = drop_where (λ c _. str_eq c capability)

-- The role requirement is a minimum: only a demand for the editor can fail.
abbrev pub lacks_role : Option SessionClientRole → SessionClientRole → Bool
lacks_role (some editor) diagnostic = true
lacks_role _ _ = false

abbrev pub judge : ClientAuthorizationRequest → ClientBindingRecord → Authorization
judge q r =
    if not (r.document.web_contents_id == q.document.web_contents_id)
    then Authorization.rejected wrong_document
    else if not (r.document.navigation_id == q.document.navigation_id)
    then Authorization.rejected stale_navigation
    else if not (same_session r.session_ref q.session_ref)
    then Authorization.rejected ClientRejectionReason.stale_session
    else if lacks_role q.role r.role
    then Authorization.rejected wrong_role
    else authorized r.role

module _ (digest : String → String) where
  unfoldable pub same_secret : String → String → Bool
  same_secret presented expected = str_eq (digest presented) (digest expected)

  -- The loop of `findLive`.
  unfoldable pub find_secret : String → Live → Option (String × ClientBindingRecord)
  find_secret presented [] = none
  find_secret presented ((capability, r) ∷ live) =
      if same_secret presented capability then some (capability, r) else find_secret presented live

  abbrev pub find_live : Option String → Live → Option (String × ClientBindingRecord)
  find_live none live = none
  find_live (some presented) live = if str_eq presented "" then none else find_secret presented live

  abbrev pub judge_found :
      ClientAuthorizationRequest → Option (String × ClientBindingRecord) → Authorization
  judge_found q none = Authorization.rejected no_binding
  judge_found q (some (_, r)) = judge q r

  unfoldable pub authorize : ClientAuthorizationRequest → Live → Authorization
  authorize q live = judge_found q (find_live q.capability live)

-- The request that a binding's own document makes with its capability.
abbrev pub own_request : String → ClientBindingRecord → ClientAuthorizationRequest
own_request capability r = record {
  capability = some capability;
  document = r.document;
  session_ref = r.session_ref;
  role = some r.role;
}

-- menu-actions.ts.
pub record MenuActionEnvelope : Type 0 where
  pub session_ref : SessionRef
  pub action : String

pub data MenuActionRejection : Type 0 where
  no_active_session stale_session : MenuActionRejection

pub data MenuActionResult : Type 0 where
  accepted : SessionRef → MenuActionResult
  rejected : MenuActionRejection → MenuActionResult

abbrev pub capture_menu_action : SessionRef → String → MenuActionEnvelope
capture_menu_action ref action = record { session_ref = ref; action = action }

unfoldable pub execute_menu_action : MenuActionEnvelope → Option SessionRef → MenuActionResult
execute_menu_action envelope none = MenuActionResult.rejected no_active_session
execute_menu_action envelope (some current) =
    if not (same_session envelope.session_ref current)
    then MenuActionResult.rejected MenuActionRejection.stale_session
    else accepted current
