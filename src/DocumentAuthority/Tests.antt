-- ===== src/DocumentAuthority/Tests.antt =====
-- Runs of the authority of documents.
use astroix.Base.{true, false, none, some, [], ◌∷◌, ◌≡◌, ◌⊎◌, refl, All}
use astroix.Base.Dict.{put, drop_where, count_if}
use astroix.Session.{SessionRef, same_session}
use astroix.Clients.{ClientDocument, editor, diagnostic}
use astroix.Clients
use astroix.Bindings.{bind_http, count_role, ClientRole, HttpBindings}
use astroix.Bindings
use astroix.DocumentAuthority.{
  BindInput, DocumentAuthority, bound, refused, DocumentAuthorityRefusal, refuse_or_bind,
  document_navigated, declare_authoritative_target, session_replaced, sweep_over,
  injectable_capability, find_at, create_document_authority,
}
use astroix.DocumentAuthority.Bind.{granted}
use astroix.DocumentAuthority.Shared.{IsBound, IsRevoked, refuse_or_bind_cases, replaced_is_gone}

abbrev session : SessionRef
session = record { runtime_epoch = "epoch"; generation = 1 }

abbrev window : ClientDocument
window = record { web_contents_id = 4; navigation_id = 7 }

abbrev input : BindInput
input = record { document = window; session_ref = session; project_key = "shop" }

-- What another part has bound in the table of the HTTP side.
abbrev shared : HttpBindings
shared =
    (
      "launcher-cap",
      record { role = ClientRole.launcher; host = Bindings.launcher; session_ref = none },
    )
    ∷ []

abbrev opened : DocumentAuthority
opened =
    declare_authoritative_target 4 (document_navigated window (create_document_authority shared []))

abbrev editing : DocumentAuthority
editing = (refuse_or_bind editor input "http-cap" "client-cap" opened).0

abbrev injected : injectable_capability 4 editing ≡ some "http-cap"
unfolding injectable_capability refuse_or_bind bind_http Clients.bind document_navigated sweep_over
    find_at put count_role Clients.editors count_if Clients.navigated drop_where
injected = refl

refuse_or_bind_cases_example :
    (((refuse_or_bind editor input "http-cap" "client-cap" opened).1
        ≡ bound "http-cap" (granted editor input "client-cap"))
      × (opened.latest_navigation 4 ≡ some 7)
      × IsBound editor input "http-cap" "client-cap"
          (refuse_or_bind editor input "http-cap" "client-cap" opened).0)
    ⊎ ((reason : DocumentAuthorityRefusal) × (refuse_or_bind editor input "http-cap" "client-cap"
            opened
          ≡ (opened, refused reason)))
unfolding document_navigated sweep_over
refuse_or_bind_cases_example =
    refuse_or_bind_cases editor input "http-cap" "client-cap" opened (refl, tt)

replaced_is_gone_example :
    All
      (λ e.
        same_session e.1.input.session_ref session ≡ true
        → IsRevoked (session_replaced session editing) e)
      editing.live
    × All
        (λ e. same_session e.1.session_ref session ≡ false)
        (session_replaced session editing).clients
replaced_is_gone_example = replaced_is_gone session editing

second_editor_refused :
    (refuse_or_bind editor input "b" "b" editing).1
    ≡ refused DocumentAuthorityRefusal.document_already_bound
unfolding refuse_or_bind bind_http Clients.bind document_navigated sweep_over put count_role
    Clients.editors count_if Clients.navigated drop_where
second_editor_refused = refl
