-- ===== src/Clients/Tests.antt =====
-- Runs of the registry, and the theorems at them. The digest is the identity.
use astroix.Base.{String, ◌≡◌, ◌≢◌, refl, some, none, [], eq_iff, arith}
use astroix.Base.Dict.{put, drop_where, count_if}
use astroix.Session.{SessionRef, same_session}
use astroix.Clients.{
  ClientDocument, editor, diagnostic, ClientBindingRecord, ClientAuthorizationRequest,
  ClientRejectionReason, wrong_role, Live, Authorization, authorized, refused, bound,
  editor_already_bound, own_request, editors, diagnostics, bind, navigated, renderer_lost,
  revoke_session, revoke, same_secret, find_secret, authorize,
}
use astroix.Clients.Authority.{IsHolder, authorize_sound}
use astroix.Clients.Caps.{run, call}

abbrev plain : String → String
plain s = s

abbrev now : SessionRef
now = record { runtime_epoch = "e"; generation = 2 }

abbrev page : ClientDocument
page = record { web_contents_id = 7; navigation_id = 1 }

abbrev author : ClientBindingRecord
author = record { role = editor; document = page; session_ref = now }

abbrev viewer : ClientBindingRecord
viewer = record { role = diagnostic; document = page; session_ref = now }

registry : Live
unfolding bind put editors diagnostics count_if authorize find_secret same_secret same_session
    navigated renderer_lost revoke_session revoke drop_where run call
registry = (bind "k2" viewer (bind "k1" author []).0).0

abbrev upgrade : ClientAuthorizationRequest
upgrade = record { capability = some "k2"; document = page; session_ref = now; role = some editor }

registry_tests :
    ((bind "k3" author registry).1 ≡ refused editor_already_bound)
    × (authorize plain (own_request "k1" author) registry ≡ authorized editor)
    × (authorize plain upgrade registry ≡ Authorization.rejected wrong_role)
    × (revoke "k1" (revoke "k2" registry) ≡ [])
    × (authorize plain (own_request "k1" author) (revoke_session now registry)
        ≡ Authorization.rejected ClientRejectionReason.no_binding)
unfolding registry
registry_tests = (refl, refl, refl, refl, refl)

author_authorized : authorize plain (own_request "k1" author) registry ≡ authorized editor
unfolding registry
author_authorized = refl

authorize_sound_example : IsHolder plain (own_request "k1" author) registry editor
authorize_sound_example =
    authorize_sound plain (own_request "k1" author) registry editor author_authorized

k3_fresh : find_secret plain "k3" registry ≡ none
unfolding registry
k3_fresh = refl

k3_bound : (bind "k3" viewer registry).1 ≡ bound "k3"
unfolding registry
k3_bound = refl

k3-ne-empty : ◌≢◌ {A = String} "k3" ""
k3-ne-empty = ground (arith, eq_iff "k3" "")

abbrev before : SessionRef
before = record { runtime_epoch = "e"; generation = 1 }
