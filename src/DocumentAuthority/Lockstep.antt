-- ===== src/DocumentAuthority/Lockstep.antt =====
-- The two tables of client bindings are projections of the authority's grants, after any calls.
use astroix.Base.{
  ℕ, String, Bool, false, not, ◌&&◌, Option, some, List, map, ◌==◌, ◌≡◌, ap, sym, ◌∙◌, subst, arith,
  str_eq, remove, All, All-remove, All-both, All-weaken, remove-survivors,
}
use astroix.Base.Dict.{drop_where}
use astroix.Session.{SessionRef, same_session}
use astroix.Clients.{
  ClientDocument, ClientBindingRecord, SessionClientRole, editor, diagnostic, Live,
}
use astroix.Clients
use astroix.DocumentAuthority.{
  BindInput, DocumentAuthorityGrant, DocumentAuthority, is_of, set, next_navigation, forget,
  refuse_or_bind, declare_authoritative_target, document_navigated, renderer_lost, target_destroyed,
  session_replaced, revoke,
}
use astroix.DocumentAuthority.Tables.{drop_where-map}
use astroix.DocumentAuthority.Sweep.{
  Entry, http_of, client_of, AllDiffer, remove-AllDiffer, is_swept, IsSwept, sweep-IsSwept,
}

-- A grant is at its target's latest navigation.
abbrev pub AtLatest : (ℕ → Option ℕ) → Entry → Type 0
AtLatest latest e =
    latest e.1.input.document.web_contents_id ≡ some e.1.input.document.navigation_id

-- Each table is what the grants say, and each grant is at its target's latest navigation.
pub record IsLockstep (s : DocumentAuthority) : Type 0 where
  pub http : s.http_bindings ≡ map http_of s.live
  pub clients : s.clients ≡ map client_of s.live
  pub differ : AllDiffer s.live
  pub current : All (AtLatest s.latest_navigation) s.live

-- The events of the authority. What a bind mints is new in both tables.
pub record IsFresh (s : DocumentAuthority) (minted client_minted : String) : Type 0 where
  pub own : All (λ e. str_eq e.0 minted ≡ false) s.live
  pub client : All (λ e. str_eq e.1.client_capability client_minted ≡ false) s.live

pub data Step : DocumentAuthority → DocumentAuthority → Type 0 where
  binds :
      {s : DocumentAuthority} (role : SessionClientRole) (input : BindInput)
      (minted client_minted : String)
      → IsFresh s minted client_minted
      → Step s (refuse_or_bind role input minted client_minted s).0
  declares : {s : DocumentAuthority} (id : ℕ) → Step s (declare_authoritative_target id s)
  navigates : {s : DocumentAuthority} (d : ClientDocument) → Step s (document_navigated d s)
  loses : {s : DocumentAuthority} (id : ℕ) → Step s (renderer_lost id s)
  destroys : {s : DocumentAuthority} (id : ℕ) → Step s (target_destroyed id s)
  replaces : {s : DocumentAuthority} (ref : SessionRef) → Step s (session_replaced ref s)
  revokes : {s : DocumentAuthority} (capability : String) → Step s (revoke capability s)

-- The supervisor's table, after it dropped the bindings that match.
dropped_clients :
    (q : ClientBindingRecord → Bool) (s : DocumentAuthority)
    → s.clients ≡ map client_of s.live
    → drop_where (λ c r. q r) s.clients ≡ map client_of (remove (λ e. q (client_of e).1) s.live)
dropped_clients q s e =
    ap (drop_where (λ c r. q r)) e ∙ drop_where-map client_of (λ c r. q r) s.live

swept-IsLockstep :
    (matches : DocumentAuthorityGrant → Bool) (s t : DocumentAuthority)
    → IsSwept matches s t
    → AllDiffer s.live
    → All (AtLatest s.latest_navigation) (remove (is_swept matches) s.live)
    → IsLockstep t
swept-IsLockstep matches s t w differ current = record {
  http = rw w.live w.http;
  clients = rw w.live w.clients;
  differ = rw w.live (remove-AllDiffer (is_swept matches) s.live differ);
  current =
      subst (λ latest. All (AtLatest latest) t.live) (sym w.navigation)
        (subst (All (AtLatest s.latest_navigation)) (sym w.live) current);
}

pub renderer_lost-IsSwept :
    (id : ℕ) (s : DocumentAuthority)
    → IsLockstep s
    → IsSwept
        (is_of id)
        (record s { clients = Clients.renderer_lost id s.clients })
        (renderer_lost id s)
unfolding renderer_lost Clients.renderer_lost
renderer_lost-IsSwept id s v =
    sweep-IsSwept (is_of id) (record s { clients = Clients.renderer_lost id s.clients }) v.differ
      v.http (dropped_clients (λ r. r.document.web_contents_id == id) s v.clients)

pub session_replaced-IsSwept :
    (ref : SessionRef) (s : DocumentAuthority)
    → IsLockstep s
    → IsSwept
        (λ g. same_session g.input.session_ref ref)
        (record s { clients = Clients.revoke_session ref s.clients })
        (session_replaced ref s)
unfolding session_replaced Clients.revoke_session
session_replaced-IsSwept ref s v =
    sweep-IsSwept (λ g. same_session g.input.session_ref ref)
      (record s { clients = Clients.revoke_session ref s.clients }) v.differ v.http
      (dropped_clients (λ r. same_session r.session_ref ref) s v.clients)

-- The state of a navigation before its sweep, and what the sweep takes.
abbrev pub next_of : ClientDocument → DocumentAuthority → ℕ
next_of d s = next_navigation (s.latest_navigation d.web_contents_id) d.navigation_id

abbrev pub is_stale : ClientDocument → DocumentAuthority → DocumentAuthorityGrant → Bool
is_stale d s g = is_of d.web_contents_id g && not (g.input.document.navigation_id == next_of d s)

abbrev pub observed : ClientDocument → DocumentAuthority → DocumentAuthority
observed d s = record s {
  latest_navigation = set d.web_contents_id (some (next_of d s)) s.latest_navigation;
  clients =
      Clients.navigated
        (record { web_contents_id = d.web_contents_id; navigation_id = next_of d s }) s.clients;
}

pub document_navigated-IsSwept :
    (d : ClientDocument) (s : DocumentAuthority)
    → IsLockstep s
    → IsSwept (is_stale d s) (observed d s) (document_navigated d s)
unfolding document_navigated Clients.navigated
document_navigated-IsSwept d s v = sweep-IsSwept (is_stale d s) (observed d s) v.differ v.http (
    dropped_clients
      (λ r.
        r.document.web_contents_id == d.web_contents_id
        && not (r.document.navigation_id == next_of d s))
      s v.clients)

-- Where grants survive, the map of the latest navigations may change at the target.
survivors_at :
    (matches : DocumentAuthorityGrant → Bool) (old new : ℕ → Option ℕ) (es : List Entry)
    → ((e : Entry) → AtLatest old e → matches e.1 ≡ false → AtLatest new e)
    → All (AtLatest old) es
    → All (AtLatest new) (remove (is_swept matches) es)
survivors_at matches old new es keep at =
    All-weaken (λ e h. keep e h.0 h.1) (remove (is_swept matches) es)
      (All-both _ _ (remove (is_swept matches) es)
        (All-remove (AtLatest old) (is_swept matches) es at)
        (remove-survivors (is_swept matches) es))

pub renderer_lost-IsLockstep :
    (id : ℕ) (s : DocumentAuthority) → IsLockstep s → IsLockstep (renderer_lost id s)
renderer_lost-IsLockstep id s v =
    swept-IsLockstep (is_of id) (record s { clients = Clients.renderer_lost id s.clients })
      (renderer_lost id s) (renderer_lost-IsSwept id s v) v.differ
      (All-remove _ (is_swept (is_of id)) s.live v.current)

pub session_replaced-IsLockstep :
    (ref : SessionRef) (s : DocumentAuthority) → IsLockstep s → IsLockstep (session_replaced ref s)
session_replaced-IsLockstep ref s v =
    swept-IsLockstep _ (record s { clients = Clients.revoke_session ref s.clients })
      (session_replaced ref s) (session_replaced-IsSwept ref s v) v.differ
      (All-remove _ (is_swept (λ g. same_session g.input.session_ref ref)) s.live v.current)

pub document_navigated-IsLockstep :
    (d : ClientDocument) (s : DocumentAuthority)
    → IsLockstep s
    → IsLockstep (document_navigated d s)
document_navigated-IsLockstep d s v =
    swept-IsLockstep (is_stale d s) (observed d s) (document_navigated d s)
      (document_navigated-IsSwept d s v) v.differ
      (survivors_at (is_stale d s) s.latest_navigation (observed d s).latest_navigation s.live
        (λ e old kept. ground (arith, old, kept)) v.current)

pub forget-IsLockstep :
    (id : ℕ) (s : DocumentAuthority)
    → All (λ e. is_of id e.1 ≡ false) s.live
    → IsLockstep s
    → IsLockstep (forget id s)
forget-IsLockstep id s gone v = record {
  http = v.http;
  clients = v.clients;
  differ = v.differ;
  current =
      All-weaken (λ e h. ground (arith, h.0, h.1)) s.live (All-both _ _ s.live v.current gone);
}
