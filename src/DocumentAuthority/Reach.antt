-- ===== src/DocumentAuthority/Reach.antt =====
-- The tables after any history of calls.
use astroix.Base.{
  ℕ, String, Bool, false, none, some, List, [], ◌∷◌, map, eq_refl, ◌≡◌, refl, ap, sym, ◌∙◌, subst,
  subst₂, arith, str_eq, eq_iff, remove, All, All-remove, All-weaken, remove-survivors, Bool-cases,
  Option-cases, inl, inr,
}
use astroix.Base.Dict.{get, drop_where, delete, get-All}
use astroix.Clients.{
  ClientDocument, ClientBindingRecord, SessionClientRole, editor, diagnostic, Live,
}
use astroix.Clients
use astroix.Bindings.{unbind}
use astroix.DocumentAuthority.{
  DocumentAuthorityGrant, DocumentAuthority, kill, is_of, create_document_authority, renderer_lost,
  target_destroyed, revoke,
}
use astroix.DocumentAuthority.Tables.{drop_where-map, remove-cong, remove-none, map-same}
use astroix.DocumentAuthority.Sweep.{
  Entry, http_of, client_of, Differs, AllDiffer, remove-AllDiffer, is_swept,
}
use astroix.DocumentAuthority.Lockstep.{
  AtLatest, IsLockstep, Step, binds, declares, navigates, loses, destroys, replaces, revokes,
  renderer_lost-IsLockstep, renderer_lost-IsSwept, session_replaced-IsLockstep,
  document_navigated-IsLockstep, forget-IsLockstep,
}
use astroix.DocumentAuthority.Verdict.{refuse_or_bind-IsLockstep}

target_destroyed-IsLockstep :
    (id : ℕ) (s : DocumentAuthority) → IsLockstep s → IsLockstep (target_destroyed id s)
unfolding target_destroyed renderer_lost
target_destroyed-IsLockstep id s v =
    forget-IsLockstep id (renderer_lost id s)
      (subst (All (λ e. is_of id e.1 ≡ false)) (sym (renderer_lost-IsSwept id s v).live)
        (remove-survivors (is_swept (is_of id)) s.live))
      (renderer_lost-IsLockstep id s v)

-- Beside the grant that a key finds, no other has its capability in either table.
found_keys :
    (capability : String) (es : List Entry) (g : DocumentAuthorityGrant)
    → AllDiffer es
    → get es capability ≡ some g
    → All (λ e. str_eq e.1.client_capability g.client_capability ≡ str_eq e.0 capability) es
unfolding get
found_keys capability [] g v e = cc
found_keys capability ((j, w) ∷ es) g v e = elim (Bool-cases (str_eq j capability)) [
  | inl hit ↦
      let same : w ≡ g = ground (arith, e, hit) in
      let keys : j ≡ capability = (eq_iff j capability).0 hit in
      (
        ground (arith, hit, ap (λ x. x.client_capability) same, eq_refl g.client_capability),
        All-weaken
            (λ x h.
              subst₂ (λ k u. str_eq x.1.client_capability u.client_capability ≡ str_eq x.0 k) keys
                same (h.3 ∙ sym h.1))
            es v.0,
      )
  | inr miss ↦
      let later : get es capability ≡ some g = ground (arith, e, miss) in
      (
        (get-All (Differs (j, w)) es capability g v.0 later).2 ∙ sym miss,
        found_keys capability es g v.1 later,
      )
]

abbrev has_own : String → Entry → Bool
has_own capability e = str_eq e.0 capability

kill-IsLockstep :
    (capability : String) (g : DocumentAuthorityGrant) (s : DocumentAuthority)
    → get s.live capability ≡ some g
    → IsLockstep s
    → IsLockstep (kill capability g s)
unfolding unbind Clients.revoke
kill-IsLockstep capability g s found v =
    let left : delete capability s.live ≡ remove (has_own capability) s.live =
      ap (delete capability) (sym (map-same s.live))
      ∙ drop_where-map (λ e. e) (λ j w. str_eq j capability) s.live
      ∙ map-same _ in
    record {
      http =
          ap (delete capability) v.http
          ∙ drop_where-map http_of (λ j w. str_eq j capability) s.live
          ∙ ap (map http_of) (sym left);
      clients =
          ap (drop_where (λ j w. str_eq j g.client_capability)) v.clients
          ∙ drop_where-map client_of (λ j w. str_eq j g.client_capability) s.live
          ∙ ap (map client_of) (
              remove-cong _ (has_own capability) s.live
                (found_keys capability s.live g v.differ found)
              ∙ sym left);
      differ = subst AllDiffer (sym left) (remove-AllDiffer (has_own capability) s.live v.differ);
      current =
          subst (All (AtLatest s.latest_navigation)) (sym left)
            (All-remove _ (has_own capability) s.live v.current);
    }

-- A key that finds no grant is in neither table.
absent_keys :
    (capability : String) (es : List Entry)
    → get es capability ≡ none
    → All (λ e. has_own capability e ≡ false) es
unfolding get
absent_keys capability [] e = tt
absent_keys capability ((j, w) ∷ es) e = elim (Bool-cases (str_eq j capability)) [
  | inl hit ↦ cc (rw hit at e)
  | inr miss ↦ (miss, absent_keys capability es (rw miss at e))
]

revoke-IsLockstep :
    (capability : String) (s : DocumentAuthority) → IsLockstep s → IsLockstep (revoke capability s)
unfolding revoke unbind
revoke-IsLockstep capability s v = elim (Option-cases (get s.live capability)) [
  | inl absent ↦ rw absent (record {
    http =
        ap (delete capability) v.http
        ∙ drop_where-map http_of (λ j w. str_eq j capability) s.live
        ∙ ap (map http_of)
            (remove-none (has_own capability) s.live (absent_keys capability s.live absent));
    clients = v.clients;
    differ = v.differ;
    current = v.current;
  })
  | inr (g, found) ↦ rw found (kill-IsLockstep capability g s found v)
]

pub Step-IsLockstep : {s t : DocumentAuthority} → Step s t → IsLockstep s → IsLockstep t
Step-IsLockstep (binds {s} role input minted client_minted fresh) v =
    refuse_or_bind-IsLockstep role input minted client_minted s fresh v
Step-IsLockstep (declares id) v = record {
  http = v.http;
  clients = v.clients;
  differ = v.differ;
  current = v.current;
}
Step-IsLockstep (navigates {s} d) v = document_navigated-IsLockstep d s v
Step-IsLockstep (loses {s} id) v = renderer_lost-IsLockstep id s v
Step-IsLockstep (destroys {s} id) v = target_destroyed-IsLockstep id s v
Step-IsLockstep (replaces {s} ref) v = session_replaced-IsLockstep ref s v
Step-IsLockstep (revokes {s} capability) v = revoke-IsLockstep capability s v

-- Histories of calls over two tables that start empty and that only the authority changes.
pub data Reach : DocumentAuthority → Type 0 where
  start : Reach (create_document_authority [] [])
  next : {s t : DocumentAuthority} → Reach s → Step s t → Reach t

-- After such a history both tables hold exactly the bindings of the live grants, in order, no two
-- grants share a capability or a document, and each is at the latest navigation of its target.
pub Reach-IsLockstep : {s : DocumentAuthority} → Reach s → IsLockstep s
Reach-IsLockstep start = record { http = refl; clients = refl; differ = tt; current = tt }
Reach-IsLockstep (next r step) = Step-IsLockstep step (Reach-IsLockstep r)
