-- ===== src/DocumentAuthority/Shared.antt =====
-- What calls of the authority do to the two tables, whatever others put into these.
use astroix.Base.{
  String, Bool, true, false, some, List, [], ◌∷◌, ◌≡◌, ◌⊎◌, inl, inr, str_eq, eq_refl, if_true,
  if_false, sym, ◌∙◌, ap, subst, All, Bool-cases, Option-cases,
}
use astroix.Base.Dict.{get, put, get-put, Misses, survivors, All-drop_where}
use astroix.Session.{SessionRef, same_session}
use astroix.Clients.{SessionClientRole, ClientBindingRecord}
use astroix.Clients
use astroix.Bindings.{over_cap, unbind}
use astroix.DocumentAuthority.{
  BindInput, DocumentAuthority, DocumentAuthorityGrant, DocumentAuthorityRefusal, bound, refused,
  guard, http_role, kill, sweep_over, refuse_or_bind, session_replaced,
}
use astroix.DocumentAuthority.Bind.{
  http_input, client_input, granted, guarded, http_full, client_full, accepted, guard_current,
}

-- No entry has the key.
abbrev pub Absent : {V : Type 0} → String → List (String × V) → Type 0
Absent key table = All (λ e. str_eq e.0 key ≡ false) table

-- A grant is in none of the three tables.
abbrev pub IsRevoked : DocumentAuthority → String × DocumentAuthorityGrant → Type 0
IsRevoked s e =
    Absent e.0 s.live × Absent e.0 s.http_bindings × Absent e.1.client_capability s.clients

-- The document and the binding are in all three.
pub record IsBound (role : SessionClientRole) (input : BindInput) (minted client_minted : String)
    (s : DocumentAuthority) : Type 0 where
  pub live : get s.live minted ≡ some (granted role input client_minted)
  pub http : get s.http_bindings minted ≡ some (http_input role input)
  pub client : get s.clients client_minted ≡ some (client_input role input)

module _ (matches : DocumentAuthorityGrant → Bool) where
  kill-keeps :
      (capability : String) (g : DocumentAuthorityGrant) (e : String × DocumentAuthorityGrant)
      (s : DocumentAuthority)
      → IsRevoked s e
      → IsRevoked (kill capability g s) e
  unfolding unbind Clients.revoke
  kill-keeps capability g e s h = (
    All-drop_where _ _ s.live h.0,
    All-drop_where _ _ s.http_bindings h.1,
    All-drop_where _ _ s.clients h.2,
  )

  kill-revokes :
      (e : String × DocumentAuthorityGrant) (s : DocumentAuthority) → IsRevoked (kill e.0 e.1 s) e
  unfolding unbind Clients.revoke
  kill-revokes e s = (survivors _ s.live, survivors _ s.http_bindings, survivors _ s.clients)

  swept_hit :
      (capability : String) (g : DocumentAuthorityGrant)
      (es : List (String × DocumentAuthorityGrant)) (s : DocumentAuthority)
      → matches g ≡ true
      → sweep_over matches es (kill capability g s) ≡ sweep_over matches ((capability, g) ∷ es) s
  unfolding sweep_over
  swept_hit capability g es s hit =
      ap (sweep_over matches es) (sym (if_true (kill capability g s) s hit))

  swept_miss :
      (capability : String) (g : DocumentAuthorityGrant)
      (es : List (String × DocumentAuthorityGrant)) (s : DocumentAuthority)
      → matches g ≡ false
      → sweep_over matches es s ≡ sweep_over matches ((capability, g) ∷ es) s
  unfolding sweep_over
  swept_miss capability g es s miss =
      ap (sweep_over matches es) (sym (if_false (kill capability g s) s miss))

  -- What every kill keeps a sweep keeps.
  sweep_over-keeps :
      (Q : DocumentAuthority → Type 0)
      → ((capability : String) (g : DocumentAuthorityGrant) (s : DocumentAuthority)
          → Q s
          → Q (kill capability g s))
      → (es : List (String × DocumentAuthorityGrant)) (s : DocumentAuthority) → Q s
      → Q (sweep_over matches es s)
  unfolding sweep_over
  sweep_over-keeps Q keeps [] s h = h
  sweep_over-keeps Q keeps ((capability, g) ∷ es) s h = elim (Bool-cases (matches g)) [
    | inl hit ↦
        subst Q (swept_hit capability g es s hit)
          (sweep_over-keeps Q keeps es (kill capability g s) (keeps capability g s h))
    | inr miss ↦ subst Q (swept_miss capability g es s miss) (sweep_over-keeps Q keeps es s h)
  ]

  abbrev RevokesAll : DocumentAuthority → List (String × DocumentAuthorityGrant) → Type 0
  RevokesAll s es = All (λ e. matches e.1 ≡ true → IsRevoked s e) es

  sweep_over-revokes :
      (es : List (String × DocumentAuthorityGrant)) (s : DocumentAuthority)
      → RevokesAll (sweep_over matches es s) es
  sweep_over-revokes [] s = tt
  sweep_over-revokes ((capability, g) ∷ es) s = elim (Bool-cases (matches g)) [
    | inl hit ↦
        let own =
          sweep_over-keeps (λ t. IsRevoked t (capability, g))
            (λ c w t. kill-keeps c w (capability, g) t) es (kill capability g s)
            (kill-revokes (capability, g) s) in
        subst (λ t. RevokesAll t ((capability, g) ∷ es)) (swept_hit capability g es s hit)
          ((λ h. own), sweep_over-revokes es (kill capability g s))
    | inr miss ↦
        subst (λ t. RevokesAll t ((capability, g) ∷ es)) (swept_miss capability g es s miss)
          ((λ h. cc (h, miss)), sweep_over-revokes es s)
  ]

  sweep_over-clients :
      (P : String × ClientBindingRecord → Type 0) (es : List (String × DocumentAuthorityGrant))
      (s : DocumentAuthority)
      → All P s.clients
      → All P (sweep_over matches es s).clients
  unfolding Clients.revoke
  sweep_over-clients P =
      sweep_over-keeps (λ t. All P t.clients) (λ c g t h. All-drop_where P _ t.clients h)

-- Whatever the two tables hold, once a session is replaced every grant of it that was live is
-- neither live nor in the HTTP table by its capability nor in the registry of the supervisor by
-- its client capability, and that registry has no binding of the session.
pub replaced_is_gone :
    (ref : SessionRef) (s : DocumentAuthority)
    → All
        (λ e. same_session e.1.input.session_ref ref ≡ true → IsRevoked (session_replaced ref s) e)
        s.live
      × All (λ e. same_session e.1.session_ref ref ≡ false) (session_replaced ref s).clients
unfolding session_replaced Clients.revoke_session
replaced_is_gone ref s =
    let of_session = λ (g : DocumentAuthorityGrant). same_session g.input.session_ref ref in
    let left : DocumentAuthority = record s { clients = Clients.revoke_session ref s.clients } in
    (
      sweep_over-revokes of_session s.live left,
      sweep_over-clients of_session _ s.live left (survivors _ s.clients),
    )

get-put_own :
    {V : Type 0} (table : List (String × V)) (key : String) (v : V)
    → get (put table key v) key ≡ some v
get-put_own table key v = get-put table key v key ∙ if_true _ _ (eq_refl key)

-- Whatever the two tables hold, where the minted capability is new to the HTTP table, a bind
-- either answers the grant, for a document at the latest navigation of its target, and then the
-- grant is live and both tables hold its binding, or it is refused and changes nothing, also where
-- only the second table refuses.
pub refuse_or_bind_cases :
    (role : SessionClientRole) (input : BindInput) (minted client_minted : String)
    (s : DocumentAuthority)
    → Misses minted s.http_bindings
    → (((refuse_or_bind role input minted client_minted s).1
          ≡ bound minted (granted role input client_minted))
        × (s.latest_navigation input.document.web_contents_id ≡ some input.document.navigation_id)
        × IsBound role input minted client_minted
            (refuse_or_bind role input minted client_minted s).0)
      ⊎ ((reason : DocumentAuthorityRefusal) × (refuse_or_bind role input minted client_minted s
            ≡ (s, refused reason)))
refuse_or_bind_cases role input minted client_minted s fresh =
    elim (Option-cases (guard role input s)) [
      | inr (why, e) ↦ inr (_, guarded role input minted client_minted s why e)
      | inl passes ↦ elim (Option-cases (over_cap (http_role role) s.http_bindings)) [
        | inr (why, full) ↦ inr (_, http_full role input minted client_minted s why passes full)
        | inl free ↦ elim (Option-cases (Clients.capacity role s.clients)) [
          | inr (why, full) ↦
              inr (_, client_full role input minted client_minted s why passes free full fresh)
          | inl room ↦
              let e = accepted role input minted client_minted s passes free room in
              inl (
                ap (λ r. r.1) e,
                guard_current role input s passes,
                subst (λ r. IsBound role input minted client_minted r.0) (sym e)
                    (record {
                      live = get-put_own s.live minted _;
                      http = get-put_own s.http_bindings minted _;
                      client = get-put_own s.clients client_minted _;
                    }),
              )
        ]
      ]
    ]
