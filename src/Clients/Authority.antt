-- ===== src/Clients/Authority.antt =====
-- Who is authorized: exactly the live binding that the capability finds, at its own document,
-- session and role; and what each revocation ends.
use astroix.Base.{
  ℕ, String, ◌≡◌, ◌≢◌, ◌↔◌, refl, ap, false, Option, none, some, [], ◌∷◌, arith, str_eq, eq_iff,
  eq_refl, Bool-cases, Option-cases, ◌∙◌, inl, inr, All-Memᴰ, Memᴰ,
}
use astroix.Base.Dict.{survivors, put}
use astroix.Session.{SessionRef, same_session_iff}
use astroix.Clients.{
  ClientDocument, SessionClientRole, editor, diagnostic, ClientBindingRecord,
  ClientAuthorizationRequest, Live, authorized, lacks_role, judge, judge_found, same_secret,
  find_secret, find_live, authorize, navigated, renderer_lost, revoke_session, bind, bound,
  own_request, capacity, MenuActionEnvelope, accepted, execute_menu_action,
}

-- The role demanded: an editor may act where a diagnostic may, never the other way round.
abbrev pub Permits : Option SessionClientRole → SessionClientRole → Type 0
Permits (some editor) diagnostic = ⊥
Permits _ _ = Unit {0}

pub record Fits (q : ClientAuthorizationRequest) (r : ClientBindingRecord) : Type 0 where
  pub document : r.document ≡ q.document
  pub session_ref : r.session_ref ≡ q.session_ref
  pub permits : Permits q.role r.role

document_eq :
    (a b : ClientDocument)
    → a.web_contents_id ≡ b.web_contents_id
    → a.navigation_id ≡ b.navigation_id
    → a ≡ b
document_eq a b p q = cc

lacks_role_iff :
    (q : Option SessionClientRole) (r : SessionClientRole) → (lacks_role q r ≡ false) ↔ Permits q r
lacks_role_iff (some editor) diagnostic = ((λ e. cc), λ h. absurd h)
lacks_role_iff (some editor) editor = ((λ e. tt), λ h. refl)
lacks_role_iff (some diagnostic) diagnostic = ((λ e. tt), λ h. refl)
lacks_role_iff _ _ = ((λ e. tt), λ h. refl)

own_role : (r : SessionClientRole) → Permits (some r) r
own_role editor = tt
own_role diagnostic = tt

judge_sound :
    (q : ClientAuthorizationRequest) (r : ClientBindingRecord) (role : SessionClientRole)
    → judge q r ≡ authorized role
    → (r.role ≡ role) × Fits q r
judge_sound q r role e = (
  ground arith,
  record {
    document = document_eq _ _ (ground arith) (ground arith);
    session_ref = (same_session_iff _ _).0 (ground arith);
    permits = (lacks_role_iff _ _).0 (ground arith);
  },
)

judge_complete :
    (q : ClientAuthorizationRequest) (r : ClientBindingRecord)
    → Fits q r
    → judge q r ≡ authorized r.role
judge_complete q r f =
    let session = (same_session_iff r.session_ref q.session_ref).1 f.session_ref in
    let role = (lacks_role_iff q.role r.role).1 f.permits in
    ground (
      arith,
      session,
      role,
      ap ClientDocument.web_contents_id f.document,
      ap ClientDocument.navigation_id f.document,
    )

module _ (digest : String → String) where
  -- The binding behind an authorization: live, found by the digest of its capability, and exactly
  -- at the document, the session and the role of the request.
  pub record IsHolder (q : ClientAuthorizationRequest) (live : Live) (role : SessionClientRole)
      : Type 0 where
    pub presented : String
    pub capability : String
    pub binding : ClientBindingRecord
    pub shown : q.capability ≡ some presented
    pub secret : digest presented ≡ digest capability
    pub listed : Memᴰ (capability, binding) live
    pub same_role : binding.role ≡ role
    pub fits : Fits q binding

  find_secret-Memᴰ :
      (presented : String) (live : Live) (c : String) (r : ClientBindingRecord)
      → find_secret digest presented live ≡ some (c, r)
      → Memᴰ (c, r) live × (digest presented ≡ digest c)
  unfolding find_secret same_secret
  find_secret-Memᴰ presented [] c r e = cc
  find_secret-Memᴰ presented ((d, s) ∷ live) c r e =
      elim (Bool-cases (str_eq (digest presented) (digest d))) [
        | inl hit ↦ (Memᴰ.head (ground arith), (eq_iff _ _).0 (ground arith))
        | inr miss ↦
            let (listed, secret) = find_secret-Memᴰ presented live c r (ground arith) in
            (Memᴰ.tail listed, secret)
      ]

  find_live-cases :
      (presented : Option String) (live : Live) (c : String) (r : ClientBindingRecord)
      → find_live digest presented live ≡ some (c, r)
      → (p : String) × (presented ≡ some p) × Memᴰ (c, r) live × (digest p ≡ digest c)
  find_live-cases none live c r e = cc
  find_live-cases (some p) live c r e =
      let (listed, secret) = find_secret-Memᴰ p live c r (ground arith) in (p, refl, listed, secret)

  judge_found_sound :
      (q : ClientAuthorizationRequest) (found : Option (String × ClientBindingRecord))
      (role : SessionClientRole)
      → judge_found digest q found ≡ authorized role
      → (c : String) × (r : ClientBindingRecord) × (found ≡ some (c, r))
        × (r.role ≡ role)
        × Fits q r
  judge_found_sound q none role e = cc
  judge_found_sound q (some (c, r)) role e =
      let (same, fits) = judge_sound q r role e in (c, r, refl, same, fits)

  -- A presented capability is authorized only as the role of a live binding that holds it, at the
  -- same document and session, and never as an editor if that binding is a diagnostic.
  pub authorize_sound :
      (q : ClientAuthorizationRequest) (live : Live) (role : SessionClientRole)
      → authorize digest q live ≡ authorized role
      → IsHolder q live role
  unfolding authorize
  authorize_sound q live role e =
      let (c, r, found, same, fits) =
        judge_found_sound q (find_live digest q.capability live) role e in
      let (p, shown, listed, secret) = find_live-cases q.capability live c r found in
      record {
        presented = p;
        capability = c;
        binding = r;
        shown = shown;
        secret = secret;
        listed = listed;
        same_role = same;
        fits = fits;
      }

  find_secret-put :
      (minted : String) (input : ClientBindingRecord) (live : Live)
      → find_secret digest minted live ≡ none
      → find_secret digest minted (put live minted input) ≡ some (minted, input)
  unfolding find_secret same_secret put
  find_secret-put minted input [] fresh = rw (eq_refl (digest minted))
  find_secret-put minted input ((c, r) ∷ live) fresh =
      let other : str_eq (digest minted) (digest c) ≡ false = ground arith in
      let apart : c ≢ minted = λ e. cc (other, ap digest e, eq_refl (digest minted)) in
      ground (arith, eq_iff c minted, find_secret-put minted input live (ground arith))

  authorize-put :
      (minted : String) (input : ClientBindingRecord) (live : Live)
      → minted ≢ ""
      → find_secret digest minted live ≡ none
      → authorize digest (own_request minted input) (put live minted input) ≡ authorized input.role
  unfolding authorize
  authorize-put minted input live named fresh =
      let found = find_secret-put minted input live fresh in
      let own =
        judge_complete (own_request minted input) input
          (record { document = refl; session_ref = refl; permits = own_role input.role }) in
      ground (arith, eq_iff minted "", found, own)

  -- A binding that was just installed authorizes the requests of its own document and session that
  -- present its capability, if that is not empty and no binding with its digest was live.
  pub authorize-bind :
      (minted : String) (input : ClientBindingRecord) (live : Live)
      → minted ≢ ""
      → find_secret digest minted live ≡ none
      → (bind minted input live).1 ≡ bound minted
      → authorize digest (own_request minted input) (bind minted input live).0
        ≡ authorized input.role
  unfolding bind
  authorize-bind minted input live named fresh ok = elim (Option-cases (capacity input.role live)) [
    | inl free ↦ rw (free, bind) (authorize-put minted input live named fresh)
    | inr (reason, full) ↦ cc (rw (full, bind) at ok)
  ]

module _ (digest : String → String) where
  -- After a navigation of a renderer only its new document is authorized among its documents.
  pub navigated-authorize :
      (d : ClientDocument) (q : ClientAuthorizationRequest) (live : Live) (role : SessionClientRole)
      → q.document.web_contents_id ≡ d.web_contents_id
      → authorize digest q (navigated d live) ≡ authorized role
      → q.document ≡ d
  unfolding navigated
  navigated-authorize d q live role same e =
      let h = authorize_sound digest q (navigated d live) role e in
      let kept = All-Memᴰ _ (navigated d live) (survivors _ live) h.listed in
      let at = h.fits.document in
      document_eq _ _ same (
        ground
          (arith, kept, ap ClientDocument.web_contents_id at, ap ClientDocument.navigation_id at))

  -- A request that is authorized after the loss of a renderer comes from another renderer.
  pub renderer_lost-authorize :
      (id : ℕ) (q : ClientAuthorizationRequest) (live : Live) (role : SessionClientRole)
      → authorize digest q (renderer_lost id live) ≡ authorized role
      → q.document.web_contents_id ≢ id
  unfolding renderer_lost
  renderer_lost-authorize id q live role e same =
      let h = authorize_sound digest q (renderer_lost id live) role e in
      let kept = All-Memᴰ _ (renderer_lost id live) (survivors _ live) h.listed in
      ground (arith, kept, ap ClientDocument.web_contents_id h.fits.document)

  -- A request that is authorized after the revocation of a session is of another session.
  pub revoke_session-authorize :
      (s : SessionRef) (q : ClientAuthorizationRequest) (live : Live) (role : SessionClientRole)
      → authorize digest q (revoke_session s live) ≡ authorized role
      → q.session_ref ≢ s
  unfolding revoke_session
  revoke_session-authorize s q live role e same =
      let h = authorize_sound digest q (revoke_session s live) role e in
      let kept = All-Memᴰ _ (revoke_session s live) (survivors _ live) h.listed in
      cc (kept, (same_session_iff h.binding.session_ref s).1 (h.fits.session_ref ∙ same))

-- A menu action runs in a session exactly when that session is the active one and the one that the
-- action captured.
pub execute_menu_action_iff :
    (m : MenuActionEnvelope) (current : Option SessionRef) (s : SessionRef)
    → (execute_menu_action m current ≡ accepted s) ↔ ((current ≡ some s) × (m.session_ref ≡ s))
unfolding execute_menu_action
execute_menu_action_iff m none s = ((λ e. cc), λ h. cc (h.0))
execute_menu_action_iff m (some c) s = ground (arith, same_session_iff m.session_ref c)
