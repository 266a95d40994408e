-- ===== src/DocumentAuthority/Bind.antt =====
-- What a bind of a document does on each branch.
use astroix.Base.{
  ℕ, String, true, false, not, Option, none, some, List, [], ◌∷◌, ◌++◌, map, ==_iff, ◌≡◌, refl, ap,
  sym, ◌∙◌, subst, arith, str_eq, eq_iff, any, All, All-append, All-both, All-weaken, Bool-cases,
  inl, inr,
}
use astroix.Base.Dict.{put, delete, Misses, count_if}
use astroix.Clients.{
  ClientDocument, ClientBindingRecord, SessionClientRole, editor, diagnostic, Live,
  ClientBindingRefusal, is_editor,
}
use astroix.Clients
use astroix.Bindings.{
  ClientBinding, HttpBindings, unbind, BindingRefusalReason, over_cap, bind_http, count_role,
  same_role, ClientRole, second_editor, fourth_diagnostic,
}
use astroix.Bindings
use astroix.DocumentAuthority.{
  BindInput, DocumentAuthorityGrant, DocumentAuthority, http_role, DocumentAuthorityRefusal,
  BindOutcome, bound, refused, guard, http_refusal, client_refusal, is_some, is_at, refuse_or_bind,
}
use astroix.DocumentAuthority.Tables.{
  map-append, put-fresh, delete-fresh, Misses-map, map-same, count_if-map, count-cong,
}
use astroix.DocumentAuthority.Sweep.{Entry, http_of, client_of, Differs, AllDiffer}
use astroix.DocumentAuthority.Lockstep.{AtLatest, IsLockstep, IsFresh}

abbrev pub http_input : SessionClientRole → BindInput → ClientBinding
http_input role input = record {
  role = http_role role;
  host = Bindings.project;
  session_ref = some input.session_ref;
}

abbrev pub client_input : SessionClientRole → BindInput → ClientBindingRecord
client_input role input = record {
  role = role;
  document = input.document;
  session_ref = input.session_ref;
}

abbrev pub granted : SessionClientRole → BindInput → String → DocumentAuthorityGrant
granted role input client_minted = record {
  client_capability = client_minted;
  role = role;
  input = input;
}

-- The state after a bind that succeeds.
abbrev pub joined :
    SessionClientRole
    → BindInput
    → (minted client_minted : String) → DocumentAuthority
    → DocumentAuthority
joined role input minted client_minted s = record s {
  http_bindings = put s.http_bindings minted (http_input role input);
  clients = put s.clients client_minted (client_input role input);
  live = put s.live minted (granted role input client_minted);
}

module _ (role : SessionClientRole) (input : BindInput) (minted client_minted : String)
    (s : DocumentAuthority) where
  abbrev rolled_back : HttpBindings → ClientBindingRefusal → DocumentAuthority × BindOutcome
  rolled_back http reason = (record s { http_bindings = http }, refused (client_refusal reason))

  abbrev after : DocumentAuthority × BindOutcome
  after = refuse_or_bind role input minted client_minted s

  pub guarded :
      (reason : DocumentAuthorityRefusal)
      → guard role input s ≡ some reason
      → after ≡ (s, refused reason)
  unfolding refuse_or_bind
  guarded reason e = rw e refl

  pub http_full :
      (reason : BindingRefusalReason)
      → guard role input s ≡ none
      → over_cap (http_role role) s.http_bindings ≡ some reason
      → after ≡ (s, refused (http_refusal reason))
  unfolding refuse_or_bind bind_http
  http_full reason e full = rw e (rw full refl)

  -- The roll back of the HTTP table.
  pub client_full :
      (reason : ClientBindingRefusal)
      → guard role input s ≡ none
      → over_cap (http_role role) s.http_bindings ≡ none
      → Clients.capacity role s.clients ≡ some reason
      → Misses minted s.http_bindings
      → after ≡ (s, refused (client_refusal reason))
  unfolding refuse_or_bind bind_http Clients.bind unbind
  client_full reason e free full fresh =
      let back : unbind minted (put s.http_bindings minted (http_input role input))
          ≡ s.http_bindings =
        ap (delete minted) (put-fresh s.http_bindings minted (http_input role input) fresh)
        ∙ delete-fresh s.http_bindings minted (http_input role input) fresh in
      rw e (rw free (rw full (ap (λ http. rolled_back http reason) back)))

  pub accepted :
      guard role input s ≡ none
      → over_cap (http_role role) s.http_bindings ≡ none
      → Clients.capacity role s.clients ≡ none
      → after ≡ (
        joined role input minted client_minted s,
        bound minted (granted role input client_minted),
      )
  unfolding refuse_or_bind bind_http Clients.bind
  accepted e free room = rw e (rw free (rw room refl))

is_some-eq : (n : ℕ) (o : Option ℕ) → is_some n o ≡ true → o ≡ some n
is_some-eq n none e = cc
is_some-eq n (some m) e = ap some ((==_iff m n).0 e)

-- The document of a bind that the guard lets pass is current, and no grant is at it.
pub guard_current :
    (role : SessionClientRole) (input : BindInput) (s : DocumentAuthority)
    → guard role input s ≡ none
    → s.latest_navigation input.document.web_contents_id ≡ some input.document.navigation_id
guard_current role input s e =
    elim (Bool-cases
      (is_some input.document.navigation_id (s.latest_navigation input.document.web_contents_id))) [
        | inl here ↦
            is_some-eq input.document.navigation_id
              (s.latest_navigation input.document.web_contents_id) here
        | inr stale ↦ cc (rw stale at e)
      ]

none_at :
    (d : ClientDocument) (es : List Entry)
    → any (λ e. is_at d e.1) es ≡ false
    → All (λ e. is_at d e.1 ≡ false) es
none_at d [] e = tt
none_at d (x ∷ es) e = elim (Bool-cases (is_at d x.1)) [
  | inl hit ↦ cc (rw hit at e)
  | inr miss ↦ (miss, none_at d es (rw miss at e))
]

guard_alone :
    (role : SessionClientRole) (input : BindInput) (s : DocumentAuthority)
    → guard role input s ≡ none
    → any (λ e. is_at input.document e.1) s.live ≡ false
guard_alone role input s e = ground (arith, e)

append-AllDiffer :
    (es : List Entry) (new : Entry)
    → All (λ e. Differs e new) es
    → AllDiffer es
    → AllDiffer (es ++ (new ∷ []))
append-AllDiffer [] new h v = (tt, tt)
append-AllDiffer (e ∷ es) new h v =
    (All-append (Differs e) es (new ∷ []) (v.0, (h.0, tt)), append-AllDiffer es new h.1 v.1)

str_eq-flip : (a b : String) → str_eq a b ≡ false → str_eq b a ≡ false
str_eq-flip a b e = ground (arith, e, eq_iff a b, eq_iff b a)

fresh-Differs :
    (e : Entry) (input : BindInput) (role : SessionClientRole) (minted client_minted : String)
    → str_eq e.0 minted ≡ false
    → str_eq e.1.client_capability client_minted ≡ false
    → is_at input.document e.1 ≡ false
    → Differs e (minted, granted role input client_minted)
fresh-Differs e input role minted client_minted own client away = (
  own,
  str_eq-flip e.0 minted own,
  client,
  str_eq-flip e.1.client_capability client_minted client,
  ground (arith, away),
)

as_editor :
    (role : SessionClientRole) → same_role (http_role role) ClientRole.editor ≡ is_editor role
as_editor editor = refl
as_editor diagnostic = refl

as_diagnostic :
    (role : SessionClientRole)
    → same_role (http_role role) ClientRole.diagnostic ≡ not (is_editor role)
as_diagnostic editor = refl
as_diagnostic diagnostic = refl

-- In lockstep both tables hold as many clients of a role.
editors_agree :
    (s : DocumentAuthority)
    → IsLockstep s
    → count_role ClientRole.editor s.http_bindings ≡ Clients.editors s.clients
unfolding count_role Clients.editors
editors_agree s v =
    ap (count_if _) v.http
    ∙ count_if-map http_of _ s.live
    ∙ count-cong _ _ s.live (λ e. as_editor e.1.role)
    ∙ sym (ap (count_if _) v.clients ∙ count_if-map client_of _ s.live)

diagnostics_agree :
    (s : DocumentAuthority)
    → IsLockstep s
    → count_role ClientRole.diagnostic s.http_bindings ≡ Clients.diagnostics s.clients
unfolding count_role Clients.diagnostics
diagnostics_agree s v =
    ap (count_if _) v.http
    ∙ count_if-map http_of _ s.live
    ∙ count-cong _ _ s.live (λ e. as_diagnostic e.1.role)
    ∙ sym (ap (count_if _) v.clients ∙ count_if-map client_of _ s.live)

-- In lockstep the two tables refuse for the same reason.
abbrev pub http_reason : Option ClientBindingRefusal → Option BindingRefusalReason
http_reason none = none
http_reason (some ClientBindingRefusal.editor_already_bound) = some second_editor
http_reason (some ClientBindingRefusal.diagnostics_full) = some fourth_diagnostic

pub caps_agree :
    (role : SessionClientRole) (s : DocumentAuthority)
    → IsLockstep s
    → over_cap (http_role role) s.http_bindings ≡ http_reason (Clients.capacity role s.clients)
caps_agree editor s v = rw (editors_agree s v) (ground arith)
caps_agree diagnostic s v = rw (diagnostics_agree s v) (ground arith)

pub joined-IsLockstep :
    (role : SessionClientRole) (input : BindInput) (minted client_minted : String)
    (s : DocumentAuthority)
    → IsFresh s minted client_minted
    → guard role input s ≡ none
    → IsLockstep s
    → IsLockstep (joined role input minted client_minted s)
joined-IsLockstep role input minted client_minted s fresh passes v =
    let new : Entry = (minted, granted role input client_minted) in
    let live : put s.live minted (granted role input client_minted) ≡ s.live ++ (new ∷ []) =
      put-fresh s.live minted (granted role input client_minted)
        (subst (Misses minted) (map-same s.live) (Misses-map (λ e. e) minted s.live fresh.own)) in
    record {
      http =
          ap (λ t. put t minted (http_input role input)) v.http
          ∙ put-fresh (map http_of s.live) minted (http_input role input)
              (Misses-map http_of minted s.live fresh.own)
          ∙ sym (map-append http_of s.live (new ∷ []))
          ∙ ap (map http_of) (sym live);
      clients =
          ap (λ t. put t client_minted (client_input role input)) v.clients
          ∙ put-fresh (map client_of s.live) client_minted (client_input role input)
              (Misses-map client_of client_minted s.live fresh.client)
          ∙ sym (map-append client_of s.live (new ∷ []))
          ∙ ap (map client_of) (sym live);
      differ = subst AllDiffer (sym live) (
          append-AllDiffer s.live new
            (All-weaken (λ e h. fresh-Differs e input role minted client_minted h.0.0 h.0.1 h.1)
              s.live
              (All-both _ _ s.live (All-both _ _ s.live fresh.own fresh.client)
                (none_at input.document s.live (guard_alone role input s passes))))
            v.differ);
      current = subst (All (AtLatest s.latest_navigation)) (sym live) (
          All-append (AtLatest s.latest_navigation) s.live (new ∷ [])
            (v.current, (guard_current role input s passes, tt)));
    }
