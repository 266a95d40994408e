-- ===== src/Grants/Authority.antt =====
-- What a presented token is good for, and how it stops being good.
use astroix.Base.{
  String, Bool, true, false, ◌≡◌, ◌≢◌, ◌↔◌, refl, sym, ◌∙◌, Option, none, some, if_true, if_false,
  subst, arith, inl, inr, str_eq, eq_iff, eq_refl, Bool-cases,
}
use astroix.Base.Dict.{
  get, drop_where, keep, delete, get-put, get-drop_where, get-All, HasDistinctKeys,
}
use astroix.Session.{SessionRef, same_session_iff}
use astroix.World.{Platform}
use astroix.Grants.Vocabulary.{
  ResourceKind, EditOperationKind, content, css, same_kind, permits, GrantedResource, unknown_grant,
  is_grant_token_shape,
}
use astroix.Base.Fallible.{ok, failure}
use astroix.Grants.{
  GrantRecord, Table, wire_grant, supersedes, commit, AuthorizeInput, authorize, revoke,
  revoke_session, belongs_to,
}
use astroix.Grants.Live.{IsCoherent, IsIssued, IsLive, Rivals, supersedes_iff}

pub same_kind_iff : (a b : ResourceKind) → (same_kind a b ≡ true) ↔ (a ≡ b)
same_kind_iff content content = ((λ e. refl), λ e. refl)
same_kind_iff content css = ((λ e. cc), λ e. cc)
same_kind_iff css content = ((λ e. cc), λ e. cc)
same_kind_iff css css = ((λ e. refl), λ e. refl)

-- What a claim must be to be granted: well shaped, live, and of the record's own session and kind,
-- for one of its operations.
pub record IsGranted (input : AuthorizeInput) (records : Table) (x : GrantRecord) : Type 0 where
  pub shaped : is_grant_token_shape input.token ≡ true
  pub live : get records input.token ≡ some x
  pub session : x.resource.session ≡ input.session
  pub kind : x.resource.kind ≡ input.kind
  pub permitted : permits x.resource.operations input.operation ≡ true

-- A claim is authorized, with the record that it gets, exactly when its token is well shaped and
-- live, and the claim is of the record's session, kind and one of its operations.
pub authorize_iff :
    (input : AuthorizeInput) (records : Table) (x : GrantRecord)
    → (authorize input records ≡ ok x) ↔ IsGranted input records x
unfolding authorize
authorize_iff input records x = (
  (λ e. record {
    shaped = ground (arith, e);
    live = ground (arith, e);
    session = (same_session_iff _ _).0 (ground (arith, e));
    kind = (same_kind_iff _ _).0 (ground (arith, e));
    permitted = ground (arith, e);
  }),
  λ g. ground (
    arith,
    g.shaped,
    g.live,
    (same_session_iff x.resource.session input.session).1 g.session,
    (same_kind_iff x.resource.kind input.kind).1 g.kind,
    g.permitted,
  ),
)

-- In a live table an authorized record is coherent, and was issued as the wire grant of its token.
pub authorize_issued :
    (p : Platform) (root : String) (input : AuthorizeInput) (records : Table) (x : GrantRecord)
    → IsLive p root records
    → authorize input records ≡ ok x
    → IsCoherent p root x.resource × (x.issued ≡ wire_grant input.token x.resource)
authorize_issued p root input records x v e =
    let g = (authorize_iff input records x).0 e in
    get-All (IsIssued p root) records input.token x v.issued g.live

get-revoked :
    (token : String) (records : Table)
    → HasDistinctKeys records
    → get (delete token records) token ≡ none
get-revoked token records d =
    get-drop_where token (λ j _. str_eq j token) records d ∙ gone (get records token)
  where
    gone : (o : Option GrantRecord) → keep (λ _. str_eq token token) o ≡ none
    gone none = refl
    gone (some x) = rw (eq_refl token)

-- In a table of distinct tokens a revoked token is an unknown grant, whatever else the claim says.
pub authorize-revoke :
    (input : AuthorizeInput) (records : Table)
    → HasDistinctKeys records
    → authorize input (revoke input.token records).1 ≡ failure unknown_grant
unfolding authorize revoke
authorize-revoke input records d = ground (arith, get-revoked input.token records d)

not_true : (b : Bool) → b ≢ true → b ≡ false
not_true true h = absurd (h refl)
not_true false h = refl

eq_of_some : {x y : GrantRecord} → some x ≡ some y → x ≡ y
eq_of_some e = cc

keep-eq-some :
    (q : GrantRecord → Bool) (o : Option GrantRecord) (x : GrantRecord)
    → (keep q o ≡ some x) ↔ ((o ≡ some x) × (q x ≡ false))
keep-eq-some q none x = ((λ e. cc), λ e. cc (e.0))
keep-eq-some q (some y) x = (
  λ e. elim (Bool-cases (q y)) [
    | inl gone ↦ cc (if_true none (some y) gone, e)
    | inr kept ↦
        let same : some y ≡ some x = sym (if_false none (some y) kept) ∙ e in
        (same, subst (λ z. q z ≡ false) (eq_of_some same) kept)
  ],
  λ h. if_false none (some y) (subst (λ z. q z ≡ false) (sym (eq_of_some h.0)) h.1) ∙ h.0,
)

-- In a table of distinct tokens, after the revocation of a session a claim is authorized exactly
-- when it was before and is of another session.
pub authorize-revoke_session :
    (session : SessionRef) (input : AuthorizeInput) (records : Table) (x : GrantRecord)
    → HasDistinctKeys records
    → (authorize input (revoke_session session records).1 ≡ ok x)
      ↔ ((authorize input records ≡ ok x) × (input.session ≢ session))
unfolding revoke_session
authorize-revoke_session session input records x d =
    let after = drop_where (λ _ r. belongs_to session r) records in
    let found = get-drop_where input.token (λ _ r. belongs_to session r) records d in
    let here = authorize_iff input after x in
    let there = authorize_iff input records x in
    let kept = keep-eq-some (belongs_to session) (get records input.token) x in
    let own = same_session_iff x.resource.session session in
    (
      λ e.
          let g = here.0 e in
          let (was, other) = kept.0 (sym found ∙ g.live) in
          (
            there.1 (record {
              shaped = g.shaped;
              live = was;
              session = g.session;
              kind = g.kind;
              permitted = g.permitted;
            }),
            λ same. cc (other, own.1 (g.session ∙ same)),
          ),
      λ h.
          let g = there.0 h.0 in
          let other = not_true (belongs_to session x) (λ t. h.1 (sym g.session ∙ own.0 t)) in
          here.1 (record {
            shaped = g.shaped;
            live = found ∙ kept.1 (g.live, other);
            session = g.session;
            kind = g.kind;
            permitted = g.permitted;
          }),
    )

-- The claim that the holder of a grant makes for one of its operations.
abbrev pub own_claim : String → GrantedResource → EditOperationKind → AuthorizeInput
own_claim token r operation = record {
  token = token;
  session = r.session;
  kind = r.kind;
  operation = operation;
}

get-commit_other :
    (token asked : String) (r : GrantedResource) (records : Table) (x : GrantRecord)
    → HasDistinctKeys records
    → asked ≢ token
    → get (commit token r records) asked ≡ some x
    → (get records asked ≡ some x) × ¬ (Rivals x.resource r)
unfolding commit
get-commit_other token asked r records x d other e =
    let rest = drop_where (λ _ o. supersedes r o) records in
    let miss = not_true (str_eq token asked) (λ t. other (sym ((eq_iff token asked).0 t))) in
    let found = sym (get-put rest token _ asked ∙ if_false _ _ miss) ∙ e in
    let (was, apart) =
      (keep-eq-some (supersedes r) (get records asked) x).0
        (sym (get-drop_where asked (λ _ o. supersedes r o) records d) ∙ found) in
    (was, λ rival. cc (apart, (supersedes_iff r x).1 rival))

-- A fresh grant with a well-shaped token is authorized for each of its operations.
pub authorize-commit :
    (token : String) (r : GrantedResource) (operation : EditOperationKind) (records : Table)
    → is_grant_token_shape token ≡ true
    → permits r.operations operation ≡ true
    → authorize (own_claim token r operation) (commit token r records)
      ≡ ok (record { resource = r; issued = wire_grant token r })
unfolding commit
authorize-commit token r operation records shaped permitted = (authorize_iff _ _ _).1 (record {
  shaped = shaped;
  live =
      get-put (drop_where (λ _ o. supersedes r o) records) token _ token
      ∙ if_true _ _ (eq_refl token);
  session = refl;
  kind = refl;
  permitted = permitted;
})

-- In a table of distinct tokens, a claim with another token than a fresh grant that is authorized
-- beside it was authorized before, and is not for the same session and target.
pub commit_supersedes :
    (token : String) (r : GrantedResource) (input : AuthorizeInput) (records : Table)
    (x : GrantRecord)
    → HasDistinctKeys records
    → input.token ≢ token
    → authorize input (commit token r records) ≡ ok x
    → (authorize input records ≡ ok x) × ¬ (Rivals x.resource r)
commit_supersedes token r input records x d other e =
    let g = (authorize_iff _ _ _).0 e in
    let (was, apart) = get-commit_other token input.token r records x d other g.live in
    (
      (authorize_iff _ _ _).1 (record {
        shaped = g.shaped;
        live = was;
        session = g.session;
        kind = g.kind;
        permitted = g.permitted;
      }),
      apart,
    )
