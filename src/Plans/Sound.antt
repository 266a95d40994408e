-- ===== src/Plans/Sound.antt =====
-- What an accepted plan has passed.
use astroix.Base.{
  ℕ, Bool, true, false, ◌≡◌, ◌↔◌, refl, sym, ap, subst, ◌∙◌, ◌&&◌, Option, none, some, List, [],
  ◌∷◌, arith, inl, inr, eq_iff, Bool-cases, if_true, if_false,
}
use astroix.Base.Fallible.{Fallible, ok, failure, require, relabel, bind_ok, relabel_ok, require_ok}
use astroix.Session.{SessionRef}
use astroix.World.{World, Platform}
use astroix.Grants.Vocabulary.{
  ResourceKind, content, css, EditOperationKind, replace_contents, splice, create_contents,
  same_operation, permits, kind_operations, RevisionContract, sha256, expected_absent,
  ResourceGrant, GrantedResource,
}
use astroix.Grants.{Table, GrantRecord, authorize, verify, is_existing}
use astroix.Grants.Authority.{same_kind_iff}
use astroix.Plans.{
  Payload, replaces, splices, creates, operation_of, WritePlan, DomainWritePlan, PlanFailureCode,
  of_grant, invalid_plan, parse, is_valid_grant, is_valid_payload, same_baseline, same_operations,
  wire_grant_equals, fits_text, plan_style_edit, plan_entry_edit, plan_kind, claim_of, plan_edit,
}

same_baseline_iff : (a b : RevisionContract) → (same_baseline a b ≡ true) ↔ (a ≡ b)
same_baseline_iff (sha256 a) (sha256 b) = ground (arith, eq_iff a b)
same_baseline_iff (sha256 a) expected_absent = ((λ e. cc), λ e. cc)
same_baseline_iff expected_absent (sha256 b) = ((λ e. cc), λ e. cc)
same_baseline_iff expected_absent expected_absent = ((λ e. refl), λ e. refl)

pub same_operation_iff : (a b : EditOperationKind) → (same_operation a b ≡ true) ↔ (a ≡ b)
same_operation_iff replace_contents replace_contents = ((λ e. refl), λ e. refl)
same_operation_iff replace_contents splice = ((λ e. cc), λ e. cc)
same_operation_iff replace_contents create_contents = ((λ e. cc), λ e. cc)
same_operation_iff splice replace_contents = ((λ e. cc), λ e. cc)
same_operation_iff splice splice = ((λ e. refl), λ e. refl)
same_operation_iff splice create_contents = ((λ e. cc), λ e. cc)
same_operation_iff create_contents replace_contents = ((λ e. cc), λ e. cc)
same_operation_iff create_contents splice = ((λ e. cc), λ e. cc)
same_operation_iff create_contents create_contents = ((λ e. refl), λ e. refl)

same_operations_iff : (a b : List EditOperationKind) → (same_operations a b ≡ true) ↔ (a ≡ b)
same_operations_iff [] [] = ((λ e. refl), λ e. refl)
same_operations_iff [] (y ∷ ys) = ((λ e. cc), λ e. cc)
same_operations_iff (x ∷ xs) [] = ((λ e. cc), λ e. cc)
same_operations_iff (x ∷ xs) (y ∷ ys) =
    ground (arith, same_operation_iff x y, same_operations_iff xs ys)

grant_eq :
    (a b : ResourceGrant)
    → a.token ≡ b.token
    → a.kind ≡ b.kind
    → a.display_path ≡ b.display_path
    → a.baseline ≡ b.baseline
    → a.operations ≡ b.operations
    → a ≡ b
grant_eq a b t k d r o = cc

-- The comparison of an echoed grant with the issued one holds exactly when they are equal.
pub wire_grant_equals_iff :
    (echoed issued : ResourceGrant) → (wire_grant_equals echoed issued ≡ true) ↔ (echoed ≡ issued)
unfolding wire_grant_equals
wire_grant_equals_iff a b =
    let t = eq_iff a.token b.token in
    let k = same_kind_iff a.kind b.kind in
    let d = eq_iff a.display_path b.display_path in
    let r = same_baseline_iff a.baseline b.baseline in
    let o = same_operations_iff a.operations b.operations in
    (
      (λ e.
          grant_eq a b (t.0 (ground (arith, e))) (k.0 (ground (arith, e))) (d.0 (ground (arith, e)))
            (r.0 (ground (arith, e))) (o.0 (ground (arith, e)))),
      λ e. ground (
        arith,
        t.1 (ap (λ g. g.token) e),
        k.1 (ap (λ g. g.kind) e),
        d.1 (ap (λ g. g.display_path) e),
        r.1 (ap (λ g. g.baseline) e),
        o.1 (ap (λ g. g.operations) e),
      ),
    )

-- What the planner of a kind still asks of the payload.
abbrev pub KindAllows : ResourceKind → GrantedResource → Payload → Option (List ℕ) → Type 0
KindAllows css r (replaces contents) text = Unit {0}
KindAllows css r (splices range replacement) text = fits_text range text ≡ true
KindAllows content r (replaces contents) text = is_existing r.target ≡ true
KindAllows content r (creates contents) text = is_existing r.target ≡ false
KindAllows _ r payload text = ⊥

plan_kind-KindAllows :
    (kind : ResourceKind) (r : GrantedResource) (payload : Payload) (text : Option (List ℕ))
    (plan : DomainWritePlan)
    → plan_kind kind r payload text ≡ ok plan
    → KindAllows kind r payload text × (plan.resource ≡ r) × (plan.payload ≡ payload)
unfolding plan_style_edit plan_entry_edit
plan_kind-KindAllows css r (replaces contents) text plan e = (tt, ground arith, ground arith)
plan_kind-KindAllows css r (splices range replacement) text plan e = ground arith
plan_kind-KindAllows css r (creates contents) text plan e = cc
plan_kind-KindAllows content r (replaces contents) text plan e = ground arith
plan_kind-KindAllows content r (creates contents) text plan e = ground arith
plan_kind-KindAllows content r (splices range replacement) text plan e = cc

eq_of_ok : {a b : WritePlan} → ◌≡◌ {A = Fallible PlanFailureCode WritePlan} (ok a) (ok b) → a ≡ b
eq_of_ok e = cc

and_true : (a b : Bool) → (a && b) ≡ true → (a ≡ true) × (b ≡ true)
and_true a b e = ground arith

plan_edit_values :
    (p : Platform) (w : World) (records : Table) (session : SessionRef) (body : Option WritePlan)
    (plan : DomainWritePlan)
    → plan_edit p w records session body ≡ ok plan
    → (wire : WritePlan) × (parse p body ≡ ok wire)
      × ((x : GrantRecord) × (authorize (claim_of session wire) records ≡ ok x)
          × (wire_grant_equals wire.grant x.issued ≡ true)
          × ((text : Option (List ℕ)) × (verify p w x.resource ≡ ok text)
              × (plan_kind x.resource.kind x.resource wire.payload text ≡ ok plan)))
unfolding plan_edit
plan_edit_values p w records session body plan e =
    let (wire, parsed, e1) = bind_ok (parse p body) _ plan e in
    let (_, _, e2) =
      bind_ok (require (permits (kind_operations wire.grant.kind) (operation_of wire.payload)) _) _
        plan e1 in
    let (x, granted, e3) =
      bind_ok (relabel of_grant (authorize (claim_of session wire) records)) _ plan e2 in
    let (u, echoed, e4) = bind_ok (require (wire_grant_equals wire.grant x.issued) _) _ plan e3 in
    let (text, verified, e5) = bind_ok (relabel of_grant (verify p w x.resource)) _ plan e4 in
    (
      wire,
      parsed,
      (x, relabel_ok _ _ _ granted, require_ok _ _ u echoed, (text, relabel_ok _ _ _ verified, e5)),
    )

-- The plan that a body is lifted to: the body satisfies the wire contract, its claim is authorized,
-- its grant is the one that was issued, the world still satisfies the revision contract, and the
-- payload is bound to the resource of the server.
pub record IsPlanned (p : Platform) (w : World) (records : Table) (session : SessionRef)
    (body : Option WritePlan) (plan : DomainWritePlan) : Type 0 where
  pub wire : WritePlan
  pub granted : GrantRecord
  pub text : Option (List ℕ)
  pub same_body : body ≡ some wire
  pub valid_grant : is_valid_grant wire.grant ≡ true
  pub valid_payload : is_valid_payload p wire.payload ≡ true
  pub authorized : authorize (claim_of session wire) records ≡ ok granted
  pub echoed : wire.grant ≡ granted.issued
  pub verified : verify p w granted.resource ≡ ok text
  pub allowed : KindAllows granted.resource.kind granted.resource wire.payload text
  pub resource_of : plan.resource ≡ granted.resource
  pub payload_of : plan.payload ≡ wire.payload

parse_ok :
    (p : Platform) (body : Option WritePlan) (wire : WritePlan)
    → parse p body ≡ ok wire
    → (body ≡ some wire)
      × (is_valid_grant wire.grant ≡ true)
      × (is_valid_payload p wire.payload ≡ true)
unfolding parse
parse_ok p none wire e = cc
parse_ok p (some other) wire e =
    elim (Bool-cases (is_valid_grant other.grant && is_valid_payload p other.payload)) [
      | inl valid ↦
          let same : other ≡ wire = eq_of_ok (sym (if_true (ok other) _ valid) ∙ e) in
          (
            ap (λ o. some o) same,
            subst (λ o. is_valid_grant o.grant ≡ true) same (and_true _ _ valid).0,
            subst (λ o. is_valid_payload p o.payload ≡ true) same (and_true _ _ valid).1,
          )
      | inr invalid ↦ cc (if_false (ok other) (failure invalid_plan) invalid, e)
    ]

-- A plan that planning accepts comes from a body within the bounds of the wire contract, whose
-- claim the grant table authorizes, whose grant is the issued one, whose resource verifies, and
-- whose payload its kind allows; it carries that payload and the resource of the server.
pub plan_edit_sound :
    (p : Platform) (w : World) (records : Table) (session : SessionRef) (body : Option WritePlan)
    (plan : DomainWritePlan)
    → plan_edit p w records session body ≡ ok plan
    → IsPlanned p w records session body plan
plan_edit_sound p w records session body plan e =
    let (wire, parsed, (x, granted, echoed, (text, verified, planned))) =
      plan_edit_values p w records session body plan e in
    let (same, valid_grant, valid_payload) = parse_ok p body wire parsed in
    let (allowed, r, payload) =
      plan_kind-KindAllows x.resource.kind x.resource wire.payload text plan planned in
    record {
      wire = wire;
      granted = x;
      text = text;
      same_body = same;
      valid_grant = valid_grant;
      valid_payload = valid_payload;
      authorized = granted;
      echoed = (wire_grant_equals_iff wire.grant x.issued).0 echoed;
      verified = verified;
      allowed = allowed;
      resource_of = r;
      payload_of = payload;
    }
