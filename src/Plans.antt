-- ===== src/Plans.antt =====
-- packages/runtime/edit-authority/planning: the lift of a write plan of the wire to a plan that the
-- executor may see, with the refinements of the plan schema of packages/protocol/src/edits.ts.
--
-- A text is the list of its UTF-16 units. The shapes that the schema library checks are the types
-- of `WritePlan`; a body without such a shape is `none`.
pub mod Sound
use astroix.Base.{
  ℕ, String, Bool, true, false, ◌&&◌, ◌<◌, Option, none, some, List, [], ◌∷◌, ltb, leb, not, all,
  str_eq, if◌then◌else◌, length,
}
use astroix.Base.Fallible.{Fallible, ok, failure, ◌>>=◌, ◌>>◌, require, or_failure, relabel}
use astroix.Base.Text.{units}
use astroix.Session.{SessionRef}
use astroix.World.{World, Platform}
use astroix.Grants.Vocabulary.{
  ResourceKind, content, css, same_kind, EditOperationKind, replace_contents, splice,
  create_contents, same_operation, permits, kind_operations, RevisionContract, sha256,
  expected_absent, ResourceGrant, Target, existing, creation, GrantedResource, GrantFailureCode,
  operation_not_allowed, is_project_relative,
}
use astroix.Grants.{Table, GrantRecord, AuthorizeInput, authorize, verify, is_existing}

pub record SourceRange : Type 0 where
  pub start : ℕ
  pub end : ℕ

-- The payload of each operation.
pub data Payload : Type 0 where
  replaces : (contents : List ℕ) → Payload
  splices : SourceRange → (replacement : List ℕ) → Payload
  creates : (contents : List ℕ) → Payload

abbrev pub operation_of : Payload → EditOperationKind
operation_of (replaces contents) = replace_contents
operation_of (splices range replacement) = splice
operation_of (creates contents) = create_contents

pub record WritePlan : Type 0 where
  pub grant : ResourceGrant
  pub payload : Payload

-- A plan bound to the granted resource of the server.
pub record DomainWritePlan : Type 0 where
  pub resource : GrantedResource
  pub payload : Payload

pub data PlanFailureCode : Type 0 where
  of_grant : GrantFailureCode → PlanFailureCode
  invalid_plan claim_mismatch range_outside_baseline operation_target_mismatch : PlanFailureCode

abbrev pub editable_resource_bytes : ℕ
editable_resource_bytes = 8388608

abbrev pub is_hex_unit : ℕ → Bool
is_hex_unit c = if leb b'a' c then leb c b'f' else leb b'0' c && leb c b'9'

abbrev pub is_sha256_hex : String → Bool
is_sha256_hex text =
    leb 64 (length (units text)) && (leb (length (units text)) 64 && all is_hex_unit (units text))

abbrev pub is_valid_baseline : RevisionContract → Bool
is_valid_baseline (sha256 digest) = is_sha256_hex digest
is_valid_baseline expected_absent = true

abbrev pub is_valid_grant : ResourceGrant → Bool
is_valid_grant g =
    not (str_eq g.token "")
    && (leb 1 (length g.operations)
        && (is_project_relative g.display_path && is_valid_baseline g.baseline))

module _ (p : Platform) where
  abbrev pub is_editable_text : List ℕ → Bool
  is_editable_text text = leb (length (p.encode text)) editable_resource_bytes

  abbrev pub is_valid_payload : Payload → Bool
  is_valid_payload (replaces contents) = is_editable_text contents
  is_valid_payload (splices range replacement) =
      ltb range.start range.end && is_editable_text replacement
  is_valid_payload (creates contents) = is_editable_text contents

  -- `writePlanSchema.safeParse`, on a body of the right shape.
  unfoldable pub parse : Option WritePlan → Fallible PlanFailureCode WritePlan
  parse none = failure invalid_plan
  parse (some wire) =
      if is_valid_grant wire.grant && is_valid_payload wire.payload
      then ok wire
      else failure invalid_plan

abbrev pub same_baseline : RevisionContract → RevisionContract → Bool
same_baseline (sha256 a) (sha256 b) = str_eq a b
same_baseline expected_absent expected_absent = true
same_baseline _ _ = false

abbrev pub same_operations : List EditOperationKind → List EditOperationKind → Bool
same_operations [] [] = true
same_operations (a ∷ xs) (b ∷ ys) = same_operation a b && same_operations xs ys
same_operations _ _ = false

unfoldable pub wire_grant_equals : ResourceGrant → ResourceGrant → Bool
wire_grant_equals echoed issued =
    str_eq echoed.token issued.token
    && (same_kind echoed.kind issued.kind
        && (str_eq echoed.display_path issued.display_path
            && (same_baseline echoed.baseline issued.baseline
                && same_operations echoed.operations issued.operations)))

abbrev pub fits_text : SourceRange → Option (List ℕ) → Bool
fits_text range none = false
fits_text range (some text) = leb range.end (length text)

unfoldable pub plan_style_edit :
    GrantedResource → Payload → Option (List ℕ) → Fallible PlanFailureCode DomainWritePlan
plan_style_edit r (replaces contents) text =
    ok (record { resource = r; payload = replaces contents })
plan_style_edit r (splices range replacement) text = do
  require (fits_text range text) range_outside_baseline
  ok (record { resource = r; payload = splices range replacement })
plan_style_edit r (creates contents) text = failure (of_grant operation_not_allowed)

unfoldable pub plan_entry_edit :
    GrantedResource → Payload → Fallible PlanFailureCode DomainWritePlan
plan_entry_edit r (replaces contents) = do
  require (is_existing r.target) operation_target_mismatch
  ok (record { resource = r; payload = replaces contents })
plan_entry_edit r (creates contents) = do
  require (not (is_existing r.target)) operation_target_mismatch
  ok (record { resource = r; payload = creates contents })
plan_entry_edit r (splices range replacement) = failure (of_grant operation_not_allowed)

abbrev pub plan_kind :
    ResourceKind
    → GrantedResource
    → Payload
    → Option (List ℕ)
    → Fallible PlanFailureCode DomainWritePlan
plan_kind css r payload text = plan_style_edit r payload text
plan_kind content r payload text = plan_entry_edit r payload

abbrev pub claim_of : SessionRef → WritePlan → AuthorizeInput
claim_of session wire = record {
  token = wire.grant.token;
  session = session;
  kind = wire.grant.kind;
  operation = operation_of wire.payload;
}

unfoldable pub plan_edit :
    Platform
    → World
    → Table
    → SessionRef
    → Option WritePlan
    → Fallible PlanFailureCode DomainWritePlan
plan_edit p w records session body = do
  wire ← parse p body
  require (permits (kind_operations wire.grant.kind) (operation_of wire.payload))
      (of_grant operation_not_allowed)
  x ← relabel of_grant (authorize (claim_of session wire) records)
  require (wire_grant_equals wire.grant x.issued) claim_mismatch
  text ← relabel of_grant (verify p w x.resource)
  plan_kind x.resource.kind x.resource wire.payload text
