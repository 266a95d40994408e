-- ===== src/Grants.antt =====
-- packages/runtime/edit-authority/grants/grant-table.ts: issuance, authorization, verification and
-- revocation of resource grants.
--
-- The `records` map of `createGrantTable` is the table. A call reads the file system as it is given:
-- each operation takes the `World` of its moment. The token that `mintGrantToken` draws is an
-- argument of `issue`.
pub mod Vocabulary
pub mod Checks
pub mod Live
pub mod Authority
pub mod Sample
pub mod Tests
use astroix.Base.{
  ℕ, String, Bool, true, false, not, ◌&&◌, ◌||◌, Option, none, some, List, [], ◌∷◌, str_eq, leb,
  if◌then◌else◌,
}
use astroix.Base.Dict.{get, put, drop_where, delete, count_if}
use Prim.Native.String.{◌++◌}
use astroix.Session.{SessionRef, same_session}
use astroix.Base.Fallible.{
  Fallible, ok, failure, thrown, ◌>>=◌, ◌>>◌, require, or_failure, or_throw,
}
use astroix.World.{stat, is_absent, World, Platform, FileInfo, Lstat, absent, broken, found}
use Vocabulary.{
  ResourceKind, EditOperationKind, create_contents, RevisionContract, sha256, expected_absent,
  ResourceGrant, same_kind, permits, kind_operations, creation_operations, existing_text_operations,
  operations_are_subset, Target, existing, creation, GrantedResource, GrantFailureCode,
  unknown_grant, cross_session, wrong_kind, operation_not_allowed, invalid_resource_path,
  invalid_operations, creation_not_permitted, outside_root, parent_outside_root, target_absent,
  parent_absent, not_a_file, parent_not_directory, hard_linked_target, revision_mismatch,
  target_exists, target_moved, changed_baseline, same_target, is_project_relative,
  is_file_name_segment, is_canonical_descendant, is_creation_parent, is_grant_token_shape,
}

-- The outcome of an operation: a failure code, or an exception of the file system.
abbrev pub Check {ℓ} : Type ℓ → Type ℓ
Check A = Fallible GrantFailureCode A

abbrev pub is_some {ℓ} : {A : Type ℓ} → Option A → Bool
is_some none = false
is_some (some a) = true

pub record DiscoveredTextResource : Type 0 where
  pub kind : ResourceKind
  pub path : String
  pub revision : String
  pub operations : Option (List EditOperationKind)

pub record DiscoveredCreationResource : Type 0 where
  pub kind : ResourceKind
  pub parent_path : String
  pub file_name : String
  pub operations : Option (List EditOperationKind)

pub data DiscoveredResource : Type 0 where
  existing_text : DiscoveredTextResource → DiscoveredResource
  creation_slot : DiscoveredCreationResource → DiscoveredResource

pub record GrantRecord : Type 0 where
  pub resource : GrantedResource
  pub issued : ResourceGrant

abbrev pub Table : Type 0
Table = List (String × GrantRecord)

abbrev pub or_default {ℓ} : {A : Type ℓ} → Option A → A → A
or_default none d = d
or_default (some a) d = a

-- The wire grant of a record.
abbrev pub wire_grant : String → GrantedResource → ResourceGrant
wire_grant token r = record {
  token = token;
  kind = r.kind;
  operations = r.operations;
  display_path = r.display_path;
  baseline = r.baseline;
}

abbrev pub supersedes : GrantedResource → GrantRecord → Bool
supersedes r other =
    same_session other.resource.session r.session && same_target other.resource.target r.target

-- `commit`: evicts the session's grants of the same target, and inserts the new one.
unfoldable pub commit : String → GrantedResource → Table → Table
commit token r records =
    put (drop_where (λ _ other. supersedes r other) records) token
      (record { resource = r; issued = wire_grant token r })

-- The canonical root that `createGrantTable` opens an empty table over, unless it throws.
unfoldable pub create_grant_table : World → String → Check (String × Table)
create_grant_table w canonical_root = do
  root ← or_throw (w.realpath canonical_root)
  info ← stat w root
  or_throw (if info.is_directory then some (root, []) else none)

module _ (p : Platform) (w : World) (root : String) where
  unfoldable pub issue_existing : DiscoveredTextResource → SessionRef → Check GrantedResource
  issue_existing d session = do
    let operations = or_default d.operations (existing_text_operations d.kind)
    require (is_project_relative d.path) invalid_resource_path
    require (operations_are_subset (existing_text_operations d.kind) operations) invalid_operations
    canonical ← or_failure (w.realpath (p.join root d.path)) target_absent
    require (is_canonical_descendant p.sep root canonical) outside_root
    info ← stat w canonical
    require info.is_file not_a_file
    require (leb info.nlink 1) hard_linked_target
    bytes ← or_throw (w.read canonical)
    require (str_eq (p.sha256 bytes) d.revision) revision_mismatch
    ok (record {
      canonical_root = root;
      session = session;
      kind = d.kind;
      operations = operations;
      display_path = d.path;
      baseline = sha256 d.revision;
      target = existing canonical;
    })

  unfoldable pub issue_creation : DiscoveredCreationResource → SessionRef → Check GrantedResource
  issue_creation d session = do
    let operations = or_default d.operations creation_operations
    require (permits (kind_operations d.kind) create_contents) creation_not_permitted
    require (is_project_relative d.parent_path && is_file_name_segment d.file_name)
        invalid_resource_path
    require (operations_are_subset creation_operations operations) invalid_operations
    parent ← or_failure (w.realpath (p.join root d.parent_path)) parent_absent
    require (is_creation_parent p.sep root parent) parent_outside_root
    info ← stat w parent
    require info.is_directory parent_not_directory
    free ← is_absent w (p.join parent d.file_name)
    require free target_exists
    ok (record {
      canonical_root = root;
      session = session;
      kind = d.kind;
      operations = operations;
      display_path = d.parent_path ++ "/" ++ d.file_name;
      baseline = expected_absent;
      target = creation parent d.file_name;
    })

  abbrev pub issue_resource : DiscoveredResource → SessionRef → Check GrantedResource
  issue_resource (existing_text d) session = issue_existing d session
  issue_resource (creation_slot d) session = issue_creation d session

-- The grants that a call hands out, and the table that it leaves.
abbrev pub committed : String → Check GrantedResource → Table → Check ResourceGrant × Table
committed token (ok r) records = (ok (wire_grant token r), commit token r records)
committed token (failure code) records = (failure code, records)
committed token thrown records = (thrown, records)

unfoldable pub issue :
    Platform
    → World
    → String
    → String
    → DiscoveredResource
    → SessionRef
    → Table
    → Check ResourceGrant × Table
issue p w root token d session records = committed token (issue_resource p w root d session) records

pub record AuthorizeInput : Type 0 where
  pub token : String
  pub session : SessionRef
  pub kind : ResourceKind
  pub operation : EditOperationKind

unfoldable pub authorize : AuthorizeInput → Table → Check GrantRecord
authorize input records = do
  require (is_grant_token_shape input.token) unknown_grant
  r ← or_failure (get records input.token) unknown_grant
  require (same_session r.resource.session input.session) cross_session
  require (same_kind r.resource.kind input.kind) wrong_kind
  require (permits r.resource.operations input.operation) operation_not_allowed
  ok r

-- Whether the token was live, and the table without it.
unfoldable pub revoke : String → Table → Bool × Table
revoke token records = (is_some (get records token), delete token records)

abbrev pub belongs_to : SessionRef → GrantRecord → Bool
belongs_to session r = same_session r.resource.session session

unfoldable pub revoke_session : SessionRef → Table → ℕ × Table
revoke_session session records =
    (count_if (belongs_to session) records, drop_where (λ _ r. belongs_to session r) records)

abbrev pub is_existing : Target → Bool
is_existing (existing path) = true
is_existing _ = false

module _ (p : Platform) (w : World) where
  abbrev pub verify_existing : GrantedResource → Target → RevisionContract → Check (Option (List ℕ))
  verify_existing r (existing path) (sha256 baseline) = do
    canonical ← or_failure (w.realpath path) target_absent
    require (str_eq canonical path && is_canonical_descendant p.sep r.canonical_root canonical)
        target_moved
    info ← stat w canonical
    require info.is_file not_a_file
    require (leb info.nlink 1) hard_linked_target
    bytes ← or_throw (w.read canonical)
    require (str_eq (p.sha256 bytes) baseline) changed_baseline
    ok (some (p.decode bytes))
  verify_existing r _ _ = failure changed_baseline

  -- `is_directory` of the last operand is only read where the first two hold.
  abbrev pub verify_creation : GrantedResource → Target → RevisionContract → Check (Option (List ℕ))
  verify_creation r (creation path name) expected_absent = do
    parent ← or_failure (w.realpath path) parent_absent
    require (str_eq parent path && is_creation_parent p.sep r.canonical_root parent) target_moved
    info ← stat w parent
    require info.is_directory target_moved
    free ← is_absent w (p.join parent name)
    require free target_exists
    ok none
  verify_creation r _ _ = failure changed_baseline

  -- The contents of an existing target, and `none` for a creation slot that is free.
  unfoldable pub verify : GrantedResource → Check (Option (List ℕ))
  verify r =
      if is_existing r.target
      then verify_existing r r.target r.baseline
      else verify_creation r r.target r.baseline
