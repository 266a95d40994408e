-- ===== src/Grants/Vocabulary.antt =====
-- The vocabulary of grants: packages/protocol/src/edits.ts, the types of
-- packages/runtime/edit-authority/grants/grant-table.ts, canonical-bounds.ts and grant-token.ts.

use astroix.Base.{
  ℕ, String, Bool, true, false, not, ◌&&◌, ◌||◌, List, [], ◌∷◌, ◌++◌, ◌==◌, leb, str_eq,
  if◌then◌else◌, length, any, all,
}
use astroix.Base.Text.{units, same_units, has_prefix, includes, split}
use astroix.Session.{SessionRef}

pub data ResourceKind : Type 0 where
  content css : ResourceKind

pub data EditOperationKind : Type 0 where
  replace_contents splice create_contents : EditOperationKind

pub data RevisionContract : Type 0 where
  sha256 : String → RevisionContract
  expected_absent : RevisionContract

pub record ResourceGrant : Type 0 where
  pub token : String
  pub kind : ResourceKind
  pub operations : List EditOperationKind
  pub display_path : String
  pub baseline : RevisionContract

abbrev pub same_kind : ResourceKind → ResourceKind → Bool
same_kind content content = true
same_kind css css = true
same_kind _ _ = false

abbrev pub same_operation : EditOperationKind → EditOperationKind → Bool
same_operation replace_contents replace_contents = true
same_operation splice splice = true
same_operation create_contents create_contents = true
same_operation _ _ = false

-- `Array.prototype.includes` on operations.
abbrev pub permits : List EditOperationKind → EditOperationKind → Bool
permits operations o = any (same_operation o) operations

unfoldable pub kind_operations : ResourceKind → List EditOperationKind
kind_operations content = replace_contents ∷ create_contents ∷ []
kind_operations css = replace_contents ∷ splice ∷ []

abbrev pub creation_operations : List EditOperationKind
creation_operations = create_contents ∷ []

abbrev pub without_creation : List EditOperationKind → List EditOperationKind
without_creation [] = []
without_creation (o ∷ operations) =
    let rest = without_creation operations in
    if same_operation o create_contents then rest else o ∷ rest

unfoldable pub existing_text_operations : ResourceKind → List EditOperationKind
unfolding kind_operations
existing_text_operations kind = without_creation (kind_operations kind)

-- A size of the set below that of the list is a repetition.
abbrev pub are_distinct : List EditOperationKind → Bool
are_distinct [] = true
are_distinct (o ∷ operations) = not (permits operations o) && are_distinct operations

unfoldable pub operations_are_subset : List EditOperationKind → List EditOperationKind → Bool
operations_are_subset species [] = false
operations_are_subset species (o ∷ operations) =
    are_distinct (o ∷ operations) && all (permits species) (o ∷ operations)

pub data Target : Type 0 where
  existing : (canonical_path : String) → Target
  creation : (canonical_parent file_name : String) → Target

pub record GrantedResource : Type 0 where
  pub canonical_root : String
  pub session : SessionRef
  pub kind : ResourceKind
  pub operations : List EditOperationKind
  pub display_path : String
  pub baseline : RevisionContract
  pub target : Target

pub data GrantFailureCode : Type 0 where
  unknown_grant cross_session wrong_kind operation_not_allowed invalid_resource_path
        invalid_operations creation_not_permitted outside_root parent_outside_root target_absent
        parent_absent not_a_file parent_not_directory hard_linked_target revision_mismatch
        target_exists target_moved changed_baseline :
      GrantFailureCode

abbrev pub same_target : Target → Target → Bool
same_target (existing a) (existing b) = str_eq a b
same_target (creation a m) (creation b n) = str_eq a b && str_eq m n
same_target _ _ = false

-- `projectRelativePathSchema`.
unfoldable pub is_project_relative : String → Bool
is_project_relative path =
    let text = units path in
    not (str_eq path "")
    && (not (has_prefix (units "/") text)
        && (not (includes (units "\\") text)
            && (not (includes (units "://") text)
                && not (any (same_units (units "..")) (split b'/' text)))))

unfoldable pub is_file_name_segment : String → Bool
is_file_name_segment name =
    not (str_eq name "")
    && (not (includes (units "/") (units name))
        && (not (includes (units "\\") (units name))
            && (not (includes (0 ∷ []) (units name))
                && (not (str_eq name ".") && not (str_eq name "..")))))

unfoldable pub is_canonical_descendant : String → String → String → Bool
is_canonical_descendant sep root path = has_prefix (units root ++ units sep) (units path)

unfoldable pub is_creation_parent : String → String → String → Bool
is_creation_parent sep root parent = str_eq parent root || is_canonical_descendant sep root parent

abbrev pub is_token_unit : ℕ → Bool
is_token_unit c =
    (leb b'A' c && leb c b'Z')
    || ((leb b'a' c && leb c b'z') || ((leb b'0' c && leb c b'9') || (c == b'_' || c == b'-')))

unfoldable pub is_grant_token_shape : String → Bool
is_grant_token_shape token = length (units token) == 43 && all is_token_unit (units token)
