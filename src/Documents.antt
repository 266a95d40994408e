-- ===== src/Documents.antt =====
-- packages/runtime/registry/document.ts: the registry's document and the classification of a file's text.
--
-- JSON.parse and the strict schema of the fields are the library's: ParsedDocument is what they
-- answer. The order of the tests, the versions and the search for duplicates are the source's.
use astroix.Base.{
  ℕ, String, Bool, true, false, Option, none, some, List, [], ◌∷◌, if◌then◌else◌, ltb, str_eq, any,
}

pub record RegistryRecord : Type 0 where
  pub project_key : String
  pub canonical_root : String
  pub display_name : String

-- The schema version is the literal 1.
pub record RegistryDocument : Type 0 where
  pub records : List RegistryRecord

pub data QuarantineReason : Type 0 where
  corrupt unsupported_future : QuarantineReason

pub data DocumentClassification : Type 0 where
  valid : RegistryDocument → DocumentClassification
  unusable : QuarantineReason → DocumentClassification

-- The `schemaVersion` field of a parsed value.
pub data VersionField : Type 0 where
  not_an_integer negative : VersionField
  version : ℕ → VersionField

-- What JSON.parse makes of a text, and for an object what the fields' schema makes of it.
pub data ParsedDocument : Type 0 where
  not_json not_an_object : ParsedDocument
  an_object : (version : VersionField) (fields : Option RegistryDocument) → ParsedDocument

-- `superRefine`: the sets of the keys and of the roots seen so far.
unfoldable pub has_duplicates : (keys roots : List String) → List RegistryRecord → Bool
has_duplicates keys roots [] = false
has_duplicates keys roots (r ∷ rs) =
    let rest = has_duplicates (r.project_key ∷ keys) (r.canonical_root ∷ roots) rs in
    if any (λ key. str_eq key r.project_key) keys
    then true
    else if any (λ root. str_eq root r.canonical_root) roots
    then true
    else rest

abbrev pub classify_schema : Option RegistryDocument → DocumentClassification
classify_schema none = unusable corrupt
classify_schema (some document) =
    if has_duplicates [] [] document.records then unusable corrupt else valid document

abbrev pub classify_version : VersionField → Option RegistryDocument → DocumentClassification
classify_version not_an_integer fields = unusable corrupt
classify_version negative fields = unusable corrupt
classify_version (version n) fields =
    if ltb 1 n
    then unusable unsupported_future
    else if ltb n 1
    then unusable corrupt
    else classify_schema fields

abbrev pub classify_registry_document : ParsedDocument → DocumentClassification
classify_registry_document not_json = unusable corrupt
classify_registry_document not_an_object = unusable corrupt
classify_registry_document (an_object v fields) = classify_version v fields

abbrev pub empty_registry_document : RegistryDocument
empty_registry_document = record { records = [] }
