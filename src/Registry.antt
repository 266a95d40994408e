-- ===== src/Registry.antt =====
-- packages/runtime/registry: project-registry.ts, with the files of store.ts and the identities of
-- identity.ts.
--
-- The registry's three files are the record Disk. A command gives the writes that it makes, in order, each of
-- which the store makes atomically; a crash keeps some first of them. The queue runs one command at
-- a time. The JSON and schema libraries, the disclosure guard and `basename` are the record
-- RegistryPlatform; the bytes that are drawn for a key, until the loop that allocates it ends, and the
-- answers of the file system are arguments.
pub mod Unique
pub mod Duplicates
pub mod Classified
pub mod Dispatch
pub mod Shape
pub mod Load
pub mod Crash
mod Tests
use astroix.Base.{
  ℕ, String, Bool, true, false, not, Option, none, some, List, [], ◌∷◌, ◌++◌, map, if◌then◌else◌,
  str_eq, remove,
}
use astroix.Documents.{
  RegistryRecord, RegistryDocument, QuarantineReason, corrupt, unsupported_future,
  DocumentClassification, valid, unusable, ParsedDocument, classify_registry_document,
  empty_registry_document,
}
use astroix.ProjectKey.{allocate_project_key}

pub record RegistryPlatform : Type 0 where
  pub parse : String → ParsedDocument
  pub serialize : RegistryDocument → String
  pub is_sanitized : String → Bool
  pub is_project_key : String → Bool
  pub basename : String → String

pub record Disk : Type 0 where
  pub registry : Option String
  pub last_known_good : Option String
  pub quarantined : Option String

pub data DiskWrite : Type 0 where
  writes_registry writes_last_known_good : String → DiskWrite
  quarantines_current deletes_quarantine : DiskWrite

abbrev pub quarantine_current : Option String → Disk → Disk
quarantine_current none disk = disk
quarantine_current (some text) disk = record disk { registry = none; quarantined = some text }

unfoldable pub write : DiskWrite → Disk → Disk
write (writes_registry text) disk = record disk { registry = some text }
write (writes_last_known_good text) disk = record disk { last_known_good = some text }
write quarantines_current disk = quarantine_current disk.registry disk
write deletes_quarantine disk = record disk { quarantined = none }

unfoldable pub write_all : List DiskWrite → Disk → Disk
write_all [] disk = disk
write_all (w ∷ ws) disk = write_all ws (write w disk)

pub data Status : Type 0 where
  healthy quarantined : Status

pub record RegistryState : Type 0 where
  pub status : Status
  pub document : RegistryDocument
  pub quarantine_reason : Option QuarantineReason
  pub restore_available : Bool

pub data RegistryErrorCode : Type 0 where
  quarantined not_quarantined restore_unavailable root_unavailable unknown_project_key active_record
        invalid_display_name closed :
      RegistryErrorCode

pub data RegistryResult : Type 0 where
  registered : RegistryRecord → (existed : Bool) → RegistryResult
  renamed removed : RegistryRecord → RegistryResult
  restored : List RegistryRecord → RegistryResult
  failure : RegistryErrorCode → RegistryResult
  thrown : RegistryResult

-- The state after a command, its writes, and its result.
pub record Effect : Type 0 where
  pub state : RegistryState
  pub writes : List DiskWrite
  pub result : RegistryResult

abbrev pub ok_state : RegistryDocument → RegistryState
ok_state document = record {
  status = healthy;
  document = document;
  quarantine_reason = none;
  restore_available = false;
}

abbrev pub refuse : RegistryErrorCode → RegistryState → Effect
refuse code s = record { state = s; writes = []; result = failure code }

unfoldable pub find_by : (RegistryRecord → Bool) → List RegistryRecord → Option RegistryRecord
find_by p [] = none
find_by p (r ∷ rs) = if p r then some r else find_by p rs

abbrev pub has_key : String → RegistryRecord → Bool
has_key key r = str_eq r.project_key key

abbrev pub has_root : String → RegistryRecord → Bool
has_root root r = str_eq r.canonical_root root

-- `canonicalizeRoot`: realpath, then a check that the answer is a directory.
abbrev pub canonicalize_root : Option String → Option Bool → Option String
canonicalize_root (some resolved) (some true) = some resolved
canonicalize_root _ _ = none

abbrev pub name_or : Option String → String → String
name_or none default_name = default_name
name_or (some name) default_name = name

pub data RegistryCommand : Type 0 where
  register :
      (realpath : Option String) (is_directory : Option Bool) (name : Option String)
      (draws : List (List ℕ))
      → RegistryCommand
  rename : (project_key display_name : String) → RegistryCommand
  remove_project : (is_active : String → Bool) (project_key : String) → RegistryCommand
  restore : RegistryCommand

module _ (p : RegistryPlatform) where
  abbrev pub classify : String → DocumentClassification
  classify text = classify_registry_document (p.parse text)

  unfoldable pub persist : RegistryState → List RegistryRecord → RegistryResult → Effect
  persist s records result =
      let document : RegistryDocument = record { records = records } in
      record {
        state = record s { document = document };
        writes =
            writes_registry (p.serialize document)
            ∷ writes_last_known_good (p.serialize document)
            ∷ [];
        result = result;
      }

  abbrev pub is_bad_name : Option String → Bool
  is_bad_name none = false
  is_bad_name (some name) = not (p.is_sanitized name)

  -- The record is persisted under the key that was allocated; an allocation that throws ends the
  -- command before it persists.
  abbrev pub register_allocated :
      Option String → (root display_name : String) → RegistryState → Effect
  register_allocated none root display_name s = record { state = s; writes = []; result = thrown }
  register_allocated (some key) root display_name s =
      let r : RegistryRecord = record {
        project_key = key;
        canonical_root = root;
        display_name = display_name;
      } in
      persist s (s.document.records ++ (r ∷ [])) (registered r false)

  -- After the alias resolution.
  abbrev pub register_new :
      Option RegistryRecord → List (List ℕ) → String → Option String → RegistryState → Effect
  register_new (some existing) draws root name s = record {
    state = s;
    writes = [];
    result = registered existing true;
  }
  register_new none draws root name s =
      let display_name : String = name_or name (p.basename root) in
      if not (p.is_sanitized display_name)
      then refuse invalid_display_name s
      else register_allocated
          (allocate_project_key p.is_project_key (map (λ r. r.project_key) s.document.records)
            draws)
          root display_name s

  abbrev pub register_at : Option String → List (List ℕ) → Option String → RegistryState → Effect
  register_at none draws name s = refuse root_unavailable s
  register_at (some root) draws name s =
      if is_bad_name name
      then refuse invalid_display_name s
      else register_new (find_by (has_root root) s.document.records) draws root name s

  abbrev pub renamed_in : RegistryRecord → RegistryRecord → RegistryRecord
  renamed_in renamed_record r = if has_key renamed_record.project_key r then renamed_record else r

  abbrev pub rename_found : Option RegistryRecord → String → RegistryState → Effect
  rename_found none name s = refuse unknown_project_key s
  rename_found (some r) name s =
      let renamed_record : RegistryRecord = record r { display_name = name } in
      if not (p.is_sanitized name)
      then refuse invalid_display_name s
      else persist s (map (renamed_in renamed_record) s.document.records) (renamed renamed_record)

  abbrev pub remove_found : (String → Bool) → Option RegistryRecord → RegistryState → Effect
  remove_found is_active none s = refuse unknown_project_key s
  remove_found is_active (some r) s =
      if is_active r.project_key
      then refuse active_record s
      else persist s (remove (has_key r.project_key) s.document.records) (removed r)

  abbrev pub restore_classified : DocumentClassification → String → RegistryState → Effect
  restore_classified (unusable reason) text s = refuse restore_unavailable s
  restore_classified (valid document) text s = record {
    state = ok_state document;
    writes = writes_registry text ∷ deletes_quarantine ∷ [];
    result = restored document.records;
  }

  abbrev pub restore_read : Option String → RegistryState → Effect
  restore_read none s = refuse restore_unavailable s
  restore_read (some text) s = restore_classified (classify text) text s

  abbrev pub dispatch_healthy : RegistryCommand → RegistryState → Effect
  dispatch_healthy (register realpath is_directory name draws) s =
      register_at (canonicalize_root realpath is_directory) draws name s
  dispatch_healthy (rename key name) s =
      rename_found (find_by (has_key key) s.document.records) name s
  dispatch_healthy (remove_project is_active key) s =
      remove_found is_active (find_by (has_key key) s.document.records) s
  dispatch_healthy restore s = refuse not_quarantined s

  abbrev pub dispatch_quarantined : RegistryCommand → Disk → RegistryState → Effect
  dispatch_quarantined restore disk s =
      if not s.restore_available
      then refuse restore_unavailable s
      else restore_read disk.last_known_good s
  dispatch_quarantined _ disk s = refuse RegistryErrorCode.quarantined s

  abbrev pub dispatch_in : Status → RegistryCommand → Disk → RegistryState → Effect
  dispatch_in healthy c disk s = dispatch_healthy c s
  dispatch_in Status.quarantined c disk s = dispatch_quarantined c disk s

  unfoldable pub dispatch : RegistryCommand → Disk → RegistryState → Effect
  dispatch c disk s = dispatch_in s.status c disk s
