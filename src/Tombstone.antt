-- ===== src/Tombstone.antt =====
-- packages/runtime/session-supervisor/tombstone: boot-tombstone.ts and tombstone-document.ts, over the one
-- file of tombstone-store.ts.
--
-- The file is its text, or none. JSON and the schema library are the record TombstonePlatform, and the
-- answer of the lease probe is an argument. The writes of the store are atomic.
pub mod Blocked
mod Tests
use astroix.Base.{
  ℕ, String, Bool, true, false, not, ◌&&◌, Option, none, some, if◌then◌else◌, ltb, str_eq,
}
use astroix.CloseReport.{SupervisionCloseReport}

pub record IncompleteReapRecordInput : Type 0 where
  pub project_key : String
  pub recorded_pid : Option ℕ
  pub close_report : Option SupervisionCloseReport

pub record TombstoneRecord : Type 0 where
  pub boot_scope : String
  pub reap : IncompleteReapRecordInput

pub data TombstoneUnusableReason : Type 0 where
  corrupt unsupported_future : TombstoneUnusableReason

pub data TombstoneClassification : Type 0 where
  valid : TombstoneRecord → TombstoneClassification
  unusable : TombstoneUnusableReason → TombstoneClassification

-- The `schemaVersion` field, and what JSON.parse and the fields' schema make of a text.
pub data VersionField : Type 0 where
  not_an_integer negative : VersionField
  version : ℕ → VersionField

pub data ParsedTombstone : Type 0 where
  not_json not_an_object : ParsedTombstone
  an_object : (version : VersionField) (fields : Option TombstoneRecord) → ParsedTombstone

abbrev pub classify_fields : Option TombstoneRecord → TombstoneClassification
classify_fields none = unusable corrupt
classify_fields (some r) = valid r

abbrev pub classify_version : VersionField → Option TombstoneRecord → TombstoneClassification
classify_version not_an_integer fields = unusable corrupt
classify_version negative fields = unusable corrupt
classify_version (version n) fields =
    if ltb 1 n
    then unusable unsupported_future
    else if ltb n 1
    then unusable corrupt
    else classify_fields fields

abbrev pub classify_tombstone_document : ParsedTombstone → TombstoneClassification
classify_tombstone_document not_json = unusable corrupt
classify_tombstone_document not_an_object = unusable corrupt
classify_tombstone_document (an_object v fields) = classify_version v fields

pub record TombstonePlatform : Type 0 where
  pub parse : String → ParsedTombstone
  pub serialize : TombstoneRecord → String
  pub is_project_key : String → Bool

pub data EditLeaseProof : Type 0 where
  exclusive contended : EditLeaseProof

pub data BlockReason : Type 0 where
  incomplete_cleanup_tombstone tombstone_unreadable : BlockReason

pub data ActivationAdmission : Type 0 where
  admitted : (cleared_stale_tombstone : Bool) → ActivationAdmission
  blocked : BlockReason → ActivationAdmission

pub data LeaseRecoveryOutcome : Type 0 where
  recovered still_blocked : LeaseRecoveryOutcome

pub data RecordOutcome : Type 0 where
  persisted thrown : RecordOutcome

pub data TombstoneRead : Type 0 where
  absent unreadable : TombstoneRead
  present : TombstoneRecord → TombstoneRead

abbrev pub TombstoneFile : Type 0
TombstoneFile = Option String

abbrev pub read_classified : TombstoneClassification → TombstoneRead
read_classified (unusable reason) = unreadable
read_classified (valid r) = present r

abbrev pub is_stale : String → TombstoneRecord → Bool
is_stale boot_scope r = not (str_eq r.boot_scope boot_scope)

abbrev pub admit_read : String → TombstoneRead → TombstoneFile → TombstoneFile × ActivationAdmission
admit_read boot_scope absent file = (file, admitted false)
admit_read boot_scope unreadable file = (file, blocked tombstone_unreadable)
admit_read boot_scope (present r) file =
    if is_stale boot_scope r
    then (none, admitted true)
    else (file, blocked incomplete_cleanup_tombstone)

abbrev pub prove_and_clear : EditLeaseProof → TombstoneFile → TombstoneFile × LeaseRecoveryOutcome
prove_and_clear exclusive file = (none, recovered)
prove_and_clear contended file = (file, still_blocked)

abbrev pub recover_read :
    String → EditLeaseProof → TombstoneRead → TombstoneFile → TombstoneFile × LeaseRecoveryOutcome
recover_read boot_scope proof absent file = (file, recovered)
recover_read boot_scope proof unreadable file = prove_and_clear proof file
recover_read boot_scope proof (present r) file =
    if is_stale boot_scope r then (none, recovered) else prove_and_clear proof file

module _ (p : TombstonePlatform) where
  abbrev pub read_current : TombstoneFile → TombstoneRead
  read_current none = absent
  read_current (some text) = read_classified (classify_tombstone_document (p.parse text))

  -- The schema's parse throws on an empty scope or a key that is none.
  unfoldable pub record_incomplete_reap :
      String → IncompleteReapRecordInput → TombstoneFile → TombstoneFile × RecordOutcome
  record_incomplete_reap boot_scope reap file =
      if not (str_eq boot_scope "") && p.is_project_key reap.project_key
      then (some (p.serialize (record { boot_scope = boot_scope; reap = reap })), persisted)
      else (file, thrown)

  unfoldable pub admit_activation : String → TombstoneFile → TombstoneFile × ActivationAdmission
  admit_activation boot_scope file = admit_read boot_scope (read_current file) file

  unfoldable pub recover_by_lease_proof :
      String → EditLeaseProof → TombstoneFile → TombstoneFile × LeaseRecoveryOutcome
  recover_by_lease_proof boot_scope proof file =
      recover_read boot_scope proof (read_current file) file
