-- ===== src/Registry/Load.antt =====
-- packages/runtime/registry/project-registry.ts: the load of the three files, and its own writes.
use astroix.Base.{String, Bool, true, false, Option, none, some, List, [], ◌∷◌}
use astroix.Documents.{
  QuarantineReason, corrupt, unsupported_future, DocumentClassification, valid, unusable,
  empty_registry_document,
}
use astroix.Registry.{
  RegistryPlatform, Disk, DiskWrite, deletes_quarantine, quarantines_current, Status, RegistryState,
  ok_state, classify,
}

module _ (p : RegistryPlatform) where
  -- The load, which may quarantine the current file or clear a leftover.
  abbrev pub is_valid : DocumentClassification → Bool
  is_valid (valid document) = true
  is_valid (unusable reason) = false

  abbrev pub snapshot_is_restorable : Option String → Bool
  snapshot_is_restorable none = false
  snapshot_is_restorable (some text) = is_valid (classify p text)

  abbrev pub quarantined_state : QuarantineReason → Disk → RegistryState
  quarantined_state reason disk = record {
    status = Status.quarantined;
    document = empty_registry_document;
    quarantine_reason = some reason;
    restore_available = snapshot_is_restorable disk.last_known_good;
  }

  abbrev pub load_current : DocumentClassification → Disk → RegistryState × List DiskWrite
  load_current (valid document) disk =
      (ok_state document, elim disk.quarantined [ none ↦ [] | some text ↦ deletes_quarantine ∷ [] ])
  load_current (unusable reason) disk = (quarantined_state reason disk, quarantines_current ∷ [])

  abbrev pub reason_of : DocumentClassification → QuarantineReason
  reason_of (unusable unsupported_future) = unsupported_future
  reason_of _ = corrupt

  abbrev pub load_absent : Option String → Disk → RegistryState × List DiskWrite
  load_absent none disk = (ok_state empty_registry_document, [])
  load_absent (some text) disk = (quarantined_state (reason_of (classify p text)) disk, [])

  abbrev pub load_from : Option String → Disk → RegistryState × List DiskWrite
  load_from (some text) disk = load_current (classify p text) disk
  load_from none disk = load_absent disk.quarantined disk

  unfoldable pub load_state : Disk → RegistryState × List DiskWrite
  load_state disk = load_from disk.registry disk
