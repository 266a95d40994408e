-- ===== src/Registry/Dispatch.antt =====
-- packages/runtime/registry/project-registry.ts: the document after any command.
use astroix.Base.{
  String, Bool, true, false, not, Option, none, some, List, ℕ, map, ◌≡◌, refl, Bool-cases,
  if◌then◌else◌, inl, inr,
}
use text.Mathlib.Text.{starts_with}
use astroix.Documents.{RegistryRecord, RegistryDocument, DocumentClassification, valid, unusable}
use astroix.Registry.{
  RegistryPlatform, Disk, healthy, Status, RegistryState, RegistryCommand, register, rename,
  remove_project, restore, classify, persist, register_new, register_at, rename_found, remove_found,
  restore_classified, restore_read, register_allocated, refuse, restore_unavailable, dispatch_in,
  dispatch, find_by, has_key, has_root, canonicalize_root, name_or, is_bad_name,
}
use astroix.ProjectKey.{allocate_project_key}
use astroix.ProjectKey.Allocation.{IsNew, allocate_project_key-IsNew, any_key}
use astroix.Registry.Unique.{IsValid, remove-IsValid, find_by-none, append-IsValid, rename-IsValid}
use astroix.Registry.Classified.{SchemaLaws, classify-IsValid}

module _ (p : RegistryPlatform) (laws : SchemaLaws p) where
  -- What realpath answers to a register is absolute.
  abbrev pub CommandFits : RegistryCommand → Type 0
  CommandFits (register realpath is_directory name draws) =
      (root : String) → realpath ≡ some root → starts_with root "/" ≡ true
  CommandFits _ = Unit

  allocated-IsValid :
      (allocated : Option String) (root display_name : String) (s : RegistryState)
      → ((key : String)
          → allocated ≡ some key
          → IsNew p.is_project_key (map (λ r. r.project_key) s.document.records) key)
      → starts_with root "/" ≡ true
      → p.is_sanitized display_name ≡ true
      → find_by (has_root root) s.document.records ≡ none
      → IsValid p s.document.records
      → IsValid p (register_allocated p allocated root display_name s).state.document.records
  unfolding persist
  allocated-IsValid none root display_name s fresh absolute named e v = v
  allocated-IsValid (some key) root display_name s fresh absolute named e v =
      let own = fresh key refl in
      append-IsValid p s.document.records
        (record { project_key = key; canonical_root = root; display_name = display_name })
        (record { key = own.0; root = absolute; name = named })
        (any_key key s.document.records own.1) (find_by-none p (has_root root) s.document.records e)
        v

  register-IsValid :
      (found : Option RegistryRecord) (draws : List (List ℕ)) (root : String) (name : Option String)
      (s : RegistryState)
      → starts_with root "/" ≡ true
      → find_by (has_root root) s.document.records ≡ found
      → IsValid p s.document.records
      → IsValid p (register_new p found draws root name s).state.document.records
  register-IsValid (some existing) draws root name s absolute e v = v
  register-IsValid none draws root name s absolute e v =
      elim (Bool-cases (p.is_sanitized (name_or name (p.basename root)))) [
        | inl ok ↦ rw ok (
            allocated-IsValid
              (allocate_project_key p.is_project_key (map (λ r. r.project_key) s.document.records)
                draws)
              root (name_or name (p.basename root)) s
              (allocate_project_key-IsNew p.is_project_key
                (map (λ r. r.project_key) s.document.records) draws)
              absolute ok e v)
        | inr bad ↦ rw bad v
      ]

  register_at-IsValid :
      (realpath : Option String) (is_directory : Option Bool) (draws : List (List ℕ))
      (name : Option String) (s : RegistryState)
      → CommandFits (register realpath is_directory name draws)
      → IsValid p s.document.records
      → IsValid p
          (register_at p
            (canonicalize_root realpath is_directory)
            draws
            name
            s).state.document.records
  register_at-IsValid none is_directory draws name s fit v = v
  register_at-IsValid (some root) none draws name s fit v = v
  register_at-IsValid (some root) (some false) draws name s fit v = v
  register_at-IsValid (some root) (some true) draws name s fit v =
      elim (Bool-cases (is_bad_name p name)) [
        | inl bad ↦ rw bad v
        | inr ok ↦ rw ok (
            register-IsValid (find_by (has_root root) s.document.records) draws root name s
              (fit root refl) refl v)
      ]

  rename_found-IsValid :
      (found : Option RegistryRecord) (key name : String) (s : RegistryState)
      → find_by (has_key key) s.document.records ≡ found
      → IsValid p s.document.records
      → IsValid p (rename_found p found name s).state.document.records
  unfolding persist
  rename_found-IsValid none key name s e v = v
  rename_found-IsValid (some r) key name s e v = elim (Bool-cases (p.is_sanitized name)) [
    | inl ok ↦ rw ok (rename-IsValid p key name r s.document.records e ok v)
    | inr bad ↦ rw bad v
  ]

  remove_found-IsValid :
      (is_active : String → Bool) (found : Option RegistryRecord) (s : RegistryState)
      → IsValid p s.document.records
      → IsValid p (remove_found p is_active found s).state.document.records
  unfolding persist
  remove_found-IsValid is_active none s v = v
  remove_found-IsValid is_active (some r) s v = elim (Bool-cases (is_active r.project_key)) [
    | inl active ↦ rw active v
    | inr idle ↦ rw idle (remove-IsValid p (has_key r.project_key) s.document.records v)
  ]

  restore_classified-IsValid :
      (c : DocumentClassification) (text : String) (s : RegistryState)
      → ((d : RegistryDocument) → c ≡ valid d → IsValid p d.records)
      → IsValid p s.document.records
      → IsValid p (restore_classified p c text s).state.document.records
  restore_classified-IsValid (unusable reason) text s is_valid v = v
  restore_classified-IsValid (valid d) text s is_valid v = is_valid d refl

  restore_read-IsValid :
      (text : Option String) (s : RegistryState)
      → IsValid p s.document.records
      → IsValid p (restore_read p text s).state.document.records
  restore_read-IsValid none s v = v
  restore_read-IsValid (some text) s v =
      restore_classified-IsValid (classify p text) text s (classify-IsValid p laws text) v

  restore_if-IsValid :
      (available : Bool) (text : Option String) (s : RegistryState)
      → IsValid p s.document.records
      → IsValid p
          (if not available
            then refuse restore_unavailable s
            else restore_read p text s).state.document.records
  restore_if-IsValid true text s v = restore_read-IsValid text s v
  restore_if-IsValid false text s v = v

  dispatch_in-IsValid :
      (status : Status) (c : RegistryCommand) (disk : Disk) (s : RegistryState)
      → CommandFits c
      → IsValid p s.document.records
      → IsValid p (dispatch_in p status c disk s).state.document.records
  dispatch_in-IsValid healthy (register realpath is_directory name draws) disk s fit v =
      register_at-IsValid realpath is_directory draws name s fit v
  dispatch_in-IsValid healthy (rename key name) disk s fit v =
      rename_found-IsValid (find_by (has_key key) s.document.records) key name s refl v
  dispatch_in-IsValid healthy (remove_project is_active key) disk s fit v =
      remove_found-IsValid is_active (find_by (has_key key) s.document.records) s v
  dispatch_in-IsValid healthy restore disk s fit v = v
  dispatch_in-IsValid Status.quarantined restore disk s fit v =
      restore_if-IsValid s.restore_available disk.last_known_good s v
  dispatch_in-IsValid Status.quarantined (register realpath is_directory name draws) disk s fit v =
      v
  dispatch_in-IsValid Status.quarantined (rename key name) disk s fit v = v
  dispatch_in-IsValid Status.quarantined (remove_project is_active key) disk s fit v = v

  -- Let the schema and the serializer behave as documented, and realpath answer absolute paths. A
  -- command keeps the document of the registry valid, whatever bytes are drawn for a key: its
  -- records fit the schema and no two have the same key or the same root.
  pub dispatch-IsValid :
      (c : RegistryCommand) (disk : Disk) (s : RegistryState)
      → CommandFits c
      → IsValid p s.document.records
      → IsValid p (dispatch p c disk s).state.document.records
  unfolding dispatch
  dispatch-IsValid c disk s fit v = dispatch_in-IsValid s.status c disk s fit v
