-- ===== src/Registry/Shape.antt =====
-- packages/runtime/registry/project-registry.ts: the writes that a command can make.
use astroix.Base.{
  ℕ, String, Bool, true, false, Option, none, some, List, [], ◌∷◌, ◌≡◌, refl, Bool-cases, not,
  if◌then◌else◌, inl, inr,
}
use astroix.Documents.{RegistryRecord, RegistryDocument, DocumentClassification, valid, unusable}
use astroix.Registry.{
  RegistryPlatform, Disk, Status, healthy, RegistryState, RegistryResult, Effect, ok_state,
  RegistryCommand, register, rename, remove_project, restore, classify, persist, register_allocated,
  register_new, register_at, rename_found, remove_found, restore_classified, restore_read,
  dispatch_in, dispatch, refuse, restore_unavailable, writes_registry, writes_last_known_good,
  deletes_quarantine, canonicalize_root, find_by, has_key, has_root, name_or, is_bad_name,
}

module _ (p : RegistryPlatform) where
  -- What a command writes: nothing, one document over both files, or the snapshot's text over the registry.
  pub data Shape (s : RegistryState) (e : Effect) : Type 0 where
    idle : e.writes ≡ [] → e.state ≡ s → Shape s e
    saves :
        (d : RegistryDocument)
        → s.status ≡ healthy
        → e.state ≡ (record s { document = d })
        → e.writes ≡ writes_registry (p.serialize d) ∷ writes_last_known_good (p.serialize d) ∷ []
        → Shape s e
    restores :
        (d : RegistryDocument) (text : String)
        → classify p text ≡ valid d
        → e.state ≡ ok_state d
        → e.writes ≡ writes_registry text ∷ deletes_quarantine ∷ []
        → Shape s e

  persist-Shape :
      (s : RegistryState) (rs : List RegistryRecord) (result : RegistryResult)
      → s.status ≡ healthy
      → Shape s (persist p s rs result)
  unfolding persist
  persist-Shape s rs result h = saves (record { records = rs }) h refl refl

  allocated-Shape :
      (allocated : Option String) (root display_name : String) (s : RegistryState)
      → s.status ≡ healthy
      → Shape s (register_allocated p allocated root display_name s)
  allocated-Shape none root display_name s h = idle refl refl
  allocated-Shape (some key) root display_name s h = persist-Shape s _ _ h

  register_new-Shape :
      (found : Option RegistryRecord) (draws : List (List ℕ)) (root : String) (name : Option String)
      (s : RegistryState)
      → s.status ≡ healthy
      → Shape s (register_new p found draws root name s)
  register_new-Shape (some existing) draws root name s h = idle refl refl
  register_new-Shape none draws root name s h =
      elim (Bool-cases (p.is_sanitized (name_or name (p.basename root)))) [
        | inl ok ↦ rw ok (allocated-Shape _ root _ s h)
        | inr bad ↦ rw bad (idle refl refl)
      ]

  register_at-Shape :
      (root : Option String) (draws : List (List ℕ)) (name : Option String) (s : RegistryState)
      → s.status ≡ healthy
      → Shape s (register_at p root draws name s)
  register_at-Shape none draws name s h = idle refl refl
  register_at-Shape (some root) draws name s h = elim (Bool-cases (is_bad_name p name)) [
    | inl bad ↦ rw bad (idle refl refl)
    | inr ok ↦
        rw ok (register_new-Shape (find_by (has_root root) s.document.records) draws root name s h)
  ]

  rename_found-Shape :
      (found : Option RegistryRecord) (name : String) (s : RegistryState)
      → s.status ≡ healthy
      → Shape s (rename_found p found name s)
  rename_found-Shape none name s h = idle refl refl
  rename_found-Shape (some r) name s h = elim (Bool-cases (p.is_sanitized name)) [
    | inl ok ↦ rw ok (persist-Shape s _ _ h)
    | inr bad ↦ rw bad (idle refl refl)
  ]

  remove_found-Shape :
      (is_active : String → Bool) (found : Option RegistryRecord) (s : RegistryState)
      → s.status ≡ healthy
      → Shape s (remove_found p is_active found s)
  remove_found-Shape is_active none s h = idle refl refl
  remove_found-Shape is_active (some r) s h = elim (Bool-cases (is_active r.project_key)) [
    | inl active ↦ rw active (idle refl refl)
    | inr rest ↦ rw rest (persist-Shape s _ _ h)
  ]

  restore_classified-Shape :
      (c : DocumentClassification) (text : String) (s : RegistryState)
      → classify p text ≡ c
      → Shape s (restore_classified p c text s)
  restore_classified-Shape (unusable reason) text s e = idle refl refl
  restore_classified-Shape (valid d) text s e = restores d text e refl refl

  restore_if-Shape :
      (available : Bool) (text : Option String) (s : RegistryState)
      → Shape s (if not available then refuse restore_unavailable s else restore_read p text s)
  restore_if-Shape false text s = idle refl refl
  restore_if-Shape true none s = idle refl refl
  restore_if-Shape true (some text) s = restore_classified-Shape (classify p text) text s refl

  dispatch_in-Shape :
      (status : Status) (c : RegistryCommand) (disk : Disk) (s : RegistryState)
      → s.status ≡ status
      → Shape s (dispatch_in p status c disk s)
  dispatch_in-Shape healthy (register realpath is_directory name draws) disk s h =
      register_at-Shape (canonicalize_root realpath is_directory) draws name s h
  dispatch_in-Shape healthy (rename key name) disk s h =
      rename_found-Shape (find_by (has_key key) s.document.records) name s h
  dispatch_in-Shape healthy (remove_project is_active key) disk s h =
      remove_found-Shape is_active (find_by (has_key key) s.document.records) s h
  dispatch_in-Shape healthy restore disk s h = idle refl refl
  dispatch_in-Shape Status.quarantined restore disk s h =
      restore_if-Shape s.restore_available disk.last_known_good s
  dispatch_in-Shape Status.quarantined (register realpath is_directory name draws) disk s h =
      idle refl refl
  dispatch_in-Shape Status.quarantined (rename key name) disk s h = idle refl refl
  dispatch_in-Shape Status.quarantined (remove_project is_active key) disk s h = idle refl refl

  pub dispatch-Shape :
      (c : RegistryCommand) (disk : Disk) (s : RegistryState) → Shape s (dispatch p c disk s)
  unfolding dispatch
  dispatch-Shape c disk s = dispatch_in-Shape s.status c disk s refl
