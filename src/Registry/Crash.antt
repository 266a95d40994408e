-- ===== src/Registry/Crash.antt =====
-- packages/runtime/registry/project-registry.ts, store.ts: a crash between any two writes of a command.
use astroix.Base.{
  ℕ, zero, suc, String, Option, none, some, [], ◌∷◌, ◌⊎◌, ◌≡◌, ◌∙◌, refl, subst, sym, ap, take, inl,
  inr,
}
use astroix.Documents.{
  RegistryDocument, DocumentClassification, valid, unusable, corrupt, unsupported_future,
}
use astroix.Registry.{
  RegistryPlatform, Disk, DiskWrite, write, write_all, healthy, RegistryState, Effect, ok_state,
  RegistryCommand, classify, dispatch, writes_registry, writes_last_known_good, deletes_quarantine,
}
use astroix.Registry.Load.{load_state, load_from, load_current, load_absent}
use astroix.Registry.Unique.{IsValid}
use astroix.Registry.Classified.{SchemaLaws, classify-serialize, classify-IsValid}
use astroix.Registry.Dispatch.{CommandFits, dispatch-IsValid}
use astroix.Registry.Shape.{Shape, idle, saves, restores, dispatch-Shape}

module _ (p : RegistryPlatform) where
  -- After any number of the writes a load gives the state before or the state after, and after all of
  -- them the state after.
  pub record IsAtomic (disk : Disk) (s : RegistryState) (e : Effect) : Type 0 where
    pub between :
        (n : ℕ)
        → ((load_state p (write_all (take n e.writes) disk)).0 ≡ s)
          ⊎ ((load_state p (write_all (take n e.writes) disk)).0 ≡ e.state)
    pub durable : (load_state p (write_all e.writes disk)).0 ≡ e.state

  -- A registry text that classifies as valid is what a load reads.
  load-valid :
      (disk : Disk) (text : String) (d : RegistryDocument)
      → disk.registry ≡ some text
      → classify p text ≡ valid d
      → (load_state p disk).0 ≡ ok_state d
  unfolding load_state
  load-valid disk text d reads e = rw reads (rw e refl)

  load_current-healthy :
      (c : DocumentClassification) (disk : Disk)
      → (load_current p c disk).0.status ≡ healthy
      → (load_current p c disk).0 ≡ ok_state (load_current p c disk).0.document
  load_current-healthy (valid d) disk h = refl
  load_current-healthy (unusable reason) disk h = cc

  load_absent-healthy :
      (text : Option String) (disk : Disk)
      → (load_absent p text disk).0.status ≡ healthy
      → (load_absent p text disk).0 ≡ ok_state (load_absent p text disk).0.document
  load_absent-healthy none disk h = refl
  load_absent-healthy (some text) disk h = cc

  load_from-healthy :
      (text : Option String) (disk : Disk)
      → (load_from p text disk).0.status ≡ healthy
      → (load_from p text disk).0 ≡ ok_state (load_from p text disk).0.document
  load_from-healthy none disk h = load_absent-healthy disk.quarantined disk h
  load_from-healthy (some text) disk h = load_current-healthy (classify p text) disk h

  -- A state that is healthy on load is the state of a document.
  load-healthy :
      (disk : Disk) (s : RegistryState)
      → (load_state p disk).0 ≡ s
      → s.status ≡ healthy
      → s ≡ ok_state s.document
  unfolding load_state
  load-healthy disk s reads h =
      subst (λ x. x.status ≡ healthy → x ≡ ok_state x.document) reads
        (load_from-healthy disk.registry disk) h

  -- A load of a disk whose registry is valid, after some writes: the first one writes the registry.
  two_writes :
      (disk : Disk) (text : String) (d : RegistryDocument) (w : DiskWrite)
      → classify p text ≡ valid d
      → (write w (record disk { registry = some text })).registry ≡ some text
      → (n : ℕ)
      → ((load_state p (write_all (take n (writes_registry text ∷ w ∷ [])) disk)).0
          ≡ (load_state p disk).0)
        ⊎ ((load_state p (write_all (take n (writes_registry text ∷ w ∷ [])) disk)).0 ≡ ok_state d)
  unfolding write write_all
  two_writes disk text d w e keeps zero = inl refl
  two_writes disk text d w e keeps (suc zero) =
      inr (load-valid (record disk { registry = some text }) text d refl e)
  two_writes disk text d w e keeps (suc (suc zero)) =
      inr (load-valid (write w (record disk { registry = some text })) text d keeps e)
  two_writes disk text d w e keeps (suc (suc (suc n))) =
      inr (load-valid (write w (record disk { registry = some text })) text d keeps e)

  no_writes : (disk : Disk) (n : ℕ) → write_all (take n []) disk ≡ disk
  unfolding write_all
  no_writes disk zero = refl
  no_writes disk (suc n) = refl

  two-IsAtomic :
      (disk : Disk) (e : Effect) (text : String) (d : RegistryDocument) (w : DiskWrite)
      → classify p text ≡ valid d
      → (write w (record disk { registry = some text })).registry ≡ some text
      → e.state ≡ ok_state d
      → e.writes ≡ writes_registry text ∷ w ∷ []
      → IsAtomic disk (load_state p disk).0 e
  unfolding write write_all
  two-IsAtomic disk e text d w reads keeps after ws = record {
    between = λ n. rw ws (rw after (two_writes disk text d w reads keeps n));
    durable =
        rw ws (
          rw after
            (load-valid (write w (record disk { registry = some text })) text d keeps reads));
  }

  abbrev with_document : RegistryDocument → RegistryState → RegistryState
  with_document d s = record s { document = d }

  -- The shape of a command's writes makes it atomic.
  Shape-IsAtomic :
      (disk : Disk) (e : Effect)
      → SchemaLaws p
      → IsValid p e.state.document.records
      → Shape p (load_state p disk).0 e
      → IsAtomic disk (load_state p disk).0 e
  unfolding write write_all
  Shape-IsAtomic disk e laws v (idle w st) = record {
    between = λ n. inl (
        ap (λ ws. (load_state p (write_all (take n ws) disk)).0) w
        ∙ ap (λ x. (load_state p x).0) (no_writes disk n));
    durable = ap (λ ws. (load_state p (write_all ws disk)).0) w ∙ sym st;
  }
  Shape-IsAtomic disk e laws v (saves d h st w) =
      let reads : classify p (p.serialize d) ≡ valid d =
        classify-serialize p laws d (subst (λ x. IsValid p x.document.records) st v) in
      let after : e.state ≡ ok_state d =
        st ∙ ap (with_document d) (load-healthy disk (load_state p disk).0 refl h) in
      two-IsAtomic disk e (p.serialize d) d (writes_last_known_good (p.serialize d)) reads refl
        after w
  Shape-IsAtomic disk e laws v (restores d text valid_text st w) =
      two-IsAtomic disk e text d deletes_quarantine valid_text refl st w

  load_current-IsValid :
      (laws : SchemaLaws p) (text : String) (c : DocumentClassification) (disk : Disk)
      → classify p text ≡ c
      → IsValid p (load_current p c disk).0.document.records
  load_current-IsValid laws text (valid d) disk e = classify-IsValid p laws text d e
  load_current-IsValid laws text (unusable reason) disk e = record { fits = tt; differ = tt }

  load_from-IsValid :
      (laws : SchemaLaws p) (text left : Option String) (disk : Disk)
      → disk.quarantined ≡ left
      → IsValid p (load_from p text disk).0.document.records
  load_from-IsValid laws (some text) left disk e =
      load_current-IsValid laws text (classify p text) disk refl
  load_from-IsValid laws none none disk e = rw e (record { fits = tt; differ = tt })
  load_from-IsValid laws none (some text) disk e = rw e (record { fits = tt; differ = tt })

  -- What a load gives is valid.
  pub load_state-IsValid :
      (laws : SchemaLaws p) (disk : Disk) → IsValid p (load_state p disk).0.document.records
  unfolding load_state
  load_state-IsValid laws disk = load_from-IsValid laws disk.registry disk.quarantined disk refl

  -- Let the schema and the serializer behave as documented, realpath answer absolute paths, and a
  -- command run on the state that a load of the disk gives. Whatever number of the writes of the
  -- command a crash lets through, the next load gives the state before the command or the state
  -- after it, and the state after it once all of them are made.
  pub crash_safe :
      (laws : SchemaLaws p) (c : RegistryCommand) (disk : Disk)
      → CommandFits p laws c
      → IsAtomic disk (load_state p disk).0 (dispatch p c disk (load_state p disk).0)
  crash_safe laws c disk fit =
      Shape-IsAtomic disk (dispatch p c disk (load_state p disk).0) laws
        (dispatch-IsValid p laws c disk (load_state p disk).0 fit (load_state-IsValid laws disk))
        (dispatch-Shape p c disk (load_state p disk).0)

  abbrev disk_of : Option String → Option String → Option String → Disk
  disk_of registry last_known_good quarantined = record {
    registry = registry;
    last_known_good = last_known_good;
    quarantined = quarantined;
  }

  again_current :
      (c : DocumentClassification) (text : String) (good left : Option String) (n : ℕ)
      → classify p text ≡ c
      → (load_state p (
          write_all
            (take n (load_current p c (disk_of (some text) good left)).1)
            (disk_of (some text) good left))).0
        ≡ (load_current p c (disk_of (some text) good left)).0
  unfolding write write_all load_state
  again_current (valid d) text good none zero e = rw e refl
  again_current (valid d) text good none (suc n) e = rw e refl
  again_current (valid d) text good (some left) zero e = rw e refl
  again_current (valid d) text good (some left) (suc zero) e = rw e refl
  again_current (valid d) text good (some left) (suc (suc n)) e = rw e refl
  again_current (unusable reason) text good left zero e = rw e refl
  again_current (unusable corrupt) text good left (suc zero) e = rw e refl
  again_current (unusable corrupt) text good left (suc (suc n)) e = rw e refl
  again_current (unusable unsupported_future) text good left (suc zero) e = rw e refl
  again_current (unusable unsupported_future) text good left (suc (suc n)) e = rw e refl

  again_absent :
      (good left : Option String) (n : ℕ)
      → (load_state p (
          write_all
            (take n (load_absent p left (disk_of none good left)).1)
            (disk_of none good left))).0
        ≡ (load_absent p left (disk_of none good left)).0
  unfolding write_all load_state
  again_absent good none zero = refl
  again_absent good none (suc n) = refl
  again_absent good (some left) zero = refl
  again_absent good (some left) (suc n) = refl

  again_from :
      (registry good left : Option String) (n : ℕ)
      → (load_state p (
          write_all
            (take n (load_state p (disk_of registry good left)).1)
            (disk_of registry good left))).0
        ≡ (load_state p (disk_of registry good left)).0
  unfolding load_state
  again_from none good left n = again_absent good left n
  again_from (some text) good left n = again_current (classify p text) text good left n refl

  -- Whatever number of the writes of a load itself a crash lets through, the next load gives the
  -- same state, the reason of a quarantine and whether it can be restored included.
  pub load_again :
      (disk : Disk) (n : ℕ)
      → (load_state p (write_all (take n (load_state p disk).1) disk)).0 ≡ (load_state p disk).0
  load_again disk n = again_from disk.registry disk.last_known_good disk.quarantined n
