-- ===== src/Tombstone/Blocked.antt =====
-- An incomplete reap blocks activation until the lease is proven exclusive or the machine boots again.
use astroix.Base.{
  String, true, false, some, List, [], ◌∷◌, ◌≡◌, ◌⊎◌, inl, inr, refl, sym, ap, subst, str_eq,
  eq_iff, Bool-cases, All,
}
use astroix.Tombstone.{
  IncompleteReapRecordInput, TombstoneRecord, an_object, version, TombstonePlatform, EditLeaseProof,
  contended, blocked, incomplete_cleanup_tombstone, tombstone_unreadable, BlockReason, persisted,
  TombstoneRead, absent, unreadable, present, TombstoneFile, admit_read, recover_read, read_current,
  record_incomplete_reap, admit_activation, recover_by_lease_proof,
}

-- What was written reads as a record of the same boot.
pub record TombstoneLaws (p : TombstonePlatform) : Type 0 where
  pub round_trip :
      (r : TombstoneRecord)
      → str_eq r.boot_scope "" ≡ false
      → p.is_project_key r.reap.project_key ≡ true
      → (back : TombstoneRecord) × (p.parse (p.serialize r) ≡ an_object (version 1) (some back))
        × (back.boot_scope ≡ r.boot_scope)

-- The calls of one boot.
pub data Call : Type 0 where
  records : IncompleteReapRecordInput → Call
  admits : Call
  recovers : EditLeaseProof → Call

abbrev pub IsUnproven : Call → Type 0
IsUnproven (records reap) = Unit
IsUnproven admits = Unit
IsUnproven (recovers proof) = proof ≡ contended

module _ (p : TombstonePlatform) where
  unfoldable pub call : String → Call → TombstoneFile → TombstoneFile
  call boot (records reap) file = (record_incomplete_reap p boot reap file).0
  call boot admits file = (admit_activation p boot file).0
  call boot (recovers proof) file = (recover_by_lease_proof p boot proof file).0

  unfoldable pub run : String → List Call → TombstoneFile → TombstoneFile
  run boot [] file = file
  run boot (c ∷ cs) file = run boot cs (call boot c file)

  -- A tombstone of this boot, or one that cannot be read.
  abbrev BlocksRead : String → TombstoneRead → Type 0
  BlocksRead boot absent = ⊥
  BlocksRead boot unreadable = Unit
  BlocksRead boot (present r) = str_eq r.boot_scope boot ≡ true

  abbrev pub Blocks : String → TombstoneFile → Type 0
  Blocks boot file = BlocksRead boot (read_current p file)

  recorded-Blocks :
      TombstoneLaws p
      → (boot : String) (reap : IncompleteReapRecordInput) → str_eq boot "" ≡ false
      → p.is_project_key reap.project_key ≡ true
      → Blocks boot (some (p.serialize (record { boot_scope = boot; reap = reap })))
  recorded-Blocks laws boot reap named keyed =
      let (back, read, same) =
        laws.round_trip (record { boot_scope = boot; reap = reap }) named keyed in
      rw read ((eq_iff back.boot_scope boot).1 same)

  record-Blocks :
      TombstoneLaws p
      → (boot : String) (reap : IncompleteReapRecordInput) (file : TombstoneFile)
      → (Blocks boot file) ⊎ ((record_incomplete_reap p boot reap file).1 ≡ persisted)
      → Blocks boot (record_incomplete_reap p boot reap file).0
  unfolding record_incomplete_reap
  record-Blocks laws boot reap file h = elim (Bool-cases (str_eq boot "")) [
    | inl empty ↦ rw empty (elim h [ inl blocks ↦ blocks | inr e ↦ cc (rw empty at e) ])
    | inr named ↦ elim (Bool-cases (p.is_project_key reap.project_key)) [
      | inr unkeyed ↦
          rw (named, unkeyed)
            (elim h [ inl blocks ↦ blocks | inr e ↦ cc (rw (named, unkeyed) at e) ])
      | inl keyed ↦ rw (named, keyed) (recorded-Blocks laws boot reap named keyed)
    ]
  ]

  admit-Blocks :
      (boot : String) (read : TombstoneRead) (file : TombstoneFile)
      → BlocksRead boot read
      → (reason : BlockReason) × (admit_read boot read file ≡ (file, blocked reason))
  admit-Blocks boot absent file h = absurd h
  admit-Blocks boot unreadable file h = (tombstone_unreadable, refl)
  admit-Blocks boot (present r) file h = (incomplete_cleanup_tombstone, rw h refl)

  recover-Blocks :
      (boot : String) (read : TombstoneRead) (file : TombstoneFile)
      → BlocksRead boot read
      → (recover_read boot contended read file).0 ≡ file
  recover-Blocks boot absent file h = absurd h
  recover-Blocks boot unreadable file h = refl
  recover-Blocks boot (present r) file h = rw h refl

  call-Blocks :
      TombstoneLaws p
      → (boot : String) (c : Call) (file : TombstoneFile) → IsUnproven c
      → Blocks boot file
      → Blocks boot (call boot c file)
  unfolding call admit_activation recover_by_lease_proof
  call-Blocks laws boot (records reap) file u h = record-Blocks laws boot reap file (inl h)
  call-Blocks laws boot admits file u h =
      subst (λ r. Blocks boot r.0) (sym (admit-Blocks boot (read_current p file) file h).1) h
  call-Blocks laws boot (recovers proof) file u h =
      rw u (subst (Blocks boot) (sym (recover-Blocks boot (read_current p file) file h)) h)

  run-Blocks :
      TombstoneLaws p
      → (boot : String) (cs : List Call) (file : TombstoneFile) → All IsUnproven cs
      → Blocks boot file
      → Blocks boot (run boot cs file)
  unfolding run
  run-Blocks laws boot [] file u h = h
  run-Blocks laws boot (c ∷ cs) file u h =
      run-Blocks laws boot cs (call boot c file) u.1 (call-Blocks laws boot c file u.0 h)

  -- Let what was written read as a record of the same boot. Once an incomplete reap was recorded,
  -- no calls of the same boot lead to an admission of an activation unless the lease was proven
  -- exclusive.
  pub blocked_until_proof :
      (laws : TombstoneLaws p) (boot : String) (reap : IncompleteReapRecordInput)
      (file : TombstoneFile) (cs : List Call)
      → (record_incomplete_reap p boot reap file).1 ≡ persisted
      → All IsUnproven cs
      → (reason : BlockReason) × ((admit_activation p boot
            (run boot cs (record_incomplete_reap p boot reap file).0)).1
          ≡ blocked reason)
  unfolding admit_activation
  blocked_until_proof laws boot reap file cs recorded unproven =
      let left = run boot cs (record_incomplete_reap p boot reap file).0 in
      let verdict = admit-Blocks boot (read_current p left) left (
        run-Blocks laws boot cs (record_incomplete_reap p boot reap file).0 unproven
          (record-Blocks laws boot reap file (inr recorded))) in
      (verdict.0, ap (λ r. r.1) verdict.1)
