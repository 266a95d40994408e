-- ===== src/Executor/Recheck.antt =====
-- The recheck of the executor, derived on its own, against the verification of the grant table.
use astroix.Base.{
  ℕ, String, ◌≡◌, ◌↔◌, ap, ◌∙◌, Option, none, some, List, arith, inl, inr, Bool-cases,
}
use astroix.Base.Fallible.{ok}
use astroix.World.{World, Platform, FileInfo, found, permission_bits}
use astroix.Grants.Vocabulary.{
  RevisionContract, sha256, expected_absent, Target, existing, creation, GrantedResource,
}
use astroix.Grants.{verify, verify_existing, verify_creation, is_existing}
use astroix.Executor.{
  Validated, FinalValidation, existing_at, creation_at, validate_existing_target,
  validate_creation_target, validate_target,
}

abbrev pub text_of : FinalValidation → Option (List ℕ)
text_of (existing_at path text mode) = some text
text_of (creation_at parent name) = none

verify_existing_values :
    (p : Platform) (w : World) (r : GrantedResource) (path digest : String) (text : Option (List ℕ))
    → verify_existing p w r (existing path) (sha256 digest) ≡ ok text
    → (canonical : String) × (w.realpath path ≡ some canonical)
      × ((info : FileInfo) × (w.lstat canonical ≡ found info))
      × ((bytes : List ℕ) × (w.read canonical ≡ some bytes))
verify_existing_values p w r path digest text e = ground arith

verify_creation_values :
    (p : Platform) (w : World) (r : GrantedResource) (path name : String) (text : Option (List ℕ))
    → verify_creation p w r (creation path name) expected_absent ≡ ok text
    → (parent : String) × (w.realpath path ≡ some parent)
verify_creation_values p w r path name text e = ground arith

verify-to-validate :
    (p : Platform) (w : World) (r : GrantedResource) (t : Target) (b : RevisionContract)
    (text : Option (List ℕ))
    → verify_existing p w r t b ≡ ok text
    → (world : FinalValidation) × (validate_existing_target p w r t b ≡ ok world)
      × (text_of world ≡ text)
verify-to-validate p w r (existing path) (sha256 digest) text e =
    let (canonical, resolved, (info, statted), (bytes, contents)) =
      verify_existing_values p w r path digest text e in
    (existing_at canonical (p.decode bytes) (permission_bits info.mode), ground arith, ground arith)
verify-to-validate p w r (existing path) expected_absent text e = cc
verify-to-validate p w r (creation path name) b text e = cc

validate-to-verify :
    (p : Platform) (w : World) (r : GrantedResource) (t : Target) (b : RevisionContract)
    (world : FinalValidation)
    → validate_existing_target p w r t b ≡ ok world
    → verify_existing p w r t b ≡ ok (text_of world)
validate-to-verify p w r (existing path) (sha256 digest) world e = ground arith
validate-to-verify p w r (existing path) expected_absent world e = cc
validate-to-verify p w r (creation path name) b world e = cc

verify-to-validate_creation :
    (p : Platform) (w : World) (r : GrantedResource) (t : Target) (b : RevisionContract)
    (text : Option (List ℕ))
    → verify_creation p w r t b ≡ ok text
    → (world : FinalValidation) × (validate_creation_target p w r t b ≡ ok world)
      × (text_of world ≡ text)
verify-to-validate_creation p w r (creation path name) expected_absent text e =
    let (parent, resolved) = verify_creation_values p w r path name text e in
    (creation_at parent name, ground arith, ground arith)
verify-to-validate_creation p w r (creation path name) (sha256 digest) text e = cc
verify-to-validate_creation p w r (existing path) b text e = cc

validate-to-verify_creation :
    (p : Platform) (w : World) (r : GrantedResource) (t : Target) (b : RevisionContract)
    (world : FinalValidation)
    → validate_creation_target p w r t b ≡ ok world
    → verify_creation p w r t b ≡ ok (text_of world)
validate-to-verify_creation p w r (creation path name) expected_absent world e = ground arith
validate-to-verify_creation p w r (creation path name) (sha256 digest) world e = cc
validate-to-verify_creation p w r (existing path) b world e = cc

abbrev pub Verdict : Platform → World → GrantedResource → Option (List ℕ) → Type 0
Verdict p w r text =
    (world : FinalValidation) × (validate_target p w r ≡ ok world) × (text_of world ≡ text)

eq_of_ok : {a b : FinalValidation} → ◌≡◌ {A = Validated FinalValidation} (ok a) (ok b) → a ≡ b
eq_of_ok e = cc

-- The recheck of the executor accepts a granted resource, with the text that it read, exactly when
-- the verification of the grant table does, against the same answers of the file system.
pub validate_target_iff :
    (p : Platform) (w : World) (r : GrantedResource) (text : Option (List ℕ))
    → (verify p w r ≡ ok text) ↔ Verdict p w r text
unfolding verify validate_target
validate_target_iff p w r text = elim (Bool-cases (is_existing r.target)) [
  | inl held ↦ rw held (
    verify-to-validate p w r r.target r.baseline text,
    λ v. validate-to-verify p w r r.target r.baseline v.0 v.1 ∙ ap (λ o. ok o) v.2,
  )
  | inr free ↦ rw free (
    verify-to-validate_creation p w r r.target r.baseline text,
    λ v. validate-to-verify_creation p w r r.target r.baseline v.0 v.1 ∙ ap (λ o. ok o) v.2,
  )
]
