-- ===== src/Executor.antt =====
-- packages/runtime/edit-authority/executor: write-executor.ts (the pipeline of one operation),
-- final-validation.ts and commit.ts.
--
-- `run_operation` gives the outcome and the calls that changed, or tried to change, the file
-- system, in order, each with the answer that it got. What Node answers is `Answers`; the random
-- name of the temporary file is an argument.
pub mod Recheck
pub mod Accepts
pub mod Landing
pub mod Queue
pub mod Tests
use astroix.Base.{
  ℕ, String, Bool, true, false, ◌&&◌, ◌||◌, not, Option, none, some, List, [], ◌∷◌, ◌++◌, ltb, leb,
  str_eq, if◌then◌else◌, length, drop, take,
}
use Prim.Native.String.{◌++◌ as join_text}
use astroix.Base.Fallible.{
  Fallible, ok, failure, thrown, ◌>>=◌, ◌>>◌, require, or_failure, or_throw,
}
use astroix.Session.{SessionRef, same_session}
use astroix.World.{World, Platform, FileInfo, Lstat, stat, is_absent, permission_bits}
use astroix.Grants.Vocabulary.{
  permits, RevisionContract, sha256, expected_absent, Target, existing, creation, GrantedResource,
  is_canonical_descendant, is_creation_parent,
}
use astroix.Grants.{is_existing}
use astroix.DrainReport.{
  WriteRejectionCode, cross_session, wrong_root, operation_not_allowed, operation_target_mismatch,
  target_moved, target_absent, parent_absent, parent_not_directory, not_a_file, hard_linked_target,
  changed_baseline, target_exists, range_outside_baseline, WriteFailureCode, read_failed,
  write_failed, replace_failed, create_failed, WriteOutcome,
}
use astroix.Plans.{Payload, replaces, splices, creates, operation_of, DomainWritePlan, SourceRange}

abbrev pub Validated : Type 0 → Type 0
Validated A = Fallible WriteRejectionCode A

pub record WriteExecutorOptions : Type 0 where
  pub canonical_root : String
  pub session : SessionRef

abbrev pub is_coherent : Payload → Target → RevisionContract → Bool
is_coherent (creates contents) (creation parent name) expected_absent = true
is_coherent (replaces contents) (existing path) (sha256 digest) = true
is_coherent (splices range replacement) (existing path) (sha256 digest) = true
is_coherent _ _ _ = false

unfoldable pub check_facts : WriteExecutorOptions → DomainWritePlan → Validated (Unit {0})
check_facts options plan = do
  let r = plan.resource
  require (same_session r.session options.session) cross_session
  require (str_eq r.canonical_root options.canonical_root) wrong_root
  require (permits r.operations (operation_of plan.payload)) operation_not_allowed
  require (is_coherent plan.payload r.target r.baseline) operation_target_mismatch

-- The world that a commit proceeds from.
pub data FinalValidation : Type 0 where
  existing_at : (canonical_path : String) (text : List ℕ) (mode : ℕ) → FinalValidation
  creation_at : (canonical_parent file_name : String) → FinalValidation

module _ (p : Platform) (w : World) where
  abbrev pub validate_existing_target :
      GrantedResource → Target → RevisionContract → Validated FinalValidation
  validate_existing_target r (existing path) (sha256 baseline) = do
    canonical ← or_failure (w.realpath path) target_absent
    require (str_eq canonical path && is_canonical_descendant p.sep r.canonical_root canonical)
        target_moved
    info ← stat w canonical
    require info.is_file not_a_file
    require (leb info.nlink 1) hard_linked_target
    bytes ← or_throw (w.read canonical)
    require (str_eq (p.sha256 bytes) baseline) changed_baseline
    ok (existing_at canonical (p.decode bytes) (permission_bits info.mode))
  validate_existing_target r _ _ = failure changed_baseline

  abbrev pub validate_creation_target :
      GrantedResource → Target → RevisionContract → Validated FinalValidation
  validate_creation_target r (creation path name) expected_absent = do
    parent ← or_failure (w.realpath path) parent_absent
    require (str_eq parent path) target_moved
    require (is_creation_parent p.sep r.canonical_root parent) target_moved
    info ← stat w parent
    require info.is_directory parent_not_directory
    free ← is_absent w (p.join parent name)
    require free target_exists
    ok (creation_at parent name)
  validate_creation_target r _ _ = failure changed_baseline

  unfoldable pub validate_target : GrantedResource → Validated FinalValidation
  validate_target r =
      if is_existing r.target
      then validate_existing_target r r.target r.baseline
      else validate_creation_target r r.target r.baseline

-- The text between two texts: a splice.
abbrev pub splice_text : SourceRange → List ℕ → List ℕ → List ℕ
splice_text range replacement text = take range.start text ++ (replacement ++ drop range.end text)

unfoldable pub next_text : Payload → FinalValidation → Validated (List ℕ)
next_text (replaces contents) world = ok contents
next_text (creates contents) world = ok contents
next_text (splices range replacement) (creation_at parent name) = failure range_outside_baseline
next_text (splices range replacement) (existing_at path text mode) = do
  require (ltb range.start range.end && leb range.end (length text)) range_outside_baseline
  ok (splice_text range replacement text)

-- The exclusive creation: the target could not be opened; or it was, and the write, the sync or the
-- close failed, which leaves a file with some bytes; or all succeeded.
pub data Creation : Type 0 where
  not_opened : Creation
  left_behind : (bytes : List ℕ) → Creation
  created : Creation

-- What the system calls of a commit answer: whether the temporary file was written, synced and
-- given its mode, whether the rename succeeded, and the exclusive creation.
pub record Answers : Type 0 where
  pub temp_written : Bool
  pub renamed : Bool
  pub creation : Creation

-- A call that changes the file system, with its bytes and its success.
pub data Change : Type 0 where
  writes_temp : (path : String) (bytes : List ℕ) (mode : ℕ) (success : Bool) → Change
  renames : (source target : String) (success : Bool) → Change
  unlinks : (path : String) → Change
  creates_file : (path : String) (bytes : List ℕ) (success : Bool) → Change
  leaves_file : (path : String) (bytes : List ℕ) → Change
  syncs_directory : (path : String) → Change

module _ (p : Platform) (a : Answers) (temp_id : String) where
  abbrev pub temp_path : String → String
  temp_path path = p.join (p.dirname path) (join_text ".astroix-write-" (join_text temp_id ".tmp"))

  unfoldable pub replace_existing : String → List ℕ → ℕ → Option WriteFailureCode × List Change
  replace_existing path contents mode =
      let temp = temp_path path in
      let bytes = p.encode contents in
      if not a.temp_written
      then (some write_failed, writes_temp temp bytes mode false ∷ unlinks temp ∷ [])
      else if not a.renamed
      then (
        some replace_failed,
        writes_temp temp bytes mode true ∷ renames temp path false ∷ unlinks temp ∷ [],
      )
      else (
        none,
        writes_temp temp bytes mode true
            ∷ renames temp path true
            ∷ syncs_directory (p.dirname path)
            ∷ [],
      )

  abbrev pub create_answered :
      Creation → String → String → List ℕ → Option WriteFailureCode × List Change
  create_answered not_opened parent target bytes =
      (some create_failed, creates_file target bytes false ∷ [])
  create_answered (left_behind left) parent target bytes =
      (some create_failed, leaves_file target left ∷ [])
  create_answered created parent target bytes =
      (none, creates_file target bytes true ∷ syncs_directory parent ∷ [])

  unfoldable pub create_exclusive : String → String → List ℕ → Option WriteFailureCode × List Change
  create_exclusive parent name contents =
      create_answered a.creation parent (p.join parent name) (p.encode contents)

  abbrev pub commit_text : FinalValidation → List ℕ → Option WriteFailureCode × List Change
  commit_text (existing_at path text mode) contents = replace_existing path contents mode
  commit_text (creation_at parent name) contents = create_exclusive parent name contents

  abbrev pub settle_commit :
      List ℕ → Option WriteFailureCode × List Change → WriteOutcome × List Change
  settle_commit contents (some code, changes) = (WriteOutcome.failed code, changes)
  settle_commit contents (none, changes) =
      (WriteOutcome.committed (p.sha256 (p.encode contents)), changes)

  abbrev pub commit_next : FinalValidation → Validated (List ℕ) → WriteOutcome × List Change
  commit_next world (ok contents) = settle_commit contents (commit_text world contents)
  commit_next world (failure code) = (WriteOutcome.rejected code, [])
  commit_next world thrown = (WriteOutcome.failed write_failed, [])

  abbrev pub commit_in : Payload → Validated FinalValidation → WriteOutcome × List Change
  commit_in payload (ok world) = commit_next world (next_text payload world)
  commit_in payload (failure code) = (WriteOutcome.rejected code, [])
  commit_in payload thrown = (WriteOutcome.failed read_failed, [])

  abbrev pub admit_facts :
      World → DomainWritePlan → Validated (Unit {0}) → WriteOutcome × List Change
  admit_facts w plan (ok _) = commit_in plan.payload (validate_target p w plan.resource)
  admit_facts w plan (failure code) = (WriteOutcome.rejected code, [])
  admit_facts w plan thrown = (WriteOutcome.failed write_failed, [])

  unfoldable pub run_operation :
      World → WriteExecutorOptions → DomainWritePlan → WriteOutcome × List Change
  run_operation w options plan = admit_facts w plan (check_facts options plan)
