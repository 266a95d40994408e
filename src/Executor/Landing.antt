-- ===== src/Executor/Landing.antt =====
-- What a run of one operation leaves behind: one landed text if it committed, else none or the bytes
-- of a creation that failed after it had opened its target.
use astroix.Base.{
  ℕ, String, true, ◌≡◌, ◌≢◌, refl, Option, none, some, List, [], ◌∷◌, inl, inr, Bool-cases, if_true,
  str_eq, eq_refl, if◌then◌else◌, ◌⊎◌,
}
use astroix.Base.Fallible.{ok, failure, thrown}
use astroix.World.{World, Platform}
use astroix.DrainReport.{
  WriteOutcome, WriteRejectionCode, WriteFailureCode, write_failed, replace_failed, create_failed,
  read_failed,
}
use astroix.Plans.{DomainWritePlan}
use astroix.Executor.{
  Validated, WriteExecutorOptions, check_facts, FinalValidation, existing_at, creation_at,
  validate_target, next_text, Answers, Change, writes_temp, renames, creates_file, leaves_file,
  Creation, not_opened, left_behind, replace_existing, create_answered, create_exclusive,
  commit_text, settle_commit, commit_next, commit_in, admit_facts, temp_path, run_operation,
}

-- A text at its path; the mode is given where a replacement preserves it.
pub record Landed : Type 0 where
  pub path : String
  pub bytes : List ℕ
  pub mode : Option ℕ

-- The walk over the changes, with the temporary file that was written last.
unfoldable pub landings : Option (String × List ℕ × ℕ) → List Change → List Landed
landings held [] = []
landings held (writes_temp path bytes mode true ∷ changes) =
    landings (some (path, bytes, mode)) changes
landings (some (path, bytes, mode)) (renames source target true ∷ changes) =
    let rest = landings none changes in
    if str_eq path source
    then record { path = target; bytes = bytes; mode = some mode } ∷ rest
    else rest
landings held (creates_file path bytes true ∷ changes) =
    record { path = path; bytes = bytes; mode = none } ∷ landings held changes
landings held (leaves_file path left ∷ changes) =
    record { path = path; bytes = left; mode = none } ∷ landings held changes
landings held (_ ∷ changes) = landings held changes

-- Where a validated world has its target.
abbrev pub place : Platform → FinalValidation → List ℕ → Landed
place p (existing_at path text mode) bytes = record { path = path; bytes = bytes; mode = some mode }
place p (creation_at parent name) bytes = record {
  path = p.join parent name;
  bytes = bytes;
  mode = none;
}

-- A failed creation leaves some bytes where the file was to be created.
abbrev pub IsLeft : Platform → FinalValidation → List Change → Type 0
IsLeft p world changes =
    (parent : String) × (name : String) × (left : List ℕ) × (world ≡ creation_at parent name)
    × (landings none changes ≡ record { path = p.join parent name; bytes = left; mode = none } ∷ [])

-- A committed outcome with the one text that landed.
pub record IsCommitted (p : Platform) (w : World) (options : WriteExecutorOptions)
    (plan : DomainWritePlan) (result : WriteOutcome × List Change) : Type 0 where
  pub world : FinalValidation
  pub contents : List ℕ
  pub facts : check_facts options plan ≡ ok tt
  pub validated : validate_target p w plan.resource ≡ ok world
  pub produced : next_text plan.payload world ≡ ok contents
  pub outcome : result.0 ≡ WriteOutcome.committed (p.sha256 (p.encode contents))
  pub landed : landings none result.1 ≡ place p world (p.encode contents) ∷ []

-- Any other outcome: nothing landed, or a creation failed after it had opened the target.
abbrev pub IsUncommitted : Platform → World → DomainWritePlan → WriteOutcome × List Change → Type 0
IsUncommitted p w plan result =
    ((revision : String) → result.0 ≢ WriteOutcome.committed revision)
    × (result.0 ≢ WriteOutcome.unknown)
    × ((landings none result.1 ≡ [])
        ⊎ ((world : FinalValidation) × (validate_target p w plan.resource ≡ ok world)
            × (result.0 ≡ WriteOutcome.failed create_failed)
            × IsLeft p world result.1))

-- The commit of a text: it lands whole, or nothing lands, or a failed creation leaves some bytes.
abbrev LandsWhole :
    Platform → FinalValidation → List ℕ → Option WriteFailureCode × List Change → Type 0
LandsWhole p world contents result =
    ((result.0 ≡ none) × (landings none result.1 ≡ place p world (p.encode contents) ∷ []))
    ⊎ ((code : WriteFailureCode) × (result.0 ≡ some code)
        × ((landings none result.1 ≡ []) ⊎ ((code ≡ create_failed) × IsLeft p world result.1)))

replace_existing_lands :
    (p : Platform) (a : Answers) (temp_id path : String) (text contents : List ℕ) (mode : ℕ)
    → LandsWhole p
        (existing_at path text mode)
        contents
        (replace_existing p a temp_id path contents mode)
unfolding replace_existing landings
replace_existing_lands p a temp_id path text contents mode = elim (Bool-cases a.temp_written) [
  | inr lost ↦ rw lost (inr (write_failed, refl, inl refl))
  | inl written ↦ rw written (elim (Bool-cases a.renamed) [
    | inr lost ↦ rw lost (inr (replace_failed, refl, inl refl))
    | inl renamed ↦ rw renamed (inl (refl, if_true _ _ (eq_refl (temp_path p a temp_id path))))
  ])
]

create_exclusive_lands :
    (p : Platform) (a : Answers) (temp_id parent name : String) (contents : List ℕ)
    → LandsWhole p
        (creation_at parent name)
        contents
        (create_exclusive p a temp_id parent name contents)
unfolding create_exclusive landings
create_exclusive_lands p a temp_id parent name contents = lands a.creation
  where
    lands :
        (c : Creation)
        → LandsWhole p
            (creation_at parent name)
            contents
            (create_answered p a temp_id c parent (p.join parent name) (p.encode contents))
    lands Creation.created = inl (refl, refl)
    lands not_opened = inr (create_failed, refl, inl refl)
    lands (left_behind left) =
        inr (create_failed, refl, inr (refl, (parent, name, left, refl, refl)))

commit_text_lands :
    (p : Platform) (a : Answers) (temp_id : String) (world : FinalValidation) (contents : List ℕ)
    → LandsWhole p world contents (commit_text p a temp_id world contents)
commit_text_lands p a temp_id (existing_at path text mode) contents =
    replace_existing_lands p a temp_id path text contents mode
commit_text_lands p a temp_id (creation_at parent name) contents =
    create_exclusive_lands p a temp_id parent name contents

rejected-IsUncommitted :
    (p : Platform) (w : World) (plan : DomainWritePlan) (code : WriteRejectionCode)
    → IsUncommitted p w plan (WriteOutcome.rejected code, [])
unfolding landings
rejected-IsUncommitted p w plan code = ((λ revision e. cc), (λ e. cc), inl refl)

failed-IsUncommitted :
    (p : Platform) (w : World) (plan : DomainWritePlan) (code : WriteFailureCode)
    → IsUncommitted p w plan (WriteOutcome.failed code, [])
unfolding landings
failed-IsUncommitted p w plan code = ((λ revision e. cc), (λ e. cc), inl refl)

settle_commit-outcome :
    (p : Platform) (a : Answers) (temp_id : String) (w : World) (options : WriteExecutorOptions)
    (plan : DomainWritePlan) (world : FinalValidation) (contents : List ℕ)
    (result : Option WriteFailureCode × List Change)
    → check_facts options plan ≡ ok tt
    → validate_target p w plan.resource ≡ ok world
    → next_text plan.payload world ≡ ok contents
    → LandsWhole p world contents result
    → IsCommitted p w options plan (settle_commit p a temp_id contents result)
      ⊎ IsUncommitted p w plan (settle_commit p a temp_id contents result)
settle_commit-outcome p a temp_id w options plan world contents (none, changes) f v n
      (inl (e, lands)) =
    inl (record {
      world = world;
      contents = contents;
      facts = f;
      validated = v;
      produced = n;
      outcome = refl;
      landed = lands;
    })
settle_commit-outcome p a temp_id w options plan world contents (none, changes) f v n
      (inr (code, e, lands)) =
    cc
settle_commit-outcome p a temp_id w options plan world contents (some code, changes) f v n
      (inl (e, lands)) =
    cc
settle_commit-outcome p a temp_id w options plan world contents (some code, changes) f v n
      (inr (c, e, inl nothing)) =
    inr ((λ revision e. cc), (λ e. cc), inl nothing)
settle_commit-outcome p a temp_id w options plan world contents (some code, changes) f v n
      (inr (c, e, inr (is, left))) =
    inr ((λ revision e. cc), (λ e. cc), inr (world, v, cc (e, is), left))

module _ (p : Platform) (a : Answers) (temp_id : String) (w : World)
    (options : WriteExecutorOptions) (plan : DomainWritePlan) where
  abbrev Outcome : WriteOutcome × List Change → Type 0
  Outcome result = IsCommitted p w options plan result ⊎ IsUncommitted p w plan result

  next-Outcome :
      (world : FinalValidation) (next : Validated (List ℕ))
      → check_facts options plan ≡ ok tt
      → validate_target p w plan.resource ≡ ok world
      → next_text plan.payload world ≡ next
      → Outcome (commit_next p a temp_id world next)
  next-Outcome world (ok contents) f v n =
      settle_commit-outcome p a temp_id w options plan world contents _ f v n
        (commit_text_lands p a temp_id world contents)
  next-Outcome world (failure code) f v n = inr (rejected-IsUncommitted p w plan code)
  next-Outcome world thrown f v n = inr (failed-IsUncommitted p w plan write_failed)

  validated-Outcome :
      (world : Validated FinalValidation)
      → check_facts options plan ≡ ok tt
      → validate_target p w plan.resource ≡ world
      → Outcome (commit_in p a temp_id plan.payload world)
  validated-Outcome (ok world) f v = next-Outcome world _ f v refl
  validated-Outcome (failure code) f v = inr (rejected-IsUncommitted p w plan code)
  validated-Outcome thrown f v = inr (failed-IsUncommitted p w plan read_failed)

  facts-Outcome :
      (facts : Validated (Unit {0}))
      → check_facts options plan ≡ facts
      → Outcome (admit_facts p a temp_id w plan facts)
  facts-Outcome (ok _) f = validated-Outcome _ f refl
  facts-Outcome (failure code) f = inr (rejected-IsUncommitted p w plan code)
  facts-Outcome thrown f = inr (failed-IsUncommitted p w plan write_failed)

  -- Whatever the file system answers, an operation either is committed, after the fact checks and
  -- the recheck passed, with exactly the produced text landed at the place that the recheck
  -- proved, or it is neither committed nor unknown and no text landed, unless it failed to create
  -- a file whose target it had opened: then some bytes are left at that target.
  pub run_operation-lands :
      IsCommitted p w options plan (run_operation p a temp_id w options plan)
      ⊎ IsUncommitted p w plan (run_operation p a temp_id w options plan)
  unfolding run_operation
  run_operation-lands = facts-Outcome _ refl
