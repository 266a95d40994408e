-- ===== src/Executor/Tests.antt =====
-- One edit from the wire to the commit, and the theorems at it.
use astroix.Base.{ℕ, true, ◌≡◌, ◌↔◌, ◌⊎◌, refl, some, none, List, [], ◌∷◌, map}
use astroix.Base.Dict.{get, put, drop_where}
use astroix.Base.Fallible.{ok, failure}
use astroix.Session.{same_session}
use astroix.Grants.Vocabulary.{
  kind_operations, existing_text_operations, operations_are_subset, is_project_relative,
  is_canonical_descendant, is_grant_token_shape, unknown_grant,
}
use astroix.Grants.{
  Table, wire_grant, existing_text, commit, issue_existing, issue, authorize, verify,
}
use astroix.Grants.Live.{IsLive, issues, call, run, run_empty-IsLive}
use astroix.Grants.Sample.{node, disk, now, token_a, sheet, sheet_resource}
use astroix.DrainReport.{WriteOutcome, cross_session}
use astroix.Plans.{
  splices, WritePlan, DomainWritePlan, of_grant, invalid_plan, claim_mismatch, parse, plan_edit,
  plan_style_edit, wire_grant_equals,
}
use astroix.Plans.Sound.{IsPlanned, plan_edit_sound}
use astroix.Executor.{
  FinalValidation, WriteExecutorOptions, check_facts, validate_target, next_text, Answers, Creation,
  replace_existing, run_operation, splice_text,
}
use astroix.Executor.Recheck.{Verdict, text_of, validate_target_iff}
use astroix.Executor.Accepts.{Makes, plan_edit-run_operation}
use astroix.Executor.Landing.{landings, IsCommitted, IsUncommitted, run_operation-lands}
use astroix.Executor.Queue.{
  WriteExecutor, stopping, closed, fenced, create_write_executor, pump, execute, settle, finish,
  stop,
}
use astroix.Executor.Queue.Orderly.{done}
use astroix.Executor.Queue.Reach.{
  Reach, created, executes, settles, finishes, stops, closed_settles_all,
}
use astroix.Executor.Queue.Drive.{drive, drive_closes}
use astroix.Grants.Sample.{digest}
use astroix.DrainReport.{write_failed}
use astroix.Base.{length, suc, Option}

abbrev wire : WritePlan
wire = record {
  grant = wire_grant token_a sheet_resource;
  payload = splices (record { start = 0; end = 1 }) (7 ∷ 8 ∷ []);
}

abbrev plan : DomainWritePlan
plan = record {
  resource = sheet_resource;
  payload = splices (record { start = 0; end = 1 }) (7 ∷ 8 ∷ []);
}

abbrev options : WriteExecutorOptions
options = record { canonical_root = "/p"; session = now }

abbrev calm : Answers
calm = record { temp_written = true; renamed = true; creation = Creation.created }

records : Table
unfolding run call issue issue_existing existing_text_operations kind_operations commit put
    drop_where operations_are_subset is_project_relative is_canonical_descendant same_session
    authorize is_grant_token_shape get verify parse plan_edit plan_style_edit wire_grant_equals
    check_facts validate_target next_text replace_existing run_operation landings
records = run node "/p" [] (issues disk token_a (existing_text sheet) now ∷ [])

records-IsLive : IsLive node "/p" records
unfolding records
records-IsLive = run_empty-IsLive node "/p" (issues disk token_a (existing_text sheet) now ∷ [])

planned : plan_edit node disk records now (some wire) ≡ ok plan
unfolding records
planned = refl

plan_tests :
    (plan_edit node disk [] now (some wire) ≡ failure (of_grant unknown_grant))
    × (plan_edit node disk records now (
          some (record wire {
            grant = record (wire_grant token_a sheet_resource) { display_path = "b.css" };
          }))
        ≡ failure claim_mismatch)
    × (plan_edit node disk records now
          (some (record wire { payload = splices (record { start = 1; end = 1 }) [] }))
        ≡ failure invalid_plan)
    × (splice_text (record { start = 1; end = 2 }) (9 ∷ []) (1 ∷ 2 ∷ 3 ∷ []) ≡ 1 ∷ 9 ∷ 3 ∷ [])
    × ((run_operation node calm "t" disk
          (record options { session = record { runtime_epoch = "f"; generation = 2 } })
          plan).0
        ≡ WriteOutcome.rejected cross_session)
    × (map (λ l. l.bytes) (landings none (run_operation node calm "t" disk options plan).1)
        ≡ (7 ∷ 8 ∷ []) ∷ [])
unfolding records
plan_tests = (refl, refl, refl, refl, refl, refl)

plan_edit_sound_example : IsPlanned node disk records now (some wire) plan
plan_edit_sound_example = plan_edit_sound node disk records now (some wire) plan planned

validate_target_iff_example :
    (verify node disk sheet_resource ≡ ok (some (1 ∷ [])))
    ↔ Verdict node disk sheet_resource (some (1 ∷ []))
validate_target_iff_example = validate_target_iff node disk sheet_resource (some (1 ∷ []))

plan_edit-run_operation_example :
    (world : FinalValidation) × (contents : List ℕ) × (validate_target node disk plan.resource
      ≡ ok world)
    × Makes plan.payload (text_of world) contents
    × ((run_operation node calm "t" disk options plan).0
        ≡ WriteOutcome.committed (node.sha256 (node.encode contents)))
plan_edit-run_operation_example =
    plan_edit-run_operation node disk "/p" records now (some wire) plan calm "t" records-IsLive
      planned (record { temp_written = refl; renamed = refl; created = refl })

run_operation-lands_example :
    IsCommitted node disk options plan (run_operation node calm "t" disk options plan)
    ⊎ IsUncommitted node disk plan (run_operation node calm "t" disk options plan)
run_operation-lands_example = run_operation-lands node calm "t" disk options plan

-- An operation in flight, one behind it, and the executor stopped.
stopped : WriteExecutor
unfolding execute stop pump settle finish drive
stopped = stop (execute plan (execute plan create_write_executor).0).0

stopped_reached : Reach (plan ∷ plan ∷ []) stopped
unfolding stopped
stopped_reached = stops (executes (executes created plan) plan)

abbrev both : List (Option WriteOutcome)
both = some (WriteOutcome.committed digest) ∷ none ∷ []

queue_tests :
    ((execute plan stopped).1 ≡ fenced)
    × ((finish (settle none stopped)).current ≡ some plan)
    × ((drive both stopped).outcomes
        ≡ (plan, WriteOutcome.committed digest) ∷ (plan, WriteOutcome.failed write_failed) ∷ [])
    × ((stop create_write_executor).state ≡ closed)
unfolding stopped
queue_tests = (refl, refl, refl, refl)

both_closed : (drive both stopped).state ≡ closed
unfolding stopped
both_closed = refl

both_reached : Reach (plan ∷ plan ∷ []) (drive both stopped)
unfolding stopped
both_reached =
    finishes
      (settles (finishes (settles stopped_reached (some (WriteOutcome.committed digest))) refl refl)
        none)
      refl refl

closed_settles_all_example :
    (done (drive both stopped).outcomes ≡ plan ∷ plan ∷ [])
    × ((drive both stopped).report ≡ some (record { settled = 2 }))
closed_settles_all_example = closed_settles_all both_reached both_closed

waits_in_turn :
    (stopped.state ≡ stopping)
    × (stopped.current ≡ some plan)
    × (length both ≡ suc (length stopped.accepted))
unfolding stopped
waits_in_turn = (refl, refl, refl)

drive_closes_example :
    ((drive both stopped).state ≡ closed)
    × (done (drive both stopped).outcomes ≡ plan ∷ plan ∷ [])
    × ((drive both stopped).report ≡ some (record { settled = 2 }))
drive_closes_example =
    drive_closes both plan stopped_reached waits_in_turn.0 waits_in_turn.1 waits_in_turn.2
