-- ===== src/Fence/Tests.antt =====
-- Runs of one fence, and the theorems at them.
use astroix.Base.{◌≡◌, ◌≢◌, ◌↔◌, refl, some, none, [], ◌∷◌, length}
use astroix.DrainReport.{WriteOutcome, changed_baseline, classify_write_outcome}
use astroix.Fence.{
  EditFence, opened, draining, drained, failed, timed_out, terminal_after_timeout, Answer, advance,
  update_at, pump, pumped, on_terminality, record_outcome, settle, on_deadline, submit, fence,
  resume, resumed, create_edit_fence,
}
use astroix.Fence.Keys.{keys}
use astroix.Fence.Steps.{submits, fences, settles, step, Reach, created, next}
use astroix.Fence.Sound.{IsSound}
use astroix.Fence.Invariant.{Reach-IsSound}
use astroix.Fence.Verdict.{
  closed_admits_nothing, resume_iff, settle_all, settle_all-IsEnded, IsEnded,
}

-- One edit in flight, one flushed by the fence.
run : EditFence
unfolding step submit fence resume settle on_deadline on_terminality pump pumped advance update_at
    record_outcome classify_write_outcome
run = (fence (some ("b" ∷ [])) (submit "a" create_edit_fence).0).0

abbrev landed : WriteOutcome
landed = WriteOutcome.committed "00"

abbrev stale : WriteOutcome
stale = WriteOutcome.rejected changed_baseline

run_tests :
    (run.state ≡ draining)
    × (keys run.accepted ≡ "a" ∷ "b" ∷ [])
    × ((submit "c" run).1 ≡ Answer.refused)
    × ((settle 1 (some landed) (settle 0 (some landed) run)).state ≡ drained)
    × ((settle 1 (some stale) (settle 0 (some landed) run)).state ≡ failed)
    × ((on_deadline (settle 0 none run)).state ≡ timed_out)
    × ((settle 1 none (settle 0 (some landed) (on_deadline run))).state ≡ terminal_after_timeout)
    × ((resume (settle 1 none (settle 0 (some stale) run))).0.accepted ≡ [])
unfolding run
run_tests = (refl, refl, refl, refl, refl, refl, refl, refl)

reached : Reach run
unfolding run
reached = next (next created (submits "a") tt) (fences (some ("b" ∷ []))) tt

clean : EditFence
unfolding run
clean = settle 1 (some landed) (settle 0 (some landed) run)

clean_reached : Reach clean
unfolding clean
clean_reached =
    next (next reached (settles 0 (some landed)) (_, refl, refl)) (settles 1 (some landed))
      (_, refl, refl)

soiled : EditFence
unfolding run
soiled = settle 1 (some stale) (settle 0 (some landed) run)

soiled_reached : Reach soiled
unfolding soiled
soiled_reached =
    next (next reached (settles 0 (some landed)) (_, refl, refl)) (settles 1 (some stale))
      (_, refl, refl)

run-ne-opened : run.state ≢ opened
unfolding run
run-ne-opened e = cc

Reach-IsSound_example : IsSound run
Reach-IsSound_example = Reach-IsSound reached

closed_admits_nothing_example :
    ((step run (submits "c")).state ≢ opened) × ((step run (submits "c")).accepted ≡ run.accepted)
closed_admits_nothing_example = closed_admits_nothing run (submits "c") run-ne-opened (λ e. cc)

resume_iff_example :
    ((resume clean).1 ≡ resumed)
    ↔ ((clean.state ≢ opened) × (clean.terminal_count ≡ length clean.accepted))
resume_iff_example = resume_iff clean (Reach-IsSound clean_reached)

settle_all-IsEnded_example :
    IsEnded (settle_all (some stale ∷ none ∷ []) run)
    × ((settle_all (some stale ∷ none ∷ []) run).state ≢ opened)
unfolding run
settle_all-IsEnded_example =
    settle_all-IsEnded (some stale ∷ none ∷ []) run (Reach-IsSound reached) run-ne-opened refl

clean_state : clean.state ≡ drained
unfolding clean
clean_state = refl

soiled_state : soiled.state ≡ failed
unfolding soiled
soiled_state = refl
