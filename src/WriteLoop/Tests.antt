-- ===== src/WriteLoop/Tests.antt =====
-- Runs of the write loop, latest event first, and the theorems at them.
use astroix.Base.{◌≡◌, refl, some, none, List, [], ◌∷◌}
use astroix.WriteLoop.{
  WriteLoopEvent, submits, commits, rejects, refresh_begins, refresh_lands, resets, idle_write,
  committed_state, reduce_write, answered, classify_settle, rejected_as, conflicting, uncertain,
}
use astroix.WriteLoop.History.{after, IsTold, after-IsTold}

abbrev written : List WriteLoopEvent
written = rejects 1 "late" ∷ commits 2 9 ∷ commits 1 8 ∷ submits 2 ∷ resets ∷ submits 1 ∷ []

loop_tests :
    (after written ≡ committed_state 2 9)
    × (after (refresh_lands 2 ∷ refresh_begins 2 ∷ written) ≡ idle_write)
    × (after (submits 3 ∷ written) ≡ committed_state 2 9)
    × (classify_settle
          (answered (some (record { code = some "revision-conflict"; current_sha256 = some "a" })))
        ≡ conflicting "revision-conflict" "a")
    × (classify_settle
          (answered (some (record { code = some "unauthorized"; current_sha256 = none })))
        ≡ rejected_as "unauthorized")
    × (classify_settle
          (answered (some (record { code = some "internal-error"; current_sha256 = none })))
        ≡ uncertain "internal-error")
unfolding after reduce_write classify_settle
loop_tests = (refl, refl, refl, refl, refl, refl)

after-IsTold_example : IsTold written (after written)
after-IsTold_example = after-IsTold written
