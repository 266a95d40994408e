-- ===== src/Executor/Queue/Reach.antt =====
-- Every accepted operation settles once, in the order of admission, before the executor is closed.
use astroix.Base.{
  suc, ◌≡◌, refl, sym, ap, ◌∙◌, subst, true, Option, none, some, List, [], ◌∷◌, ◌++◌, length,
}
use astroix.DrainReport.{WriteOutcome}
use astroix.Plans.{DomainWritePlan}
use astroix.Executor.Queue.{
  closed, WriteExecutor, create_write_executor, execute, settle, finish, stop,
}
use astroix.Executor.Queue.Orderly.{
  pending, done, Fits, IsOrderly, admitted_in, settle-IsOrderly, execute-IsOrderly,
  finish-IsOrderly, stop_in-IsOrderly, Shape-idle,
}

-- The histories of an executor, with the plans that it admitted.
pub data Reach : List DomainWritePlan → WriteExecutor → Type 0 where
  created : Reach [] create_write_executor
  executes :
      {admitted : List DomainWritePlan} {q : WriteExecutor}
      → Reach admitted q
      → (plan : DomainWritePlan) → Reach (admitted_in q.state plan admitted) (execute plan q).0
  settles :
      {admitted : List DomainWritePlan} {q : WriteExecutor}
      → Reach admitted q
      → (raw : Option WriteOutcome) → Reach admitted (settle raw q)
  finishes :
      {admitted : List DomainWritePlan} {q : WriteExecutor}
      → Reach admitted q
      → q.draining ≡ true
      → q.current ≡ none
      → Reach admitted (finish q)
  stops :
      {admitted : List DomainWritePlan} {q : WriteExecutor}
      → Reach admitted q
      → Reach admitted (stop q)

-- After any history of an executor the admitted plans are those that resolved, the one in flight
-- and those that wait, in this order; nothing waits while nothing runs, and the state fits the
-- close report.
pub Reach-IsOrderly :
    {admitted : List DomainWritePlan} {q : WriteExecutor} → Reach admitted q → IsOrderly admitted q
unfolding execute settle stop
Reach-IsOrderly created = record { order = refl; counted = refl; shape = tt; fits = refl }
Reach-IsOrderly (executes {admitted = ps} {q = q} r plan) =
    execute-IsOrderly ps q.state plan q refl (Reach-IsOrderly r)
Reach-IsOrderly (settles {admitted = ps} {q = q} r raw) =
    settle-IsOrderly ps q.current raw q refl (Reach-IsOrderly r)
Reach-IsOrderly (finishes {admitted = ps} {q = q} r d c) =
    finish-IsOrderly ps q d c (Reach-IsOrderly r)
Reach-IsOrderly (stops {admitted = ps} {q = q} r) =
    stop_in-IsOrderly ps q.state q refl (Reach-IsOrderly r)

append-nil : (xs : List DomainWritePlan) → xs ++ [] ≡ xs
append-nil [] = refl
append-nil (x ∷ xs) = ap (λ r. x ∷ r) (append-nil xs)

length-done : (xs : List (DomainWritePlan × WriteOutcome)) → length (done xs) ≡ length xs
length-done [] = refl
length-done ((plan, o) ∷ xs) = ap suc (length-done xs)

-- When an executor is closed, whatever its history, every operation that it admitted has resolved
-- once, in the order of admission, and the close report counts them.
pub closed_settles_all :
    {admitted : List DomainWritePlan} {q : WriteExecutor}
    → Reach admitted q
    → q.state ≡ closed
    → (done q.outcomes ≡ admitted) × (q.report ≡ some (record { settled = length admitted }))
closed_settles_all {admitted} {q} r e =
    let v = Reach-IsOrderly r in
    let (reported, idle) = subst (λ s. Fits s q.draining q.settled q.report) e v.fits in
    let (c, a) = Shape-idle q.draining q.current q.accepted idle v.shape in
    let all_done =
      v.order
      ∙ ap (λ k. done q.outcomes ++ (pending k ++ q.accepted)) c
      ∙ ap (λ k. done q.outcomes ++ k) a
      ∙ append-nil (done q.outcomes) in
    let total : q.settled ≡ length admitted =
      v.counted ∙ sym (length-done q.outcomes) ∙ ap length (sym all_done) in
    (sym all_done, reported ∙ ap (λ n. some (record { settled = n })) total)
