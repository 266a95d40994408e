-- ===== src/Executor/Queue/Drive.antt =====
-- A stopped executor closes once the operation in flight and those behind it have settled.
use astroix.Base.{
  ℕ, suc, ◌≡◌, refl, subst, Bool, true, Option, none, some, List, [], ◌∷◌, arith, length,
}
use astroix.DrainReport.{WriteOutcome}
use astroix.Plans.{DomainWritePlan}
use astroix.Executor.Queue.{
  stopping, closed, ExecutorCloseReport, WriteExecutor, pump, settle_current, settle, finish,
}
use astroix.Executor.Queue.Orderly.{Fits, done}
use astroix.Executor.Queue.Reach.{Reach, settles, finishes, Reach-IsOrderly, closed_settles_all}

-- The operations settle in turn, each followed by its `finally`.
unfoldable pub drive : List (Option WriteOutcome) → WriteExecutor → WriteExecutor
drive [] q = q
drive (raw ∷ raws) q = drive raws (finish (settle raw q))

record IsStopping (waiting : List DomainWritePlan) (current : Option DomainWritePlan)
    (q : WriteExecutor) : Type 0 where
  pub state : q.state ≡ stopping
  pub draining : q.draining ≡ true
  pub current_of : q.current ≡ current
  pub accepted : q.accepted ≡ waiting

settle-IsStopping :
    (waiting : List DomainWritePlan) (plan : DomainWritePlan) (cur : Option DomainWritePlan)
    (raw : Option WriteOutcome) (q : WriteExecutor)
    → cur ≡ some plan
    → IsStopping waiting cur q
    → IsStopping waiting none (settle_current cur raw q)
settle-IsStopping waiting plan none raw q e h = cc
settle-IsStopping waiting plan (some other) raw q e h = record {
  state = h.state;
  draining = h.draining;
  current_of = refl;
  accepted = h.accepted;
}

finish_last : (q : WriteExecutor) → IsStopping [] none q → (finish q).state ≡ closed
unfolding finish
finish_last q h = rw (h.state, h.accepted, finish) refl

finish_more :
    (next : DomainWritePlan) (rest : List DomainWritePlan) (q : WriteExecutor)
    → IsStopping (next ∷ rest) none q
    → IsStopping rest (some next) (finish q)
unfolding finish pump
finish_more next rest q h =
    rw (h.state, h.accepted, finish)
      (record { state = refl; draining = refl; current_of = refl; accepted = refl })

-- The settlement and its `finally`, as a step of the history.
next_of :
    {admitted : List DomainWritePlan} {q : WriteExecutor} (waiting : List DomainWritePlan)
    (plan : DomainWritePlan) (raw : Option WriteOutcome)
    → Reach admitted q
    → IsStopping waiting (some plan) q
    → IsStopping waiting none (settle raw q) × Reach admitted (finish (settle raw q))
unfolding settle
next_of {q = q} waiting plan raw r h =
    let own : IsStopping waiting q.current q = record {
      state = h.state;
      draining = h.draining;
      current_of = refl;
      accepted = h.accepted;
    } in
    let s = settle-IsStopping waiting plan q.current raw q h.current_of own in
    (s, unfold settle in finishes (settles r raw) s.draining s.current_of)

drive_from :
    {admitted : List DomainWritePlan} {q : WriteExecutor} (raws : List (Option WriteOutcome))
    (waiting : List DomainWritePlan) (plan : DomainWritePlan)
    → Reach admitted q
    → IsStopping waiting (some plan) q
    → length raws ≡ suc (length waiting)
    → ((drive raws q).state ≡ closed) × Reach admitted (drive raws q)
unfolding drive
drive_from [] waiting plan r h n = absurd (omega (arith, n))
drive_from (raw ∷ []) [] plan r h n =
    let (s, reached) = next_of [] plan raw r h in (finish_last _ s, reached)
drive_from (raw ∷ []) (next ∷ rest) plan r h n = absurd (omega (arith, n))
drive_from (raw ∷ (other ∷ raws)) [] plan r h n = absurd (omega (arith, n))
drive_from {q = q} (raw ∷ (other ∷ raws)) (next ∷ rest) plan r h n =
    let (s, reached) = next_of (next ∷ rest) plan raw r h in
    drive_from {q = finish (settle raw q)} (other ∷ raws) rest next reached
      (finish_more next rest _ s) (omega (arith, n))

draining_of : (d : Bool) (n : ℕ) (r : Option ExecutorCloseReport) → Fits stopping d n r → d ≡ true
draining_of d n r f = f.1

-- A stopped executor with an operation in flight is closed once that operation and those behind it
-- have settled in turn, with every admitted operation resolved in order and counted in its report.
pub drive_closes :
    {admitted : List DomainWritePlan} {q : WriteExecutor} (raws : List (Option WriteOutcome))
    (plan : DomainWritePlan)
    → Reach admitted q
    → q.state ≡ stopping
    → q.current ≡ some plan
    → length raws ≡ suc (length q.accepted)
    → ((drive raws q).state ≡ closed)
      × (done (drive raws q).outcomes ≡ admitted)
      × ((drive raws q).report ≡ some (record { settled = length admitted }))
drive_closes {q = q} raws plan r e c n =
    let v = Reach-IsOrderly r in
    let busy =
      draining_of q.draining q.settled q.report
        (subst (λ s. Fits s q.draining q.settled q.report) e v.fits) in
    let (ended, reached) =
      drive_from raws q.accepted plan r
        (record { state = e; draining = busy; current_of = c; accepted = refl }) n in
    let (ordered, reported) = closed_settles_all reached ended in (ended, ordered, reported)
