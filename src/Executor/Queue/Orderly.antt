-- ===== src/Executor/Queue/Orderly.antt =====
-- executor/write-executor.ts: each operation of createWriteExecutor on the order of its operations.
use astroix.Base.{
  ℕ, suc, ◌≡◌, ◌≢◌, refl, sym, ap, ◌∙◌, subst, Bool, true, false, ◌&&◌, not, Option, none, some,
  List, [], ◌∷◌, ◌++◌, arith, inl, inr, length, length-append, Bool-cases, if_true, if_false,
}
use astroix.DrainReport.{WriteOutcome}
use astroix.Plans.{DomainWritePlan}
use astroix.Executor.Queue.{
  WriteExecutorState, running, stopping, closed, ExecutorCloseReport, WriteExecutor, take_next,
  pump, execute_in, outcome_of, settle_current, is_running, is_nil, finish, stop_open, stop_in,
  close, resolve_closed,
}

abbrev pub pending : Option DomainWritePlan → List DomainWritePlan
pending none = []
pending (some plan) = plan ∷ []

-- The plans whose operations have resolved.
abbrev pub done : List (DomainWritePlan × WriteOutcome) → List DomainWritePlan
done [] = []
done ((plan, outcome) ∷ outcomes) = plan ∷ done outcomes

-- Where nothing is in flight nothing waits.
abbrev pub Shape : Bool → Option DomainWritePlan → List DomainWritePlan → Type 0
Shape false none [] = Unit {0}
Shape true _ _ = Unit {0}
Shape _ _ _ = ⊥

abbrev pub Fits : WriteExecutorState → Bool → ℕ → Option ExecutorCloseReport → Type 0
Fits running draining settled report = report ≡ none
Fits stopping draining settled report = (report ≡ none) × (draining ≡ true)
Fits closed draining settled report =
    (report ≡ some (record { settled = settled })) × (draining ≡ false)

-- The order of the plans that were admitted, the count, and what each state says.
pub record IsOrderly (admitted : List DomainWritePlan) (q : WriteExecutor) : Type 0 where
  pub order : admitted ≡ done q.outcomes ++ (pending q.current ++ q.accepted)
  pub counted : q.settled ≡ length q.outcomes
  pub shape : Shape q.draining q.current q.accepted
  pub fits : Fits q.state q.draining q.settled q.report

abbrev pub admitted_in :
    WriteExecutorState → DomainWritePlan → List DomainWritePlan → List DomainWritePlan
admitted_in running plan admitted = admitted ++ (plan ∷ [])
admitted_in _ plan admitted = admitted

append_assoc : (xs ys zs : List DomainWritePlan) → (xs ++ ys) ++ zs ≡ xs ++ (ys ++ zs)
append_assoc [] ys zs = refl
append_assoc (x ∷ xs) ys zs = ap (λ r. x ∷ r) (append_assoc xs ys zs)

done-append :
    (xs : List (DomainWritePlan × WriteOutcome)) (plan : DomainWritePlan) (o : WriteOutcome)
    (rest : List DomainWritePlan)
    → done (xs ++ ((plan, o) ∷ [])) ++ rest ≡ done xs ++ (plan ∷ rest)
done-append [] plan o rest = refl
done-append ((x, p) ∷ xs) plan o rest = ap (λ r. x ∷ r) (done-append xs plan o rest)

pub settle-IsOrderly :
    (admitted : List DomainWritePlan) (cur : Option DomainWritePlan) (raw : Option WriteOutcome)
    (q : WriteExecutor)
    → q.current ≡ cur
    → IsOrderly admitted q
    → IsOrderly admitted (settle_current cur raw q)
settle-IsOrderly admitted none raw q e v = v
settle-IsOrderly admitted (some plan) raw q e v = record {
  order =
      v.order
      ∙ ap (λ c. done q.outcomes ++ (pending c ++ q.accepted)) e
      ∙ sym (done-append q.outcomes plan (outcome_of raw) q.accepted);
  counted = omega (arith, v.counted, length-append q.outcomes ((plan, outcome_of raw) ∷ []));
  shape = busy-Shape q.draining q.accepted (subst (λ c. Shape q.draining c q.accepted) e v.shape);
  fits =
      busy-Fits q.state q.draining q.settled q.report
        (subst (λ c. Shape q.draining c q.accepted) e v.shape) v.fits;
}
  where
    busy-Shape :
        (d : Bool) (acc : List DomainWritePlan) → Shape d (some plan) acc → Shape d none acc
    busy-Shape true acc h = tt
    busy-Shape false acc h = absurd h

    busy-Fits :
        (st : WriteExecutorState) (d : Bool) (n : ℕ) (r : Option ExecutorCloseReport)
        → Shape d (some plan) q.accepted
        → Fits st d n r
        → Fits st d (suc n) r
    busy-Fits running d n r h f = f
    busy-Fits stopping d n r h f = f
    busy-Fits closed true n r h f = cc (f.1)
    busy-Fits closed false n r h f = absurd h

-- The start of the next operation, in an executor that is not closed.
take_next-IsOrderly :
    (admitted acc : List DomainWritePlan) (q : WriteExecutor)
    → q.accepted ≡ acc
    → q.current ≡ none
    → q.draining ≡ false
    → q.report ≡ none
    → (is_running q.state && is_nil acc ≡ is_nil acc)
    → q.state ≢ closed
    → admitted ≡ done q.outcomes ++ q.accepted
    → q.settled ≡ length q.outcomes
    → IsOrderly admitted (take_next acc q)
take_next-IsOrderly admitted [] q ea ec ed er live unclosed o n = record {
  order = o ∙ ap (λ c. done q.outcomes ++ (pending c ++ q.accepted)) (sym ec);
  counted = n;
  shape = rw (ea, ec, ed) tt;
  fits = unclosed-Fits q.state (λ e. cc (live, ap is_running e)) unclosed;
}
  where
    unclosed-Fits :
        (st : WriteExecutorState)
        → st ≢ stopping
        → st ≢ closed
        → Fits st q.draining q.settled q.report
    unclosed-Fits running s c = er
    unclosed-Fits stopping s c = absurd (s refl)
    unclosed-Fits closed s c = absurd (c refl)
take_next-IsOrderly admitted (next ∷ rest) q ea ec ed er live unclosed o n = record {
  order = o ∙ ap (λ a. done q.outcomes ++ a) ea;
  counted = n;
  shape = tt;
  fits = unclosed-Fits q.state unclosed;
}
  where
    unclosed-Fits : (st : WriteExecutorState) → st ≢ closed → Fits st true q.settled q.report
    unclosed-Fits running c = er
    unclosed-Fits stopping c = (er, refl)
    unclosed-Fits closed c = absurd (c refl)

pub Shape-idle :
    (d : Bool) (c : Option DomainWritePlan) (acc : List DomainWritePlan)
    → d ≡ false
    → Shape d c acc
    → (c ≡ none) × (acc ≡ [])
Shape-idle false none [] e h = (refl, refl)
Shape-idle true _ _ e h = cc
Shape-idle false (some plan) _ e h = absurd h
Shape-idle false none (x ∷ xs) e h = absurd h

pub execute-IsOrderly :
    (admitted : List DomainWritePlan) (st : WriteExecutorState) (plan : DomainWritePlan)
    (q : WriteExecutor)
    → q.state ≡ st
    → IsOrderly admitted q
    → IsOrderly (admitted_in st plan admitted) (execute_in st plan q).0
unfolding pump
execute-IsOrderly admitted running plan q e v =
    let one = plan ∷ [] in
    let longer =
      ap (λ a. a ++ one) v.order
      ∙ append_assoc (done q.outcomes) (pending q.current ++ q.accepted) one
      ∙ ap (λ a. done q.outcomes ++ a) (append_assoc (pending q.current) q.accepted one) in
    elim (Bool-cases q.draining) [
      | inl busy ↦ rw busy (record {
        order = longer;
        counted = v.counted;
        shape = tt;
        fits = rw e (subst (λ s. Fits s q.draining q.settled q.report) e v.fits);
      })
      | inr idle ↦
          let (c, a) = Shape-idle q.draining q.current q.accepted idle v.shape in
          rw idle (
            take_next-IsOrderly (admitted ++ one) (q.accepted ++ one)
              (record q { accepted = q.accepted ++ one; draining = false }) refl c refl
              (subst (λ s. Fits s q.draining q.settled q.report) e v.fits) (rw e (rw a refl))
              (λ x. cc (x, e))
              (longer ∙ ap (λ k. done q.outcomes ++ (pending k ++ (q.accepted ++ one))) c)
              v.counted)
    ]
execute-IsOrderly admitted stopping plan q e v = v
execute-IsOrderly admitted closed plan q e v = v

nil_of : (acc : List DomainWritePlan) → is_nil acc ≡ true → acc ≡ []
nil_of [] e = refl
nil_of (x ∷ xs) e = cc

resolve_closed_first :
    (n : ℕ) (r : Option ExecutorCloseReport)
    → r ≡ none
    → resolve_closed n r ≡ some (record { settled = n })
resolve_closed_first n none e = refl
resolve_closed_first n (some x) e = cc

-- The close of an executor with nothing in flight and nothing waiting.
close-IsOrderly :
    (admitted : List DomainWritePlan) (q : WriteExecutor)
    → q.current ≡ none
    → q.accepted ≡ []
    → q.draining ≡ false
    → q.report ≡ none
    → admitted ≡ done q.outcomes ++ (pending q.current ++ q.accepted)
    → q.settled ≡ length q.outcomes
    → IsOrderly admitted (close q)
close-IsOrderly admitted q c a d r o n = record {
  order = o;
  counted = n;
  shape = rw (c, a, d) tt;
  fits = (resolve_closed_first q.settled q.report r, d);
}

unclosed-report :
    (st : WriteExecutorState) (n : ℕ) (r : Option ExecutorCloseReport)
    → Fits st true n r
    → (r ≡ none) × (st ≢ closed)
unclosed-report running n r f = (f, λ e. cc)
unclosed-report stopping n r f = (f.0, λ e. cc)
unclosed-report closed n r f = cc (f.1)

running_or_waits :
    (running_state waits : Bool)
    → (not running_state && waits) ≡ false
    → (running_state && waits) ≡ waits
running_or_waits true waits e = refl
running_or_waits false waits e = sym e

pub finish-IsOrderly :
    (admitted : List DomainWritePlan) (q : WriteExecutor)
    → q.draining ≡ true
    → q.current ≡ none
    → IsOrderly admitted q
    → IsOrderly admitted (finish q)
unfolding finish pump
finish-IsOrderly admitted q d c v =
    let (unreported, live) =
      unclosed-report q.state q.settled q.report
        (subst (λ b. Fits q.state b q.settled q.report) d v.fits) in
    let idle : WriteExecutor = record q { draining = false } in
    elim (Bool-cases (not (is_running q.state) && is_nil q.accepted)) [
      | inl last ↦ rw last (
          close-IsOrderly admitted idle c (nil_of q.accepted (ground arith)) refl unreported v.order
            v.counted)
      | inr more ↦ rw more (
          take_next-IsOrderly admitted q.accepted idle refl c refl unreported
            (running_or_waits _ _ more) live
            (v.order ∙ ap (λ k. done q.outcomes ++ (pending k ++ q.accepted)) c) v.counted)
    ]

stopping-IsOrderly :
    (admitted : List DomainWritePlan) (q : WriteExecutor)
    → q.report ≡ none
    → IsOrderly admitted q
    → IsOrderly admitted (stop_open q)
stopping-IsOrderly admitted q r v = elim (Bool-cases q.draining) [
  | inl busy ↦
      let same =
        if_false (close (record q { state = stopping })) (record q { state = stopping })
          (stays q.draining q.accepted busy) in
      subst (IsOrderly admitted) (sym same)
        (record { order = v.order; counted = v.counted; shape = v.shape; fits = (r, busy) })
  | inr idle ↦
      let (c, a) = Shape-idle q.draining q.current q.accepted idle v.shape in
      let same =
        if_true (close (record q { state = stopping })) (record q { state = stopping })
          (ends q.draining q.accepted idle a) in
      subst (IsOrderly admitted) (sym same)
        (close-IsOrderly admitted (record q { state = stopping }) c a idle r v.order v.counted)
]
  where
    stays : (d : Bool) (acc : List DomainWritePlan) → d ≡ true → (not d && is_nil acc) ≡ false
    stays true acc e = refl
    stays false acc e = cc

    ends :
        (d : Bool) (acc : List DomainWritePlan)
        → d ≡ false
        → acc ≡ []
        → (not d && is_nil acc) ≡ true
    ends false [] e a = refl
    ends true acc e a = cc
    ends false (x ∷ xs) e a = cc

pub stop_in-IsOrderly :
    (admitted : List DomainWritePlan) (st : WriteExecutorState) (q : WriteExecutor)
    → q.state ≡ st
    → IsOrderly admitted q
    → IsOrderly admitted (stop_in st q)
stop_in-IsOrderly admitted closed q e v = v
stop_in-IsOrderly admitted running q e v =
    stopping-IsOrderly admitted q (subst (λ s. Fits s q.draining q.settled q.report) e v.fits) v
stop_in-IsOrderly admitted stopping q e v =
    stopping-IsOrderly admitted q (subst (λ s. Fits s q.draining q.settled q.report) e v.fits).0 v
