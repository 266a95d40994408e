-- ===== src/Fence/Blame.antt =====
-- The failure that the ledger remembers, against the first edit that was not a success.
use astroix.Base.{
  ℕ, zero, suc, ◌≡◌, refl, Option, none, some, String, List, [], ◌∷◌, ◌++◌, arith, length,
  get_elem?, All,
}
use astroix.DrainReport.{WriteOutcome, DrainOperationOutcome, DrainFailureCause, DrainFailureDetail}
use astroix.Fence.{AcceptedEdit, update_at, start, finish, note_failure}
use astroix.Fence.Order.{IsQueued, Gap, Busy}

-- The first edit, in admission order, that was not a success.
abbrev pub blame :
    String
    → Option DrainOperationOutcome
    → Option (String × DrainFailureCause)
    → Option (String × DrainFailureCause)
blame key (some DrainOperationOutcome.conflict) rest = some (key, DrainFailureCause.conflict)
blame key (some DrainOperationOutcome.failure) rest = some (key, DrainFailureCause.write_failure)
blame key _ rest = rest

unfoldable pub first_failed : List AcceptedEdit → Option (String × DrainFailureCause)
first_failed [] = none
first_failed (op ∷ ops) = blame op.key op.reported (first_failed ops)

abbrev pub summary : Option DrainFailureDetail → Option (String × DrainFailureCause)
summary none = none
summary (some d) = some (d.key, d.cause)

pub first_failed-queued : (ops : List AcceptedEdit) → All IsQueued ops → first_failed ops ≡ none
unfolding first_failed
first_failed-queued [] h = refl
first_failed-queued (op ∷ ops) h = ground (arith, first_failed-queued ops h.1)

pub first_failed-append :
    (xs ys : List AcceptedEdit) → All IsQueued ys → first_failed (xs ++ ys) ≡ first_failed xs
unfolding first_failed
first_failed-append [] ys h = first_failed-queued ys h
first_failed-append (x ∷ xs) ys h = rw (first_failed-append xs ys h)

pub first_failed-start :
    (i : ℕ) (ops : List AcceptedEdit) → first_failed (update_at i start ops) ≡ first_failed ops
unfolding first_failed update_at
first_failed-start i [] = refl
first_failed-start zero (op ∷ ops) = refl
first_failed-start (suc i) (op ∷ ops) = rw (first_failed-start i ops)

abbrev pub or_else {ℓ} : {A : Type ℓ} → Option A → Option A → Option A
or_else none y = y
or_else (some x) y = some x

pub first_failed-finish :
    (t : ℕ) (o : DrainOperationOutcome) (ops : List AcceptedEdit) (op : AcceptedEdit)
    → Busy t ops
    → get_elem? ops t ≡ some op
    → first_failed (update_at t (finish o) ops)
      ≡ or_else (first_failed ops) (blame op.key (some o) none)
unfolding first_failed update_at
first_failed-finish t o [] op h e = absurd h
first_failed-finish zero o (x ∷ ops) op h e = ground (arith, first_failed-queued ops h.1)
first_failed-finish (suc t) o (x ∷ ops) op h e =
    ground (arith, first_failed-finish t o ops op h.1 e)

pub summary-note_failure :
    (key : String) (raw : WriteOutcome) (o : DrainOperationOutcome) (d : Option DrainFailureDetail)
    → summary (note_failure key raw o d) ≡ or_else (summary d) (blame key (some o) none)
summary-note_failure key raw DrainOperationOutcome.success none = refl
summary-note_failure key raw _ none = refl
summary-note_failure key raw DrainOperationOutcome.success (some d) = refl
summary-note_failure key raw _ (some d) = refl

pub Gap-unblamed :
    (ops : List AcceptedEdit)
    → Gap (length ops) ops
    → first_failed ops ≡ none
    → All (λ op. op.reported ≡ some DrainOperationOutcome.success) ops
unfolding first_failed
Gap-unblamed [] h e = tt
Gap-unblamed (op ∷ ops) ((_, (o, done)), h) e = ground (arith, done, Gap-unblamed ops h)
