-- ===== src/Fence/Verdict.antt =====
-- What a fence promises: closed admission, one verdict by the deadline, tracking until every
-- accepted edit is terminal, and resumption only then.
use astroix.Base.{
  ℕ, suc, ◌+◌, ◌-◌, ◌≡◌, ◌≢◌, ◌↔◌, inl, inr, refl, sym, ap, ◌∙◌, Bool, true, false, Option, none,
  some, String, List, [], ◌∷◌, arith, ◌==◌, length, get_elem?, Bool-cases, All,
}
use astroix.DrainReport.{
  DrainReport, DrainFailureDetail, DrainOperationOutcome, WriteOutcome, classify_write_outcome,
}
use astroix.Fence.{
  FenceState, opened, draining, drained, failed, timed_out, terminal_after_timeout, EditFence,
  Ledger, AcceptedEdit, finish, pumped, on_terminality, settle, settled_with, record_outcome,
  on_deadline, submit, Answer, fence, resume, resumed, converge, time_out, submit_in, fence_in,
  resume_in, resolve_settled,
}
use astroix.Fence.Blame.{summary, first_failed}
use astroix.Fence.Keys.{keys, keys-update_at, keys-pump}
use astroix.Fence.Order.{length-update_at}
use astroix.Fence.Serial.{pump_keeps, flying_edit, unblamed-All}
use astroix.Fence.Steps.{Event, submits, fences, settles, ticks, resumes, step}
use astroix.Fence.Sound.{IsSound, resolved, failed_report, timed_out_report}
use astroix.Fence.Invariant.{Fits-at, on_terminality_ledger, step-IsSound}

-- `on_terminality` never opens the fence.
converge-closed :
    (st : FenceState) (f : EditFence) → f.state ≡ st → st ≢ opened → (converge st f).state ≢ opened
converge-closed opened f e h = absurd (h refl)
converge-closed draining f e h = ground arith
converge-closed timed_out f e h = cc
converge-closed _ f e h = rw e (λ q. cc)

on_terminality-closed : (f : EditFence) → f.state ≢ opened → (on_terminality f).state ≢ opened
unfolding on_terminality
on_terminality-closed f h = elim (Bool-cases (f.terminal_count == length f.accepted)) [
  | inl all ↦ rw all (converge-closed f.state (record f { drain = resolve_settled f.drain }) refl h)
  | inr some_left ↦ rw some_left h
]

settle-closed :
    (f : EditFence) (i : ℕ) (raw : Option WriteOutcome) (o : Option AcceptedEdit)
    → get_elem? f.accepted i ≡ o
    → f.state ≢ opened
    → ((settle i raw f).state ≢ opened) × (keys (settle i raw f).accepted ≡ keys f.accepted)
unfolding settle
settle-closed f i raw none e h = rw (e, settle) (h, refl)
settle-closed f i raw (some op) e h =
    let w = settled_with raw in
    let g : EditFence = record f { ledger = record_outcome i op w f.ledger } in
    rw (e, settle)
      (unfold pumped record_outcome in
        (
          on_terminality-closed g h,
          keys-pump (on_terminality g).ledger
              ∙ ap (λ l. keys (Ledger.accepted l)) (on_terminality_ledger g)
              ∙ keys-update_at i (finish (classify_write_outcome w)) f.accepted (λ op. refl),
        ))

submit_in-closed :
    (st : FenceState) (key : String) (f : EditFence)
    → st ≢ opened
    → submit_in st key f ≡ (f, Answer.refused)
submit_in-closed opened key f h = absurd (h refl)
submit_in-closed _ key f h = refl

fence_in-closed :
    (st : FenceState) (pending : Option (List String)) (f : EditFence)
    → st ≢ opened
    → fence_in st pending f ≡ (f, Answer.refused)
fence_in-closed opened pending f h = absurd (h refl)
fence_in-closed draining pending f h = refl
fence_in-closed _ pending f h = refl

time_out-closed :
    (st : FenceState) (f : EditFence)
    → f.state ≡ st
    → f.state ≢ opened
    → ((time_out st f).state ≢ opened) × ((time_out st f).accepted ≡ f.accepted)
time_out-closed draining f e h = ((λ q. cc), refl)
time_out-closed opened f e h = absurd (h e)
time_out-closed _ f e h = (h, refl)

refused_keeps :
    {f : EditFence} {p : EditFence × Answer}
    → p ≡ (f, Answer.refused)
    → f.state ≢ opened
    → (p.0.state ≢ opened) × (p.0.accepted ≡ f.accepted)
refused_keeps e h = rw e (h, refl)

-- The accepted edits after an event: the settlement of an edit changes phases, nothing else changes
-- them.
abbrev pub Kept : Event → List AcceptedEdit → List AcceptedEdit → Type 0
Kept (settles i raw) before after = keys after ≡ keys before
Kept _ before after = after ≡ before

-- While the fence is closed no event other than resume opens it; the settlement of an edit keeps
-- the keys of the accepted edits and their order, and every other event leaves the accepted edits
-- as they are.
pub closed_admits_nothing :
    (f : EditFence) (e : Event)
    → f.state ≢ opened
    → e ≢ resumes
    → ((step f e).state ≢ opened) × Kept e f.accepted (step f e).accepted
unfolding step submit fence on_deadline
closed_admits_nothing f (submits key) h ne = refused_keeps (submit_in-closed f.state key f h) h
closed_admits_nothing f (fences pending) h ne =
    refused_keeps (fence_in-closed f.state pending f h) h
closed_admits_nothing f (settles i raw) h ne = settle-closed f i raw (get_elem? f.accepted i) refl h
closed_admits_nothing f ticks h ne = time_out-closed f.state (record f { armed = false }) refl h
closed_admits_nothing f resumes h ne = absurd (ne refl)

-- A drain has its verdict no later than the deadline tick, and a verdict never changes.
resolved_by_tick :
    (st : FenceState) (f : EditFence)
    → f.state ≡ st
    → st ≢ opened
    → IsSound f
    → (r : DrainReport) × (s : Bool) × ((time_out st (record f { armed = false })).drain
        ≡ resolved r s)
resolved_by_tick opened f e h v = absurd (h refl)
resolved_by_tick draining f e h v = (
  timed_out_report f.terminal_count (length f.accepted - f.terminal_count),
  false,
  rw ((Fits-at draining f e v).2),
)
resolved_by_tick drained f e h v = (_, true, (Fits-at drained f e v).3)
resolved_by_tick failed f e h v = (_, true, (Fits-at failed f e v).2.2)
resolved_by_tick timed_out f e h v = (_, false, (Fits-at timed_out f e v).2.2)
resolved_by_tick terminal_after_timeout f e h v =
    (_, true, (Fits-at terminal_after_timeout f e v).2.2)

-- In a closed sound fence the outcome of the drain is resolved once the deadline has ticked.
pub deadline_resolves :
    (f : EditFence)
    → f.state ≢ opened
    → IsSound f
    → (r : DrainReport) × (s : Bool) × ((on_deadline f).drain ≡ resolved r s)
unfolding on_deadline
deadline_resolves f h v = resolved_by_tick f.state f refl h v

-- Resumption is legal exactly when the fence is closed and every accepted edit is terminal.
closed_resume :
    (st : FenceState) (f : EditFence)
    → f.state ≡ st
    → IsSound f
    → ((resume_in st f).1 ≡ resumed) ↔ ((st ≢ opened) × (f.terminal_count ≡ length f.accepted))
closed_resume opened f e v = ((λ q. cc), λ p. absurd (p.0 refl))
closed_resume draining f e v = ((λ q. cc), λ p. absurd (omega (arith, Fits-at draining f e v, p.1)))
closed_resume timed_out f e v =
    ((λ q. cc), λ p. absurd (omega (arith, Fits-at timed_out f e v, p.1)))
closed_resume drained f e v = ((λ q. ((λ r. cc), (Fits-at drained f e v).0)), λ p. refl)
closed_resume failed f e v = ((λ q. ((λ r. cc), (Fits-at failed f e v).0)), λ p. refl)
closed_resume terminal_after_timeout f e v =
    ((λ q. ((λ r. cc), (Fits-at terminal_after_timeout f e v).0)), λ p. refl)

-- In a sound state resume succeeds exactly when the fence is closed and every accepted edit is
-- terminal.
pub resume_iff :
    (f : EditFence)
    → IsSound f
    → ((resume f).1 ≡ resumed) ↔ ((f.state ≢ opened) × (f.terminal_count ≡ length f.accepted))
unfolding resume
resume_iff f v = closed_resume f.state f refl v

-- The settlements of the edits that are left, in order.
unfoldable pub settle_all : List (Option WriteOutcome) → EditFence → EditFence
settle_all [] f = f
settle_all (raw ∷ raws) f = settle_all raws (settle f.terminal_count raw f)

settle_counts :
    (f : EditFence) (raw : Option WriteOutcome) (op : AcceptedEdit)
    → get_elem? f.accepted f.terminal_count ≡ some op
    → ((settle f.terminal_count raw f).terminal_count ≡ suc f.terminal_count)
      × (length (settle f.terminal_count raw f).accepted ≡ length f.accepted)
unfolding settle record_outcome
settle_counts f raw op e =
    let w = settled_with raw in
    let g : EditFence = record f { ledger = record_outcome f.terminal_count op w f.ledger } in
    rw (e, settle)
      (unfold pumped in
        rw (on_terminality_ledger g) (
          let (t, n, _) = pump_keeps g.ledger in
          (
            t,
            n ∙ length-update_at f.terminal_count (finish (classify_write_outcome w)) f.accepted,
          )))

-- Both promises of the drain are resolved.
abbrev pub IsEnded : EditFence → Type 0
IsEnded f =
    (f.terminal_count ≡ length f.accepted) × ((r : DrainReport) × (f.drain ≡ resolved r true))

IsEnded-at :
    (st : FenceState) (f : EditFence)
    → f.state ≡ st
    → st ≢ opened
    → IsSound f
    → f.terminal_count ≡ length f.accepted
    → IsEnded f
IsEnded-at opened f e h v t = absurd (h refl)
IsEnded-at draining f e h v t = absurd (omega (arith, Fits-at draining f e v))
IsEnded-at timed_out f e h v t = absurd (omega (arith, Fits-at timed_out f e v))
IsEnded-at drained f e h v t = (t, (_, (Fits-at drained f e v).3))
IsEnded-at failed f e h v t = (t, (_, (Fits-at failed f e v).2.2))
IsEnded-at terminal_after_timeout f e h v t = (t, (_, (Fits-at terminal_after_timeout f e v).2.2))

-- When each edit that is left settles in turn, whatever the outcome, a closed fence that is sound
-- ends its drain: every accepted edit is terminal, the verdict is given, the tracking promise is
-- resolved, and admission stays closed.
pub settle_all-IsEnded :
    (raws : List (Option WriteOutcome)) (f : EditFence)
    → IsSound f
    → f.state ≢ opened
    → f.terminal_count + length raws ≡ length f.accepted
    → IsEnded (settle_all raws f) × ((settle_all raws f).state ≢ opened)
unfolding settle_all
settle_all-IsEnded [] f v h n = (IsEnded-at f.state f refl h v (omega arith), h)
settle_all-IsEnded (raw ∷ raws) f v h n =
    let t = f.terminal_count in
    let (op, found, flying) = flying_edit f.ledger v.serial (omega arith) in
    let (count, total) = settle_counts f raw op found in
    settle_all-IsEnded raws (settle t raw f)
      (unfold step in step-IsSound f (settles t raw) (op, found, flying) v)
      (settle-closed f t raw (some op) found h).0 (omega arith)

-- A sound fence in the drained state has reported success for every accepted edit, and its drain
-- resolved with their number.
pub drained_success :
    (f : EditFence)
    → IsSound f
    → f.state ≡ drained
    → All (λ op. op.reported ≡ some DrainOperationOutcome.success) f.accepted
      × (f.drain ≡ resolved (DrainReport.drained (length f.accepted)) true)
drained_success f v e =
    let (t, _, clean, d) = Fits-at drained f e v in (unblamed-All f.ledger v.serial t clean, d)

-- A sound fence in the failed state resolved its drain with a failure that names the first
-- accepted edit, in admission order, that was not a success, and its cause.
pub failed_blames_first :
    (f : EditFence)
    → IsSound f
    → f.state ≡ failed
    → (d : DrainFailureDetail) × (f.drain ≡ resolved (failed_report d (length f.accepted)) true)
      × (first_failed f.accepted ≡ some (d.key, d.cause))
failed_blames_first f v e =
    let (_, _, (d, found, report)) = Fits-at failed f e v in
    (d, report, sym v.serial.blamed ∙ ap summary found)
