-- ===== src/Fence/Invariant.antt =====
-- What holds of the fence in every state that a history reaches.
use astroix.Base.{
  ℕ, suc, ◌<◌, ◌≡◌, ◌≢◌, refl, sym, subst₃, inl, inr, Bool, true, false, Option, none, some, String,
  List, [], ◌∷◌, ◌-◌, arith, ◌==◌, ==_iff, length, get_elem?, Bool-cases,
}
use astroix.DrainReport.{DrainFailureDetail, WriteOutcome, classify_write_outcome}
use astroix.Fence.{
  FenceState, opened, draining, drained, failed, timed_out, terminal_after_timeout, Drain,
  EditFence, AcceptedEdit, in_flight, finish, admit, pump, pumped, on_terminality, settle,
  settled_with, record_outcome, on_deadline, submit, fence, resume, converge, submit_in,
  begin_drain, fence_in, reopen, resume_in, resolve_settled, verdict,
}
use astroix.Fence.Order.{length-update_at}
use astroix.Fence.Serial.{
  IsPaused, empty-IsSerial, pump-IsSerial, pump_keeps, admit-IsSerial, record_outcome-IsPaused,
  in_flight_index, in_flight_below, IsSerial-le, settled-idle, reopened-IsSerial,
}
use astroix.Fence.Steps.{
  Event, submits, fences, settles, ticks, resumes, step, Enabled, Reach, created, next,
}
use astroix.Fence.Sound.{unresolved, Fits, FitsFence, IsSound, Waits, WaitsFence}

pub on_terminality_ledger : (f : EditFence) → (on_terminality f).ledger ≡ f.ledger
unfolding on_terminality
on_terminality_ledger f = ground arith

verdict-Fits :
    (f : EditFence) (o : Option DrainFailureDetail)
    → f.first_failure ≡ o
    → f.terminal_count ≡ length f.accepted
    → f.drain ≡ unresolved
    → FitsFence (verdict o (record f { drain = resolve_settled f.drain }))
verdict-Fits f none e t d = (t, refl, e, rw d)
verdict-Fits f (some x) e t d = (t, refl, (x, e, rw d))

converge-Fits :
    (st : FenceState) (f : EditFence)
    → f.state ≡ st
    → Waits st f.terminal_count (length f.accepted) f.armed f.first_failure f.drain
    → f.terminal_count ≡ length f.accepted
    → FitsFence (converge st (record f { drain = resolve_settled f.drain }))
converge-Fits opened f e w t = rw e w
converge-Fits draining f e w t = verdict-Fits f f.first_failure refl t w.2
converge-Fits timed_out f e (le, off, (a, b, d, total, left)) t =
    (t, off, (a, b, rw d, total, left))
converge-Fits _ f e w t = absurd w

Waits-Fits :
    (st : FenceState) (t n : ℕ) (a : Bool) (ff : Option DrainFailureDetail) (d : Option Drain)
    → t ≢ n
    → Waits st t n a ff d
    → Fits st t n a ff d
Waits-Fits opened t n a ff d ne w = w
Waits-Fits draining t n a ff d ne w = (omega arith, w.1, w.2)
Waits-Fits timed_out t n a ff d ne w = (omega arith, w.1, w.2)
Waits-Fits _ t n a ff d ne w = absurd w

on_terminality-Fits : (f : EditFence) → WaitsFence f → FitsFence (on_terminality f)
unfolding on_terminality
on_terminality-Fits f w = elim (Bool-cases (f.terminal_count == length f.accepted)) [
  | inl all ↦ rw all (converge-Fits f.state f refl w ((==_iff _ _).0 all))
  | inr some_left ↦ rw some_left (Waits-Fits f.state _ _ _ _ _ (λ e. ground (arith, e)) w)
]

pumped-Fits : (f : EditFence) → FitsFence f → FitsFence (pumped f)
unfolding pumped
pumped-Fits f h =
    let (t, n, ff) = pump_keeps f.ledger in
    subst₃ (λ t n ff. Fits f.state t n f.armed ff f.drain) (sym t) (sym n) (sym ff) h

-- A settlement waits for the verdict that `on_terminality` may give.
settled-Waits :
    (st : FenceState) (t n : ℕ) (a : Bool) (ff gg : Option DrainFailureDetail) (d : Option Drain)
    → t < n
    → Fits st t n a ff d
    → Waits st (suc t) n a gg d
settled-Waits opened t n a ff gg d lt h = h
settled-Waits draining t n a ff gg d lt h = (lt, h.1, h.2)
settled-Waits drained t n a ff gg d lt h = absurd (omega arith)
settled-Waits failed t n a ff gg d lt h = absurd (omega arith)
settled-Waits timed_out t n a ff gg d lt h = (lt, h.1, h.2)
settled-Waits terminal_after_timeout t n a ff gg d lt h = absurd (omega arith)

outcome_at : EditFence → AcceptedEdit → WriteOutcome → EditFence
outcome_at f op raw = record f { ledger = record_outcome f.terminal_count op raw f.ledger }

outcome_at-Waits :
    (f : EditFence) (op : AcceptedEdit) (raw : WriteOutcome)
    → IsSound f
    → f.is_in_flight ≡ true
    → WaitsFence (outcome_at f op raw)
unfolding outcome_at record_outcome
outcome_at-Waits f op raw v busy =
    rw (length-update_at f.terminal_count (finish (classify_write_outcome raw)) f.accepted) (
      settled-Waits f.state f.terminal_count (length f.accepted) f.armed f.first_failure _ f.drain
        (in_flight_below f.ledger v.serial busy) v.fits)

after_outcome-IsSound :
    (g : EditFence)
    → g.is_in_flight ≡ false
    → IsPaused g.ledger
    → WaitsFence g
    → IsSound (pumped (on_terminality g))
unfolding pumped
after_outcome-IsSound g idle p w = record {
  serial = rw (on_terminality_ledger g) (pump-IsSerial g.ledger idle p);
  fits = pumped-Fits (on_terminality g) (on_terminality-Fits g w);
}

settle-IsSound :
    (f : EditFence) (i : ℕ) (raw : Option WriteOutcome) (op : AcceptedEdit)
    → IsSound f
    → get_elem? f.accepted i ≡ some op
    → op.phase ≡ in_flight
    → IsSound (settle i raw f)
unfolding settle outcome_at record_outcome
settle-IsSound f i raw op v e p =
    let (at, busy) = in_flight_index f.ledger i op v.serial e p in
    rw (e, settle)
      (rw at (
        after_outcome-IsSound (outcome_at f op (settled_with raw)) refl
          (record_outcome-IsPaused f.ledger op (settled_with raw) v.serial busy (rw at at e))
          (outcome_at-Waits f op (settled_with raw) v busy)))

pub Fits-at :
    (st : FenceState) (f : EditFence)
    → f.state ≡ st
    → IsSound f
    → Fits st f.terminal_count (length f.accepted) f.armed f.first_failure f.drain
Fits-at st f e v = rw e at v.fits

submit_in-IsSound :
    (st : FenceState) (f : EditFence) (key : String)
    → f.state ≡ st
    → IsSound f
    → IsSound (submit_in st key f).0
submit_in-IsSound opened f key e v =
    unfold pumped in
    record {
      serial = admit-IsSerial (key ∷ []) f.ledger v.serial;
      fits = rw e (Fits-at opened f e v);
    }
submit_in-IsSound _ f key e v = v

fence_in-IsSound :
    (st : FenceState) (pending : Option (List String)) (f : EditFence)
    → IsSound f
    → IsSound (fence_in st pending f).0
unfolding pumped
fence_in-IsSound opened (some flushed) f v =
    let serial = admit-IsSerial flushed f.ledger v.serial in
    record {
      serial = rw (on_terminality_ledger (begin_drain flushed f)) serial;
      fits =
          on_terminality-Fits (begin_drain flushed f)
            (IsSerial-le (pump (admit flushed f.ledger)) serial, refl, refl);
    }
fence_in-IsSound opened none f v = v
fence_in-IsSound _ pending f v = v

-- The timer is pending exactly while a drain waits for its verdict.
pub armed_draining :
    (st : FenceState) (t n : ℕ) (a : Bool) (ff : Option DrainFailureDetail) (d : Option Drain)
    → Fits st t n a ff d
    → a ≡ true
    → st ≡ draining
armed_draining draining t n a ff d h e = refl
armed_draining opened t n a ff d h e = cc
armed_draining _ t n a ff d h e = cc (h.1)

on_deadline-IsSound : (f : EditFence) → f.armed ≡ true → IsSound f → IsSound (on_deadline f)
unfolding on_deadline
on_deadline-IsSound f a v =
    let e = armed_draining f.state _ _ _ _ _ v.fits a in
    let (left, _, fresh) = Fits-at draining f e v in
    let t = f.terminal_count in
    rw (e, on_deadline)
      (record {
        serial = v.serial;
        fits = (left, refl, (t, length f.accepted - t, rw fresh, omega arith, omega arith));
      })

reopen-IsSound :
    (f : EditFence)
    → f.terminal_count ≡ length f.accepted
    → f.armed ≡ false
    → IsSound f
    → IsSound (reopen f)
reopen-IsSound f t a v = record {
  serial = reopened-IsSerial f.ledger (settled-idle f.ledger v.serial t);
  fits = a;
}

resume_in-IsSound :
    (st : FenceState) (f : EditFence) → f.state ≡ st → IsSound f → IsSound (resume_in st f).0
resume_in-IsSound opened f e v = v
resume_in-IsSound draining f e v = v
resume_in-IsSound timed_out f e v = v
resume_in-IsSound st f e v = let h = Fits-at st f e v in reopen-IsSound f h.0 h.1 v

pub step-IsSound : (f : EditFence) (e : Event) → Enabled f e → IsSound f → IsSound (step f e)
unfolding step submit fence resume
step-IsSound f (submits key) on v = submit_in-IsSound f.state f key refl v
step-IsSound f (fences pending) on v = fence_in-IsSound f.state pending f v
step-IsSound f (settles i raw) (op, e, p) v = settle-IsSound f i raw op v e p
step-IsSound f ticks on v = on_deadline-IsSound f on v
step-IsSound f resumes on v = resume_in-IsSound f.state f refl v

-- After any history of calls, settlements and timer ticks the ledger of the edit fence is a
-- serialized queue in admission order with at most one edit in flight, and the state, the timer
-- and the promises of the drain fit it: an ended drain has all edits terminal, a waiting one does
-- not.
pub Reach-IsSound : {f : EditFence} → Reach f → IsSound f
Reach-IsSound created = record { serial = empty-IsSerial; fits = refl }
Reach-IsSound (next {f = f} r e on) = step-IsSound f e on (Reach-IsSound r)
