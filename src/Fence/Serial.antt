-- ===== src/Fence/Serial.antt =====
-- The ledger of the fence as a serialized queue whose cursor and first failure are right.
use astroix.Base.{
  ℕ, ◌≤◌, ◌<◌, ◌≡◌, refl, sym, ap, subst, ◌∙◌, true, false, Option, none, some, String, List, map,
  inl, inr, arith, if_true, if_false, length, get_elem?, drop, All, Bool-cases,
}
use astroix.DrainReport.{WriteOutcome, DrainOperationOutcome, classify_write_outcome}
use astroix.Fence.{
  AcceptedEdit, in_flight, Ledger, empty_ledger, advance, start, admitted, admit, reopen_ledger,
  launch, pump_at, pump, record_outcome,
}
use astroix.Fence.Order.{
  Gap, Serial, length-update_at, admitted-IsQueued, Gap-append, Busy-append, Busy-lt, Gap-le,
  Gap-not_in_flight, Busy-index, Busy-flying, Busy-finish, advance_cursor, get_elem?-Gap,
  start-Busy, Serial-false, Serial-true, Serial-idle,
}
use astroix.Fence.Blame.{
  blame, first_failed, summary, first_failed-append, first_failed-start, or_else,
  first_failed-finish, summary-note_failure, Gap-unblamed,
}

-- The order of the queue, the cursor, and the failure that the ledger remembers.
pub record IsSerial (l : Ledger) : Type 0 where
  pub order : Serial l.is_in_flight l.terminal_count l.accepted
  pub at_cursor : l.cursor ≡ l.terminal_count
  pub blamed : summary l.first_failure ≡ first_failed l.accepted

-- What `pump` is called on when nothing is in flight.
pub record IsPaused (l : Ledger) : Type 0 where
  pub order : Gap l.terminal_count l.accepted
  pub below_cursor : l.cursor ≤ l.terminal_count
  pub blamed : summary l.first_failure ≡ first_failed l.accepted

pub empty-IsSerial : IsSerial empty_ledger
unfolding first_failed
empty-IsSerial = record { order = (tt, refl); at_cursor = refl; blamed = refl }

launch-IsSerial :
    (l : Ledger) (o : Option AcceptedEdit)
    → get_elem? l.accepted l.terminal_count ≡ o
    → l.is_in_flight ≡ false
    → IsPaused l
    → IsSerial (launch o l.terminal_count l)
launch-IsSerial l none e idle p = record {
  order = rw idle (p.order, get_elem?-Gap l.terminal_count l.accepted p.order e);
  at_cursor = refl;
  blamed = p.blamed;
}
launch-IsSerial l (some op) e idle p = record {
  order = start-Busy l.terminal_count l.accepted op p.order e;
  at_cursor = refl;
  blamed = p.blamed ∙ sym (first_failed-start l.terminal_count l.accepted);
}

pump_idle : (l : Ledger) → l.is_in_flight ≡ false → IsPaused l → pump l ≡ pump_at l.terminal_count l
unfolding pump
pump_idle l idle p =
    if_false l _ idle
    ∙ ap (λ c. pump_at c l)
        (advance_cursor l.terminal_count l.cursor l.accepted p.order p.below_cursor)

-- `pump` starts the next queued edit, if there is one.
pub pump-IsSerial : (l : Ledger) → l.is_in_flight ≡ false → IsPaused l → IsSerial (pump l)
pump-IsSerial l idle p = rw (pump_idle l idle p) (launch-IsSerial l _ refl idle p)

pub pump_busy : (l : Ledger) → l.is_in_flight ≡ true → pump l ≡ l
unfolding pump
pump_busy l busy = if_true l _ busy

-- What `pump` leaves alone.
pub pump_keeps :
    (l : Ledger)
    → ((pump l).terminal_count ≡ l.terminal_count)
      × (length (pump l).accepted ≡ length l.accepted)
      × ((pump l).first_failure ≡ l.first_failure)
unfolding pump
pump_keeps l =
    let c = advance (drop l.cursor l.accepted) l.cursor in
    ground (arith, length-update_at c start l.accepted)

-- Admission keeps the order, whatever is in flight.
pub admit-IsSerial : (keys : List String) (l : Ledger) → IsSerial l → IsSerial (pump (admit keys l))
admit-IsSerial keys l s = elim (Bool-cases l.is_in_flight) [
  | inl busy ↦ rw (pump_busy (admit keys l) busy) (record {
    order = rw busy (
        Busy-append l.terminal_count l.accepted (map admitted keys)
          (Serial-true l.is_in_flight l.terminal_count l.accepted busy s.order)
          (admitted-IsQueued keys));
    at_cursor = s.at_cursor;
    blamed =
        s.blamed
        ∙ sym (first_failed-append l.accepted (map admitted keys) (admitted-IsQueued keys));
  })
  | inr idle ↦ pump-IsSerial (admit keys l) idle (record {
    order =
        Gap-append l.terminal_count l.accepted (map admitted keys)
          (Serial-false l.is_in_flight l.terminal_count l.accepted idle s.order)
          (admitted-IsQueued keys);
    below_cursor = omega (arith, s.at_cursor);
    blamed =
        s.blamed
        ∙ sym (first_failed-append l.accepted (map admitted keys) (admitted-IsQueued keys));
  })
]

-- A settlement of the edit in flight leaves the ledger ready for the next.
pub record_outcome-IsPaused :
    (l : Ledger) (op : AcceptedEdit) (raw : WriteOutcome)
    → IsSerial l
    → l.is_in_flight ≡ true
    → get_elem? l.accepted l.terminal_count ≡ some op
    → IsPaused (record_outcome l.terminal_count op raw l)
unfolding record_outcome
record_outcome-IsPaused l op raw s busy e =
    let flying = Serial-true l.is_in_flight l.terminal_count l.accepted busy s.order in
    let o = classify_write_outcome raw in
    record {
      order = Busy-finish l.terminal_count o l.accepted flying;
      below_cursor = omega (arith, s.at_cursor);
      blamed =
          summary-note_failure op.key raw o l.first_failure
          ∙ ap (λ d. or_else d (blame op.key (some o) none)) s.blamed
          ∙ sym (first_failed-finish l.terminal_count o l.accepted op flying e);
    }

-- Only the edit behind the terminal ones can settle, and only while the ledger is busy.
pub in_flight_index :
    (l : Ledger) (i : ℕ) (op : AcceptedEdit)
    → IsSerial l
    → get_elem? l.accepted i ≡ some op
    → op.phase ≡ in_flight
    → (i ≡ l.terminal_count) × (l.is_in_flight ≡ true)
in_flight_index l i op s e p = elim (Bool-cases l.is_in_flight) [
  | inl busy ↦
      (Busy-index l.terminal_count i l.accepted op (Serial-true _ _ _ busy s.order) e p, busy)
  | inr idle ↦
      absurd
        (Gap-not_in_flight l.terminal_count i l.accepted op (Serial-false _ _ _ idle s.order) e p)
]

pub in_flight_below :
    (l : Ledger) → IsSerial l → l.is_in_flight ≡ true → l.terminal_count < length l.accepted
in_flight_below l s busy = Busy-lt l.terminal_count l.accepted (Serial-true _ _ _ busy s.order)

pub IsSerial-le : (l : Ledger) → IsSerial l → l.terminal_count ≤ length l.accepted
IsSerial-le l s = elim (Bool-cases l.is_in_flight) [
  | inl busy ↦ omega (arith, in_flight_below l s busy)
  | inr idle ↦ Gap-le l.terminal_count l.accepted (Serial-false _ _ _ idle s.order)
]

pub reopened-IsSerial : (l : Ledger) → l.is_in_flight ≡ false → IsSerial (reopen_ledger l)
unfolding first_failed
reopened-IsSerial l idle = record { order = rw idle (tt, refl); at_cursor = refl; blamed = refl }

pub settled-idle :
    (l : Ledger) → IsSerial l → l.terminal_count ≡ length l.accepted → l.is_in_flight ≡ false
settled-idle l s e = elim (Bool-cases l.is_in_flight) [
  | inl busy ↦ absurd (omega (arith, in_flight_below l s busy))
  | inr idle ↦ idle
]

pub flying_edit :
    (l : Ledger)
    → IsSerial l
    → l.terminal_count < length l.accepted
    → (op : AcceptedEdit) × (get_elem? l.accepted l.terminal_count ≡ some op)
      × (op.phase ≡ in_flight)
flying_edit l s lt = elim (Bool-cases l.is_in_flight) [
  | inl busy ↦ Busy-flying l.terminal_count l.accepted (Serial-true _ _ _ busy s.order)
  | inr idle ↦ absurd (omega (arith, Serial-idle _ _ _ idle s.order))
]

pub unblamed-All :
    (l : Ledger)
    → IsSerial l
    → l.terminal_count ≡ length l.accepted
    → l.first_failure ≡ none
    → All (λ op. op.reported ≡ some DrainOperationOutcome.success) l.accepted
unblamed-All l s t clean =
    Gap-unblamed l.accepted
      (subst (λ n. Gap n l.accepted) t (Serial-false _ _ _ (settled-idle l s t) s.order))
      (sym s.blamed ∙ ap summary clean)
