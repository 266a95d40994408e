-- ===== src/Supervisor/Invariant.antt =====
-- The invariant of a supervisor with its attempts, and that each event keeps it.
use astroix.Base.{
  ℕ, String, true, false, Option, none, some, ◌≡◌, inl, inr, refl, ap, subst, arith, ◌==◌, ==_iff,
  Bool-cases, ◌∙◌,
}
use astroix.Session.{SessionRef}
use astroix.Supervisor.{Supervision, AttemptContext, AttemptEnd, attempt_ended, end_context, notify}
use astroix.Supervisor.Attempt.{AttemptPhase, ActivationAttempt, Sessions, assign, end_attempt}
use astroix.Supervisor.Attempts.{
  Fit, is_open, AllPlaced, Known, assign-AllPlaced, open-InFlight, others_closed, InFlight-same,
}
use astroix.Supervisor.Sound.{IsSound, attempt_ended-IsSound}
use astroix.Supervisor.Shared.{with_stops-IsSound}

pub record IsSupervised (epoch : String) (s : Sessions) : Type 0 where
  pub sound : IsSound epoch s.supervisor
  pub placed : AllPlaced epoch s.supervisor.next_generation s.supervisor.attempt_ctx s.attempts
  pub known : Known s.attempts s.supervisor.attempt_ctx

-- An attempt that stays as open as it was.
assign-Known :
    (g : ℕ) (a new : ActivationAttempt) (attempts : ℕ → Option ActivationAttempt)
    (ctx : Option AttemptContext)
    → attempts g ≡ some a
    → is_open new.phase ≡ is_open a.phase
    → Known attempts ctx
    → Known (assign g new attempts) ctx
unfolding assign
assign-Known g a new attempts none at same v = tt
assign-Known g a new attempts (some c) at same (b, there, open_) =
    elim (Bool-cases (c.ref.generation == g)) [
      | inl own ↦
          let e = (==_iff c.ref.generation g).0 own in
          let held : attempts g ≡ some b = subst (λ k. attempts k ≡ some b) e there in
          (new, rw own refl, ground (arith, held, at, same, open_))
      | inr other ↦ (b, rw other there, open_)
    ]

pub silent-IsSupervised :
    (epoch : String) (g : ℕ) (a new : ActivationAttempt) (s : Sessions)
    → s.attempts g ≡ some a
    → new.ref ≡ a.ref
    → is_open new.phase ≡ is_open a.phase
    → Fit new.phase new.readiness new.stopping new.closed
    → IsSupervised epoch s
    → IsSupervised epoch (record s { attempts = assign g new s.attempts })
silent-IsSupervised epoch g a new s at same phase fit v =
    let here = v.placed g a at in
    record {
      sound = v.sound;
      placed =
          assign-AllPlaced epoch _ _ _ _ g new s.attempts
            (record {
              is_fit = record {
                own_epoch = ap SessionRef.runtime_epoch same ∙ here.is_fit.own_epoch;
                own_number = ap SessionRef.generation same ∙ here.is_fit.own_number;
                positive = here.is_fit.positive;
                drawn = here.is_fit.drawn;
                fit = fit;
              };
              in_flight =
                  InFlight-same s.supervisor.attempt_ctx a new (is_open a.phase) (is_open new.phase)
                    same phase here.in_flight;
            })
            (λ k b apart p. p) v.placed;
      known = assign-Known g a new s.attempts s.supervisor.attempt_ctx at phase v.known;
    }

-- The end of the attempt in flight.
ended_context :
    (ctx : Option AttemptContext) (end : AttemptEnd) (s : Supervision)
    → s.attempt_ctx ≡ ctx
    → ((end_context ctx end s).attempt_ctx ≡ none)
      × ((end_context ctx end s).next_generation ≡ s.next_generation)
unfolding notify
ended_context none end s at = (at, refl)
ended_context (some c) end s at = (refl, refl)

pub end_attempt-IsSupervised :
    (epoch : String) (g : ℕ) (phase : AttemptPhase) (end : AttemptEnd) (a b : ActivationAttempt)
    (s : Sessions)
    → s.attempts g ≡ some a
    → is_open a.phase ≡ true
    → b.ref ≡ a.ref
    → is_open phase ≡ false
    → Fit phase b.readiness (some end) b.closed
    → IsSupervised epoch s
    → IsSupervised epoch (end_attempt g phase end b s)
unfolding end_attempt attempt_ended
end_attempt-IsSupervised epoch g phase end a b s at open_ same shut fit v =
    let here = v.placed g a at in
    let (c, on, own) = open-InFlight s.supervisor.attempt_ctx a open_ here.in_flight in
    let (gone, number) = ended_context s.supervisor.attempt_ctx end s.supervisor refl in
    record {
      sound = with_stops-IsSound epoch _ _ (attempt_ended-IsSound epoch end s.supervisor v.sound);
      placed =
          rw (gone, number)
            (assign-AllPlaced epoch _ _ (some c) none g _ s.attempts
              (record {
                is_fit = record {
                  own_epoch = ap SessionRef.runtime_epoch same ∙ here.is_fit.own_epoch;
                  own_number = ap SessionRef.generation same ∙ here.is_fit.own_number;
                  positive = here.is_fit.positive;
                  drawn = here.is_fit.drawn;
                  fit = fit;
                };
                in_flight = shut;
              })
              (λ k d apart p.
                others_closed epoch s.supervisor.next_generation g c k d
                  (ap SessionRef.generation own ∙ here.is_fit.own_number) apart p)
              (subst (λ x. AllPlaced epoch s.supervisor.next_generation x s.attempts) on v.placed));
      known = rw gone tt;
    }
