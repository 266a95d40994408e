-- ===== src/Supervisor/Begun.antt =====
-- A begin that is admitted numbers its attempt anew and puts it in flight.
use astroix.Base.{
  ℕ, ◌+◌, String, Option, none, some, ◌≡◌, inl, inr, refl, sym, ap, subst, arith, Bool-cases,
}
use astroix.Session.{SessionRef}
use astroix.Supervisor.{AttemptContext, notify, begin, begin_free, root_has_plane, reserved}
use astroix.Supervisor.Attempt.{
  ActivationAttempt, Sessions, assign, create_activation_attempt, with_attempt, begin_session,
}
use astroix.Supervisor.Attempts.{is_open, InFlight, IsPlaced, assign-AllPlaced}
use astroix.Supervisor.Sound.{IsSound, begin-IsSound}
use astroix.Supervisor.Invariant.{IsSupervised}

-- Beside a new attempt every older one is closed, and has another reference.
older-IsPlaced :
    (epoch : String) (next : ℕ) (ctx : Option AttemptContext) (c : AttemptContext) (k : ℕ)
    (b : ActivationAttempt)
    → ctx ≡ none
    → c.ref.generation ≡ next
    → IsPlaced epoch next ctx k b
    → IsPlaced epoch (next + 1) (some c) k b
older-IsPlaced epoch next ctx c k b free number p = record {
  is_fit = record {
    own_epoch = p.is_fit.own_epoch;
    own_number = p.is_fit.own_number;
    positive = p.is_fit.positive;
    drawn = omega (arith, p.is_fit.drawn);
    fit = p.is_fit.fit;
  };
  in_flight =
      subst (InFlight (some c) b)
        (sym (subst (λ x. InFlight x b (is_open b.phase)) free p.in_flight))
        (λ e.
          omega (arith, ap SessionRef.generation e, number, p.is_fit.own_number, p.is_fit.drawn));
}

-- A free supervisor gets a new attempt under a number that no attempt has.
begun-IsSupervised :
    (epoch key : String) (s : Sessions)
    → s.supervisor.attempt_ctx ≡ none
    → IsSound epoch (begin_free epoch none key s.supervisor).0
    → IsSupervised epoch s
    → IsSupervised epoch (record {
      supervisor = (begin_free epoch none key s.supervisor).0;
      attempts =
          assign s.supervisor.next_generation
            (create_activation_attempt (reserved epoch s.supervisor))
            s.attempts;
    })
unfolding notify assign
begun-IsSupervised epoch key s free sound v = record {
  sound = sound;
  placed =
      assign-AllPlaced epoch s.supervisor.next_generation (s.supervisor.next_generation + 1)
        s.supervisor.attempt_ctx _ s.supervisor.next_generation _ s.attempts
        (record {
          is_fit = record {
            own_epoch = refl;
            own_number = refl;
            positive = v.sound.positive;
            drawn = omega arith;
            fit = (refl, refl, refl);
          };
          in_flight = refl;
        })
        (λ k b apart p.
          older-IsPlaced epoch s.supervisor.next_generation s.supervisor.attempt_ctx _ k b free refl
            p)
        v.placed;
  known = (create_activation_attempt (reserved epoch s.supervisor), ground (arith), refl);
}

begin_free-IsSupervised :
    (epoch key : String) (ctx : Option AttemptContext) (s : Sessions)
    → s.supervisor.attempt_ctx ≡ ctx
    → IsSound epoch (begin_free epoch ctx key s.supervisor).0
    → IsSupervised epoch s
    → IsSupervised epoch (record {
      supervisor = (begin_free epoch ctx key s.supervisor).0;
      attempts = with_attempt s.attempts (begin_free epoch ctx key s.supervisor).1;
    })
begin_free-IsSupervised epoch key (some c) s at sound v = v
begin_free-IsSupervised epoch key none s at sound v = begun-IsSupervised epoch key s at sound v

pub begin_session-IsSupervised :
    (epoch key : String) (s : Sessions)
    → IsSupervised epoch s
    → IsSupervised epoch (begin_session epoch key s).0
unfolding begin_session begin
begin_session-IsSupervised epoch key s v =
    let sound = begin-IsSound epoch key s.supervisor v.sound in
    elim (Bool-cases (root_has_plane key s.supervisor)) [
      | inl held ↦ rw held v
      | inr free ↦
          rw free
            (begin_free-IsSupervised epoch key s.supervisor.attempt_ctx s refl (rw free at sound) v)
    ]
