-- ===== src/Supervisor/Attempts.antt =====
-- Each attempt fits its promises, and exactly the one that is starting or staged is the supervisor's
-- attempt in flight.
use astroix.Base.{
  ℕ, ◌<◌, String, Bool, true, false, Option, none, some, ◌≡◌, ◌≢◌, ◌⊎◌, inl, inr, refl, sym, ap,
  ◌∙◌, subst, subst₂, arith, ◌==◌, ==_iff, Bool-cases,
}
use astroix.Session.{SessionRef}
use astroix.Supervisor.{AttemptContext, AttemptEnd}
use astroix.Supervisor.Attempt.{
  AttemptPhase, starting, staged, cancelling, committing, ended, Readiness, waiting, resolved,
  staged_from, first_of, ActivationOutcome, ActivationAttempt, assign,
}

-- The promises of an attempt, by its phase: an open attempt has no outcome, and one that was ended
-- has it or awaits it.
abbrev pub Fit : AttemptPhase → Readiness → Option AttemptEnd → Option ActivationOutcome → Type 0
Fit starting ready stopping closed = (ready ≡ waiting) × (stopping ≡ none) × (closed ≡ none)
Fit staged ready stopping closed = (ready ≡ resolved) × (stopping ≡ none) × (closed ≡ none)
Fit cancelling ready (some end) closed = closed ≡ none
Fit cancelling ready none closed = (o : ActivationOutcome) × (closed ≡ some o)
Fit committing ready stopping closed = ⊥
Fit ended ready (some end) closed = (ready ≢ waiting) × (closed ≡ none)
Fit ended ready none closed = (ready ≢ waiting) × (o : ActivationOutcome) × (closed ≡ some o)

abbrev pub is_open : AttemptPhase → Bool
is_open starting = true
is_open staged = true
is_open _ = false

pub record IsFit (epoch : String) (next g : ℕ) (a : ActivationAttempt) : Type 0 where
  pub own_epoch : a.ref.runtime_epoch ≡ epoch
  pub own_number : a.ref.generation ≡ g
  pub positive : 0 < g
  pub drawn : g < next
  pub fit : Fit a.phase a.readiness a.stopping a.closed

-- The attempt's place in the supervisor: open attempts are in flight, the others are not.
abbrev pub InFlight : Option AttemptContext → ActivationAttempt → Bool → Type 0
InFlight none a open_ = open_ ≡ false
InFlight (some ctx) a true = ctx.ref ≡ a.ref
InFlight (some ctx) a false = ctx.ref ≢ a.ref

pub record IsPlaced (epoch : String) (next : ℕ) (ctx : Option AttemptContext) (g : ℕ)
    (a : ActivationAttempt) : Type 0 where
  pub is_fit : IsFit epoch next g a
  pub in_flight : InFlight ctx a (is_open a.phase)

abbrev pub AllPlaced : String → ℕ → Option AttemptContext → (ℕ → Option ActivationAttempt) → Type 0
AllPlaced epoch next ctx attempts =
    (g : ℕ) (a : ActivationAttempt) → attempts g ≡ some a → IsPlaced epoch next ctx g a

-- The attempt in flight is known.
abbrev pub Known : (ℕ → Option ActivationAttempt) → Option AttemptContext → Type 0
Known attempts none = Unit {0}
Known attempts (some ctx) =
    (a : ActivationAttempt) × (attempts ctx.ref.generation ≡ some a) × (is_open a.phase ≡ true)

-- After an assignment an attempt is the new one, or one that was there under another number.
pub assign-cases :
    (g : ℕ) (new : ActivationAttempt) (attempts : ℕ → Option ActivationAttempt) (k : ℕ)
    (a : ActivationAttempt)
    → assign g new attempts k ≡ some a
    → ((k ≡ g) × (new ≡ a)) ⊎ ((k ≢ g) × (attempts k ≡ some a))
unfolding assign
assign-cases g new attempts k a e = elim (Bool-cases (k == g)) [
  | inl same ↦ inl ((==_iff k g).0 same, ground (arith, e))
  | inr other ↦ inr ((λ h. cc (other, (==_iff k g).1 h)), ground (arith, e))
]

-- One attempt changes; the others keep their places.
pub assign-AllPlaced :
    (epoch : String) (next next' : ℕ) (ctx ctx' : Option AttemptContext) (g : ℕ)
    (new : ActivationAttempt) (attempts : ℕ → Option ActivationAttempt)
    → IsPlaced epoch next' ctx' g new
    → ((k : ℕ) (b : ActivationAttempt)
        → k ≢ g
        → IsPlaced epoch next ctx k b
        → IsPlaced epoch next' ctx' k b)
    → AllPlaced epoch next ctx attempts
    → AllPlaced epoch next' ctx' (assign g new attempts)
assign-AllPlaced epoch next next' ctx ctx' g new attempts own others v k b e =
    elim (assign-cases g new attempts k b e) [
      | inl (at, is) ↦ subst₂ (λ j c. IsPlaced epoch next' ctx' j c) (sym at) is own
      | inr (apart, there) ↦ others k b apart (v k b there)
    ]

-- An open attempt is the one in flight.
pub open-InFlight :
    (ctx : Option AttemptContext) (a : ActivationAttempt)
    → is_open a.phase ≡ true
    → InFlight ctx a (is_open a.phase)
    → (c : AttemptContext) × (ctx ≡ some c) × (c.ref ≡ a.ref)
open-InFlight none a open_ v = cc
open-InFlight (some c) a open_ v = (c, refl, subst (InFlight (some c) a) open_ v)

-- When the attempt in flight leaves, no other attempt is open.
pub others_closed :
    (epoch : String) (next g : ℕ) (c : AttemptContext) (k : ℕ) (b : ActivationAttempt)
    → c.ref.generation ≡ g
    → k ≢ g
    → IsPlaced epoch next (some c) k b
    → IsPlaced epoch next none k b
others_closed epoch next g c k b own apart v = record {
  is_fit = v.is_fit;
  in_flight = elim (Bool-cases (is_open b.phase)) [
    | inl open_ ↦
        let same : c.ref ≡ b.ref = subst (InFlight (some c) b) open_ v.in_flight in
        absurd (apart (omega (arith, ap SessionRef.generation same, own, v.is_fit.own_number)))
    | inr shut ↦ shut
  ];
}

-- The place of an attempt depends on its reference and on its being open.
pub InFlight-same :
    (ctx : Option AttemptContext) (a new : ActivationAttempt) (was is : Bool)
    → new.ref ≡ a.ref
    → is ≡ was
    → InFlight ctx a was
    → InFlight ctx new is
InFlight-same none a new was is same phase v = cc
InFlight-same (some c) a new true true same phase v = v ∙ sym same
InFlight-same (some c) a new false false same phase v = λ e. v (e ∙ same)
InFlight-same (some c) a new true false same phase v = cc
InFlight-same (some c) a new false true same phase v = cc

-- What the readiness of the candidate does to an attempt.
pub staged_open : (phase : AttemptPhase) → is_open (staged_from phase) ≡ is_open phase
staged_open starting = refl
staged_open staged = refl
staged_open cancelling = refl
staged_open committing = refl
staged_open ended = refl

pub staged-Fit :
    (phase : AttemptPhase) (ready : Readiness) (stopping : Option AttemptEnd)
    (closed : Option ActivationOutcome)
    → ready ≡ waiting
    → Fit phase ready stopping closed
    → Fit (staged_from phase) resolved stopping closed
staged-Fit starting ready stopping closed waits v = (refl, v.1, v.2)
staged-Fit staged ready stopping closed waits v = (refl, v.1, v.2)
staged-Fit cancelling ready (some end) closed waits v = v
staged-Fit cancelling ready none closed waits v = v
staged-Fit committing ready stopping closed waits v = v
staged-Fit ended ready (some end) closed waits v = ((λ e. cc), v.1)
staged-Fit ended ready none closed waits v = ((λ e. cc), v.1, v.2)

-- What the answer of the stopped run does to an attempt.
pub stopped-Fit :
    (phase : AttemptPhase) (ready : Readiness) (stopping : Option AttemptEnd)
    (closed : Option ActivationOutcome) (end : AttemptEnd) (o : ActivationOutcome)
    → stopping ≡ some end
    → Fit phase ready stopping closed
    → Fit phase ready none (first_of closed o)
stopped-Fit starting ready stopping closed end o e v = cc (e, v.1)
stopped-Fit staged ready stopping closed end o e v = cc (e, v.1)
stopped-Fit cancelling ready (some _) closed end o e v = (o, ap (λ c. first_of c o) v)
stopped-Fit cancelling ready none closed end o e v = cc
stopped-Fit committing ready stopping closed end o e v = absurd v
stopped-Fit ended ready (some _) closed end o e v = (v.0, o, ap (λ c. first_of c o) v.1)
stopped-Fit ended ready none closed end o e v = cc

-- A cancelled attempt fits whatever its readiness becomes.
pub cancelling-Fit :
    (phase : AttemptPhase) (ready later : Readiness) (stopping : Option AttemptEnd)
    (closed : Option ActivationOutcome)
    → phase ≡ cancelling
    → Fit phase ready stopping closed
    → Fit phase later stopping closed
cancelling-Fit cancelling ready later (some end) closed is v = v
cancelling-Fit cancelling ready later none closed is v = v
cancelling-Fit starting ready later stopping closed is v = cc
cancelling-Fit staged ready later stopping closed is v = cc
cancelling-Fit committing ready later stopping closed is v = cc
cancelling-Fit ended ready later stopping closed is v = cc

-- The readiness of an ended attempt is settled.
pub ended_waits :
    (ready : Readiness) (stopping : Option AttemptEnd) (closed : Option ActivationOutcome)
    → ready ≡ waiting
    → Fit ended ready stopping closed
    → ⊥
ended_waits ready none closed waits v = v.0 waits
ended_waits ready (some end) closed waits v = v.0 waits
