-- ===== src/Supervisor/Linearized.antt =====
-- The commit of a staged attempt: it is the live one, so the supervisor always swaps.
use astroix.Base.{
  ◌≢◌, ◌⊎◌, inl, inr, ℕ, String, true, Option, none, some, ◌≡◌, refl, sym, ap, subst, arith, ◌∙◌,
}
use astroix.Session.{SessionRef, same_session_iff}
use astroix.Supervisor.{
  Supervision, ActiveEntry, AttemptContext, AttemptEnd, swap, retire_outgoing, retire_active,
  notify, commit_candidate,
}
use astroix.Supervisor.Attempt.{
  StageRejectionCode, not_ready, settled, refused, cancelling, committing, starting, commit_in,
  AttemptPhase, ActivationOutcome, first_of, Readiness, starting, staged, cancelling, committing,
  ended, ActivationAttempt, Sessions, commit, commit_in, linearized, committed,
}
use astroix.Supervisor.Attempts.{Fit, AllPlaced, assign-AllPlaced, open-InFlight, others_closed}
use astroix.Supervisor.Swap.{swap-IsSound}
use astroix.Supervisor.Invariant.{IsSupervised}

outgoing_context :
    (outgoing : Option ActiveEntry) (s : Supervision)
    → ((retire_outgoing outgoing s).attempt_ctx ≡ s.attempt_ctx)
      × ((retire_outgoing outgoing s).next_generation ≡ s.next_generation)
unfolding retire_outgoing retire_active
outgoing_context none s = (refl, refl)
outgoing_context (some entry) s = (refl, refl)

pub swap_context :
    (minted : String) (c : AttemptContext) (s : Supervision)
    → ((swap minted c s).attempt_ctx ≡ none)
      × ((swap minted c s).next_generation ≡ s.next_generation)
unfolding swap notify
swap_context minted c s = outgoing_context s.active _

-- A staged attempt is the live one, so the supervisor swaps: it never answers `not-current`.
pub commit_staged :
    (epoch minted : String) (g : ℕ) (a : ActivationAttempt) (s : Sessions)
    → s.attempts g ≡ some a
    → a.phase ≡ staged
    → IsSupervised epoch s
    → (c : AttemptContext) × (s.supervisor.attempt_ctx ≡ some c)
      × (c.ref ≡ a.ref)
      × (commit g minted a s ≡ linearized g a s (swap minted c s.supervisor, true))
unfolding commit commit_candidate
commit_staged epoch minted g a s at ready v =
    let (c, on, own) =
      open-InFlight s.supervisor.attempt_ctx a (rw ready refl) (v.placed g a at).in_flight in
    (c, on, own, (rw (ready, on) (ground (arith, (same_session_iff c.ref a.ref).1 own))))

committed-Fit :
    (ready : Readiness) (stopping : Option AttemptEnd) (closed : Option ActivationOutcome)
    (o : ActivationOutcome)
    → Fit staged ready stopping closed
    → Fit ended ready stopping (first_of closed o)
committed-Fit ready none none o v = ((λ e. cc (e, v.0)), o, refl)
committed-Fit ready (some end) closed o v = cc (v.1)
committed-Fit ready none (some before) o v = cc (v.2)

swapped-IsSupervised :
    (epoch minted : String) (g : ℕ) (a : ActivationAttempt) (c : AttemptContext) (s : Sessions)
    → s.attempts g ≡ some a
    → a.phase ≡ staged
    → s.supervisor.attempt_ctx ≡ some c
    → c.ref ≡ a.ref
    → IsSupervised epoch s
    → IsSupervised epoch (linearized g a s (swap minted c s.supervisor, true)).0
unfolding linearized
swapped-IsSupervised epoch minted g a c s at ready on own v =
    let here = v.placed g a at in
    let next = s.supervisor.next_generation in
    let (gone, number) = swap_context minted c s.supervisor in
    let fit : Fit staged a.readiness a.stopping a.closed =
      subst (λ p. Fit p a.readiness a.stopping a.closed) ready here.is_fit.fit in
    record {
      sound = swap-IsSound epoch minted c s.supervisor on v.sound;
      placed =
          rw (gone, number)
            (assign-AllPlaced epoch next next (some c) none g _ s.attempts
              (record {
                is_fit = record {
                  own_epoch = here.is_fit.own_epoch;
                  own_number = here.is_fit.own_number;
                  positive = here.is_fit.positive;
                  drawn = here.is_fit.drawn;
                  fit = committed-Fit a.readiness a.stopping a.closed (committed a.ref) fit;
                };
                in_flight = refl;
              })
              (λ k d apart p.
                others_closed epoch next g c k d
                  (ap SessionRef.generation own ∙ here.is_fit.own_number) apart p)
              (subst (λ x. AllPlaced epoch next x s.attempts) on v.placed));
      known = rw gone tt;
    }

-- Why a commit is refused, by the phase.
abbrev pub commit_refusal : AttemptPhase → StageRejectionCode
commit_refusal starting = not_ready
commit_refusal cancelling = not_ready
commit_refusal _ = settled

commit_in_unstaged :
    (phase : AttemptPhase) (g : ℕ) (minted : String) (a : ActivationAttempt) (s : Sessions)
    → phase ≢ staged
    → commit_in phase g minted a s ≡ (s, refused (commit_refusal phase))
commit_in_unstaged starting g minted a s h = refl
commit_in_unstaged staged g minted a s h = absurd (h refl)
commit_in_unstaged cancelling g minted a s h = refl
commit_in_unstaged committing g minted a s h = refl
commit_in_unstaged ended g minted a s h = refl

-- An attempt that is not staged is not committed, and nothing changes.
pub commit_unstaged :
    (g : ℕ) (minted : String) (a : ActivationAttempt) (s : Sessions)
    → a.phase ≢ staged
    → commit g minted a s ≡ (s, refused (commit_refusal a.phase))
unfolding commit
commit_unstaged g minted a s h = commit_in_unstaged a.phase g minted a s h

pub is_staged : (phase : AttemptPhase) → (phase ≡ staged) ⊎ (phase ≢ staged)
is_staged starting = inr (λ e. cc)
is_staged staged = inl refl
is_staged cancelling = inr (λ e. cc)
is_staged committing = inr (λ e. cc)
is_staged ended = inr (λ e. cc)

pub commit-IsSupervised :
    (epoch minted : String) (g : ℕ) (a : ActivationAttempt) (s : Sessions)
    → s.attempts g ≡ some a
    → IsSupervised epoch s
    → IsSupervised epoch (commit g minted a s).0
commit-IsSupervised epoch minted g a s at v = elim (is_staged a.phase) [
  | inl is ↦
      let (c, on, own, e) = commit_staged epoch minted g a s at is v in
      subst (λ r. IsSupervised epoch r.0) (sym e)
        (swapped-IsSupervised epoch minted g a c s at is on own v)
  | inr other ↦ subst (λ r. IsSupervised epoch r.0) (sym (commit_unstaged g minted a s other)) v
]
