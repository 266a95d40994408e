-- ===== src/Supervisor/Authority.antt =====
-- Authority never outlives its session: who is authorized after any history, and what a commit does.
use astroix.Base.{
  ℕ, ◌<◌, String, true, Option, none, some, ◌≡◌, ◌≢◌, ◌⊎◌, inl, inr, refl, sym, subst, ap, arith,
  ◌||◌, Bool-cases, All-Memᴰ,
}
use astroix.Session.{SessionRef, same_session, same_session_iff}
use astroix.Hosts.{project, current, verify_host, is_expected}
use astroix.Hosts.Table.{current-mint_own}
use astroix.Clients.{ClientAuthorizationRequest, SessionClientRole, authorized, authorize}
use astroix.Clients.Authority.{authorize_sound}
use astroix.Supervisor.{Supervision, ActiveEntry, AttemptContext, active_on, swap, notify}
use astroix.Supervisor.Attempt.{
  ActivationAttempt, Sessions, staged, commit, linearized, done, refused,
}
use astroix.Supervisor.Sound.{is_shown, is_active, is_attempt}
use astroix.Supervisor.Linearized.{
  commit_staged, commit_unstaged, commit_refusal, is_staged, swap_context,
}
use astroix.Supervisor.Reach.{Reach-IsSupervised}
use astroix.Supervisor.Spec.{
  Planes, planes, plane_of, Move, stays, reserves, swaps, withdraws, clears,
}
use astroix.Supervisor.Refines.{step_refines}
use astroix.Supervisor.Steps.{Event, Enabled, BindsShown, Reach, next, step}

module _ (digest : String → String) where
  -- After any history a request that is authorized is of the active session or of the attempt in
  -- flight.
  pub authorized_is_shown :
      (epoch : String) {s : Sessions} (q : ClientAuthorizationRequest) (role : SessionClientRole)
      → Reach epoch s
      → authorize digest q s.supervisor.clients ≡ authorized role
      → is_shown s.supervisor q.session_ref ≡ true
  authorized_is_shown epoch {s} q role r e =
      let v = Reach-IsSupervised epoch r in
      let h = authorize_sound digest q s.supervisor.clients role e in
      subst (λ ref. is_shown s.supervisor ref ≡ true) h.fits.session_ref
        (All-Memᴰ _ s.supervisor.clients v.sound.bound_shown h.listed)

  expected_current :
      (presented : String) (expected : Option String)
      → is_expected digest presented expected ≡ true
      → (capability : String) × (expected ≡ some capability)
  expected_current presented none e = cc
  expected_current presented (some capability) e = (capability, refl)

  -- After any history a capability that verifies for a project is of the project of the active
  -- session.
  pub verified_is_active :
      (epoch key : String) (presented : Option String) {s : Sessions}
      → Reach epoch s
      → verify_host digest presented (project key) s.supervisor.hosts ≡ true
      → active_on s.supervisor.active key ≡ true
  unfolding verify_host
  verified_is_active epoch key none r e = cc
  verified_is_active epoch key (some presented) {s} r e =
      let v = Reach-IsSupervised epoch r in
      let (capability, held) =
        expected_current presented (current (project key) s.supervisor.hosts) (ground arith) in
      v.sound.capable key capability held

-- A generation that was drawn and is no longer shown.
abbrev pub Holds : Option ActiveEntry → ℕ → Type 0
Holds none g = ⊥
Holds (some plane) g = plane.ref.generation ≡ g

pub record IsGone (g : ℕ) (p : Planes) : Type 0 where
  pub drawn : g < p.next_generation
  pub inactive : ¬ Holds p.active g
  pub unattempted : ¬ Holds p.attempt g

Move-IsGone :
    (epoch : String) (g : ℕ) {e : Event} {p p' : Planes}
    → Move epoch e p p'
    → IsGone g p
    → IsGone g p'
Move-IsGone epoch g (stays e p) v = v
Move-IsGone epoch g (reserves key p free other) v = record {
  drawn = omega (arith, v.drawn);
  inactive = v.inactive;
  unattempted = λ same. omega (arith, v.drawn, same);
}
Move-IsGone epoch g (swaps minted p plane on) v = record {
  drawn = v.drawn;
  inactive = λ same. v.unattempted (subst (λ x. Holds x g) (sym on) same);
  unattempted = λ h. h;
}
Move-IsGone epoch g (withdraws e p plane on ends) v = record {
  drawn = v.drawn;
  inactive = v.inactive;
  unattempted = λ h. h;
}
Move-IsGone epoch g (clears e p plane on ends) v = record {
  drawn = v.drawn;
  inactive = λ h. h;
  unattempted = v.unattempted;
}

-- What may happen from one state on.
pub data Later (epoch : String) (s : Sessions) : Sessions → Type 0 where
  now : Later epoch s s
  after :
      {t : Sessions}
      → Later epoch s t
      → (e : Event) → Enabled t e
      → BindsShown t e
      → Later epoch s (step epoch t e)

Later-Reach : (epoch : String) {s t : Sessions} → Reach epoch s → Later epoch s t → Reach epoch t
Later-Reach epoch r now = r
Later-Reach epoch r (after l e h b) = next (Later-Reach epoch r l) e h b

Later-IsGone :
    (epoch : String) (g : ℕ) {s t : Sessions}
    → Reach epoch s
    → Later epoch s t
    → IsGone g (planes s.supervisor)
    → IsGone g (planes t.supervisor)
Later-IsGone epoch g r now v = v
Later-IsGone epoch g r (after l e h b) v =
    Move-IsGone epoch g (step_refines epoch (Later-Reach epoch r l) e h)
      (Later-IsGone epoch g r l v)

or_Holds :
    (active : Option ActiveEntry) (ctx : Option AttemptContext) (ref : SessionRef)
    → (is_active active ref || is_attempt ctx ref) ≡ true
    → Holds active ref.generation ⊎ Holds (plane_of ctx) ref.generation
or_Holds none none ref e = cc
or_Holds none (some c) ref e = inr (ap SessionRef.generation ((same_session_iff c.ref ref).0 e))
or_Holds (some a) none ref e =
    inl (ap SessionRef.generation ((same_session_iff a.ref ref).0 (ground (arith, e))))
or_Holds (some a) (some c) ref e = elim (Bool-cases (same_session a.ref ref)) [
  | inl on ↦ inl (ap SessionRef.generation ((same_session_iff a.ref ref).0 on))
  | inr other ↦
      inr (ap SessionRef.generation ((same_session_iff c.ref ref).0 (ground (arith, e, other))))
]

shown_Holds :
    (s : Supervision) (ref : SessionRef)
    → is_shown s ref ≡ true
    → Holds s.active ref.generation ⊎ Holds (plane_of s.attempt_ctx) ref.generation
shown_Holds s ref e = or_Holds s.active s.attempt_ctx ref e

-- In histories that bind documents only to the session that is active or in flight, once a
-- generation that was drawn is neither active nor in flight, no request that names it is
-- authorized at any later time.
pub gone_is_unauthorized :
    (digest : String → String) (epoch : String) (g : ℕ) {s t : Sessions}
    (q : ClientAuthorizationRequest) (role : SessionClientRole)
    → Reach epoch s
    → IsGone g (planes s.supervisor)
    → Later epoch s t
    → authorize digest q t.supervisor.clients ≡ authorized role
    → q.session_ref.generation ≢ g
gone_is_unauthorized digest epoch g {s} {t} q role r gone l e same =
    let shown = authorized_is_shown digest epoch q role (Later-Reach epoch r l) e in
    let still = Later-IsGone epoch g r l gone in
    elim (shown_Holds t.supervisor q.session_ref shown) [
      | inl on ↦ still.inactive (subst (Holds t.supervisor.active) same on)
      | inr on ↦ still.unattempted (subst (Holds (plane_of t.supervisor.attempt_ctx)) same on)
    ]

-- What a commit leaves: the candidate is active, alone, and its project has the fresh capability.
pub record IsCommitted (minted : String) (a : ActivationAttempt) (c : AttemptContext) (s : Sessions)
    : Type 0 where
  pub active : s.supervisor.active ≡ some (record { ref = a.ref; project_key = c.project_key })
  pub idle : s.supervisor.attempt_ctx ≡ none
  pub capable : current (project c.project_key) s.supervisor.hosts ≡ some minted

swap-IsCommitted :
    (minted : String) (g : ℕ) (a : ActivationAttempt) (c : AttemptContext) (s : Sessions)
    → c.ref ≡ a.ref
    → IsCommitted minted a c (linearized g a s (swap minted c s.supervisor, true)).0
unfolding linearized swap notify
swap-IsCommitted minted g a c s own = record {
  active = ap (λ ref. some (record { ref = ref; project_key = c.project_key })) own;
  idle = (swap_context minted c s.supervisor).0;
  capable = current-mint_own minted (project c.project_key) _;
}

-- A commit of an attempt that the supervisor began either finds it staged, is done, and leaves its
-- session active with the project of the attempt in flight, no attempt in flight, and the fresh
-- capability for that project, or finds it not staged, changes nothing, and is refused for its
-- phase.
pub commit_cases :
    (epoch minted : String) (g : ℕ) (a : ActivationAttempt) {s : Sessions}
    → Reach epoch s
    → s.attempts g ≡ some a
    → ((c : AttemptContext) × (a.phase ≡ staged)
        × (s.supervisor.attempt_ctx ≡ some c)
        × ((commit g minted a s).1 ≡ done)
        × IsCommitted minted a c (commit g minted a s).0)
      ⊎ ((a.phase ≢ staged) × (commit g minted a s ≡ (s, refused (commit_refusal a.phase))))
unfolding linearized
commit_cases epoch minted g a {s} r at = elim (is_staged a.phase) [
  | inl is ↦
      let (c, on, own, e) = commit_staged epoch minted g a s at is (Reach-IsSupervised epoch r) in
      inl (
        c,
        is,
        on,
        ap (λ o. o.1) e,
        subst (λ o. IsCommitted minted a c o.0) (sym e) (swap-IsCommitted minted g a c s own),
      )
  | inr other ↦ inr (other, commit_unstaged g minted a s other)
]
