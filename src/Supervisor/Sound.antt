-- ===== src/Supervisor/Sound.antt =====
-- What the supervisor keeps true of its own state: who is shown, who has authority, and what the
-- listeners were told.
use astroix.Base.{
  ℕ, subst, ◌<◌, String, Bool, true, false, ◌||◌, Option, none, some, List, [], ◌∷◌, ◌≡◌, refl,
  arith, All, All-weaken, str_eq, eq_iff, Bool-cases, Option-cases, inl, inr, ◌==◌, All-both,
}
use astroix.Base.Dict.{HasDistinctKeys, survivors, All-drop_where}
use astroix.Session.{SessionRef, same_session, same_session_iff, FailureCategory}
use astroix.Hosts.{HostGrants, project, current, revoke_host}
use astroix.Hosts.Table.{current-revoke_host, revoke_host-HasDistinctKeys, project_key_iff}
use astroix.Clients.{Live, revoke_session}
use astroix.Supervisor.{
  ActiveEntry, AttemptContext, SessionSnapshot, Supervision, snapshot, notify, retire_active,
  AttemptEnd, end_context, attempt_ended, crashed, crash_active, active_on, root_has_plane, begin,
  begin_free, revoke_deactivated, revoke_active,
}

abbrev pub is_active : Option ActiveEntry → SessionRef → Bool
is_active none ref = false
is_active (some entry) ref = same_session entry.ref ref

abbrev pub is_attempt : Option AttemptContext → SessionRef → Bool
is_attempt none ref = false
is_attempt (some ctx) ref = same_session ctx.ref ref

-- The sessions of the snapshot: the active one and that of the attempt in flight.
abbrev pub is_shown : Supervision → SessionRef → Bool
is_shown s ref = is_active s.active ref || is_attempt s.attempt_ctx ref

abbrev pub AllShown : Supervision → Live → Type 0
AllShown s live = All (λ e. is_shown s e.1.session_ref ≡ true) live

abbrev pub latest : List SessionSnapshot → SessionSnapshot
latest [] = record { active = none; attempt = none; last_failure = none }
latest (frame ∷ frames) = frame

-- A reference that this supervisor drew.
abbrev pub IsDrawn : String → ℕ → SessionRef → Type 0
IsDrawn epoch next ref =
    (ref.runtime_epoch ≡ epoch) × (0 < ref.generation) × (ref.generation < next)

abbrev pub ActiveDrawn : String → ℕ → Option ActiveEntry → Type 0
ActiveDrawn epoch next none = Unit {0}
ActiveDrawn epoch next (some entry) = IsDrawn epoch next entry.ref

abbrev pub AttemptDrawn : String → ℕ → Option AttemptContext → Type 0
AttemptDrawn epoch next none = Unit {0}
AttemptDrawn epoch next (some ctx) = IsDrawn epoch next ctx.ref × (ctx.committing ≡ false)

-- The attempt is younger than the active session, and on another root.
abbrev pub Apart : Option ActiveEntry → Option AttemptContext → Type 0
Apart (some entry) (some ctx) =
    (entry.ref.generation < ctx.ref.generation) × (str_eq entry.project_key ctx.project_key ≡ false)
Apart _ _ = Unit {0}

abbrev pub Capable : Option ActiveEntry → HostGrants → Type 0
Capable active hosts =
    (key capability : String)
    → current (project key) hosts ≡ some capability
    → active_on active key ≡ true

pub record IsSound (epoch : String) (s : Supervision) : Type 0 where
  pub positive : 0 < s.next_generation
  pub active_drawn : ActiveDrawn epoch s.next_generation s.active
  pub attempt_drawn : AttemptDrawn epoch s.next_generation s.attempt_ctx
  pub apart : Apart s.active s.attempt_ctx
  pub bound_shown : AllShown s s.clients
  pub one_each : HasDistinctKeys s.hosts
  pub capable : Capable s.active s.hosts
  pub told : latest s.frames ≡ snapshot s

-- What is left of the bindings when a session is revoked.
pub left_shown :
    (before after : SessionRef → Bool) (gone : SessionRef) (live : Live)
    → ((r : SessionRef) → before r ≡ true → same_session r gone ≡ false → after r ≡ true)
    → All (λ e. before e.1.session_ref ≡ true) live
    → All (λ e. after e.1.session_ref ≡ true) (revoke_session gone live)
unfolding revoke_session
left_shown before after gone live step v =
    All-weaken (λ e (seen, kept). step e.1.session_ref seen kept) _
      (All-both _ _ _ (All-drop_where _ _ live v) (survivors _ live))

begin_free-IsSound :
    (epoch key : String) (ctx : Option AttemptContext) (s : Supervision)
    → s.attempt_ctx ≡ ctx
    → active_on s.active key ≡ false
    → IsSound epoch s
    → IsSound epoch (begin_free epoch ctx key s).0
unfolding notify snapshot
begin_free-IsSound epoch key (some c) s e free v = v
begin_free-IsSound epoch key none s e free v = record {
  positive = omega (arith, v.positive);
  active_drawn = elim (Option-cases s.active) [
    | inl idle ↦ ground (arith, v.active_drawn)
    | inr (entry, on) ↦ ground (arith, v.active_drawn)
  ];
  attempt_drawn = ground (arith, v.positive);
  apart = elim (Option-cases s.active) [
    | inl idle ↦ rw idle tt
    | inr (entry, on) ↦ ground (arith, v.active_drawn, free)
  ];
  bound_shown = All-weaken (λ b seen. ground (arith, seen)) _ v.bound_shown;
  one_each = v.one_each;
  capable = v.capable;
  told = refl;
}

pub begin-IsSound :
    (epoch key : String) (s : Supervision) → IsSound epoch s → IsSound epoch (begin epoch key s).0
unfolding begin root_has_plane
begin-IsSound epoch key s v = elim (Bool-cases (root_has_plane key s)) [
  | inl held ↦ rw (held, begin) v
  | inr free ↦
      rw (free, begin) (begin_free-IsSound epoch key s.attempt_ctx s refl (ground (arith, free)) v)
]

-- The capabilities that are left when the active session's is revoked.
pub Capable-retire :
    (entry : ActiveEntry) (hosts : HostGrants)
    → HasDistinctKeys hosts
    → Capable (some entry) hosts
    → Capable none (revoke_host (project entry.project_key) hosts)
Capable-retire entry hosts keys capable key capability e =
    let left = current-revoke_host (project entry.project_key) hosts (project key) keys in
    ground (
      arith,
      left,
      e,
      capable key capability,
      eq_iff entry.project_key key,
      project_key_iff key entry.project_key,
    )

-- Both ways to lose the active session: a crash records a failure, a deactivation does not.
cleared-IsSound :
    (epoch : String) (entry : ActiveEntry) (f : Option FailureCategory) (s : Supervision)
    → s.active ≡ some entry
    → IsSound epoch s
    → IsSound epoch
        (notify (record (retire_active entry (record s { active = none })) { last_failure = f }))
unfolding notify snapshot retire_active
cleared-IsSound epoch entry f s on v = record {
  positive = v.positive;
  active_drawn = tt;
  attempt_drawn = v.attempt_drawn;
  apart = tt;
  bound_shown =
      left_shown (is_shown s) (is_attempt s.attempt_ctx) entry.ref s.clients
        (λ r seen other.
          ground (arith, seen, other, same_session_iff entry.ref r, same_session_iff r entry.ref))
        v.bound_shown;
  one_each = revoke_host-HasDistinctKeys (project entry.project_key) s.hosts v.one_each;
  capable = Capable-retire entry s.hosts v.one_each (subst (λ a. Capable a s.hosts) on v.capable);
  told = refl;
}

crash_active-IsSound :
    (epoch : String) (active : Option ActiveEntry) (g : ℕ) (category : FailureCategory)
    (s : Supervision)
    → s.active ≡ active
    → IsSound epoch s
    → IsSound epoch (crash_active active g category s)
crash_active-IsSound epoch none g category s on v = v
crash_active-IsSound epoch (some entry) g category s on v =
    elim (Bool-cases (entry.ref.generation == g)) [
      | inl own ↦ rw own (cleared-IsSound epoch entry (some category) s on v)
      | inr other ↦ rw other v
    ]

pub crashed-IsSound :
    (epoch : String) (g : ℕ) (category : FailureCategory) (s : Supervision)
    → IsSound epoch s
    → IsSound epoch (crashed g category s)
unfolding crashed
crashed-IsSound epoch g category s v = crash_active-IsSound epoch s.active g category s refl v

revoke_active-IsSound :
    (epoch : String) (active : Option ActiveEntry) (s : Supervision)
    → s.active ≡ active
    → IsSound epoch s
    → IsSound epoch (revoke_active active s).0
unfolding retire_active
revoke_active-IsSound epoch none s on v = v
revoke_active-IsSound epoch (some entry) s on v = cleared-IsSound epoch entry s.last_failure s on v

pub revoke_deactivated-IsSound :
    (epoch : String) (s : Supervision) → IsSound epoch s → IsSound epoch (revoke_deactivated s).0
unfolding revoke_deactivated
revoke_deactivated-IsSound epoch s v = revoke_active-IsSound epoch s.active s refl v

end_context-IsSound :
    (epoch : String) (ctx : Option AttemptContext) (end : AttemptEnd) (s : Supervision)
    → s.attempt_ctx ≡ ctx
    → IsSound epoch s
    → IsSound epoch (end_context ctx end s)
unfolding notify snapshot
end_context-IsSound epoch none end s on v = v
end_context-IsSound epoch (some ctx) end s on v = record {
  positive = v.positive;
  active_drawn = v.active_drawn;
  attempt_drawn = tt;
  apart = elim (Option-cases s.active) [
    | inl idle ↦ rw idle tt
    | inr (entry, active) ↦ rw active tt
  ];
  bound_shown =
      left_shown (is_shown s) (λ r. is_active s.active r || false) ctx.ref s.clients
        (λ r seen other.
          ground (arith, seen, other, same_session_iff ctx.ref r, same_session_iff r ctx.ref))
        v.bound_shown;
  one_each = v.one_each;
  capable = v.capable;
  told = refl;
}

pub attempt_ended-IsSound :
    (epoch : String) (end : AttemptEnd) (s : Supervision)
    → IsSound epoch s
    → IsSound epoch (attempt_ended end s)
unfolding attempt_ended
attempt_ended-IsSound epoch end s v = end_context-IsSound epoch s.attempt_ctx end s refl v
