-- ===== src/Supervisor/Spec.antt =====
-- What a supervisor promises of its sessions: the active one, the attempt in flight, and the counter
-- of generations change only by five moves, each at its own event and about its own attempt.
use astroix.Base.{ℕ, ◌+◌, String, false, Option, none, some, ◌≡◌}
use astroix.Supervisor.{Supervision, ActiveEntry, AttemptContext, active_on}
use astroix.Supervisor.Steps.{
  Event, begins, ready_rejects, commits, rolls_back, cancels, run_closes, deactivates,
}

-- A session with its project: active, or in flight.
pub record Planes : Type 0 where
  pub next_generation : ℕ
  pub active : Option ActiveEntry
  pub attempt : Option ActiveEntry

abbrev pub plane_of : Option AttemptContext → Option ActiveEntry
plane_of none = none
plane_of (some ctx) = some (record { ref = ctx.ref; project_key = ctx.project_key })

abbrev pub planes : Supervision → Planes
planes s = record {
  next_generation = s.next_generation;
  active = s.active;
  attempt = plane_of s.attempt_ctx;
}

-- The events that end an attempt without a commit.
abbrev pub EndsAttempt : Event → ℕ → Type 0
EndsAttempt (ready_rejects g error) k = g ≡ k
EndsAttempt (rolls_back g reason) k = g ≡ k
EndsAttempt (cancels g) k = g ≡ k
EndsAttempt _ k = ⊥

-- The events that empty the active session: the close of its own run, or a deactivation.
abbrev pub ClearsActive : Event → ℕ → Type 0
ClearsActive (run_closes g reason) k = g ≡ k
ClearsActive deactivates k = Unit {0}
ClearsActive _ k = ⊥

abbrev pub reserve : String → String → Planes → Planes
reserve epoch key p = record p {
  next_generation = p.next_generation + 1;
  attempt = some (record {
    ref = record { runtime_epoch = epoch; generation = p.next_generation };
    project_key = key;
  });
}

pub data Move (epoch : String) : Event → Planes → Planes → Type 0 where
  stays : (e : Event) (p : Planes) → Move epoch e p p
  reserves :
      (key : String) (p : Planes)
      → p.attempt ≡ none
      → active_on p.active key ≡ false
      → Move epoch (begins key) p (reserve epoch key p)
  swaps :
      (minted : String) (p : Planes) (plane : ActiveEntry)
      → p.attempt ≡ some plane
      → Move epoch
          (commits plane.ref.generation minted)
          p
          (record p { active = some plane; attempt = none })
  withdraws :
      (e : Event) (p : Planes) (plane : ActiveEntry)
      → p.attempt ≡ some plane
      → EndsAttempt e plane.ref.generation
      → Move epoch e p (record p { attempt = none })
  clears :
      (e : Event) (p : Planes) (plane : ActiveEntry)
      → p.active ≡ some plane
      → ClearsActive e plane.ref.generation
      → Move epoch e p (record p { active = none })
