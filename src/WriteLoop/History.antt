-- ===== src/WriteLoop/History.antt =====
-- What the state of the write loop tells of the events before it.
use astroix.Base.{
  ℕ, String, Bool, true, false, not, ◌&&◌, ◌≡◌, ◌≢◌, ◌⊎◌, inl, inr, refl, sym, ap, subst, ◌∙◌, ◌++◌,
  All, ◌<◌, List, [], ◌∷◌, Memᴰ, arith, ltb, ◌==◌, ==_iff, Bool-cases, if_true, if_false,
}
use astroix.WriteLoop.{
  WritePhase, idle, pending, committed, rejected, irreversible_postcommit, refresh_required,
  WriteLoopState, idle_write, WriteLoopEvent, submits, commits, doubts, rejects, conflicts,
  refresh_begins, refresh_lands, resets, is_idle, is_pending, has_landed, pending_state,
  committed_state, uncertain_state, rejected_state, conflict_state, live, settle_live, reduce_write,
}

-- The state after a history, its latest event first.
unfoldable pub after : List WriteLoopEvent → WriteLoopState
after [] = idle_write
after (event ∷ events) = reduce_write (after events) event

-- What a phase has been told about its dispatch.
abbrev pub Told : List WriteLoopEvent → WritePhase → WriteLoopState → Type 0
Told events idle s = s ≡ idle_write
Told events pending s = s ≡ pending_state s.seq
Told events committed s = (r : ℕ) × Memᴰ (commits s.seq r) events × (s ≡ committed_state s.seq r)
Told events irreversible_postcommit s = Memᴰ (doubts s.seq) events × (s ≡ uncertain_state s.seq)
Told events rejected s =
    ((c : String) × Memᴰ (rejects s.seq c) events × (s ≡ rejected_state s.seq c))
    ⊎ ((h : String) × Memᴰ (conflicts s.seq h) events × (s ≡ conflict_state s.seq h))
Told events refresh_required s =
    Memᴰ (refresh_begins s.seq) events
    × (((r : ℕ) × Memᴰ (commits s.seq r) events) ⊎ Memᴰ (doubts s.seq) events)

pub record IsTold (events : List WriteLoopEvent) (s : WriteLoopState) : Type 0 where
  pub submitted : (s.phase ≡ idle) ⊎ (Memᴰ (submits s.seq) events × (0 < s.seq))
  pub told : Told events s.phase s

Told-later :
    (e : WriteLoopEvent) (events : List WriteLoopEvent) (phase : WritePhase) (s : WriteLoopState)
    → Told events phase s
    → Told (e ∷ events) phase s
Told-later e events idle s h = h
Told-later e events pending s h = h
Told-later e events committed s (r, m, same) = (r, Memᴰ.tail m, same)
Told-later e events irreversible_postcommit s (m, same) = (Memᴰ.tail m, same)
Told-later e events rejected s (inl (c, m, same)) = inl (c, Memᴰ.tail m, same)
Told-later e events rejected s (inr (c, m, same)) = inr (c, Memᴰ.tail m, same)
Told-later e events refresh_required s (b, inl (r, m)) = (Memᴰ.tail b, inl (r, Memᴰ.tail m))
Told-later e events refresh_required s (b, inr m) = (Memᴰ.tail b, inr (Memᴰ.tail m))

IsTold-later :
    (e : WriteLoopEvent) (events : List WriteLoopEvent) (s : WriteLoopState)
    → IsTold events s
    → IsTold (e ∷ events) s
IsTold-later e events s h = record {
  submitted = later h.submitted;
  told = Told-later e events s.phase s h.told;
}
  where
    later :
        (s.phase ≡ idle) ⊎ (Memᴰ (submits s.seq) events × (0 < s.seq))
        → (s.phase ≡ idle) ⊎ (Memᴰ (submits s.seq) (e ∷ events) × (0 < s.seq))
    later (inl i) = inl i
    later (inr (m, p)) = inr (Memᴰ.tail m, p)

-- An event that is not of the live dispatch, or not legal in its phase, changes nothing.
live-IsTold :
    (e : WriteLoopEvent) (events : List WriteLoopEvent) (s target : WriteLoopState) (seq : ℕ)
    (legal : Bool)
    → IsTold events s
    → (seq ≡ s.seq → legal ≡ true → IsTold (e ∷ events) target)
    → IsTold (e ∷ events) (live seq (settle_live legal target s) s)
live-IsTold e events s target seq legal h k = elim (Bool-cases (seq == s.seq)) [
  | inr stale ↦
      subst (IsTold (e ∷ events)) (sym (if_true s _ (ap not stale))) (IsTold-later e events s h)
  | inl own ↦
      subst (IsTold (e ∷ events)) (sym (if_false s _ (ap not own))) (elim (Bool-cases legal) [
        | inl may ↦
            subst (IsTold (e ∷ events)) (sym (if_true target s may)) (k ((==_iff _ _).0 own) may)
        | inr never ↦
            subst (IsTold (e ∷ events)) (sym (if_false target s never)) (IsTold-later e events s h)
      ])
]

-- A phase in which a settlement is legal has a dispatch behind it.
dispatched :
    (events : List WriteLoopEvent) (s : WriteLoopState) (seq : ℕ)
    → IsTold events s
    → s.phase ≢ idle
    → seq ≡ s.seq
    → Memᴰ (submits seq) events × (0 < seq)
dispatched events s seq h busy own =
    subst (λ n. Memᴰ (submits n) events × (0 < n)) (sym own) (only h.submitted)
  where
    only :
        (s.phase ≡ idle) ⊎ (Memᴰ (submits s.seq) events × (0 < s.seq))
        → Memᴰ (submits s.seq) events × (0 < s.seq)
    only (inl i) = absurd (busy i)
    only (inr m) = m

not_idle_of_pending : (phase : WritePhase) → is_pending phase ≡ true → phase ≢ idle
not_idle_of_pending pending e = λ i. cc
not_idle_of_pending _ e = λ i. cc

not_idle_of_landed : (phase : WritePhase) → has_landed phase ≡ true → phase ≢ idle
not_idle_of_landed idle e = λ i. cc
not_idle_of_landed _ e = λ i. cc

-- A settlement of the live dispatch.
settled-IsTold :
    (e : WriteLoopEvent) (events : List WriteLoopEvent) (s target : WriteLoopState)
    → IsTold events s
    → s.phase ≢ idle
    → target.seq ≡ s.seq
    → Told (e ∷ events) target.phase target
    → IsTold (e ∷ events) target
settled-IsTold e events s target h busy own told =
    let (m, p) = dispatched events s target.seq h busy own in
    record { submitted = inr (Memᴰ.tail m, p); told = told }

landed_told :
    (events : List WriteLoopEvent) (phase : WritePhase) (s : WriteLoopState)
    → has_landed phase ≡ true
    → Told events phase s
    → ((r : ℕ) × Memᴰ (commits s.seq r) events) ⊎ Memᴰ (doubts s.seq) events
landed_told events committed s e (r, m, same) = inl (r, m)
landed_told events irreversible_postcommit s e (m, same) = inr m
landed_told events idle s e h = cc
landed_told events pending s e h = cc
landed_told events rejected s e h = cc
landed_told events refresh_required s e h = cc

later_landed :
    (e : WriteLoopEvent) (events : List WriteLoopEvent) (n : ℕ)
    → ((r : ℕ) × Memᴰ (commits n r) events) ⊎ Memᴰ (doubts n) events
    → ((r : ℕ) × Memᴰ (commits n r) (e ∷ events)) ⊎ Memᴰ (doubts n) (e ∷ events)
later_landed e events n (inl (r, m)) = inl (r, Memᴰ.tail m)
later_landed e events n (inr m) = inr (Memᴰ.tail m)

reduce_write-IsTold :
    (events : List WriteLoopEvent) (s : WriteLoopState) (e : WriteLoopEvent)
    → IsTold events s
    → IsTold (e ∷ events) (reduce_write s e)
unfolding reduce_write
reduce_write-IsTold events s resets h = record { submitted = inl refl; told = refl }
reduce_write-IsTold events s (submits seq) h =
    elim (Bool-cases (is_idle s.phase && ltb s.seq seq)) [
      | inl fresh ↦
          rw fresh (record { submitted = inr (Memᴰ.head refl, ground (arith, fresh)); told = refl })
      | inr refused ↦ rw refused (IsTold-later (submits seq) events s h)
    ]
reduce_write-IsTold events s (refresh_lands seq) h =
    live-IsTold _ events s idle_write seq _ h
      (λ own l. record { submitted = inl refl; told = refl })
reduce_write-IsTold events s (refresh_begins seq) h = live-IsTold _ events s _ seq _ h (λ own l.
    settled-IsTold _ events s (record s { phase = refresh_required }) h
      (not_idle_of_landed s.phase l) refl
      (
        Memᴰ.head (ap refresh_begins (sym own)),
        later_landed _ events s.seq (landed_told events s.phase s l h.told),
      ))
reduce_write-IsTold events s (commits seq revision) h = live-IsTold _ events s _ seq _ h (λ own l.
    settled-IsTold _ events s (committed_state seq revision) h (not_idle_of_pending s.phase l) own
      (revision, Memᴰ.head refl, refl))
reduce_write-IsTold events s (doubts seq) h = live-IsTold _ events s _ seq _ h (λ own l.
    settled-IsTold _ events s (uncertain_state seq) h (not_idle_of_pending s.phase l) own
      (Memᴰ.head refl, refl))
reduce_write-IsTold events s (rejects seq code) h = live-IsTold _ events s _ seq _ h (λ own l.
    settled-IsTold _ events s (rejected_state seq code) h (not_idle_of_pending s.phase l) own
      (inl (code, Memᴰ.head refl, refl)))
reduce_write-IsTold events s (conflicts seq current) h = live-IsTold _ events s _ seq _ h (λ own l.
    settled-IsTold _ events s (conflict_state seq current) h (not_idle_of_pending s.phase l) own
      (inr (current, Memᴰ.head refl, refl)))

-- After any events the state of the write loop is explained by them: a phase other than idle has a
-- submission of its own dispatch before it, a settled phase the settlement of that dispatch with
-- the value that it shows and no other, and a refresh its start and a committed or uncertain
-- write.
pub after-IsTold : (events : List WriteLoopEvent) → IsTold events (after events)
unfolding after
after-IsTold [] = record { submitted = inl refl; told = refl }
after-IsTold (e ∷ events) = reduce_write-IsTold events (after events) e (after-IsTold events)

abbrev pub IsSubmission : WriteLoopEvent → Type 0
IsSubmission (submits seq) = Unit {0}
IsSubmission _ = ⊥

live-idle :
    (seq : ℕ) (target : WriteLoopState)
    → live seq (settle_live false target idle_write) idle_write ≡ idle_write
live-idle seq target = elim (Bool-cases (seq == 0)) [
  | inl own ↦ if_false idle_write idle_write (ap not own)
  | inr stale ↦ if_true idle_write idle_write (ap not stale)
]

idle_deaf : (e : WriteLoopEvent) → ¬ (IsSubmission e) → reduce_write idle_write e ≡ idle_write
unfolding reduce_write
idle_deaf resets n = refl
idle_deaf (submits seq) n = absurd (n tt)
idle_deaf (refresh_begins seq) n = live-idle seq (record idle_write { phase = refresh_required })
idle_deaf (refresh_lands seq) n = live-idle seq idle_write
idle_deaf (commits seq revision) n = live-idle seq (committed_state seq revision)
idle_deaf (doubts seq) n = live-idle seq (uncertain_state seq)
idle_deaf (rejects seq code) n = live-idle seq (rejected_state seq code)
idle_deaf (conflicts seq current) n = live-idle seq (conflict_state seq current)

-- After a reset the write loop stays idle until the next submission, whatever settlements and
-- refreshes of older dispatches still arrive.
pub after-reset :
    (late events : List WriteLoopEvent)
    → All (λ e. ¬ (IsSubmission e)) late
    → after (late ++ (resets ∷ events)) ≡ idle_write
unfolding after reduce_write
after-reset [] events h = refl
after-reset (e ∷ late) events h =
    ap (λ s. reduce_write s e) (after-reset late events h.1) ∙ idle_deaf e h.0
