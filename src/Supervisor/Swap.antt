-- ===== src/Supervisor/Swap.antt =====
-- The swap of authority keeps the supervisor's state sound.
use astroix.Base.{
  subst, sym, ◌<◌, String, true, Option, none, some, List, ◌≡◌, refl, arith, All, All-weaken,
  eq_iff,
}
use astroix.Base.Dict.{HasDistinctKeys}
use astroix.Session.{SessionRef, same_session, same_session_iff}
use astroix.Hosts.{HostGrants, project, mint}
use astroix.Hosts.Table.{
  current-mint, mint-HasDistinctKeys, revoke_host-HasDistinctKeys, project_key_iff,
}
use astroix.Supervisor.{
  ActiveEntry, AttemptContext, SessionSnapshot, Supervision, snapshot, notify, retire_active,
  retire_outgoing, swap,
}
use astroix.Supervisor.Sound.{
  is_shown, IsDrawn, AttemptDrawn, Apart, Capable, IsSound, left_shown, Capable-retire,
}

-- Between the two sessions of a swap: nobody has authority but the candidate.
record IsVacated (epoch : String) (ctx : AttemptContext) (s : Supervision) : Type 0 where
  positive : 0 < s.next_generation
  drawn : IsDrawn epoch s.next_generation ctx.ref
  free : s.attempt_ctx ≡ none
  bound : All (λ e. same_session ctx.ref e.1.session_ref ≡ true) s.clients
  one_each : HasDistinctKeys s.hosts
  unheld : Capable none s.hosts

retire_outgoing-IsVacated :
    (epoch : String) (outgoing : Option ActiveEntry) (ctx : AttemptContext) (s : Supervision)
    (frames : List SessionSnapshot)
    → s.active ≡ outgoing
    → s.attempt_ctx ≡ some ctx
    → IsSound epoch s
    → IsVacated epoch ctx
        (retire_outgoing outgoing (record s { attempt_ctx = none; frames = frames }))
unfolding retire_outgoing retire_active
retire_outgoing-IsVacated epoch none ctx s frames on at v = record {
  positive = v.positive;
  drawn = ground (arith, v.attempt_drawn);
  free = refl;
  bound = All-weaken (λ b seen. ground (arith, seen)) _ v.bound_shown;
  one_each = v.one_each;
  unheld = subst (λ a. Capable a s.hosts) on v.capable;
}
retire_outgoing-IsVacated epoch (some entry) ctx s frames on at v = record {
  positive = v.positive;
  drawn = ground (arith, v.attempt_drawn);
  free = refl;
  bound =
      left_shown (is_shown s) (same_session ctx.ref) entry.ref s.clients
        (λ r seen other.
          ground (arith, seen, other, same_session_iff entry.ref r, same_session_iff r entry.ref))
        v.bound_shown;
  one_each = revoke_host-HasDistinctKeys (project entry.project_key) s.hosts v.one_each;
  unheld = Capable-retire entry s.hosts v.one_each (subst (λ a. Capable a s.hosts) on v.capable);
}

Capable-mint :
    (minted : String) (ref : SessionRef) (key : String) (hosts : HostGrants)
    → Capable none hosts
    → Capable (some (record { ref = ref; project_key = key })) (mint minted (project key) hosts)
Capable-mint minted ref key hosts unheld asked capability e =
    let fresh = current-mint minted (project key) hosts (project asked) in
    ground (arith, e, fresh, unheld asked capability, project_key_iff key asked, eq_iff key asked)

pub swap-IsSound :
    (epoch minted : String) (ctx : AttemptContext) (s : Supervision)
    → s.attempt_ctx ≡ some ctx
    → IsSound epoch s
    → IsSound epoch (swap minted ctx s)
unfolding swap notify snapshot
swap-IsSound epoch minted ctx s at v =
    let w = retire_outgoing-IsVacated epoch s.active ctx s _ refl at v in
    record {
      positive = w.positive;
      active_drawn = w.drawn;
      attempt_drawn = subst (AttemptDrawn epoch _) (sym w.free) tt;
      apart =
          subst (Apart (some (record { ref = ctx.ref; project_key = ctx.project_key })))
            (sym w.free) tt;
      bound_shown = All-weaken (λ b same. ground (arith, same)) _ w.bound;
      one_each = mint-HasDistinctKeys minted (project ctx.project_key) _ w.one_each;
      capable = Capable-mint minted ctx.ref ctx.project_key _ w.unheld;
      told = refl;
    }
