-- ===== src/Supervisor/Shared.antt =====
-- What others do to the tables that the supervisor shares keeps its state sound.
use astroix.Base.{ℕ, String, Option, List, arith}
use astroix.Base.Dict.{HasDistinctKeys}
use astroix.Hosts.{HostGrants, project, launcher, CapabilityHost, mint, revoke_host}
use astroix.Hosts.Table.{current-mint, current-revoke_host, launcher_key}
use astroix.Clients.{Live}
use astroix.Supervisor.{ActiveEntry, Supervision, snapshot}
use astroix.Supervisor.Sound.{AllShown, Capable, IsSound}

-- The client registry's own operations, and those of others on the table of host capabilities.
pub with_clients-IsSound :
    (epoch : String) (live : Live) (s : Supervision)
    → AllShown s live
    → IsSound epoch s
    → IsSound epoch (record s { clients = live })
unfolding snapshot
with_clients-IsSound epoch live s shown v = record {
  positive = v.positive;
  active_drawn = v.active_drawn;
  attempt_drawn = v.attempt_drawn;
  apart = v.apart;
  bound_shown = shown;
  one_each = v.one_each;
  capable = v.capable;
  told = v.told;
}

pub with_hosts-IsSound :
    (epoch : String) (hosts : HostGrants) (s : Supervision)
    → HasDistinctKeys hosts
    → Capable s.active hosts
    → IsSound epoch s
    → IsSound epoch (record s { hosts = hosts })
unfolding snapshot
with_hosts-IsSound epoch hosts s keys capable v = record {
  positive = v.positive;
  active_drawn = v.active_drawn;
  attempt_drawn = v.attempt_drawn;
  apart = v.apart;
  bound_shown = v.bound_shown;
  one_each = keys;
  capable = capable;
  told = v.told;
}

pub with_stops-IsSound :
    (epoch : String) (stops : List ℕ) (s : Supervision)
    → IsSound epoch s
    → IsSound epoch (record s { stops = stops })
unfolding snapshot
with_stops-IsSound epoch stops s v = record {
  positive = v.positive;
  active_drawn = v.active_drawn;
  attempt_drawn = v.attempt_drawn;
  apart = v.apart;
  bound_shown = v.bound_shown;
  one_each = v.one_each;
  capable = v.capable;
  told = v.told;
}

pub Capable-revoke_host :
    (active : Option ActiveEntry) (target : CapabilityHost) (hosts : HostGrants)
    → HasDistinctKeys hosts
    → Capable active hosts
    → Capable active (revoke_host target hosts)
Capable-revoke_host active target hosts keys capable key capability e =
    let left = current-revoke_host target hosts (project key) keys in
    ground (arith, left, e, capable key capability)

pub Capable-mint_launcher :
    (active : Option ActiveEntry) (minted : String) (hosts : HostGrants)
    → Capable active hosts
    → Capable active (mint minted launcher hosts)
Capable-mint_launcher active minted hosts capable key capability e =
    let fresh = current-mint minted launcher hosts (project key) in
    ground (arith, e, fresh, capable key capability, launcher_key key)
