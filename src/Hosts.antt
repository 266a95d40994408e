-- ===== src/Hosts.antt =====
-- packages/runtime/api/http/host-capability.ts: the table of host capabilities, one for the launcher
-- and one for each project that is active, and what the `Cookie` header says of the capability.
--
-- The map of the closure is an association list. The capability that `randomBytes` mints is an
-- argument of `mint`, and the digest of node:crypto is a parameter.
pub mod Table
use Prim.Native.String.{◌++◌}
use astroix.Base.{String, Bool, false, Option, none, some, List, [], if◌then◌else◌, str_eq}
use astroix.Base.Dict.{put, delete, get}
use astroix.Clients.{same_secret}

pub data CapabilityHost : Type 0 where
  launcher : CapabilityHost
  project : (project_key : String) → CapabilityHost

unfoldable pub capability_key : CapabilityHost → String
capability_key launcher = "launcher"
capability_key (project key) = "project/" ++ key

abbrev pub HostGrants : Type 0
HostGrants = List (String × String)

unfoldable pub create_host_capability_grants : HostGrants
create_host_capability_grants = []

unfoldable pub mint : String → CapabilityHost → HostGrants → HostGrants
mint capability target grants = put grants (capability_key target) capability

unfoldable pub revoke_host : CapabilityHost → HostGrants → HostGrants
revoke_host target grants = delete (capability_key target) grants

unfoldable pub current : CapabilityHost → HostGrants → Option String
current target grants = get grants (capability_key target)

module _ (digest : String → String) where
  abbrev pub is_expected : String → Option String → Bool
  is_expected presented none = false
  is_expected presented (some expected) = same_secret digest presented expected

  unfoldable pub verify_host : Option String → CapabilityHost → HostGrants → Bool
  verify_host none target grants = false
  verify_host (some presented) target grants =
      if str_eq presented "" then false else is_expected presented (current target grants)
