-- ===== src/Tombstone/Tests.antt =====
-- Runs of the tombstone, on a platform that writes the scope and the reap that the sample has.
use astroix.Base.{true, none, some, List, [], ◌∷◌, ◌≡◌, refl, str_eq}
use astroix.Tombstone.{
  IncompleteReapRecordInput, an_object, version, TombstonePlatform, contended, exclusive,
  BlockReason, blocked, admitted, recovered, record_incomplete_reap, admit_activation,
  recover_by_lease_proof,
}
use astroix.Tombstone.Blocked.{TombstoneLaws, Call, admits, recovers, run, blocked_until_proof}

abbrev reap : IncompleteReapRecordInput
reap = record { project_key = "shop"; recorded_pid = none; close_report = none }

abbrev platform : TombstonePlatform
platform = record {
  parse = λ text. an_object (version 1) (some (record { boot_scope = text; reap = reap }));
  serialize = λ r. r.boot_scope;
  is_project_key = λ key. str_eq key "shop";
}

laws : TombstoneLaws platform
laws = record {
  round_trip = λ r named keyed. (record { boot_scope = r.boot_scope; reap = reap }, refl, refl);
}

-- A relaunch on the same boot, and a probe that finds the lease held.
abbrev relaunches : List Call
relaunches = admits ∷ recovers contended ∷ admits ∷ []

blocked_until_proof_example :
    (reason : BlockReason) × ((admit_activation platform "boot-1"
        (run platform "boot-1" relaunches (record_incomplete_reap platform "boot-1" reap none).0)).1
      ≡ blocked reason)
unfolding record_incomplete_reap
blocked_until_proof_example =
    blocked_until_proof platform laws "boot-1" reap none relaunches refl (tt, (refl, (tt, tt)))

proven : recover_by_lease_proof platform "boot-1" exclusive (some "boot-1") ≡ (none, recovered)
unfolding recover_by_lease_proof
proven = refl

rebooted : admit_activation platform "boot-2" (some "boot-1") ≡ (none, admitted true)
unfolding admit_activation
rebooted = refl
