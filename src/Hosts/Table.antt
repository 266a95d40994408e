-- ===== src/Hosts/Table.antt =====
-- What the table of host capabilities answers after each of its operations.
use astroix.Base.{
  String, ◌≡◌, ◌↔◌, ◌≢◌, refl, sym, subst, true, false, none, arith, str_eq, eq_iff, eq_refl, some,
  Option-cases, Bool-cases, false, inl, inr, ap, if◌then◌else◌,
}
use text.Mathlib.Text.{starts_with}
use text.Mathlib.TextPositions.{starts_with-append}
use text.Mathlib.TextLemmas.{append_cancel_left}
use astroix.Base.Dict.{
  get-put, get-drop_where, HasDistinctKeys, get, hit, put-HasDistinctKeys,
  drop_where-HasDistinctKeys,
}
use astroix.Hosts.{
  CapabilityHost, launcher, project, HostGrants, capability_key, mint, revoke_host, current,
}

pub capability_key_inj :
    (a b : String) → capability_key (project a) ≡ capability_key (project b) → a ≡ b
unfolding capability_key
capability_key_inj a b e = append_cancel_left "project/" a b e

pub launcher_apart : (a : String) → capability_key (project a) ≢ capability_key launcher
unfolding capability_key
launcher_apart a e =
    cc (subst (λ t. starts_with t "project/" ≡ true) e (starts_with-append "project/" a))

capability_key_iff :
    (a b : CapabilityHost) → (str_eq (capability_key a) (capability_key b) ≡ true) ↔ (a ≡ b)
capability_key_iff launcher launcher = ((λ e. refl), λ e. eq_refl (capability_key launcher))
capability_key_iff launcher (project b) =
    ((λ e. absurd (launcher_apart b (sym ((eq_iff _ _).0 e)))), λ e. cc)
capability_key_iff (project a) launcher =
    ((λ e. absurd (launcher_apart a ((eq_iff _ _).0 e))), λ e. cc)
capability_key_iff (project a) (project b) = (
  (λ e. ap project (capability_key_inj a b ((eq_iff _ _).0 e))),
  λ e. (eq_iff _ _).1 (ap capability_key e),
)

pub project_key_iff :
    (a b : String)
    → (str_eq (capability_key (project a)) (capability_key (project b)) ≡ true) ↔ (a ≡ b)
project_key_iff a b = (
  (λ e. capability_key_inj a b ((eq_iff _ _).0 e)),
  λ e. (eq_iff _ _).1 (ap (λ k. capability_key (project k)) e),
)

pub launcher_key :
    (a : String) → str_eq (capability_key launcher) (capability_key (project a)) ≡ false
launcher_key a = elim (Bool-cases (str_eq (capability_key launcher) (capability_key (project a)))) [
  | inl same ↦ absurd (launcher_apart a (sym ((eq_iff _ _).0 same)))
  | inr other ↦ other
]

-- A fresh capability is its host's, and no other host's changes.
pub current-mint :
    (capability : String) (target : CapabilityHost) (grants : HostGrants) (asked : CapabilityHost)
    → current asked (mint capability target grants)
      ≡ hit
          (str_eq (capability_key target) (capability_key asked))
          capability
          (current asked grants)
unfolding current mint
current-mint capability target grants asked =
    get-put grants (capability_key target) capability (capability_key asked)

pub current-mint_own :
    (capability : String) (target : CapabilityHost) (grants : HostGrants)
    → current target (mint capability target grants) ≡ some capability
current-mint_own capability target grants =
    let e = current-mint capability target grants target in
    ground (arith, e, eq_refl (capability_key target))

pub mint-HasDistinctKeys :
    (capability : String) (target : CapabilityHost) (grants : HostGrants)
    → HasDistinctKeys grants
    → HasDistinctKeys (mint capability target grants)
unfolding mint
mint-HasDistinctKeys capability target grants v =
    put-HasDistinctKeys (capability_key target) capability grants v

pub revoke_host-HasDistinctKeys :
    (target : CapabilityHost) (grants : HostGrants)
    → HasDistinctKeys grants
    → HasDistinctKeys (revoke_host target grants)
unfolding revoke_host
revoke_host-HasDistinctKeys target grants v = drop_where-HasDistinctKeys _ grants v

-- A revoked host has no capability, and no other host's changes.
pub current-revoke_host :
    (target : CapabilityHost) (grants : HostGrants) (asked : CapabilityHost)
    → HasDistinctKeys grants
    → current asked (revoke_host target grants) ≡ (
        if str_eq (capability_key asked) (capability_key target)
        then none
        else current asked grants)
unfolding current revoke_host
current-revoke_host target grants asked v =
    let e =
      get-drop_where (capability_key asked) (λ j _. str_eq j (capability_key target)) grants v in
    elim (Option-cases (get grants (capability_key asked))) [
      | inl missed ↦ ground (arith, e)
      | inr (held, found) ↦ ground (arith, e)
    ]
