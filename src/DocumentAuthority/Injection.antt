-- ===== src/DocumentAuthority/Injection.antt =====
-- What a document presents is held by both tables, where only the authority changes these.
use astroix.Base.{
  ℕ, String, true, some, List, [], ◌∷◌, map, eq_refl, ◌≡◌, refl, ap, ◌∙◌, subst, arith, Bool-cases,
  Option-cases, inl, inr,
}
use astroix.Base.Dict.{get, get-All}
use astroix.Clients.{ClientDocument}
use astroix.DocumentAuthority.{
  DocumentAuthorityGrant, DocumentAuthority, find_at, injectable_capability, is_at,
}
use astroix.DocumentAuthority.Sweep.{Entry, http_of, client_of, Differs, AllDiffer}
use astroix.DocumentAuthority.Reach.{Reach, Reach-IsLockstep}

-- The three tables hold a grant.
pub record IsHeld (es : List Entry) (capability : String) (g : DocumentAuthorityGrant)
    : Type 0 where
  pub live : get es capability ≡ some g
  pub http : get (map http_of es) capability ≡ some (http_of (capability, g)).1
  pub client : get (map client_of es) g.client_capability ≡ some (client_of (capability, g)).1

found_at :
    (d : ClientDocument) (es : List Entry) (capability : String)
    → AllDiffer es
    → find_at d es ≡ some capability
    → (g : DocumentAuthorityGrant) × (is_at d g ≡ true) × IsHeld es capability g
unfolding find_at get
found_at d [] capability v e = cc
found_at d ((j, w) ∷ es) capability v e = elim (Bool-cases (is_at d w)) [
  | inl here ↦
      let same : j ≡ capability = ground (arith, (rw here at e)) in
      subst (λ k. (g : DocumentAuthorityGrant) × (is_at d g ≡ true) × IsHeld ((j, w) ∷ es) k g) same
        (
          w,
          here,
          record {
            live = rw (eq_refl j) refl;
            http = rw (eq_refl j) refl;
            client = rw (eq_refl w.client_capability) refl;
          },
        )
  | inr away ↦
      let (g, at, held) = found_at d es capability v.1 (rw away at e) in
      let apart : Differs (j, w) (capability, g) =
        get-All (Differs (j, w)) es capability g v.0 held.live in
      (
        g,
        at,
        record {
          live = rw apart.0 held.live;
          http = rw apart.0 held.http;
          client = rw apart.2 held.client;
        },
      )
]

-- After a history of calls over tables that only the authority changes, the capability that is injected for a target is of a live grant at
-- the latest document of the target, and both tables hold its binding.
pub injectable_is_held :
    {s : DocumentAuthority} (id : ℕ) (capability : String)
    → Reach s
    → injectable_capability id s ≡ some capability
    → (g : DocumentAuthorityGrant) × (g.input.document.web_contents_id ≡ id)
      × (s.latest_navigation id ≡ some g.input.document.navigation_id)
      × (get s.live capability ≡ some g)
      × (get s.http_bindings capability ≡ some (http_of (capability, g)).1)
      × (get s.clients g.client_capability ≡ some (client_of (capability, g)).1)
unfolding injectable_capability
injectable_is_held {s} id capability r e = elim (Option-cases (s.latest_navigation id)) [
  | inl unknown ↦ cc (rw unknown at e)
  | inr (n, seen) ↦
      let v = Reach-IsLockstep r in
      let (g, at, held) =
        found_at (record { web_contents_id = id; navigation_id = n }) s.live capability v.differ
          (rw seen at e) in
      (
        g,
        ground (arith, at),
        seen ∙ ap some (ground (arith, at)),
        held.live,
        ap (λ t. get t capability) v.http ∙ held.http,
        ap (λ t. get t g.client_capability) v.clients ∙ held.client,
      )
]
