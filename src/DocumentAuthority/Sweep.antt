-- ===== src/DocumentAuthority/Sweep.antt =====
-- What the sweep of document-authority.ts leaves in the three tables.
use astroix.Base.{
  String, Bool, false, ◌&&◌, some, List, [], ◌∷◌, map, eq_refl, ◌≡◌, refl, ap, sym, ◌∙◌, arith,
  str_eq, any, remove, All, All-remove, All-both, All-weaken, Bool-cases, inl, inr,
}
use astroix.Base.Dict.{drop_where}
use astroix.Clients.{
  ClientDocument, ClientBindingRecord, SessionClientRole, editor, diagnostic, Live,
}
use astroix.Clients
use astroix.Bindings.{ClientBinding, HttpBindings, unbind}
use astroix.Bindings
use astroix.DocumentAuthority.{
  DocumentAuthorityGrant, DocumentAuthority, http_role, kill, sweep_over, is_at,
}
use astroix.DocumentAuthority.Tables.{
  drop_where-map, drop_where-fuse, drop_where-none, remove-cong, remove-twice, map-same,
}

abbrev pub Entry : Type 0
Entry = String × DocumentAuthorityGrant

-- What the two tables hold of a grant.
abbrev pub http_of : Entry → String × ClientBinding
http_of (capability, g) = (
  capability,
  record {
    role = http_role g.role;
    host = Bindings.project;
    session_ref = some g.input.session_ref;
  },
)

abbrev pub client_of : Entry → String × ClientBindingRecord
client_of (capability, g) = (
  g.client_capability,
  record { role = g.role; document = g.input.document; session_ref = g.input.session_ref },
)

-- Two grants have different capabilities in both tables, and different documents.
abbrev pub Differs : Entry → Entry → Type 0
Differs a b =
    (str_eq a.0 b.0 ≡ false)
    × (str_eq b.0 a.0 ≡ false)
    × (str_eq a.1.client_capability b.1.client_capability ≡ false)
    × (str_eq b.1.client_capability a.1.client_capability ≡ false)
    × (is_at a.1.input.document b.1 ≡ false)

abbrev pub AllDiffer : List Entry → Type 0
AllDiffer [] = Unit
AllDiffer (e ∷ es) = All (Differs e) es × AllDiffer es

pub remove-AllDiffer : (q : Entry → Bool) (es : List Entry) → AllDiffer es → AllDiffer (remove q es)
unfolding remove
remove-AllDiffer q [] v = tt
remove-AllDiffer q (e ∷ es) v = elim (Bool-cases (q e)) [
  | inl out ↦ rw out (remove-AllDiffer q es v.1)
  | inr kept ↦ rw kept (All-remove (Differs e) q es v.0, remove-AllDiffer q es v.1)
]

-- Whether a sweep of the entries takes the key of a table away.
module _ (matches : DocumentAuthorityGrant → Bool) where
  abbrev hits : (Entry → String) → List Entry → String → Bool
  hits key es j = any (λ e. matches e.1 && str_eq j (key e)) es

  abbrev own_key : Entry → String
  own_key e = e.0

  abbrev client_key : Entry → String
  client_key e = e.1.client_capability

  record Swept (es : List Entry) (s t : DocumentAuthority) : Type 0 where
    live : t.live ≡ drop_where (λ j g. hits own_key es j) s.live
    http : t.http_bindings ≡ drop_where (λ j b. hits own_key es j) s.http_bindings
    clients : t.clients ≡ drop_where (λ j r. hits client_key es j) s.clients
    navigation : t.latest_navigation ≡ s.latest_navigation
    target : t.authoritative_target ≡ s.authoritative_target

  sweep_over-Swept :
      (es : List Entry) (s : DocumentAuthority) → Swept es s (sweep_over matches es s)
  unfolding sweep_over unbind Clients.revoke
  sweep_over-Swept [] s = record {
    live = sym (drop_where-none s.live);
    http = sym (drop_where-none s.http_bindings);
    clients = sym (drop_where-none s.clients);
    navigation = refl;
    target = refl;
  }
  sweep_over-Swept ((capability, g) ∷ es) s = elim (Bool-cases (matches g)) [
    | inl out ↦
        let rest = sweep_over-Swept es (kill capability g s) in
        record {
          live = rw (out, sweep_over) (rest.live ∙ drop_where-fuse _ _ s.live);
          http = rw (out, sweep_over) (rest.http ∙ drop_where-fuse _ _ s.http_bindings);
          clients = rw (out, sweep_over) (rest.clients ∙ drop_where-fuse _ _ s.clients);
          navigation = rw (out, sweep_over) rest.navigation;
          target = rw (out, sweep_over) rest.target;
        }
    | inr kept ↦
        let rest = sweep_over-Swept es s in
        record {
          live = rw (kept, sweep_over) rest.live;
          http = rw (kept, sweep_over) rest.http;
          clients = rw (kept, sweep_over) rest.clients;
          navigation = rw (kept, sweep_over) rest.navigation;
          target = rw (kept, sweep_over) rest.target;
        }
  ]

  misses_key :
      (key : Entry → String) (e : Entry) (es : List Entry)
      → All (λ x. str_eq (key e) (key x) ≡ false) es
      → hits key es (key e) ≡ false
  misses_key key e [] h = refl
  misses_key key e (x ∷ es) h = ground (arith, h.0, misses_key key e es h.1)

  -- Where keys are distinct, an entry is hit exactly when it matches.
  abbrev KeysDiffer : (Entry → String) → List Entry → Type 0
  KeysDiffer key [] = Unit
  KeysDiffer key (e ∷ es) =
      All (λ x. (str_eq (key e) (key x) ≡ false) × (str_eq (key x) (key e) ≡ false)) es
      × KeysDiffer key es

  hits-matches :
      (key : Entry → String) (es : List Entry)
      → KeysDiffer key es
      → All (λ e. hits key es (key e) ≡ matches e.1) es
  hits-matches key [] v = tt
  hits-matches key (e ∷ es) v = (
    ground (arith, eq_refl (key e), misses_key key e es (All-weaken (λ x h. h.0) es v.0)),
    All-weaken (λ x h. ground (arith, h.0.1, h.1)) es
        (All-both _ _ es v.0 (hits-matches key es v.1)),
  )

  abbrev pub is_swept : Entry → Bool
  is_swept e = matches e.1

  -- What a sweep leaves, where the supervisor's table lost what matches already.
  pub record IsSwept (s t : DocumentAuthority) : Type 0 where
    pub live : t.live ≡ remove is_swept s.live
    pub http : t.http_bindings ≡ map http_of (remove is_swept s.live)
    pub clients : t.clients ≡ map client_of (remove is_swept s.live)
    pub navigation : t.latest_navigation ≡ s.latest_navigation

  own_differ : (es : List Entry) → AllDiffer es → KeysDiffer own_key es
  own_differ [] v = tt
  own_differ (e ∷ es) v = (All-weaken (λ x h. (h.0, h.1)) es v.0, own_differ es v.1)

  client_differ : (es : List Entry) → AllDiffer es → KeysDiffer client_key es
  client_differ [] v = tt
  client_differ (e ∷ es) v = (All-weaken (λ x h. (h.2, h.3)) es v.0, client_differ es v.1)

  pub sweep-IsSwept :
      (s : DocumentAuthority)
      → AllDiffer s.live
      → s.http_bindings ≡ map http_of s.live
      → s.clients ≡ map client_of (remove is_swept s.live)
      → IsSwept s (sweep_over matches s.live s)
  sweep-IsSwept s differ http clients =
      let swept = sweep_over-Swept s.live s in
      let own_hits = hits-matches own_key s.live (own_differ s.live differ) in
      let client_hits = hits-matches client_key s.live (client_differ s.live differ) in
      record {
        live =
            swept.live
            ∙ ap (drop_where (λ j g. hits own_key s.live j)) (sym (map-same s.live))
            ∙ drop_where-map (λ e. e) (λ j g. hits own_key s.live j) s.live
            ∙ map-same _
            ∙ remove-cong _ _ s.live own_hits;
        http =
            swept.http
            ∙ ap (drop_where (λ j b. hits own_key s.live j)) http
            ∙ drop_where-map http_of (λ j b. hits own_key s.live j) s.live
            ∙ ap (map http_of) (remove-cong _ _ s.live own_hits);
        clients =
            swept.clients
            ∙ ap (drop_where (λ j r. hits client_key s.live j)) clients
            ∙ drop_where-map client_of (λ j r. hits client_key s.live j) (remove is_swept s.live)
            ∙ ap (map client_of) (
                remove-cong _ _ (remove is_swept s.live) (All-remove _ is_swept s.live client_hits)
                ∙ remove-twice is_swept s.live);
        navigation = swept.navigation;
      }
