-- ===== src/Routes/Sound.antt =====
-- The resolution never picks wrong: what it answers is the one entry that the routes show.
use astroix.Base.{
  String, true, false, Option, none, some, List, [], ◌∷◌, ◌≡◌, refl, sym, ◌∙◌, subst, arith, str_eq,
  eq_iff, all, All, ◌≤◌, All-weaken, Bool-cases, inl, inr,
}
use astroix.Base.Dict.{get}
use astroix.Routes.{
  RouteInfo, ActiveEntry, CollectionsIndex, RankedCandidate, UrlPlatform, is_static_page,
}
use astroix.Routes.Resolve.{
  Hits, hit_key, entry_hits_from, only, ranks_after, sorted, best_url, to_url_segments,
  resolve_active_entry, ranked_candidates, is_entry, pick_navigable_candidate,
}
use astroix.Routes.Ranking.{sorted-All, All-sorted, HasLeast, sorted-HasLeast}
use astroix.Routes.Keys.{is_free, only_entry}
use astroix.Routes.Hits.{
  lists, shows, capture, IsHit, Has, KeysOf-weaken, entry_hits_from-own, hits-IsHit,
}

-- No static page is at the URL, a route shows the entry and a collection lists it, and the routes show
-- no other entry that is listed.
pub record IsResolved (routes : List RouteInfo) (url : List String) (collections : CollectionsIndex)
    (entry : ActiveEntry) : Type 0 where
  pub not_static : is_static_page routes url ≡ false
  pub listed : lists entry.collection entry.entry_id collections ≡ true
  pub shown : shows url collections routes entry.entry_id ≡ true
  pub unique :
      (other : ActiveEntry)
      → lists other.collection other.entry_id collections ≡ true
      → shows url collections routes other.entry_id ≡ true
      → other ≡ entry

only-hit :
    (hits : Hits) (entry : ActiveEntry)
    → only hits ≡ some entry
    → (key : String) × (hits ≡ (key, entry) ∷ [])
only-hit [] entry e = cc
only-hit ((key, h) ∷ []) entry e = (key, ground (arith, e))
only-hit (a ∷ b ∷ hits) entry e = cc

one_key :
    (key asked : String) (entry : ActiveEntry) (v : ActiveEntry)
    → get ((key, entry) ∷ []) asked ≡ some v
    → asked ≡ key
unfolding get
one_key key asked entry v e = elim (Bool-cases (str_eq key asked)) [
  | inl same ↦ sym ((eq_iff key asked).0 same)
  | inr other ↦ cc (rw other at e)
]

module _ (p : UrlPlatform) where
  -- Let no collection have the separator of the keys, U+0000, in its name. What a URL resolves to
  -- is listed and shown, at a URL without a static page, and every entry that is listed and that a
  -- route shows there is that entry.
  pub resolve_active_entry-IsResolved :
      (routes : List RouteInfo) (url : String) (collections : CollectionsIndex)
      (entry : ActiveEntry)
      → All (λ c. is_free c.0 ≡ true) collections
      → resolve_active_entry p routes url collections ≡ some entry
      → IsResolved routes (to_url_segments p url) collections entry
  unfolding resolve_active_entry
  resolve_active_entry-IsResolved routes url collections entry free e =
      elim (Bool-cases (is_static_page routes (to_url_segments p url))) [
        | inl static_page ↦ cc (rw static_page at e)
        | inr dynamic_page ↦
            let segments = to_url_segments p url in
            let hits = entry_hits_from routes segments collections [] in
            let (key, single) = only-hit hits entry (rw dynamic_page at e) in
            let found : All (IsHit segments collections routes) ((key, entry) ∷ []) =
              subst (All (IsHit segments collections routes)) single
                (hits-IsHit segments collections routes) in
            record {
              not_static = dynamic_page;
              listed = found.0.listed;
              shown = found.0.shown;
              unique = λ other.
                  only_entry segments collections entry other routes free found.0.listed (
                    All-weaken
                      (λ route.
                        KeysOf-weaken segments collections (Has segments collections hits)
                          (λ k. k ≡ hit_key entry.collection entry.entry_id)
                          (capture segments collections route)
                          (λ k has.
                            one_key key k entry has.0
                              (subst (λ hs. get hs k ≡ some has.0) single has.1)
                            ∙ found.0.key))
                      routes (entry_hits_from-own segments collections routes []));
            }
      ]

  -- A candidate resolves to an entry with the id that was asked for.
  abbrev pub Reaches : String → List RouteInfo → CollectionsIndex → RankedCandidate → Type 0
  Reaches entry_id routes collections c =
      (entry : ActiveEntry) × (resolve_active_entry p routes c.url collections ≡ some entry)
      × (entry.entry_id ≡ entry_id)

  is_entry-lem :
      (entry_id : String) (o : Option ActiveEntry)
      → is_entry p entry_id o ≡ true
      → (entry : ActiveEntry) × (o ≡ some entry) × (entry.entry_id ≡ entry_id)
  is_entry-lem entry_id none e = cc
  is_entry-lem entry_id (some entry) e = (entry, refl, (eq_iff entry.entry_id entry_id).0 e)

  all-Reaches :
      (entry_id : String) (routes : List RouteInfo) (collections : CollectionsIndex)
      (cs : List RankedCandidate)
      → all (λ c. is_entry p entry_id (resolve_active_entry p routes c.url collections)) cs ≡ true
      → All (Reaches entry_id routes collections) cs
  all-Reaches entry_id routes collections [] e = tt
  all-Reaches entry_id routes collections (c ∷ cs) e = (
    is_entry-lem entry_id (resolve_active_entry p routes c.url collections) (ground (arith, e)),
    all-Reaches entry_id routes collections cs (ground (arith, e)),
  )

  -- No catch-all is taken while a candidate with a single segment is there, and among candidates of
  -- one kind none is shallower.
  abbrev pub GoesFirst : RankedCandidate → RankedCandidate → Type 0
  GoesFirst c d =
      (c.is_rest ≡ true → d.is_rest ≡ true) × (c.is_rest ≡ d.is_rest → c.depth ≤ d.depth)

  ranks_after-GoesFirst : (c d : RankedCandidate) → ranks_after c d ≡ false → GoesFirst c d
  ranks_after-GoesFirst c d e = (λ h. ground (arith, e, h), λ h. ground (arith, e, h))

  best-least :
      (P : RankedCandidate → Type 0) (cs : List RankedCandidate) (url : String)
      → HasLeast cs
      → All P cs
      → best_url cs ≡ some url
      → (c : RankedCandidate) × (c.url ≡ url) × P c × All (λ d. ranks_after c d ≡ false) cs
  best-least P [] url least h e = cc
  best-least P (c ∷ cs) url least h e = (c, ground (arith, e), h.0, least)

  -- A URL that is picked for an entry id is of a candidate that resolves to an entry with that id,
  -- as do all candidates; a catch-all is picked only where every candidate is one, and no
  -- candidate of the same kind has fewer segments.
  pub pick_navigable_candidate-Reaches :
      (entry_id url : String) (routes : List RouteInfo) (collections : CollectionsIndex)
      → pick_navigable_candidate p entry_id routes collections ≡ some url
      → ((c : RankedCandidate) × (c.url ≡ url)
          × Reaches entry_id routes collections c
          × All (GoesFirst c) (ranked_candidates p entry_id routes))
        × All (Reaches entry_id routes collections) (ranked_candidates p entry_id routes)
  unfolding pick_navigable_candidate
  pick_navigable_candidate-Reaches entry_id url routes collections e =
      let candidates = ranked_candidates p entry_id routes in
      elim (Bool-cases (
        all (λ c. is_entry p entry_id (resolve_active_entry p routes c.url collections))
          candidates)) [
            | inr some_other ↦ cc (rw some_other at e)
            | inl agreed ↦
                let reached = all-Reaches entry_id routes collections candidates agreed in
                let (c, same, reaches, least) =
                  best-least (Reaches entry_id routes collections) (sorted candidates) url
                    (sorted-HasLeast candidates)
                    (sorted-All (Reaches entry_id routes collections) candidates reached)
                    (rw agreed at e) in
                (
                  (
                    c,
                    same,
                    reaches,
                    All-weaken (ranks_after-GoesFirst c) candidates
                        (All-sorted (λ d. ranks_after c d ≡ false) candidates least),
                  ),
                  reached,
                )
          ]
