-- ===== src/Routes/Hits.antt =====
-- The map of hits: what is in it is shown by a route and listed, and what a route shows is in it.
use astroix.Base.{
  String, Bool, true, false, ◌&&◌, Option, none, some, List, [], ◌∷◌, ◌≡◌, refl, ◌∙◌, arith, str_eq,
  eq_refl, any, All, All-weaken, Bool-cases, inl, inr, if◌then◌else◌,
}
use astroix.Base.Dict.{get, put, get-put, All-put}
use astroix.Routes.{RouteInfo, ActiveEntry, CollectionsIndex, flatten_route}
use astroix.Routes.Resolve.{
  Hits, hit_key, put_hits, captured, add_hits, entry_hits_from, collections_with_entry,
}

-- A collection of that name lists the entry.
abbrev pub lists : String → String → CollectionsIndex → Bool
lists collection entry_id collections =
    any (λ c. str_eq c.0 collection && any (λ id. str_eq id entry_id) c.1) collections

module _ (url : List String) (collections : CollectionsIndex) where
  abbrev pub capture : RouteInfo → Option String
  capture route = captured (flatten_route route) url

  -- Some route captures and renders the id.
  abbrev pub is_id : String → Option String → Bool
  is_id entry_id none = false
  is_id entry_id (some id) = str_eq id entry_id

  abbrev pub shows : List RouteInfo → String → Bool
  shows routes entry_id = any (λ route. is_id entry_id (capture route)) routes

  pub record IsHit (routes : List RouteInfo) (e : String × ActiveEntry) : Type 0 where
    pub key : e.0 ≡ hit_key e.1.collection e.1.entry_id
    pub listed : lists e.1.collection e.1.entry_id collections ≡ true
    pub shown : shows routes e.1.entry_id ≡ true

  if-All :
      (P : String → Type 0) (b : Bool) (c : String) (cs : List String)
      → (b ≡ true → P c)
      → All P cs
      → All P (if b then c ∷ cs else cs)
  if-All P true c cs new h = (new refl, h)
  if-All P false c cs new h = h

  collections_with_entry-lists :
      (entry_id : String) (cs : CollectionsIndex)
      → All (λ c. lists c entry_id cs ≡ true) (collections_with_entry entry_id cs)
  unfolding collections_with_entry
  collections_with_entry-lists entry_id [] = tt
  collections_with_entry-lists entry_id ((c, ids) ∷ cs) =
      let later : All (λ x. lists x entry_id ((c, ids) ∷ cs) ≡ true)
          (collections_with_entry entry_id cs) =
        All-weaken (λ x h. ground (arith, h)) (collections_with_entry entry_id cs)
          (collections_with_entry-lists entry_id cs) in
      if-All (λ x. lists x entry_id ((c, ids) ∷ cs) ≡ true) (any (λ id. str_eq id entry_id) ids) c
        (collections_with_entry entry_id cs) (λ has. ground (arith, has, eq_refl c)) later

  -- A key that is in the map stays in it.
  abbrev pub Has : Hits → String → Type 0
  Has hits key = (v : ActiveEntry) × (get hits key ≡ some v)

  put-Has :
      (hits : Hits) (key asked : String) (v : ActiveEntry)
      → Has hits asked
      → Has (put hits key v) asked
  put-Has hits key asked v h = elim (Bool-cases (str_eq key asked)) [
    | inl same ↦ (v, get-put hits key v asked ∙ rw same refl)
    | inr other ↦ (h.0, get-put hits key v asked ∙ rw other h.1)
  ]

  put-own : (hits : Hits) (key : String) (v : ActiveEntry) → Has (put hits key v) key
  put-own hits key v = (v, get-put hits key v key ∙ rw (eq_refl key) refl)

  put_hits-Has :
      (entry_id asked : String) (cs : List String) (hits : Hits)
      → Has hits asked
      → Has (put_hits entry_id cs hits) asked
  unfolding put_hits
  put_hits-Has entry_id asked [] hits h = h
  put_hits-Has entry_id asked (c ∷ cs) hits h =
      put_hits-Has entry_id asked cs _ (put-Has hits (hit_key c entry_id) asked _ h)

  put_hits-own :
      (entry_id : String) (cs : List String) (hits : Hits)
      → All (λ c. Has (put_hits entry_id cs hits) (hit_key c entry_id)) cs
  unfolding put_hits
  put_hits-own entry_id [] hits = tt
  put_hits-own entry_id (c ∷ cs) hits = (
    put_hits-Has entry_id (hit_key c entry_id) cs _ (put-own hits (hit_key c entry_id) _),
    put_hits-own entry_id cs _,
  )

  put_hits-All :
      (P : String × ActiveEntry → Type 0) (entry_id : String) (cs : List String) (hits : Hits)
      → All (λ c. P (hit_key c entry_id, record { collection = c; entry_id = entry_id })) cs
      → All P hits
      → All P (put_hits entry_id cs hits)
  unfolding put_hits
  put_hits-All P entry_id [] hits new h = h
  put_hits-All P entry_id (c ∷ cs) hits new h =
      put_hits-All P entry_id cs _ new.1 (All-put P hits (hit_key c entry_id) _ h new.0)

  -- The hits of one more route.
  add_hits-All :
      (P : String × ActiveEntry → Type 0) (o : Option String) (hits : Hits)
      → ((id : String)
          → o ≡ some id
          → All
              (λ c. P (hit_key c id, record { collection = c; entry_id = id }))
              (collections_with_entry id collections))
      → All P hits
      → All P (add_hits o collections hits)
  add_hits-All P none hits new h = h
  add_hits-All P (some id) hits new h =
      put_hits-All P id (collections_with_entry id collections) hits (new id refl) h

  add_hits-Has :
      (o : Option String) (asked : String) (hits : Hits)
      → Has hits asked
      → Has (add_hits o collections hits) asked
  add_hits-Has none asked hits h = h
  add_hits-Has (some id) asked hits h =
      put_hits-Has id asked (collections_with_entry id collections) hits h

  entry_hits_from-Has :
      (routes : List RouteInfo) (asked : String) (hits : Hits)
      → Has hits asked
      → Has (entry_hits_from routes url collections hits) asked
  unfolding entry_hits_from
  entry_hits_from-Has [] asked hits h = h
  entry_hits_from-Has (route ∷ routes) asked hits h =
      entry_hits_from-Has routes asked _ (add_hits-Has (capture route) asked hits h)

  -- The keys of what an answer of a route captures.
  abbrev pub KeysOf : (String → Type 0) → Option String → Type 0
  KeysOf P none = Unit
  KeysOf P (some id) = All (λ c. P (hit_key c id)) (collections_with_entry id collections)

  add_hits-own : (o : Option String) (hits : Hits) → KeysOf (Has (add_hits o collections hits)) o
  add_hits-own none hits = tt
  add_hits-own (some id) hits = put_hits-own id (collections_with_entry id collections) hits

  pub KeysOf-weaken :
      (P Q : String → Type 0) (o : Option String)
      → ((k : String) → P k → Q k)
      → KeysOf P o
      → KeysOf Q o
  KeysOf-weaken P Q none weaken h = tt
  KeysOf-weaken P Q (some id) weaken h =
      All-weaken (λ c. weaken (hit_key c id)) (collections_with_entry id collections) h

  pub entry_hits_from-own :
      (routes : List RouteInfo) (hits : Hits)
      → All
          (λ route. KeysOf (Has (entry_hits_from routes url collections hits)) (capture route))
          routes
  unfolding entry_hits_from
  entry_hits_from-own [] hits = tt
  entry_hits_from-own (route ∷ routes) hits = (
    KeysOf-weaken (Has (add_hits (capture route) collections hits)) _ (capture route)
        (λ k. entry_hits_from-Has routes k (add_hits (capture route) collections hits))
        (add_hits-own (capture route) hits),
    entry_hits_from-own routes (add_hits (capture route) collections hits),
  )

  entry_hits_from-All :
      (P : String × ActiveEntry → Type 0) (routes : List RouteInfo) (hits : Hits)
      → All
          (λ route.
            (id : String)
            → capture route ≡ some id
            → All
                (λ c. P (hit_key c id, record { collection = c; entry_id = id }))
                (collections_with_entry id collections))
          routes
      → All P hits
      → All P (entry_hits_from routes url collections hits)
  unfolding entry_hits_from
  entry_hits_from-All P [] hits new h = h
  entry_hits_from-All P (route ∷ routes) hits new h =
      entry_hits_from-All P routes _ new.1 (add_hits-All P (capture route) hits new.0 h)

  shown_by :
      (all_routes routes : List RouteInfo)
      → ((entry_id : String) → shows routes entry_id ≡ true → shows all_routes entry_id ≡ true)
      → All
          (λ route.
            (id : String)
            → capture route ≡ some id
            → All
                (λ c. IsHit all_routes (hit_key c id, record { collection = c; entry_id = id }))
                (collections_with_entry id collections))
          routes
  shown_by all_routes [] up = tt
  shown_by all_routes (route ∷ routes) up = (
    λ id e.
        All-weaken
          (λ c listed. record {
            key = refl;
            listed = listed;
            shown = up id (rw e (rw (eq_refl id) refl));
          })
          (collections_with_entry id collections) (collections_with_entry-lists id collections),
    shown_by all_routes routes (λ id h. up id (ground (arith, h))),
  )

  pub hits-IsHit :
      (routes : List RouteInfo) → All (IsHit routes) (entry_hits_from routes url collections [])
  hits-IsHit routes =
      entry_hits_from-All (IsHit routes) routes [] (shown_by routes routes (λ id h. h)) tt
