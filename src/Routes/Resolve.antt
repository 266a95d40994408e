-- ===== src/Routes/Resolve.antt =====
-- packages/core/src/route-resolver.ts: the hits of a URL, the candidates of an entry, and the picking.
use astroix.Base.{
  ℕ, String, Bool, true, false, not, ◌&&◌, ◌||◌, Option, none, some, List, [], ◌∷◌, ◌++◌, map,
  length, get_elem?, is_empty, remove, all, any, ltb, if◌then◌else◌, str_eq,
}
use Prim.Native.String.{◌++◌ as ◌<>◌}
use astroix.Base.Dict.{put}
use astroix.Routes.{
  ActiveEntry, CollectionsIndex, FlatRoute, FlatSegment, RankedCandidate, RouteInfo, UrlPlatform,
  capture_param_value, flatten_route, is_rest_at, is_static_page, join_slash, param, rest,
  route_renders_id, single_param, split_slash, static,
}

unfoldable pub collections_with_entry : String → CollectionsIndex → List String
collections_with_entry entry_id [] = []
collections_with_entry entry_id ((collection, ids) ∷ collections) =
    let later = collections_with_entry entry_id collections in
    if any (λ id. str_eq id entry_id) ids then collection ∷ later else later

abbrev pub Hits : Type 0
Hits = List (String × ActiveEntry)

abbrev pub hit_key : String → String → String
hit_key collection entry_id = collection <> ("\0" <> entry_id)

unfoldable pub put_hits : String → List String → Hits → Hits
put_hits entry_id [] hits = hits
put_hits entry_id (collection ∷ later) hits = put_hits entry_id later (
    put hits (hit_key collection entry_id)
      (record { collection = collection; entry_id = entry_id }))

-- The id that a route captures from a URL and renders.
abbrev pub rendered_capture : RouteInfo → Option String → Option String
rendered_capture source none = none
rendered_capture source (some entry_id) =
    if route_renders_id source entry_id then some entry_id else none

abbrev pub captured : Option FlatRoute → List String → Option String
captured (some (single_param segments at source)) url =
    rendered_capture source (capture_param_value segments at url)
captured _ url = none

abbrev pub add_hits : Option String → CollectionsIndex → Hits → Hits
add_hits none collections hits = hits
add_hits (some entry_id) collections hits =
    put_hits entry_id (collections_with_entry entry_id collections) hits

unfoldable pub entry_hits_from : List RouteInfo → List String → CollectionsIndex → Hits → Hits
entry_hits_from [] url collections hits = hits
entry_hits_from (route ∷ routes) url collections hits =
    entry_hits_from routes url collections
      (add_hits (captured (flatten_route route) url) collections hits)

abbrev pub only : Hits → Option ActiveEntry
only ((key, hit) ∷ []) = some hit
only _ = none

-- `sort` is stable: a candidate goes before the ones that rank after it.
abbrev pub ranks_after : RankedCandidate → RankedCandidate → Bool
ranks_after a b =
    (a.is_rest && not b.is_rest)
    || ((not (a.is_rest && not b.is_rest) && not (b.is_rest && not a.is_rest))
        && ltb b.depth a.depth)

unfoldable pub insert : RankedCandidate → List RankedCandidate → List RankedCandidate
insert c [] = c ∷ []
insert c (d ∷ ds) = if ranks_after c d then d ∷ insert c ds else c ∷ d ∷ ds

unfoldable pub sorted : List RankedCandidate → List RankedCandidate
sorted [] = []
sorted (c ∷ cs) = insert c (sorted cs)

abbrev pub best_url : List RankedCandidate → Option String
best_url [] = none
best_url (c ∷ cs) = some c.url

module _ (p : UrlPlatform) where
  abbrev decode_or : String → Option String → String
  decode_or segment none = segment
  decode_or segment (some decoded) = decoded

  abbrev pub decode_segment : String → String
  decode_segment segment = decode_or segment (p.decode_component segment)

  abbrev segments_of : Option String → List String
  segments_of none = []
  segments_of (some path) = map decode_segment (remove (λ part. str_eq part "") (split_slash path))

  unfoldable pub to_url_segments : String → List String
  to_url_segments url = segments_of (p.pathname url)

  abbrev pub takes_entry_id : Bool → List String → Bool
  takes_entry_id true id_parts = all (λ part. not (str_eq part "")) id_parts
  takes_entry_id false (part ∷ []) = not (str_eq part "")
  takes_entry_id false _ = false

  abbrev pub path_parts : List String → FlatSegment → List String
  path_parts id_parts (static text) = text ∷ []
  path_parts (part ∷ id_parts) param = p.encode_component part ∷ []
  path_parts [] param = p.encode_component "" ∷ []
  path_parts id_parts rest = map p.encode_component id_parts

  unfoldable pub all_path_parts : List String → List FlatSegment → List String
  all_path_parts id_parts [] = []
  all_path_parts id_parts (s ∷ ss) = path_parts id_parts s ++ all_path_parts id_parts ss

  unfoldable pub build_candidate_url : List FlatSegment → ℕ → String → Option String
  build_candidate_url segments at entry_id =
      let id_parts = split_slash entry_id in
      if not (takes_entry_id (is_rest_at (get_elem? segments at)) id_parts)
      then none
      else some ("/" <> join_slash (all_path_parts id_parts segments))

  unfoldable pub resolve_active_entry :
      List RouteInfo → String → CollectionsIndex → Option ActiveEntry
  resolve_active_entry routes url collections =
      let url_segments = to_url_segments url in
      if is_static_page routes url_segments
      then none
      else only (entry_hits_from routes url_segments collections [])

  -- One route of `rankedCandidates`.
  abbrev pub candidate_at :
      List RouteInfo → List FlatSegment → ℕ → Option String → List RankedCandidate
  candidate_at routes segments at none = []
  candidate_at routes segments at (some url) =
      if is_static_page routes (to_url_segments url)
      then []
      else record {
        url = url;
        is_rest = is_rest_at (get_elem? segments at);
        depth = length segments;
      }
        ∷ []

  abbrev pub candidates_of : String → List RouteInfo → Option FlatRoute → List RankedCandidate
  candidates_of entry_id routes (some (single_param segments at source)) =
      if not (route_renders_id source entry_id)
      then []
      else candidate_at routes segments at (build_candidate_url segments at entry_id)
  candidates_of entry_id routes _ = []

  unfoldable pub candidates_from : String → List RouteInfo → List RouteInfo → List RankedCandidate
  candidates_from entry_id routes [] = []
  candidates_from entry_id routes (route ∷ later) =
      candidates_of entry_id routes (flatten_route route) ++ candidates_from entry_id routes later

  abbrev pub ranked_candidates : String → List RouteInfo → List RankedCandidate
  ranked_candidates entry_id routes = candidates_from entry_id routes routes

  abbrev pub is_entry : String → Option ActiveEntry → Bool
  is_entry entry_id none = false
  is_entry entry_id (some hit) = str_eq hit.entry_id entry_id

  unfoldable pub pick_navigable_candidate :
      String → List RouteInfo → CollectionsIndex → Option String
  pick_navigable_candidate entry_id routes collections =
      let candidates = ranked_candidates entry_id routes in
      if not
        (all (λ c. is_entry entry_id (resolve_active_entry routes c.url collections)) candidates)
      then none
      else best_url (sorted candidates)

  unfoldable pub has_candidate_routes : String → List RouteInfo → Bool
  has_candidate_routes entry_id routes = not (is_empty (ranked_candidates entry_id routes))
