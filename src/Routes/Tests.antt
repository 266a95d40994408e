-- ===== src/Routes/Tests.antt =====
-- Runs of the resolution over a static page, a segment param and a catch-all.
use astroix.Base.{◌↔◌, remove, String, Bool, true, false, none, some, List, [], ◌∷◌, ◌≡◌, refl, All}
use astroix.Base.Dict.{put}
use astroix.Routes.{
  FlatRoute, single_param, static, rest, RouteSegmentPart, RouteInfo, CollectionsIndex, UrlPlatform,
  on_demand, RankedCandidate, split_slash, join_slash, flatten_from, flatten_route, all_agree,
  agree_until_rest, pattern_matches_url, capture_param_value, route_renders_id, is_static_page,
}
use astroix.Routes.Resolve.{
  ranked_candidates, resolve_active_entry, pick_navigable_candidate, to_url_segments,
  collections_with_entry, put_hits, entry_hits_from, insert, sorted, all_path_parts,
  build_candidate_url, candidates_from,
}
use astroix.Routes.Patterns.{Matches, flat_segments, flatten_route-Matches_iff}
use astroix.Routes.Keys.{is_free}
use astroix.Routes.Sound.{
  IsResolved, Reaches, GoesFirst, resolve_active_entry-IsResolved, pick_navigable_candidate-Reaches,
}

abbrev platform : UrlPlatform
platform = record {
  pathname = λ url. some url;
  decode_component = λ text. some text;
  encode_component = λ text. text;
}

abbrev part : String → Bool → Bool → RouteSegmentPart
part content dynamic spread = record { content = content; dynamic = dynamic; spread = spread }

abbrev page : String → List (List RouteSegmentPart) → RouteInfo
page pattern segments = record {
  pattern_text = pattern;
  segments = segments;
  params = [];
  rendering = on_demand;
  renders = none;
}

abbrev routes : List RouteInfo
routes =
    page "/[...slug]" ((part "...slug" true true ∷ []) ∷ [])
    ∷ page "/about" ((part "about" false false ∷ []) ∷ [])
    ∷ page "/blog/[slug]" ((part "blog" false false ∷ []) ∷ (part "slug" true false ∷ []) ∷ [])
    ∷ []

abbrev collections : CollectionsIndex
collections = ("blog", "post" ∷ "about" ∷ []) ∷ ("notes", "2024/note" ∷ []) ∷ []

picked : pick_navigable_candidate platform "post" routes collections ≡ some "/blog/post"
unfolding pick_navigable_candidate resolve_active_entry to_url_segments split_slash join_slash
    flatten_from flatten_route all_agree agree_until_rest pattern_matches_url capture_param_value
    route_renders_id is_static_page collections_with_entry put_hits entry_hits_from insert sorted
    all_path_parts build_candidate_url candidates_from put remove
picked = refl

resolved :
    resolve_active_entry platform routes "/2024/note" collections
    ≡ some (record { collection = "notes"; entry_id = "2024/note" })
unfolding resolve_active_entry to_url_segments split_slash join_slash flatten_from flatten_route
    all_agree agree_until_rest pattern_matches_url capture_param_value route_renders_id
    is_static_page collections_with_entry put_hits entry_hits_from put remove
resolved = refl

shadowed : resolve_active_entry platform routes "/about" collections ≡ none
unfolding resolve_active_entry to_url_segments split_slash join_slash flatten_from flatten_route
    all_agree agree_until_rest pattern_matches_url is_static_page remove
shadowed = refl

resolve_active_entry-IsResolved_example :
    IsResolved routes
      (to_url_segments platform "/2024/note")
      collections
      (record { collection = "notes"; entry_id = "2024/note" })
unfolding is_free
resolve_active_entry-IsResolved_example =
    resolve_active_entry-IsResolved platform routes "/2024/note" collections
      (record { collection = "notes"; entry_id = "2024/note" }) (refl, (refl, tt)) resolved

pick_navigable_candidate-Reaches_example :
    ((c : RankedCandidate) × (c.url ≡ "/blog/post")
      × Reaches platform "post" routes collections c
      × All (GoesFirst platform c) (ranked_candidates platform "post" routes))
    × All (Reaches platform "post" routes collections) (ranked_candidates platform "post" routes)
pick_navigable_candidate-Reaches_example =
    pick_navigable_candidate-Reaches platform "post" "/blog/post" routes collections picked

abbrev dated : RouteInfo
dated =
    page "/notes/[...slug]" ((part "notes" false false ∷ []) ∷ (part "slug" true true ∷ []) ∷ [])

abbrev dated_flat : FlatRoute
dated_flat = single_param (static "notes" ∷ rest ∷ []) 1 dated

flatten_route-Matches_iff_example :
    (pattern_matches_url (static "notes" ∷ rest ∷ []) ("notes" ∷ "2024" ∷ "post" ∷ []) ≡ true)
    ↔ Matches (flat_segments dated_flat) ("notes" ∷ "2024" ∷ "post" ∷ [])
unfolding flatten_route flatten_from
flatten_route-Matches_iff_example =
    flatten_route-Matches_iff dated dated_flat ("notes" ∷ "2024" ∷ "post" ∷ []) refl
