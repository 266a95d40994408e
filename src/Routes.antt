-- ===== src/Routes.antt =====
-- packages/core/src/route-resolver.ts: which entry a URL shows, and which URL shows an entry.
--
-- The URL class and the codec of components are the record UrlPlatform. An object of collections is the
-- list of its entries. The map of hits has the collection and the entry as its key.
pub mod Resolve
pub mod Patterns
pub mod Ranking
pub mod Hits
pub mod Keys
pub mod Sound
mod Tests
use astroix.Base.{
  ℕ, zero, suc, ◌+◌, String, Bool, true, false, not, ◌&&◌, ◌||◌, Option, none, some, List, [], ◌∷◌,
  ◌++◌, map, length, get_elem?, drop, is_empty, remove, all, any, ◌==◌, ltb, if◌then◌else◌, str_eq,
}
use Prim.Native.Char.{Char}
use Prim.Native.String.{◌++◌ as ◌<>◌}
use astroix.Base.Dict.{put}

pub record RouteSegmentPart : Type 0 where
  pub content : String
  pub dynamic : Bool
  pub spread : Bool

pub data Rendering : Type 0 where
  prerendered on_demand : Rendering

pub record RouteInfo : Type 0 where
  pub pattern_text : String
  pub segments : List (List RouteSegmentPart)
  pub params : List String
  pub rendering : Rendering
  pub renders : Option (List String)

pub record ActiveEntry : Type 0 where
  pub collection : String
  pub entry_id : String

abbrev pub CollectionsIndex : Type 0
CollectionsIndex = List (String × List String)

pub data FlatSegment : Type 0 where
  static : (text : String) → FlatSegment
  param rest : FlatSegment

pub data FlatRoute : Type 0 where
  static_route : List FlatSegment → FlatRoute
  single_param : List FlatSegment → (param_at : ℕ) → (source : RouteInfo) → FlatRoute

pub record RankedCandidate : Type 0 where
  pub url : String
  pub is_rest : Bool
  pub depth : ℕ

pub record UrlPlatform : Type 0 where
  pub pathname : String → Option String
  pub decode_component : String → Option String
  pub encode_component : String → String

-- `split('/')` and `join('/')`.
abbrev push_char : Char → List String → List String
push_char c [] = String.◌∷◌ c "" ∷ []
push_char c (part ∷ parts) = String.◌∷◌ c part ∷ parts

unfoldable pub split_slash : String → List String
split_slash String.[] = "" ∷ []
split_slash (String.◌∷◌ c text) =
    let later = split_slash text in
    if str_eq (String.◌∷◌ c "") "/" then "" ∷ later else push_char c later

unfoldable pub join_slash : List String → String
join_slash [] = ""
join_slash (part ∷ []) = part
join_slash (part ∷ next ∷ parts) = part <> ("/" <> join_slash (next ∷ parts))

abbrev pub is_rest_segment : FlatSegment → Bool
is_rest_segment rest = true
is_rest_segment _ = false

-- A segment with several parts, or none, stays silent.
abbrev pub flatten_segment : List RouteSegmentPart → Option FlatSegment
flatten_segment (part ∷ []) =
    some (if part.spread then rest else if part.dynamic then param else static part.content)
flatten_segment _ = none

abbrev pub is_static : FlatSegment → Bool
is_static (static text) = true
is_static _ = false

-- One step of the loop: the segments so far, where the param is, and whether more follow.
abbrev pub flatten_step :
    Option FlatSegment → Bool → List FlatSegment × Option ℕ → Option (List FlatSegment × Option ℕ)
flatten_step none more so_far = none
flatten_step (some segment) more (done, param_at) =
    if is_rest_segment segment && more
    then none
    else if is_static segment
    then some (done ++ (segment ∷ []), param_at)
    else elim param_at [ some at ↦ none | none ↦ some (done ++ (segment ∷ []), some (length done)) ]

unfoldable pub flatten_from :
    Option (List FlatSegment × Option ℕ)
    → List (List RouteSegmentPart)
    → Option (List FlatSegment × Option ℕ)
flatten_from none segments = none
flatten_from (some so_far) [] = some so_far
flatten_from (some so_far) (parts ∷ segments) =
    flatten_from (flatten_step (flatten_segment parts) (not (is_empty segments)) so_far) segments

abbrev pub flat_of : RouteInfo → Option (List FlatSegment × Option ℕ) → Option FlatRoute
flat_of route none = none
flat_of route (some (segments, none)) = some (static_route segments)
flat_of route (some (segments, some at)) = some (single_param segments at route)

unfoldable pub flatten_route : RouteInfo → Option FlatRoute
flatten_route route = flat_of route (flatten_from (some ([], none)) route.segments)

abbrev pub agrees : FlatSegment → Option String → Bool
agrees (static text) none = false
agrees (static text) (some url_segment) = str_eq text url_segment
agrees _ url_segment = true

abbrev pub head : List String → Option String
head [] = none
head (x ∷ xs) = some x

unfoldable pub all_agree : List FlatSegment → List String → Bool
all_agree [] url = true
all_agree (s ∷ ss) url = agrees s (head url) && all_agree ss (drop 1 url)

-- The loop up to the rest param.
unfoldable pub agree_until_rest : List FlatSegment → List String → Bool
agree_until_rest [] url = true
agree_until_rest (s ∷ ss) url =
    is_rest_segment s || (agrees s (head url) && agree_until_rest ss (drop 1 url))

unfoldable pub pattern_matches_url : List FlatSegment → List String → Bool
pattern_matches_url segments url =
    if not (any is_rest_segment segments)
    then length segments == length url && all_agree segments url
    else not (ltb (length url) (length segments)) && agree_until_rest segments url

abbrev pub is_rest_at : Option FlatSegment → Bool
is_rest_at (some rest) = true
is_rest_at _ = false

unfoldable pub capture_param_value : List FlatSegment → ℕ → List String → Option String
capture_param_value segments at url =
    if not (pattern_matches_url segments url)
    then none
    else if is_rest_at (get_elem? segments at)
    then some (join_slash (drop at url))
    else get_elem? url at

abbrev pub is_on_demand : Rendering → Bool
is_on_demand on_demand = true
is_on_demand prerendered = false

abbrev pub rendered_list : Option (List String) → String → Bool
rendered_list none entry_id = true
rendered_list (some ids) entry_id = any (λ id. str_eq id entry_id) ids

unfoldable pub route_renders_id : RouteInfo → String → Bool
route_renders_id route entry_id =
    if is_on_demand route.rendering then true else rendered_list route.renders entry_id

abbrev pub matches_static : Option FlatRoute → List String → Bool
matches_static (some (static_route segments)) url = pattern_matches_url segments url
matches_static _ url = false

unfoldable pub is_static_page : List RouteInfo → List String → Bool
is_static_page routes url = any (λ route. matches_static (flatten_route route) url) routes
