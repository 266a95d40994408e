-- ===== src/Routes/Patterns.antt =====
-- The two loops of patternMatchesUrl decide one relation, on what flattenRoute gives.
use astroix.Base.{
  ℕ, String, Bool, true, false, not, ◌&&◌, Option, none, some, List, [], ◌∷◌, ◌++◌, length,
  is_empty, any, ◌==◌, ltb, ◌≡◌, ◌↔◌, ◌∙◌, refl, ap, sym, subst, arith, eq_iff, Bool-cases,
  Option-cases, inl, inr,
}
use astroix.Routes.{
  RouteSegmentPart, RouteInfo, FlatSegment, static, param, rest, FlatRoute, static_route,
  single_param, is_rest_segment, flatten_segment, flatten_step, flatten_from, flatten_route,
  flat_of, all_agree, agree_until_rest, pattern_matches_url,
}

-- Segment by segment; a rest param takes one segment or more, to the end.
abbrev pub Matches : List FlatSegment → List String → Type 0
Matches [] [] = Unit
Matches [] (u ∷ us) = ⊥
Matches (s ∷ ss) [] = ⊥
Matches (static text ∷ ss) (u ∷ us) = (text ≡ u) × Matches ss us
Matches (param ∷ ss) (u ∷ us) = Matches ss us
Matches (rest ∷ ss) (u ∷ us) = Unit

-- A rest param is the last segment.
abbrev RestLast : List FlatSegment → Type 0
RestLast [] = Unit
RestLast (rest ∷ ss) = ss ≡ []
RestLast (s ∷ ss) = RestLast ss

without_rest :
    (ss : List FlatSegment) (us : List String)
    → any is_rest_segment ss ≡ false
    → ((length ss == length us && all_agree ss us) ≡ true) ↔ Matches ss us
unfolding all_agree
without_rest [] [] h = ((λ e. tt), λ m. refl)
without_rest [] (u ∷ us) h = ((λ e. ground (arith, e)), λ m. absurd m)
without_rest (s ∷ ss) [] h = ((λ e. ground (arith, e)), λ m. absurd m)
without_rest (static text ∷ ss) (u ∷ us) h =
    let later = without_rest ss us h in
    (
      λ e. ((eq_iff text u).0 (ground (arith, e)), later.0 (ground (arith, e))),
      λ m. let a = (eq_iff text u).1 m.0 in let b = later.1 m.1 in ground (arith, a, b),
    )
without_rest (param ∷ ss) (u ∷ us) h =
    let later = without_rest ss us h in
    ((λ e. later.0 (ground (arith, e))), λ m. let b = later.1 m in ground (arith, b))
without_rest (rest ∷ ss) (u ∷ us) h = cc

with_rest :
    (ss : List FlatSegment) (us : List String)
    → any is_rest_segment ss ≡ true
    → RestLast ss
    → ((not (ltb (length us) (length ss)) && agree_until_rest ss us) ≡ true) ↔ Matches ss us
unfolding agree_until_rest
with_rest [] us h last = cc
with_rest (s ∷ ss) [] h last = ((λ e. ground (arith, e)), λ m. absurd m)
with_rest (static text ∷ ss) (u ∷ us) h last =
    let later = with_rest ss us h last in
    (
      λ e. ((eq_iff text u).0 (ground (arith, e)), later.0 (ground (arith, e))),
      λ m. let a = (eq_iff text u).1 m.0 in let b = later.1 m.1 in ground (arith, a, b),
    )
with_rest (param ∷ ss) (u ∷ us) h last =
    let later = with_rest ss us h last in
    ((λ e. later.0 (ground (arith, e))), λ m. let b = later.1 m in ground (arith, b))
with_rest (rest ∷ ss) (u ∷ us) h last = ((λ e. tt), λ m. rw last (ground arith))

pattern_matches_url_iff :
    (ss : List FlatSegment) (us : List String)
    → RestLast ss
    → (pattern_matches_url ss us ≡ true) ↔ Matches ss us
unfolding pattern_matches_url
pattern_matches_url_iff ss us last = elim (Bool-cases (any is_rest_segment ss)) [
  | inl has ↦ rw has (with_rest ss us has last)
  | inr lacks ↦ rw lacks (without_rest ss us lacks)
]

any-append :
    (ss : List FlatSegment) (s : FlatSegment)
    → any is_rest_segment ss ≡ false
    → is_rest_segment s ≡ false
    → any is_rest_segment (ss ++ (s ∷ [])) ≡ false
any-append [] s h e = rw e refl
any-append (t ∷ ss) s h e = ground (arith, any-append ss s, h, e)

RestLast-append :
    (ss : List FlatSegment) (s : FlatSegment)
    → any is_rest_segment ss ≡ false
    → RestLast (ss ++ (s ∷ []))
RestLast-append [] (static text) h = tt
RestLast-append [] param h = tt
RestLast-append [] rest h = refl
RestLast-append (static text ∷ ss) s h = RestLast-append ss s h
RestLast-append (param ∷ ss) s h = RestLast-append ss s h
RestLast-append (rest ∷ ss) s h = cc

RestLast-none : (ss : List FlatSegment) → any is_rest_segment ss ≡ false → RestLast ss
RestLast-none [] h = tt
RestLast-none (static text ∷ ss) h = RestLast-none ss h
RestLast-none (param ∷ ss) h = RestLast-none ss h
RestLast-none (rest ∷ ss) h = cc

abbrev SoFar : Type 0
SoFar = List FlatSegment × Option ℕ

-- A step appends one segment, and no rest param while more follow.
flatten_step-appends :
    (o : Option FlatSegment) (more : Bool) (so_far next : SoFar)
    → flatten_step o more so_far ≡ some next
    → (s : FlatSegment) × (next.0 ≡ so_far.0 ++ (s ∷ [])) × ((is_rest_segment s && more) ≡ false)
flatten_step-appends none more so_far next e = cc
flatten_step-appends (some (static text)) more (done, at) next e =
    (static text, ground (arith, e), refl)
flatten_step-appends (some param) more (done, none) next e = (param, ground (arith, e), refl)
flatten_step-appends (some param) more (done, some at) next e = cc
flatten_step-appends (some rest) true (done, at) next e = cc
flatten_step-appends (some rest) false (done, none) next e = (rest, ground (arith, e), refl)
flatten_step-appends (some rest) false (done, some at) next e = cc

flatten_none :
    (segments : List (List RouteSegmentPart)) (last : SoFar)
    → flatten_from none segments ≡ some last
    → ⊥
unfolding flatten_from
flatten_none [] last e = ground (arith, e)
flatten_none (parts ∷ segments) last e = ground (arith, e)

flatten_from-RestLast :
    (so_far : SoFar) (segments : List (List RouteSegmentPart)) (last : SoFar)
    → any is_rest_segment so_far.0 ≡ false
    → flatten_from (some so_far) segments ≡ some last
    → RestLast last.0
unfolding flatten_from
flatten_from-RestLast so_far [] last h e =
    let same : so_far.0 ≡ last.0 = ground (arith, e) in
    subst RestLast same (RestLast-none so_far.0 h)
flatten_from-RestLast so_far (parts ∷ segments) last h e =
    elim (Option-cases (flatten_step (flatten_segment parts) (not (is_empty segments)) so_far)) [
      | inl stopped ↦
          absurd (flatten_none segments last (sym (ap (λ o. flatten_from o segments) stopped) ∙ e))
      | inr (next, stepped) ↦
          let (s, appended, inner) =
            flatten_step-appends (flatten_segment parts) (not (is_empty segments)) so_far next
              stepped in
          elim (Bool-cases (is_rest_segment s)) [
            | inr plain ↦
                flatten_from-RestLast next segments last
                  (rw appended (any-append so_far.0 s h plain))
                  (sym (ap (λ o. flatten_from o segments) stepped) ∙ e)
            | inl ends ↦
                at_end next segments last (rw appended (RestLast-append so_far.0 s h))
                  (ground (arith, inner, ends))
                  (sym (ap (λ o. flatten_from o segments) stepped) ∙ e)
          ]
    ]
  where
    at_end :
        (next : SoFar) (segments : List (List RouteSegmentPart)) (last : SoFar)
        → RestLast next.0
        → is_empty segments ≡ true
        → flatten_from (some next) segments ≡ some last
        → RestLast last.0
    at_end next [] last v empty e =
        let same : next.0 ≡ last.0 = ground (arith, e) in subst RestLast same v
    at_end next (parts ∷ segments) last v empty e = cc

abbrev pub flat_segments : FlatRoute → List FlatSegment
flat_segments (static_route segments) = segments
flat_segments (single_param segments at source) = segments

flat_of-segments :
    (route : RouteInfo) (o : Option SoFar) (flat : FlatRoute)
    → flat_of route o ≡ some flat
    → (last : SoFar) × (o ≡ some last) × (flat_segments flat ≡ last.0)
flat_of-segments route none flat e = cc
flat_of-segments route (some (segments, none)) flat e =
    let same : static_route segments ≡ flat = ground (arith, e) in
    ((segments, none), refl, sym (ap flat_segments same))
flat_of-segments route (some (segments, some at)) flat e =
    let same : single_param segments at route ≡ flat = ground (arith, e) in
    ((segments, some at), refl, sym (ap flat_segments same))

-- For a route that is flattened, a URL passes the test of its pattern exactly when it matches it
-- segment by segment, where a rest param takes one segment or more, to the end.
pub flatten_route-Matches_iff :
    (route : RouteInfo) (flat : FlatRoute) (url : List String)
    → flatten_route route ≡ some flat
    → (pattern_matches_url (flat_segments flat) url ≡ true) ↔ Matches (flat_segments flat) url
unfolding flatten_route
flatten_route-Matches_iff route flat url e =
    let (last, flattened, same) =
      flat_of-segments route (flatten_from (some ([], none)) route.segments) flat e in
    pattern_matches_url_iff (flat_segments flat) url (
      subst RestLast (sym same)
        (flatten_from-RestLast ([], none) route.segments last refl flattened))
