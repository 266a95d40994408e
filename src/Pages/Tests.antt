-- ===== src/Pages/Tests.antt =====
-- Pages of a small collection whose envelope has one byte more than its items, and the theorems at
-- them.
use astroix.Base.{ℕ, suc, ◌≡◌, ◌⊎◌, refl, some, none, List, [], ◌∷◌, arith, length}
use astroix.Pages.{
  whole, negative, not_finite, page_of, refused, empty_envelope_over_budget, bisect,
  largest_fitting_count, bounded_page,
}
use astroix.Pages.Search.{IsEdge, bisect-IsEdge}
use astroix.Pages.Bounds.{IsPart, IsEnd, IsRefusal, bounded_page_cases}

abbrev size : List ℕ → ℕ
size xs = suc (length xs)

abbrev five : List ℕ
five = 10 ∷ 11 ∷ 12 ∷ 13 ∷ 14 ∷ []

page_tests :
    (bounded_page size 4 five (whole 0) none ≡ page_of (10 ∷ 11 ∷ 12 ∷ []) 4 (some 3))
    × (bounded_page size 4 five (whole 3) none ≡ page_of (13 ∷ 14 ∷ []) 3 none)
    × (bounded_page size 4 five negative (some not_finite) ≡ page_of (10 ∷ []) 2 (some 1))
    × (bounded_page size 0 five (whole 9) none ≡ refused empty_envelope_over_budget 1)
unfolding bounded_page largest_fitting_count bisect
page_tests = (refl, refl, refl, refl)

bisect-IsEdge_example : IsEdge size 4 five 0 1 5 (bisect size 4 five 0 4 1 5)
bisect-IsEdge_example = bisect-IsEdge size 4 five 0 4 1 5 (omega arith) (omega arith) refl refl

bounded_page_cases_example :
    IsPart size 4 five (whole 0) none (bounded_page size 4 five (whole 0) none)
    ⊎ (IsEnd size 4 five (whole 0) none (bounded_page size 4 five (whole 0) none)
        ⊎ IsRefusal size 4 five (whole 0) none (bounded_page size 4 five (whole 0) none))
bounded_page_cases_example = bounded_page_cases size 4 five (whole 0) none
