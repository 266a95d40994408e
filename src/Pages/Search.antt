-- ===== src/Pages/Search.antt =====
-- The binary search finds a count that fits and whose successor does not, and every page that is
-- handed out stays within the budget.
use astroix.Base.{
  ℕ, zero, suc, ◌+◌, ◌-◌, ◌/◌, ◌≤◌, ◌<◌, ◌≡◌, ◌≢◌, ◌⊎◌, inl, inr, refl, sym, ap, subst, true, false,
  List, arith, ltb, ◌==◌, ==_iff, Bool-cases, if_true, if_false,
}
use astroix.Pages.{fits, bisect, largest_fitting_count, count_of}

half_below : (d : ℕ) → 1 < d → (0 < d / 2) × (d / 2 < d)
half_below d h = (omega arith, omega arith)

module _ {ℓ} {A : Type ℓ} (bytes : List A → ℕ) (budget : ℕ) (items : List A) (offset : ℕ) where
  -- A count below a bound that fits, while one more item would not.
  pub record IsEdge (lo hi count : ℕ) : Type 0 where
    pub from : lo ≤ count
    pub below : count < hi
    pub here : fits bytes budget items offset count ≡ true
    pub next : fits bytes budget items offset (suc count) ≡ false

  widen :
      (lo mid hi top count : ℕ) → lo ≤ mid → top ≤ hi → IsEdge mid top count → IsEdge lo hi count
  widen lo mid hi top count a b e = record {
    from = omega (arith, e.from);
    below = omega (arith, e.below);
    here = e.here;
    next = e.next;
  }

  -- With fuel for the width of its interval the binary search, from a lower count that fits and an
  -- upper count that does not, returns a count between them that fits while one more item does
  -- not.
  pub bisect-IsEdge :
      (fuel lo hi : ℕ)
      → lo < hi
      → hi ≤ lo + fuel
      → fits bytes budget items offset lo ≡ true
      → fits bytes budget items offset hi ≡ false
      → IsEdge lo hi (bisect bytes budget items offset fuel lo hi)
  unfolding bisect
  bisect-IsEdge zero lo hi below enough yes_lo no_hi = absurd (omega (arith, below, enough))
  bisect-IsEdge (suc fuel) lo hi below enough yes_lo no_hi =
      let mid = lo + (hi - lo) / 2 in
      elim (Bool-cases (ltb 1 (hi - lo))) [
        | inr near ↦
            let e : hi ≡ suc lo = ground arith in
            rw (near, bisect)
              (record {
                from = omega arith;
                below = omega arith;
                here = yes_lo;
                next = subst (λ n. fits bytes budget items offset n ≡ false) e no_hi;
              })
        | inl far ↦
            let (positive, smaller) = half_below (hi - lo) (ground arith) in
            elim (Bool-cases (fits bytes budget items offset mid)) [
              | inl yes_mid ↦
                  rw (far, bisect)
                    (rw yes_mid (
                      widen lo mid hi hi _ (omega arith) (omega arith)
                        (bisect-IsEdge fuel mid hi (omega arith) (omega arith) yes_mid no_hi)))
              | inr no_mid ↦
                  rw (far, bisect)
                    (rw no_mid (
                      widen lo lo hi mid _ (omega arith) (omega arith)
                        (bisect-IsEdge fuel lo mid (omega arith) (omega arith) yes_lo no_mid)))
            ]
      ]

  -- The count of a page under a ceiling: it fits, and it is the ceiling or one more would not fit.
  pub record IsCount (ceiling count : ℕ) : Type 0 where
    pub some_item : 1 ≤ count
    pub under : count ≤ ceiling
    pub within : fits bytes budget items offset count ≡ true
    pub greatest : (count ≡ ceiling) ⊎ (fits bytes budget items offset (suc count) ≡ false)

  largest_fitting_count-IsCount :
      (ceiling : ℕ)
      → 1 ≤ ceiling
      → fits bytes budget items offset 1 ≡ true
      → IsCount ceiling (largest_fitting_count bytes budget items offset ceiling)
  unfolding largest_fitting_count
  largest_fitting_count-IsCount ceiling positive first =
      elim (Bool-cases (fits bytes budget items offset ceiling)) [
        | inl whole ↦
            rw (whole, largest_fitting_count)
              (record {
                some_item = positive;
                under = omega arith;
                within = whole;
                greatest = inl refl;
              })
        | inr partial ↦
            let apart : 1 ≢ ceiling =
              λ e. cc (partial, first, ap (fits bytes budget items offset) e) in
            let e =
              bisect-IsEdge (ceiling - 1) 1 ceiling (omega arith) (omega arith) first partial in
            rw (partial, largest_fitting_count)
              (record {
                some_item = e.from;
                under = omega (arith, e.below);
                within = e.here;
                greatest = inr e.next;
              })
      ]

  pub count_of-IsCount :
      (ceiling : ℕ)
      → 1 ≤ ceiling
      → fits bytes budget items offset 1 ≡ true
      → IsCount ceiling (count_of bytes budget items offset ceiling)
  count_of-IsCount ceiling positive first = elim (Bool-cases (ceiling == 1)) [
    | inl single ↦ subst (IsCount ceiling) (sym (if_true 1 _ single)) (record {
      some_item = omega arith;
      under = positive;
      within = first;
      greatest = inl (sym ((==_iff _ _).0 single));
    })
    | inr more ↦
        subst (IsCount ceiling) (sym (if_false 1 _ more))
          (largest_fitting_count-IsCount ceiling positive first)
  ]
