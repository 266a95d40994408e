-- ===== src/Pages/Bounds.antt =====
-- Every answer of `bounded_page`: a page within the budget, the end of the collection, or a refusal
-- of an envelope that is over the budget.
use astroix.Base.{
  ℕ, ◌+◌, ◌-◌, ◌≤◌, ◌<◌, ◌≡◌, ◌⊎◌, inl, inr, refl, Option, none, some, List, [], arith, leb, ltb,
  take, drop, if◌then◌else◌, Bool-cases, length,
}
use astroix.Pages.{
  PageNumber, whole, negative, not_finite, BoundedPage, page_of, refused, RefusalReason,
  empty_envelope_over_budget, single_item_over_budget, clamp_offset, clamp_ceiling, slice, fits,
  count_of, bounded_page,
}
use astroix.Pages.Search.{IsCount, count_of-IsCount}

module _ {ℓ} {A : Type ℓ} (bytes : List A → ℕ) (budget : ℕ) (items : List A)
    (requested_offset : PageNumber) (requested_size : Option PageNumber) where
  abbrev start : ℕ
  start = clamp_offset requested_offset

  abbrev available : ℕ
  available = length items - start

  -- Where the next page starts: at the first item that was not handed out, if there is one.
  abbrev pub Continues : ℕ → Option ℕ → Type 0
  Continues next none = next ≡ length items
  Continues next (some cursor) = (cursor ≡ next) × (next < length items)

  continuation-Continues :
      (next : ℕ)
      → next ≤ length items
      → Continues next (if ltb next (length items) then some next else none)
  continuation-Continues next h = elim (Bool-cases (ltb next (length items))) [
    | inl more ↦ rw more (refl, ground arith)
    | inr last ↦ rw last (ground arith)
  ]

  -- A page of at least one item.
  pub record IsPart (result : BoundedPage A) : Type ℓ where
    pub count : ℕ
    pub counted : IsCount bytes budget items start (clamp_ceiling requested_size available) count
    pub continuation : Option ℕ
    pub is_page :
        result
        ≡ page_of
            (take count (drop start items))
            (bytes (take count (drop start items)))
            continuation
    pub bounded : bytes (take count (drop start items)) ≤ budget
    pub some_item : 1 ≤ count
    pub continued : Continues (start + count) continuation

  pub record IsEnd (result : BoundedPage A) : Type ℓ where
    pub past : length items ≤ start
    pub is_empty : result ≡ page_of [] (bytes []) none
    pub bounded : bytes [] ≤ budget

  pub record IsRefusal (result : BoundedPage A) : Type ℓ where
    pub reason : RefusalReason
    pub received : ℕ
    pub is_refused : result ≡ refused reason received
    pub over : budget < received

  ceiling_bounds :
      (size : Option PageNumber) (n : ℕ)
      → 1 ≤ n
      → (1 ≤ clamp_ceiling size n) × (clamp_ceiling size n ≤ n)
  ceiling_bounds none n h = (h, omega arith)
  ceiling_bounds (some (whole k)) n h = (ground arith, ground arith)
  ceiling_bounds (some negative) n h = (ground arith, ground arith)
  ceiling_bounds (some not_finite) n h = (ground arith, ground arith)

  -- Every answer of the page math is a page of at least one of the items from the offset on,
  -- within the budget, its count the ceiling or one that cannot grow, with the offset after its
  -- last item as its continuation, or none where that is the end; or the empty page past the end,
  -- within the budget; or a refusal of an envelope that is over the budget.
  pub bounded_page_cases :
      IsPart (bounded_page bytes budget items requested_offset requested_size)
      ⊎ (IsEnd (bounded_page bytes budget items requested_offset requested_size)
          ⊎ IsRefusal (bounded_page bytes budget items requested_offset requested_size))
  unfolding bounded_page
  bounded_page_cases = elim (Bool-cases (leb available 0)) [
    | inl past ↦
        rw (past, bounded_page)
          (elim (Bool-cases (leb (bytes []) budget)) [
            | inl small ↦ rw small (
                inr (inl (record { past = ground arith; is_empty = refl; bounded = ground arith })))
            | inr large ↦ rw large (
                inr (
                  inr (record {
                    reason = empty_envelope_over_budget;
                    received = bytes [];
                    is_refused = refl;
                    over = ground arith;
                  })))
          ])
    | inr more ↦
        rw (more, bounded_page)
          (elim (Bool-cases (fits bytes budget items start 1)) [
            | inl first ↦
                let (positive, under) = ceiling_bounds requested_size available (ground arith) in
                let c =
                  count_of-IsCount bytes budget items start (clamp_ceiling requested_size available)
                    positive first in
                rw first (
                  inl (record {
                    count =
                        count_of bytes budget items start (clamp_ceiling requested_size available);
                    counted = c;
                    continuation = _;
                    is_page = refl;
                    bounded = ground (arith, c.within);
                    some_item = c.some_item;
                    continued = continuation-Continues _ (omega (arith, c.under, under));
                  }))
            | inr too_large ↦ rw too_large (elim (Bool-cases (leb (bytes []) budget)) [
              | inl small ↦ rw small (
                  inr (
                    inr (record {
                      reason = single_item_over_budget;
                      received = bytes (slice bytes budget items start 1);
                      is_refused = refl;
                      over = ground arith;
                    })))
              | inr large ↦ rw large (
                  inr (
                    inr (record {
                      reason = empty_envelope_over_budget;
                      received = bytes [];
                      is_refused = refl;
                      over = ground arith;
                    })))
            ])
          ])
  ]
