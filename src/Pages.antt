-- ===== src/Pages.antt =====
-- packages/runtime/api/pagination/page-contract.ts: pages of a collection whose envelopes stay within
-- a byte budget.
--
-- `bytes` is the size of the envelope of a page, `envelopeBytes(envelopeFor(page))`. A number of the
-- program is a whole number, a negative one or one that is not finite; fractions are not modelled.
pub mod Search
pub mod Bounds
pub mod Tests
use astroix.Base.{
  ℕ, zero, suc, ◌+◌, ◌-◌, ◌/◌, Bool, true, false, not, Option, none, some, List, [], ◌∷◌, ltb, leb,
  ◌==◌, if◌then◌else◌, length, take, drop,
}

pub data PageNumber : Type 0 where
  whole : ℕ → PageNumber
  negative not_finite : PageNumber

pub data RefusalReason : Type 0 where
  empty_envelope_over_budget single_item_over_budget : RefusalReason

pub data BoundedPage {ℓ} (A : Type ℓ) : Type ℓ where
  page_of : (items : List A) (page_bytes : ℕ) (continuation : Option ℕ) → BoundedPage A
  refused : RefusalReason → (received_bytes : ℕ) → BoundedPage A

abbrev pub clamp_offset : PageNumber → ℕ
clamp_offset (whole n) = n
clamp_offset _ = 0

abbrev pub min : ℕ → ℕ → ℕ
min a b = if leb a b then a else b

abbrev pub clamp_ceiling : Option PageNumber → ℕ → ℕ
clamp_ceiling none available = available
clamp_ceiling (some (whole n)) available = min (if leb 1 n then n else 1) available
clamp_ceiling (some _) available = min 1 available

module _ {ℓ} {A : Type ℓ} (bytes : List A → ℕ) (budget : ℕ) (items : List A) (offset : ℕ) where
  abbrev pub slice : ℕ → List A
  slice count = take count (drop offset items)

  abbrev pub fits : ℕ → Bool
  fits count = leb (bytes (slice count)) budget

  -- The loop of the binary search.
  unfoldable pub bisect : ℕ → ℕ → ℕ → ℕ
  bisect zero lo hi = lo
  bisect (suc fuel) lo hi =
      let mid = lo + (hi - lo) / 2 in
      let upper = bisect fuel mid hi in
      let lower = bisect fuel lo mid in
      if ltb 1 (hi - lo) then (if fits mid then upper else lower) else lo

  unfoldable pub largest_fitting_count : ℕ → ℕ
  largest_fitting_count ceiling = if fits ceiling then ceiling else bisect (ceiling - 1) 1 ceiling

  abbrev pub page : ℕ → BoundedPage A
  page count =
      page_of (slice count) (bytes (slice count))
        (if ltb (offset + count) (length items) then some (offset + count) else none)

  abbrev pub empty_page : BoundedPage A
  empty_page =
      if not (leb (bytes []) budget)
      then refused empty_envelope_over_budget (bytes [])
      else page_of [] (bytes []) none

  abbrev pub refused_first : BoundedPage A
  refused_first =
      if not (leb (bytes []) budget)
      then refused empty_envelope_over_budget (bytes [])
      else refused single_item_over_budget (bytes (slice 1))

  abbrev pub count_of : ℕ → ℕ
  count_of ceiling = if ceiling == 1 then 1 else largest_fitting_count ceiling

unfoldable pub bounded_page {ℓ} :
    {A : Type ℓ} → (List A → ℕ) → ℕ → List A → PageNumber → Option PageNumber → BoundedPage A
bounded_page bytes budget items requested_offset requested_size =
    let offset = clamp_offset requested_offset in
    let available = length items - offset in
    if leb available 0
    then empty_page bytes budget items offset
    else if not (fits bytes budget items offset 1)
    then refused_first bytes budget items offset
    else page bytes budget items offset
        (count_of bytes budget items offset (clamp_ceiling requested_size available))
