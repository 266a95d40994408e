-- ===== src/Routes/Ranking.antt =====
-- The candidate that the picking takes is one of them, and none ranks before it.
use astroix.Base.{false, List, [], ◌∷◌, ◌≡◌, arith, All, All-weaken, Bool-cases, inl, inr}
use astroix.Routes.{RankedCandidate}
use astroix.Routes.Resolve.{ranks_after, insert, sorted}

module _ {κ} (P : RankedCandidate → Type κ) where
  insert-All :
      (c : RankedCandidate) (cs : List RankedCandidate) → P c → All P cs → All P (insert c cs)
  unfolding insert
  insert-All c [] here h = (here, tt)
  insert-All c (d ∷ ds) here h = elim (Bool-cases (ranks_after c d)) [
    | inl later ↦ rw later (h.0, insert-All c ds here h.1)
    | inr before ↦ rw before (here, h)
  ]

  pub sorted-All : (cs : List RankedCandidate) → All P cs → All P (sorted cs)
  unfolding sorted
  sorted-All [] h = tt
  sorted-All (c ∷ cs) h = insert-All c (sorted cs) h.0 (sorted-All cs h.1)

  All-insert :
      (c : RankedCandidate) (cs : List RankedCandidate) → All P (insert c cs) → P c × All P cs
  unfolding insert
  All-insert c [] h = h
  All-insert c (d ∷ ds) h = elim (Bool-cases (ranks_after c d)) [
    | inl later ↦
        let at : All P (d ∷ insert c ds) = rw later at h in
        let rest = All-insert c ds at.1 in (rest.0, (at.0, rest.1))
    | inr before ↦ let at : All P (c ∷ d ∷ ds) = rw before at h in at
  ]

  pub All-sorted : (cs : List RankedCandidate) → All P (sorted cs) → All P cs
  unfolding sorted
  All-sorted [] h = tt
  All-sorted (c ∷ cs) h = let at = All-insert c (sorted cs) h in (at.0, All-sorted cs at.1)

-- The first of a list ranks after none of it.
abbrev pub HasLeast : List RankedCandidate → Type 0
HasLeast [] = Unit
HasLeast (d ∷ ds) = All (λ x. ranks_after d x ≡ false) (d ∷ ds)

insert-HasLeast :
    (c : RankedCandidate) (cs : List RankedCandidate) → HasLeast cs → HasLeast (insert c cs)
unfolding insert
insert-HasLeast c [] h = (ground arith, tt)
insert-HasLeast c (d ∷ ds) h = elim (Bool-cases (ranks_after c d)) [
  | inl later ↦
      rw later (h.0, insert-All (λ x. ranks_after d x ≡ false) c ds (ground (arith, later)) h.1)
  | inr before ↦
      rw before (ground arith, (before, All-weaken (λ x e. ground (arith, e, before)) ds h.1))
]

pub sorted-HasLeast : (cs : List RankedCandidate) → HasLeast (sorted cs)
unfolding sorted
sorted-HasLeast [] = tt
sorted-HasLeast (c ∷ cs) = insert-HasLeast c (sorted cs) (sorted-HasLeast cs)
