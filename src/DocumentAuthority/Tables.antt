-- ===== src/DocumentAuthority/Tables.antt =====
-- Maps that are projections of one list: what a put, a deletion and a count do to them.
use astroix.Base.{
  String, Bool, false, ◌||◌, List, [], ◌∷◌, ◌++◌, map, ◌≡◌, refl, ap, str_eq, remove, count, All,
  Bool-cases, inl, inr, eq_refl, remove-survivors,
}
use astroix.Base.Dict.{put, drop_where, count_if, Misses}

-- Entries of one list that another list projects to.
module _ {ℓ κ} {A : Type ℓ} {V : Type κ} (f : A → String × V) where
  pub drop_where-map :
      (p : String → V → Bool) (xs : List A)
      → drop_where p (map f xs) ≡ map f (remove (λ x. p (f x).0 (f x).1) xs)
  unfolding drop_where remove
  drop_where-map p [] = refl
  drop_where-map p (x ∷ xs) = elim (Bool-cases (p (f x).0 (f x).1)) [
    | inl out ↦ rw out (drop_where-map p xs)
    | inr kept ↦ rw kept (ap (λ ys. f x ∷ ys) (drop_where-map p xs))
  ]

  pub count_if-map :
      (p : V → Bool) (xs : List A) → count_if p (map f xs) ≡ count (λ x. p (f x).1) xs
  unfolding count_if count
  count_if-map p [] = refl
  count_if-map p (x ∷ xs) = rw (count_if-map p xs) refl

  pub Misses-map :
      (key : String) (xs : List A)
      → All (λ x. str_eq (f x).0 key ≡ false) xs
      → Misses key (map f xs)
  Misses-map key [] h = tt
  Misses-map key (x ∷ xs) h = (h.0, Misses-map key xs h.1)

module _ {κ} {V : Type κ} where
  pub put-fresh :
      (m : List (String × V)) (key : String) (v : V)
      → Misses key m
      → put m key v ≡ m ++ ((key, v) ∷ [])
  unfolding put
  put-fresh [] key v h = refl
  put-fresh ((j, w) ∷ m) key v h = rw h.0 (ap (λ ys. (j, w) ∷ ys) (put-fresh m key v h.1))

  pub delete-fresh :
      (m : List (String × V)) (key : String) (v : V)
      → Misses key m
      → drop_where (λ j _. str_eq j key) (m ++ ((key, v) ∷ [])) ≡ m
  unfolding drop_where
  delete-fresh [] key v h = rw (eq_refl key) refl
  delete-fresh ((j, w) ∷ m) key v h = rw h.0 (ap (λ ys. (j, w) ∷ ys) (delete-fresh m key v h.1))

  -- A deletion after a deletion is one deletion.
  pub drop_where-fuse :
      (p q : String → V → Bool) (m : List (String × V))
      → drop_where p (drop_where q m) ≡ drop_where (λ j w. q j w || p j w) m
  unfolding drop_where
  drop_where-fuse p q [] = refl
  drop_where-fuse p q ((j, w) ∷ m) = elim (Bool-cases (q j w)) [
    | inl out ↦ rw out (drop_where-fuse p q m)
    | inr kept ↦ elim (Bool-cases (p j w)) [
      | inl out ↦ rw kept (rw out (drop_where-fuse p q m))
      | inr stays ↦ rw kept (rw stays (ap (λ ys. (j, w) ∷ ys) (drop_where-fuse p q m)))
    ]
  ]

  pub drop_where-none : (m : List (String × V)) → drop_where (λ j w. false) m ≡ m
  unfolding drop_where
  drop_where-none [] = refl
  drop_where-none ((j, w) ∷ m) = ap (λ ys. (j, w) ∷ ys) (drop_where-none m)

pub map-append {ℓ κ} :
    {A : Type ℓ} {B : Type κ} (f : A → B) (xs ys : List A) → map f (xs ++ ys) ≡ map f xs ++ map f ys
map-append f [] ys = refl
map-append f (x ∷ xs) ys = ap (λ zs. f x ∷ zs) (map-append f xs ys)

pub map-same {ℓ} : {A : Type ℓ} (xs : List A) → map (λ x. x) xs ≡ xs
map-same [] = refl
map-same (x ∷ xs) = ap (λ zs. x ∷ zs) (map-same xs)

-- Tests that agree on a list remove the same.
pub remove-cong {ℓ} :
    {A : Type ℓ} (p q : A → Bool) (xs : List A)
    → All (λ x. p x ≡ q x) xs
    → remove p xs ≡ remove q xs
unfolding remove
remove-cong p q [] h = refl
remove-cong p q (x ∷ xs) h = rw h.0 (rw (remove-cong p q xs h.1) refl)

pub remove-none {ℓ} :
    {A : Type ℓ} (p : A → Bool) (xs : List A) → All (λ x. p x ≡ false) xs → remove p xs ≡ xs
unfolding remove
remove-none p [] h = refl
remove-none p (x ∷ xs) h = rw h.0 (ap (λ ys. x ∷ ys) (remove-none p xs h.1))

pub remove-twice {ℓ} :
    {A : Type ℓ} (p : A → Bool) (xs : List A) → remove p (remove p xs) ≡ remove p xs
remove-twice p xs = remove-none p (remove p xs) (remove-survivors p xs)

pub count-cong {ℓ} :
    {A : Type ℓ} (p q : A → Bool) (xs : List A) → ((x : A) → p x ≡ q x) → count p xs ≡ count q xs
unfolding count
count-cong p q [] h = refl
count-cong p q (x ∷ xs) h = rw (h x) (rw (count-cong p q xs h) refl)
