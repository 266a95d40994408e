-- ===== src/Base/Lists.antt =====
-- Lists measured and indexed by native numbers, and predicates on them by recursion.
use Prim.Native.Nat.{ℕ, zero, suc, ◌+◌, ◌≤◌}
use astroix.Base.Tests.{if◌then◌else◌}
use mathlib.Core.Path.{◌≡◌, subst, sym}
use mathlib.Core.Bool.{Bool, true, false, ◌&&◌, ◌||◌}
use mathlib.Core.List.{List, [], ◌∷◌, ◌++◌, Memᴰ}
use mathlib.Core.Option.{Option, none, some}
use native.Mathlib.Omega.{arith}

module _ {ℓ} {A : Type ℓ} where
  abbrev pub length : List A → ℕ
  length [] = 0
  length (x ∷ xs) = suc (length xs)

  abbrev pub get_elem? : List A → ℕ → Option A
  get_elem? [] i = none
  get_elem? (x ∷ xs) zero = some x
  get_elem? (x ∷ xs) (suc i) = get_elem? xs i

  abbrev pub drop : ℕ → List A → List A
  drop zero xs = xs
  drop (suc n) [] = []
  drop (suc n) (x ∷ xs) = drop n xs

  abbrev pub take : ℕ → List A → List A
  take zero xs = []
  take (suc n) [] = []
  take (suc n) (x ∷ xs) = x ∷ take n xs

  abbrev pub is_empty : List A → Bool
  is_empty [] = true
  is_empty (x ∷ xs) = false

  -- Without the elements that pass a test, and how many pass it.
  unfoldable pub remove : (A → Bool) → List A → List A
  remove p [] = []
  remove p (x ∷ xs) = if p x then remove p xs else x ∷ remove p xs

  unfoldable pub count : (A → Bool) → List A → ℕ
  count p [] = 0
  count p (x ∷ xs) = if p x then suc (count p xs) else count p xs

  pub count-remove : (p q : A → Bool) (xs : List A) → count p (remove q xs) ≤ count p xs
  unfolding count remove
  count-remove p q [] = omega arith
  count-remove p q (x ∷ xs) = ground (arith, count-remove p q xs)

  pub count-append : (p : A → Bool) (xs ys : List A) → count p (xs ++ ys) ≡ count p xs + count p ys
  unfolding count
  count-append p [] ys = omega arith
  count-append p (x ∷ xs) ys = ground (arith, count-append p xs ys)

  pub length-append : (xs ys : List A) → length (xs ++ ys) ≡ length xs + length ys
  length-append [] ys = omega arith
  length-append (x ∷ xs) ys = omega (arith, length-append xs ys)

  -- `Array.prototype.every` and `some`.
  abbrev pub all : (A → Bool) → List A → Bool
  all p [] = true
  all p (x ∷ xs) = p x && all p xs

  abbrev pub any : (A → Bool) → List A → Bool
  any p [] = false
  any p (x ∷ xs) = p x || any p xs

abbrev pub All {ℓ κ} : {A : Type ℓ} → (A → Type κ) → List A → Type κ
All P [] = Unit
All P (x ∷ xs) = P x × All P xs

module _ {ℓ κ} {A : Type ℓ} (P : A → Type κ) where
  pub All-append : (front back : List A) → All P front × All P back → All P (front ++ back)
  All-append [] back (none_, behind) = behind
  All-append (a ∷ front) back ((here, ahead), behind) =
      (here, All-append front back (ahead, behind))

  pub All-Memᴰ : {x : A} (xs : List A) → All P xs → Memᴰ x xs → P x
  All-Memᴰ [] h m = elim m [ ]
  All-Memᴰ (y ∷ ys) h (Memᴰ.head same) = subst P (sym same) h.0
  All-Memᴰ (y ∷ ys) h (Memᴰ.tail m) = All-Memᴰ ys h.1 m

pub All-weaken {ℓ κ κ'} :
    {A : Type ℓ} {P : A → Type κ} {Q : A → Type κ'} (weaken : (x : A) → P x → Q x) (xs : List A)
    → All P xs
    → All Q xs
All-weaken weaken [] h = tt
All-weaken weaken (x ∷ xs) h = (weaken x h.0, All-weaken weaken xs h.1)

pub All-both {ℓ κ κ'} :
    {A : Type ℓ} (P : A → Type κ) (Q : A → Type κ') (xs : List A)
    → All P xs
    → All Q xs
    → All (λ x. P x × Q x) xs
All-both P Q [] h k = tt
All-both P Q (x ∷ xs) h k = ((h.0, k.0), All-both P Q xs h.1 k.1)

-- What was removed is gone, and nothing new comes.
pub remove-survivors {ℓ} :
    {A : Type ℓ} (p : A → Bool) (xs : List A) → All (λ x. p x ≡ false) (remove p xs)
unfolding remove
remove-survivors p [] = tt
remove-survivors p (x ∷ xs) = ground (arith, remove-survivors p xs)

pub All-remove {ℓ κ} :
    {A : Type ℓ} (P : A → Type κ) (p : A → Bool) (xs : List A) → All P xs → All P (remove p xs)
unfolding remove
All-remove P p [] h = tt
All-remove P p (x ∷ xs) h = ground (arith, All-remove P p xs h.1)
