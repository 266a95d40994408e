-- ===== src/Base/Dict.antt =====
-- A JavaScript `Map` with text keys, as the list of its entries in insertion order: `set` of a key
-- that is there replaces its value in place, and a deletion during the iteration is a filter.
use Prim.Native.String.{String}
use mathlib.Core.Path.{◌≡◌, refl, sym, subst, subst₂}
use mathlib.Core.Bool.{Bool, false}
use mathlib.Core.Option.{Option, none, some}
use mathlib.Core.List.{List, [], ◌∷◌}
use native.Mathlib.Omega.{arith}
use text.Mathlib.Text.{◌==◌ as str_eq}
use text.Mathlib.TextEquality.{eq_iff}
use text.Mathlib.TextPositions.{eq_refl}
use Prim.Native.Nat.{ℕ, suc, ◌+◌, ◌≤◌}
use astroix.Base.Tests.{if◌then◌else◌, Bool-cases}
use astroix.Base.Lists.{All}
use mathlib.Core.Logic.{inl, inr}

module _ {ℓ} {V : Type ℓ} where
  -- The value of an entry if it has the key.
  abbrev pub hit : Bool → V → Option V → Option V
  hit found here later = if found then some here else later

  unfoldable pub get : List (String × V) → String → Option V
  get [] key = none
  get ((name, here) ∷ later) key = hit (str_eq name key) here (get later key)

  unfoldable pub put : List (String × V) → String → V → List (String × V)
  put [] key new = (key, new) ∷ []
  put ((name, here) ∷ later) key new =
      let kept = (name, here) ∷ put later key new in
      if str_eq name key then (name, new) ∷ later else kept

  -- Deletes each entry whose key and value pass the test.
  unfoldable pub drop_where : (String → V → Bool) → List (String × V) → List (String × V)
  drop_where p [] = []
  drop_where p ((j, w) ∷ m) = if p j w then drop_where p m else (j, w) ∷ drop_where p m

  abbrev pub delete : String → List (String × V) → List (String × V)
  delete k = drop_where (λ j _. str_eq j k)

  pub get-put :
      (table : List (String × V)) (key : String) (new : V) (asked : String)
      → get (put table key new) asked ≡ hit (str_eq key asked) new (get table asked)
  unfolding get put
  get-put [] key new asked = refl
  get-put ((name, here) ∷ later) key new asked =
      ground
        (arith, get-put later key new asked, eq_iff name asked, eq_iff name key, eq_iff key asked)

  -- The keys of a map are distinct.
  abbrev pub Misses : String → List (String × V) → Type 0
  Misses k [] = Unit
  Misses k ((j, _) ∷ m) = (str_eq j k ≡ false) × Misses k m

  abbrev pub HasDistinctKeys : List (String × V) → Type 0
  HasDistinctKeys [] = Unit
  HasDistinctKeys ((j, _) ∷ m) = Misses j m × HasDistinctKeys m

  pub get_of_Misses : (k : String) (m : List (String × V)) → Misses k m → get m k ≡ none
  unfolding get
  get_of_Misses k [] h = refl
  get_of_Misses k ((j, w) ∷ m) h = ground (arith, get_of_Misses k m)

  Misses-drop_where :
      (k : String) (p : String → V → Bool) (m : List (String × V))
      → Misses k m
      → Misses k (drop_where p m)
  unfolding drop_where
  Misses-drop_where k p [] h = tt
  Misses-drop_where k p ((j, w) ∷ m) h = ground (arith, Misses-drop_where k p m h.1)

  pub drop_where-HasDistinctKeys :
      (p : String → V → Bool) (m : List (String × V))
      → HasDistinctKeys m
      → HasDistinctKeys (drop_where p m)
  unfolding drop_where
  drop_where-HasDistinctKeys p [] h = tt
  drop_where-HasDistinctKeys p ((j, w) ∷ m) h =
      ground (arith, drop_where-HasDistinctKeys p m h.1, Misses-drop_where j p m h.0)

  Misses-put :
      (k j : String) (v : V) (m : List (String × V))
      → str_eq k j ≡ false
      → Misses j m
      → Misses j (put m k v)
  unfolding put
  Misses-put k j v [] e h = (e, tt)
  Misses-put k j v ((i, w) ∷ m) e h = ground (arith, Misses-put k j v m e h.1)

  pub put-HasDistinctKeys :
      (k : String) (v : V) (m : List (String × V)) → HasDistinctKeys m → HasDistinctKeys (put m k v)
  unfolding put
  put-HasDistinctKeys k v [] h = (tt, tt)
  put-HasDistinctKeys k v ((i, w) ∷ m) h =
      ground (arith, eq_iff i k, eq_iff k i, put-HasDistinctKeys k v m h.1, Misses-put k i v m)

  -- What a get finds after a deletion, in a map of distinct keys.
  abbrev pub keep : (V → Bool) → Option V → Option V
  keep p none = none
  keep p (some v) = if p v then none else some v

  pub get-drop_where :
      (k : String) (p : String → V → Bool) (m : List (String × V))
      → HasDistinctKeys m
      → get (drop_where p m) k ≡ keep (p k) (get m k)
  unfolding get drop_where
  get-drop_where k p [] h = refl
  get-drop_where k p ((j, w) ∷ m) h = elim (Bool-cases (str_eq j k)) [
    | inl same ↦
        let e = (eq_iff j k).0 same in
        ground (arith, e, eq_refl k, get-drop_where k p m h.1, get_of_Misses j m h.0)
    | inr other ↦ ground (arith, get-drop_where k p m h.1)
  ]

  -- How many values pass a test.
  unfoldable pub count_if : (V → Bool) → List (String × V) → ℕ
  count_if p [] = 0
  count_if p ((j, w) ∷ m) = if p w then suc (count_if p m) else count_if p m

  pub count_if-drop_where :
      (p : V → Bool) (q : String → V → Bool) (m : List (String × V))
      → count_if p (drop_where q m) ≤ count_if p m
  unfolding count_if drop_where
  count_if-drop_where p q [] = omega arith
  count_if-drop_where p q ((j, w) ∷ m) = ground (arith, count_if-drop_where p q m)

  pub count_if-put :
      (p : V → Bool) (k : String) (v : V) (m : List (String × V))
      → count_if p (put m k v) ≤ count_if p m + (if p v then 1 else 0)
  unfolding count_if put
  count_if-put p k v [] = ground arith
  count_if-put p k v ((j, w) ∷ m) = ground (arith, count_if-put p k v m)

  module _ {κ} (P : String × V → Type κ) where
    pub All-drop_where :
        (q : String → V → Bool) (m : List (String × V)) → All P m → All P (drop_where q m)
    unfolding drop_where
    All-drop_where q [] h = tt
    All-drop_where q ((j, w) ∷ m) h = ground (arith, All-drop_where q m h.1)

  -- What is left after a deletion fails its test.
  pub survivors :
      (q : String → V → Bool) (m : List (String × V))
      → All (λ e. q e.0 e.1 ≡ false) (drop_where q m)
  unfolding drop_where
  survivors q [] = tt
  survivors q ((j, w) ∷ m) = ground (arith, survivors q m)

  module _ {κ} (P : String × V → Type κ) where
    -- What a get finds is an entry under that key.
    pub get-All :
        (m : List (String × V)) (k : String) (v : V) → All P m → get m k ≡ some v → P (k, v)
    unfolding get
    get-All [] k v h e = cc
    get-All ((j, w) ∷ m) k v h e = elim (Bool-cases (str_eq j k)) [
      | inl same ↦
          let found : w ≡ v = ground arith in
          subst₂ (λ a b. P (a, b)) ((eq_iff j k).0 same) found h.0
      | inr other ↦ get-All m k v h.1 (ground arith)
    ]

    pub All-put :
        (m : List (String × V)) (k : String) (v : V) → All P m → P (k, v) → All P (put m k v)
    unfolding put
    All-put [] k v h new = (new, tt)
    All-put ((j, w) ∷ m) k v h new = elim (Bool-cases (str_eq j k)) [
      | inl same ↦ rw same (subst (λ a. P (a, v)) (sym ((eq_iff j k).0 same)) new, h.1)
      | inr other ↦ rw other (h.0, All-put m k v h.1 new)
    ]
