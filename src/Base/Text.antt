-- ===== src/Base/Text.antt =====
-- Texts as lists of code points, where the program looks into them.
use Prim.Native.Char.{code}
use Prim.Native.Nat.{ℕ}
use Prim.Native.String.{String}
use mathlib.Core.Bool.{Bool, true, false, ◌&&◌, ◌||◌}
use mathlib.Core.List.{List, [], ◌∷◌}
use astroix.Base.Tests.{◌==◌, if◌then◌else◌}

abbrev pub units : String → List ℕ
units String.[] = []
units (String.◌∷◌ c text) = code c ∷ units text

abbrev pub same_units : List ℕ → List ℕ → Bool
same_units [] [] = true
same_units (a ∷ xs) (b ∷ ys) = a == b && same_units xs ys
same_units _ _ = false

abbrev pub has_prefix : List ℕ → List ℕ → Bool
has_prefix [] text = true
has_prefix (a ∷ xs) (b ∷ ys) = a == b && has_prefix xs ys
has_prefix (a ∷ xs) [] = false

-- `String.prototype.includes`.
abbrev pub includes : List ℕ → List ℕ → Bool
includes part [] = has_prefix part []
includes part (b ∷ ys) = has_prefix part (b ∷ ys) || includes part ys

abbrev push_unit : ℕ → List (List ℕ) → List (List ℕ)
push_unit u [] = (u ∷ []) ∷ []
push_unit u (part ∷ parts) = (u ∷ part) ∷ parts

-- `String.prototype.split` at one unit.
abbrev pub split : ℕ → List ℕ → List (List ℕ)
split at [] = [] ∷ []
split at (u ∷ text) = let later = split at text in if u == at then [] ∷ later else push_unit u later
