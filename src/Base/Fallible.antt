-- ===== src/Base/Fallible.antt =====
-- Chains of checks that return early: a value, a failure of a closed vocabulary, or an exception
-- that nothing catches.
use mathlib.Core.Path.{◌≡◌, refl}
use mathlib.Core.Bool.{Bool, true, false}
use mathlib.Core.Option.{Option, none, some}

pub data Fallible {ℓ κ} (E : Type ℓ) (A : Type κ) : Type (ℓ ⊔ κ) where
  ok : A → Fallible E A
  failure : E → Fallible E A
  thrown : Fallible E A

infixl 5 ◌>>=◌ ◌>>◌
abbrev pub ◌>>=◌ {ℓ κ ι} :
    {E : Type ℓ} {A : Type κ} {B : Type ι} → Fallible E A → (A → Fallible E B) → Fallible E B
ok a >>= next = next a
failure code >>= next = failure code
thrown >>= next = thrown

abbrev pub ◌>>◌ {ℓ κ} :
    {E : Type ℓ} {B : Type κ} → Fallible E (Unit {0}) → Fallible E B → Fallible E B
first >> later = first >>= λ _. later

abbrev pub require {ℓ} : {E : Type ℓ} → Bool → E → Fallible E (Unit {0})
require true code = ok tt
require false code = failure code

abbrev pub or_failure {ℓ κ} : {E : Type ℓ} {A : Type κ} → Option A → E → Fallible E A
or_failure (some a) code = ok a
or_failure none code = failure code

abbrev pub or_throw {ℓ κ} : {E : Type ℓ} {A : Type κ} → Option A → Fallible E A
or_throw (some a) = ok a
or_throw none = thrown

-- The same outcome under a wider vocabulary of failures.
abbrev pub relabel {ℓ κ ι} :
    {D : Type ℓ} {E : Type κ} {A : Type ι} → (D → E) → Fallible D A → Fallible E A
relabel g (ok a) = ok a
relabel g (failure code) = failure (g code)
relabel g thrown = thrown

-- A chain that succeeds: each of its checks has.
pub bind_ok {ℓ κ ι} :
    {E : Type ℓ} {A : Type κ} {B : Type ι} (m : Fallible E A) (next : A → Fallible E B) (b : B)
    → (m >>= next) ≡ ok b
    → (a : A) × (m ≡ ok a) × (next a ≡ ok b)
bind_ok (ok a) next b e = (a, refl, e)
bind_ok (failure code) next b e = cc
bind_ok thrown next b e = cc

pub relabel_ok {ℓ κ ι} :
    {D : Type ℓ} {E : Type κ} {A : Type ι} (g : D → E) (m : Fallible D A) (a : A)
    → relabel g m ≡ ok a
    → m ≡ ok a
relabel_ok g (ok x) a e = cc
relabel_ok g (failure code) a e = cc
relabel_ok g thrown a e = cc

pub require_ok {ℓ} :
    {E : Type ℓ} (test : Bool) (code : E) (u : Unit {0}) → require test code ≡ ok u → test ≡ true
require_ok true code u e = refl
require_ok false code u e = cc
