-- ===== src/Fence/Order.antt =====
-- The order of the queue: terminal edits first, in admission order, then at most one edit in
-- flight, then queued ones.
use astroix.Base.{
  ℕ, zero, suc, ◌+◌, ◌-◌, ◌≤◌, ◌<◌, ◌≡◌, ◌≢◌, refl, ap, Bool, true, false, none, some, String, List,
  [], ◌∷◌, ◌++◌, map, arith, length, get_elem?, drop, All, All-append,
}
use astroix.DrainReport.{DrainOperationOutcome}
use astroix.Fence.{
  AcceptedEdit, queued, in_flight, terminal, advance, update_at, start, finish, admitted,
}

abbrev pub IsQueued : AcceptedEdit → Type 0
IsQueued op = (op.phase ≡ queued) × (op.reported ≡ none)

abbrev pub IsFlying : AcceptedEdit → Type 0
IsFlying op = (op.phase ≡ in_flight) × (op.reported ≡ none)

abbrev pub IsDone : AcceptedEdit → Type 0
IsDone op = (op.phase ≡ terminal) × ((o : DrainOperationOutcome) × (op.reported ≡ some o))

-- `t` terminal edits, then queued ones.
abbrev pub Gap : ℕ → List AcceptedEdit → Type 0
Gap zero ops = All IsQueued ops
Gap (suc t) [] = ⊥
Gap (suc t) (op ∷ ops) = IsDone op × Gap t ops

-- The same with one edit in flight between them.
abbrev pub Busy : ℕ → List AcceptedEdit → Type 0
Busy t [] = ⊥
Busy zero (op ∷ ops) = IsFlying op × All IsQueued ops
Busy (suc t) (op ∷ ops) = IsDone op × Busy t ops

abbrev pub Serial : Bool → ℕ → List AcceptedEdit → Type 0
Serial true t ops = Busy t ops
Serial false t ops = Gap t ops × (t ≡ length ops)

pub length-update_at :
    (i : ℕ) (g : AcceptedEdit → AcceptedEdit) (ops : List AcceptedEdit)
    → length (update_at i g ops) ≡ length ops
unfolding update_at
length-update_at i g [] = refl
length-update_at zero g (op ∷ ops) = refl
length-update_at (suc i) g (op ∷ ops) = ap suc (length-update_at i g ops)

pub length-admitted : (keys : List String) → length (map admitted keys) ≡ length keys
length-admitted [] = refl
length-admitted (k ∷ keys) = ap suc (length-admitted keys)

pub admitted-IsQueued : (keys : List String) → All IsQueued (map admitted keys)
admitted-IsQueued [] = tt
admitted-IsQueued (k ∷ keys) = ((refl, refl), admitted-IsQueued keys)

pub Gap-append :
    (t : ℕ) (ops ys : List AcceptedEdit) → Gap t ops → All IsQueued ys → Gap t (ops ++ ys)
Gap-append zero ops ys h k = All-append IsQueued ops ys (h, k)
Gap-append (suc t) [] ys h k = absurd h
Gap-append (suc t) (op ∷ ops) ys h k = (h.0, Gap-append t ops ys h.1 k)

pub Busy-append :
    (t : ℕ) (ops ys : List AcceptedEdit) → Busy t ops → All IsQueued ys → Busy t (ops ++ ys)
Busy-append t [] ys h k = absurd h
Busy-append zero (op ∷ ops) ys h k = (h.0, All-append IsQueued ops ys (h.1, k))
Busy-append (suc t) (op ∷ ops) ys h k = (h.0, Busy-append t ops ys h.1 k)

pub Busy-lt : (t : ℕ) (ops : List AcceptedEdit) → Busy t ops → t < length ops
Busy-lt t [] h = absurd h
Busy-lt zero (op ∷ ops) h = omega arith
Busy-lt (suc t) (op ∷ ops) h = omega (arith, Busy-lt t ops h.1)

pub Gap-le : (t : ℕ) (ops : List AcceptedEdit) → Gap t ops → t ≤ length ops
Gap-le zero ops h = omega arith
Gap-le (suc t) [] h = absurd h
Gap-le (suc t) (op ∷ ops) h = omega (arith, Gap-le t ops h.1)

pub Gap-not_in_flight :
    (t i : ℕ) (ops : List AcceptedEdit) (op : AcceptedEdit)
    → Gap t ops
    → get_elem? ops i ≡ some op
    → op.phase ≢ in_flight
Gap-not_in_flight t i [] op h e p = cc
Gap-not_in_flight zero zero (x ∷ ops) op h e p = ground arith
Gap-not_in_flight zero (suc i) (x ∷ ops) op h e p = Gap-not_in_flight zero i ops op h.1 e p
Gap-not_in_flight (suc t) zero (x ∷ ops) op h e p = ground arith
Gap-not_in_flight (suc t) (suc i) (x ∷ ops) op h e p = Gap-not_in_flight t i ops op h.1 e p

-- The edit in flight is the one after the terminal edits, so a settlement is its own.
pub Busy-index :
    (t i : ℕ) (ops : List AcceptedEdit) (op : AcceptedEdit)
    → Busy t ops
    → get_elem? ops i ≡ some op
    → op.phase ≡ in_flight
    → i ≡ t
Busy-index t i [] op h e p = absurd h
Busy-index zero zero (x ∷ ops) op h e p = refl
Busy-index zero (suc i) (x ∷ ops) op h e p = absurd (Gap-not_in_flight 0 i ops op h.1 e p)
Busy-index (suc t) zero (x ∷ ops) op h e p = ground arith
Busy-index (suc t) (suc i) (x ∷ ops) op h e p = ap suc (Busy-index t i ops op h.1 e p)

pub Busy-flying :
    (t : ℕ) (ops : List AcceptedEdit)
    → Busy t ops
    → (op : AcceptedEdit) × (get_elem? ops t ≡ some op) × (op.phase ≡ in_flight)
Busy-flying t [] h = absurd h
Busy-flying zero (op ∷ ops) h = (op, refl, h.0.0)
Busy-flying (suc t) (op ∷ ops) h = Busy-flying t ops h.1

-- The settled edit joins the terminal ones.
pub Busy-finish :
    (t : ℕ) (o : DrainOperationOutcome) (ops : List AcceptedEdit)
    → Busy t ops
    → Gap (suc t) (update_at t (finish o) ops)
unfolding update_at
Busy-finish t o [] h = absurd h
Busy-finish zero o (op ∷ ops) h = ((refl, (o, refl)), h.1)
Busy-finish (suc t) o (op ∷ ops) h = (h.0, Busy-finish t o ops h.1)

-- The loop of `pump` stops behind the terminal edits.
pub advance-Gap : (t n : ℕ) (ops : List AcceptedEdit) → Gap t ops → advance ops n ≡ n + t
unfolding advance
advance-Gap zero n [] h = omega arith
advance-Gap zero n (op ∷ ops) h = ground arith
advance-Gap (suc t) n [] h = absurd h
advance-Gap (suc t) n (op ∷ ops) h = ground (arith, advance-Gap t (suc n) ops h.1)

pub Gap-drop : (t c : ℕ) (ops : List AcceptedEdit) → Gap t ops → c ≤ t → Gap (t - c) (drop c ops)
Gap-drop t zero ops h le = let e : t - 0 ≡ t = omega arith in rw e h
Gap-drop zero (suc c) ops h le = elim le [ ]
Gap-drop (suc t) (suc c) [] h le = absurd h
Gap-drop (suc t) (suc c) (op ∷ ops) h le =
    let e : suc t - suc c ≡ t - c = omega arith in rw e (Gap-drop t c ops h.1 (omega arith))

pub advance_cursor :
    (t c : ℕ) (ops : List AcceptedEdit) → Gap t ops → c ≤ t → advance (drop c ops) c ≡ t
advance_cursor t c ops h le =
    omega (arith, advance-Gap (t - c) c (drop c ops) (Gap-drop t c ops h le))

pub get_elem?-Gap :
    (t : ℕ) (ops : List AcceptedEdit) → Gap t ops → get_elem? ops t ≡ none → t ≡ length ops
get_elem?-Gap zero [] h e = refl
get_elem?-Gap zero (op ∷ ops) h e = cc
get_elem?-Gap (suc t) [] h e = absurd h
get_elem?-Gap (suc t) (op ∷ ops) h e = ap suc (get_elem?-Gap t ops h.1 e)

pub start-Busy :
    (t : ℕ) (ops : List AcceptedEdit) (op : AcceptedEdit)
    → Gap t ops
    → get_elem? ops t ≡ some op
    → Busy t (update_at t start ops)
unfolding update_at
start-Busy zero [] op h e = cc
start-Busy zero (x ∷ ops) op h e = ((refl, h.0.1), h.1)
start-Busy (suc t) [] op h e = absurd h
start-Busy (suc t) (x ∷ ops) op h e = (h.0, start-Busy t ops op h.1 e)

pub Serial-false :
    (b : Bool) (t : ℕ) (ops : List AcceptedEdit) → b ≡ false → Serial b t ops → Gap t ops
Serial-false true t ops e h = cc
Serial-false false t ops e h = h.0

pub Serial-true :
    (b : Bool) (t : ℕ) (ops : List AcceptedEdit) → b ≡ true → Serial b t ops → Busy t ops
Serial-true true t ops e h = h
Serial-true false t ops e h = cc

pub Serial-idle :
    (b : Bool) (t : ℕ) (ops : List AcceptedEdit) → b ≡ false → Serial b t ops → t ≡ length ops
Serial-idle true t ops e h = cc
Serial-idle false t ops e h = h.1
