-- ===== src/Fence/Keys.antt =====
-- The keys of the ledger, which `pump` leaves alone.
use astroix.Base.{
  ℕ, zero, suc, ◌≡◌, refl, Option, none, some, String, List, [], ◌∷◌, map, arith, get_elem?, drop,
}
use astroix.Fence.{AcceptedEdit, Ledger, advance, update_at, start, launch, pump}

-- The keys of the ledger, in admission order.
abbrev pub keys : List AcceptedEdit → List String
keys = map (λ op. op.key)

pub keys-update_at :
    (i : ℕ) (g : AcceptedEdit → AcceptedEdit) (ops : List AcceptedEdit)
    → ((op : AcceptedEdit) → (g op).key ≡ op.key)
    → keys (update_at i g ops) ≡ keys ops
unfolding update_at
keys-update_at i g [] same = refl
keys-update_at zero g (op ∷ ops) same = rw (same op)
keys-update_at (suc i) g (op ∷ ops) same = rw (keys-update_at i g ops same)

pub keys-launch :
    (o : Option AcceptedEdit) (c : ℕ) (l : Ledger) → keys (launch o c l).accepted ≡ keys l.accepted
keys-launch none c l = refl
keys-launch (some op) c l = keys-update_at c start l.accepted (λ op. refl)

pub keys-pump : (l : Ledger) → keys (pump l).accepted ≡ keys l.accepted
unfolding pump
keys-pump l =
    let c = advance (drop l.cursor l.accepted) l.cursor in
    ground (arith, keys-launch (get_elem? l.accepted c) c l)
