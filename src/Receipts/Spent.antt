-- ===== src/Receipts/Spent.antt =====
-- A receipt is spent once, and a transition has at most one live receipt.
use astroix.Base.{
  ℕ, zero, suc, true, false, Option, none, some, List, [], ◌∷◌, ◌++◌, ◌≡◌, refl, sym, ap, arith,
  get_elem?, inl, inr, Bool-cases, ◌∙◌,
}
use astroix.Receipts.{
  ReceiptBindings, TransitionKey, transition_key, LedgerEntry, ReceiptLedger, create_receipt_ledger,
  live_receipt, mint_unless, mint_receipt, spend_at, consume_entry, consume, lookup, lookup_entry,
  already_consumed,
}
use astroix.Receipts.Ledger.{IsLedger, some_inj, mint_unless-IsLedger, consume_entry-IsLedger}

pub data Call : Type 0 where
  mints : ReceiptBindings → Call
  consumes : ℕ → Call

unfoldable pub call : ReceiptLedger → Call → ReceiptLedger
call ledger (mints b) = (mint_receipt b ledger).0
call ledger (consumes receipt) = (consume receipt ledger).0

unfoldable pub run : ReceiptLedger → List Call → ReceiptLedger
run ledger [] = ledger
run ledger (c ∷ cs) = run (call ledger c) cs

pub call-IsLedger : (ledger : ReceiptLedger) (c : Call) → IsLedger ledger → IsLedger (call ledger c)
unfolding call mint_receipt consume
call-IsLedger ledger (mints b) v = mint_unless-IsLedger _ b ledger refl v
call-IsLedger ledger (consumes receipt) v = consume_entry-IsLedger _ receipt ledger refl v

pub run-IsLedger :
    (ledger : ReceiptLedger) (cs : List Call) → IsLedger ledger → IsLedger (run ledger cs)
unfolding run
run-IsLedger ledger [] v = v
run-IsLedger ledger (c ∷ cs) v = run-IsLedger (call ledger c) cs (call-IsLedger ledger c v)

pub created-IsLedger : IsLedger create_receipt_ledger
unfolding create_receipt_ledger
created-IsLedger = record { found = λ i e h fresh. cc }

-- After any calls of the ledger two receipts that were not consumed and bind the same transition
-- are one receipt.
pub one_live_receipt :
    (cs : List Call) (i j : ℕ) (a b : LedgerEntry)
    → get_elem? (run create_receipt_ledger cs).entries i ≡ some a
    → get_elem? (run create_receipt_ledger cs).entries j ≡ some b
    → a.consumed ≡ false
    → b.consumed ≡ false
    → transition_key a.bindings ≡ transition_key b.bindings
    → i ≡ j
one_live_receipt cs i j a b p q unspent unspent' same =
    let v = run-IsLedger create_receipt_ledger cs created-IsLedger in
    some_inj i j (
      sym (v.found i a p unspent)
      ∙ (ap (λ (x : TransitionKey). live_receipt x (run create_receipt_ledger cs).live) same
          ∙ v.found j b q unspent'))

-- A spent receipt stays spent.
abbrev pub Spent : ℕ → List LedgerEntry → Type 0
Spent i entries = (e : LedgerEntry) × (get_elem? entries i ≡ some e) × (e.consumed ≡ true)

append-Spent :
    (i : ℕ) (entries : List LedgerEntry) (new : LedgerEntry)
    → Spent i entries
    → Spent i (entries ++ (new ∷ []))
append-Spent i [] new (e, h, spent) = cc
append-Spent zero (d ∷ entries) new v = v
append-Spent (suc i) (d ∷ entries) new v = append-Spent i entries new v

spend_at-Spent :
    (i k : ℕ) (entries : List LedgerEntry) → Spent i entries → Spent i (spend_at k entries)
unfolding spend_at
spend_at-Spent i k [] v = v
spend_at-Spent zero zero (d ∷ entries) (e, h, spent) = (record d { consumed = true }, refl, refl)
spend_at-Spent zero (suc k) (d ∷ entries) v = v
spend_at-Spent (suc i) zero (d ∷ entries) v = v
spend_at-Spent (suc i) (suc k) (d ∷ entries) v = spend_at-Spent i k entries v

spend_at_own :
    (i : ℕ) (entries : List LedgerEntry) (d : LedgerEntry)
    → get_elem? entries i ≡ some d
    → Spent i (spend_at i entries)
unfolding spend_at
spend_at_own i [] d h = cc
spend_at_own zero (c ∷ entries) d h = (record c { consumed = true }, refl, refl)
spend_at_own (suc i) (c ∷ entries) d h = spend_at_own i entries d h

mint_unless-Spent :
    (old : Option ℕ) (b : ReceiptBindings) (i : ℕ) (ledger : ReceiptLedger)
    → Spent i ledger.entries
    → Spent i (mint_unless old b ledger).0.entries
mint_unless-Spent (some receipt) b i ledger v = v
mint_unless-Spent none b i ledger v = append-Spent i ledger.entries _ v

consume_entry-Spent :
    (found : Option LedgerEntry) (receipt i : ℕ) (ledger : ReceiptLedger)
    → Spent i ledger.entries
    → Spent i (consume_entry found receipt ledger).0.entries
consume_entry-Spent none receipt i ledger v = v
consume_entry-Spent (some d) receipt i ledger v = elim (Bool-cases d.consumed) [
  | inl spent ↦ rw spent v
  | inr fresh ↦ rw fresh (spend_at-Spent i receipt ledger.entries v)
]

run-Spent :
    (i : ℕ) (ledger : ReceiptLedger) (cs : List Call)
    → Spent i ledger.entries
    → Spent i (run ledger cs).entries
unfolding run call mint_receipt consume
run-Spent i ledger [] v = v
run-Spent i ledger (mints b ∷ cs) v =
    run-Spent i (mint_receipt b ledger).0 cs (mint_unless-Spent _ b i ledger v)
run-Spent i ledger (consumes receipt ∷ cs) v =
    run-Spent i (consume receipt ledger).0 cs (consume_entry-Spent _ receipt i ledger v)

consume_entry-true :
    (found : Option LedgerEntry) (i : ℕ) (ledger : ReceiptLedger)
    → get_elem? ledger.entries i ≡ found
    → (consume_entry found i ledger).1 ≡ true
    → Spent i (consume_entry found i ledger).0.entries
consume_entry-true none i ledger at e = cc
consume_entry-true (some d) i ledger at e = elim (Bool-cases d.consumed) [
  | inl spent ↦ cc (rw spent at e)
  | inr fresh ↦ rw fresh (spend_at_own i ledger.entries d at)
]

spent_refuses :
    (receipt : ℕ) (found : Option LedgerEntry) (ledger : ReceiptLedger) (e : LedgerEntry)
    → found ≡ some e
    → e.consumed ≡ true
    → ((consume_entry found receipt ledger).1 ≡ false) × (lookup_entry found ≡ already_consumed)
spent_refuses receipt none ledger e h spent = cc
spent_refuses receipt (some d) ledger e h spent =
    let own : d.consumed ≡ true = ground (arith, h, spent) in rw own (refl, refl)

-- Once a receipt was consumed, it can never be consumed again, and it is looked up as already
-- consumed, whatever the ledger did meanwhile.
pub spent_once :
    (receipt : ℕ) (ledger : ReceiptLedger) (cs : List Call)
    → (consume receipt ledger).1 ≡ true
    → ((consume receipt (run (consume receipt ledger).0 cs)).1 ≡ false)
      × (lookup receipt (run (consume receipt ledger).0 cs) ≡ already_consumed)
unfolding consume lookup
spent_once receipt ledger cs e =
    let (d, held, spent) =
      run-Spent receipt (consume receipt ledger).0 cs
        (consume_entry-true _ receipt ledger refl e) in
    spent_refuses receipt _ (run (consume receipt ledger).0 cs) d held spent
