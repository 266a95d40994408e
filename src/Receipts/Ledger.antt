-- ===== src/Receipts/Ledger.antt =====
-- The live receipts of a ledger are those that were not consumed.
use astroix.Base.{
  ℕ, zero, suc, true, false, Option, none, some, List, [], ◌∷◌, ◌++◌, ◌≡◌, ◌≢◌, ◌↔◌, refl, sym, ap,
  subst, arith, ◌==◌, ==_iff, get_elem?, length, remove, inl, inr, Bool-cases, ◌∙◌, ◌⊎◌,
  if◌then◌else◌,
}
use astroix.Session.{same_session_iff}
use astroix.Receipts.{
  SwitchTarget, replacement, deactivation, ReceiptBindings, TransitionKey, transition_key,
  same_target, same_transition, LedgerEntry, ReceiptLedger, live_receipt, mint_unless, spend_at,
  consume_entry,
}

same_target_iff : (a b : SwitchTarget) → (same_target a b ≡ true) ↔ (a ≡ b)
same_target_iff (replacement a) (replacement b) =
    ((λ e. ap replacement ((same_session_iff a b).0 e)), λ e. (same_session_iff a b).1 (cc e))
same_target_iff (replacement a) deactivation = ((λ e. cc), λ e. cc)
same_target_iff deactivation (replacement b) = ((λ e. cc), λ e. cc)
same_target_iff deactivation deactivation = ((λ e. refl), λ e. refl)

same_transition_iff : (a b : TransitionKey) → (same_transition a b ≡ true) ↔ (a ≡ b)
unfolding same_transition
same_transition_iff a b =
    ground (arith, same_session_iff a.old_session b.old_session, same_target_iff a.target b.target)

-- The entries and the live receipts after each operation.
get_elem?-spend_at :
    (i k : ℕ) (entries : List LedgerEntry) (e : LedgerEntry)
    → get_elem? (spend_at i entries) k ≡ some e
    → (d : LedgerEntry) × (get_elem? entries k ≡ some d)
      × (d.bindings ≡ e.bindings)
      × (e.consumed ≡ (if k == i then true else d.consumed))
unfolding spend_at
get_elem?-spend_at i k [] e h = cc
get_elem?-spend_at zero zero (d ∷ entries) e h = (d, refl, ground (arith, h), ground (arith, h))
get_elem?-spend_at zero (suc k) (d ∷ entries) e h = (e, h, refl, ground arith)
get_elem?-spend_at (suc i) zero (d ∷ entries) e h = (d, refl, ground (arith, h), ground (arith, h))
get_elem?-spend_at (suc i) (suc k) (d ∷ entries) e h =
    let (c, there, same, spent) = get_elem?-spend_at i k entries e h in
    (c, there, same, ground (arith, spent))

get_elem?-append :
    (entries : List LedgerEntry) (new : LedgerEntry) (k : ℕ) (e : LedgerEntry)
    → get_elem? (entries ++ (new ∷ [])) k ≡ some e
    → (get_elem? entries k ≡ some e) ⊎ ((k ≡ length entries) × (new ≡ e))
get_elem?-append [] new zero e h = inr (refl, ground (arith, h))
get_elem?-append [] new (suc k) e h = cc
get_elem?-append (d ∷ entries) new zero e h = inl h
get_elem?-append (d ∷ entries) new (suc k) e h = elim (get_elem?-append entries new k e h) [
  | inl there ↦ inl there
  | inr (at, is) ↦ inr (ap suc at, is)
]

live_receipt-append :
    (live : List (TransitionKey × ℕ)) (key asked : TransitionKey) (receipt : ℕ)
    → live_receipt asked (live ++ ((key, receipt) ∷ []))
      ≡ (elim (live_receipt asked live) as (λ o. Option ℕ) [
        | some found ↦ some found
        | none ↦ if same_transition key asked then some receipt else none
      ])
unfolding live_receipt
live_receipt-append [] key asked receipt = refl
live_receipt-append ((other, r) ∷ live) key asked receipt =
    elim (Bool-cases (same_transition other asked)) [
      | inl own ↦ rw own refl
      | inr apart ↦ rw apart (live_receipt-append live key asked receipt)
    ]

live_receipt-remove :
    (live : List (TransitionKey × ℕ)) (key asked : TransitionKey)
    → key ≢ asked
    → live_receipt asked (remove (λ l. same_transition l.0 key) live) ≡ live_receipt asked live
unfolding live_receipt remove
live_receipt-remove [] key asked apart = refl
live_receipt-remove ((other, r) ∷ live) key asked apart = ground (
  arith,
  live_receipt-remove live key asked apart,
  same_transition_iff other key,
  same_transition_iff other asked,
)

live_receipt_new :
    (live : List (TransitionKey × ℕ)) (key : TransitionKey) (receipt : ℕ)
    → live_receipt key live ≡ none
    → live_receipt key (live ++ ((key, receipt) ∷ [])) ≡ some receipt
live_receipt_new live key receipt fresh =
    let now = live_receipt-append live key key receipt in
    ground (arith, fresh, now, (same_transition_iff key key).1 refl)

-- The live receipts are those that were not consumed, each found under its transition.
pub record IsLedger (ledger : ReceiptLedger) : Type 0 where
  pub found :
      (i : ℕ) (e : LedgerEntry)
      → get_elem? ledger.entries i ≡ some e
      → e.consumed ≡ false
      → live_receipt (transition_key e.bindings) ledger.live ≡ some i

pub mint_unless-IsLedger :
    (old : Option ℕ) (b : ReceiptBindings) (ledger : ReceiptLedger)
    → live_receipt (transition_key b) ledger.live ≡ old
    → IsLedger ledger
    → IsLedger (mint_unless old b ledger).0
mint_unless-IsLedger (some receipt) b ledger at v = v
mint_unless-IsLedger none b ledger at v = record {
  found = λ i e h fresh. elim (get_elem?-append ledger.entries _ i e h) [
    | inl there ↦
        let held = v.found i e there fresh in
        let now =
          live_receipt-append ledger.live (transition_key b) (transition_key e.bindings)
            (length ledger.entries) in
        ground (arith, held, now)
    | inr (last, is) ↦
        subst
          (λ (d : LedgerEntry).
            live_receipt (transition_key d.bindings)
              (ledger.live ++ ((transition_key b, length ledger.entries) ∷ []))
            ≡ some i)
          is
          (live_receipt_new ledger.live (transition_key b) (length ledger.entries) at
            ∙ ap some (sym last))
  ];
}

pub some_inj : (a b : ℕ) → some a ≡ some b → a ≡ b
some_inj a b e = cc e

pub consume_entry-IsLedger :
    (found : Option LedgerEntry) (receipt : ℕ) (ledger : ReceiptLedger)
    → get_elem? ledger.entries receipt ≡ found
    → IsLedger ledger
    → IsLedger (consume_entry found receipt ledger).0
consume_entry-IsLedger none receipt ledger at v = v
consume_entry-IsLedger (some d) receipt ledger at v = elim (Bool-cases d.consumed) [
  | inl spent ↦ rw spent v
  | inr fresh ↦ rw fresh (record {
    found = λ i e h unspent.
        let (c, there, same, flag) = get_elem?-spend_at receipt i ledger.entries e h in
        let other : i ≢ receipt = λ e. cc (flag, unspent, (==_iff i receipt).1 e) in
        let unspent_before : c.consumed ≡ false = ground (arith, flag, unspent, other) in
        let held = v.found i c there unspent_before in
        let spent = v.found receipt d at fresh in
        let apart : transition_key d.bindings ≢ transition_key e.bindings = λ k. other (
          some_inj i receipt (
            sym held
            ∙ (ap (λ (x : TransitionKey). live_receipt x ledger.live)
                  (ap transition_key same ∙ sym k)
                ∙ spent))) in
        live_receipt-remove ledger.live (transition_key d.bindings) (transition_key e.bindings)
          apart
        ∙ (ap (λ (x : ReceiptBindings). live_receipt (transition_key x) ledger.live) (sym same)
            ∙ held);
  })
]
