-- ===== src/Switch/Spent.antt =====
-- A commit spends its receipt and revokes before it grants, or it changes nothing.
use astroix.Base.{
  ℕ, String, Bool, true, false, Option, none, some, ◌≡◌, ◌⊎◌, inl, inr, refl, ap, arith, get_elem?,
  Bool-cases,
}
use astroix.Session.{SessionRef, same_session_iff}
use astroix.Receipts.{
  SwitchTarget, replacement, deactivation, ReceiptBindings, ReceiptLedger, ReceiptLookup, valid,
  lookup, lookup_entry, consume, consume_entry, LedgerEntry,
}
use astroix.Revocation.{RevocationStep, RevocationReport, revoke_old_authority}
use astroix.Revocation.Complete.{Emptied, Abstains, revoke_old_authority-empties}
use astroix.Switch.{ControlPlane, surfaces_of, with_surfaces}
use astroix.Switch.Commit.{
  fence_still_certified, ReceiptRejection, SpentTransition, spent, CommittedTransition,
  revocation_of, Meanwhile, linearize, spend_guarded, spend_found, spend_receipt, guard_target,
  grant, commit_switch,
}

-- The state that the revocation leaves, with its report.
abbrev pub revoked_of : Meanwhile → ReceiptBindings → ControlPlane → ReceiptLedger → ControlPlane
revoked_of m b c ledger =
    with_surfaces (revoke_old_authority m.others (revocation_of b m.lease) (surfaces_of c)).0
      (record c { ledger = ledger })

abbrev pub report_of_pass : Meanwhile → ReceiptBindings → ControlPlane → RevocationReport
report_of_pass m b c = (revoke_old_authority m.others (revocation_of b m.lease) (surfaces_of c)).1

pub record IsSpent (guard : ReceiptBindings → Option ReceiptRejection) (m : Meanwhile) (receipt : ℕ)
    (c : ControlPlane) (b : ReceiptBindings) : Type 0 where
  pub held : lookup receipt c.ledger ≡ valid b
  pub guarded : guard b ≡ none
  pub certified : fence_still_certified b.preparation (c.fences b.fence).state ≡ true
  pub flipped : (consume receipt c.ledger).1 ≡ true
  pub passed :
      spend_receipt guard m receipt c
      ≡ (m.between (revoked_of m b c (consume receipt c.ledger).0), spent b (report_of_pass m b c))
  pub emptied :
      (step : RevocationStep)
      → Emptied
          (revocation_of b m.lease)
          step
          (surfaces_of (revoked_of m b c (consume receipt c.ledger).0))

-- A receipt that is looked up as valid can be spent.
valid_consumes :
    (found : Option LedgerEntry) (receipt : ℕ) (ledger : ReceiptLedger) (b : ReceiptBindings)
    → lookup_entry found ≡ valid b
    → (consume_entry found receipt ledger).1 ≡ true
valid_consumes none receipt ledger b e = cc
valid_consumes (some entry) receipt ledger b e = ground (arith, e)

valid_consume :
    (receipt : ℕ) (ledger : ReceiptLedger) (b : ReceiptBindings)
    → lookup receipt ledger ≡ valid b
    → (consume receipt ledger).1 ≡ true
unfolding lookup consume
valid_consume receipt ledger b e =
    valid_consumes (get_elem? ledger.entries receipt) receipt ledger b e

linearize_spent :
    (m : Meanwhile) (b : ReceiptBindings) (c : ControlPlane) (o : ReceiptLedger × Bool)
    → o.1 ≡ true
    → linearize m b c o ≡ (m.between (revoked_of m b c o.0), spent b (report_of_pass m b c))
linearize_spent m b c (ledger, true) e = refl
linearize_spent m b c (ledger, false) e = cc

spend_guarded_cases :
    (outcome : Option ReceiptRejection) (m : Meanwhile) (receipt : ℕ) (b : ReceiptBindings)
    (c : ControlPlane)
    → lookup receipt c.ledger ≡ valid b
    → ((reason : ReceiptRejection) × (spend_guarded outcome m receipt b c
          ≡ (c, SpentTransition.rejected reason)))
      ⊎ ((outcome ≡ none)
          × (fence_still_certified b.preparation (c.fences b.fence).state ≡ true)
          × (spend_guarded outcome m receipt b c ≡ (
            m.between (revoked_of m b c (consume receipt c.ledger).0),
            spent b (report_of_pass m b c),
          )))
spend_guarded_cases (some reason) m receipt b c held = inl (reason, refl)
spend_guarded_cases none m receipt b c held =
    elim (Bool-cases (fence_still_certified b.preparation (c.fences b.fence).state)) [
      | inl at ↦ inr (
        refl,
        at,
        rw at (
            linearize_spent m b c (consume receipt c.ledger)
              (valid_consume receipt c.ledger b held)),
      )
      | inr left ↦ inl (ReceiptRejection.fence_resumed, rw left refl)
    ]

spend_found_cases :
    (found : ReceiptLookup) (guard : ReceiptBindings → Option ReceiptRejection) (m : Meanwhile)
    (receipt : ℕ) (c : ControlPlane)
    → lookup receipt c.ledger ≡ found
    → ((reason : ReceiptRejection) × (spend_found found guard m receipt c
          ≡ (c, SpentTransition.rejected reason)))
      ⊎ ((b : ReceiptBindings) × (found ≡ valid b)
          × (guard b ≡ none)
          × (fence_still_certified b.preparation (c.fences b.fence).state ≡ true)
          × (spend_found found guard m receipt c ≡ (
            m.between (revoked_of m b c (consume receipt c.ledger).0),
            spent b (report_of_pass m b c),
          )))
spend_found_cases ReceiptLookup.unknown_receipt guard m receipt c at =
    inl (ReceiptRejection.unknown_receipt, refl)
spend_found_cases ReceiptLookup.already_consumed guard m receipt c at =
    inl (ReceiptRejection.already_consumed, refl)
spend_found_cases (valid b) guard m receipt c at =
    elim (spend_guarded_cases (guard b) m receipt b c at) [
      | inl refused ↦ inl refused
      | inr (free, certified, e) ↦ inr (b, refl, free, certified, e)
    ]

spend_receipt_cases :
    (guard : ReceiptBindings → Option ReceiptRejection) (m : Meanwhile) (receipt : ℕ)
    (c : ControlPlane)
    → ((b : ReceiptBindings)
        → lookup receipt c.ledger ≡ valid b
        → Abstains (revocation_of b m.lease) m.others)
    → ((reason : ReceiptRejection) × (spend_receipt guard m receipt c
          ≡ (c, SpentTransition.rejected reason)))
      ⊎ ((b : ReceiptBindings) × IsSpent guard m receipt c b)
unfolding spend_receipt
spend_receipt_cases guard m receipt c abstains =
    elim (spend_found_cases (lookup receipt c.ledger) guard m receipt c refl) [
      | inl refused ↦ inl refused
      | inr (b, held, free, certified, e) ↦ inr (
        b,
        record {
          held = held;
          guarded = free;
          certified = certified;
          flipped = valid_consume receipt c.ledger b held;
          passed = e;
          emptied =
              revoke_old_authority-empties m.others (revocation_of b m.lease) (surfaces_of c)
                (abstains b held);
        },
      )
    ]

guard_bound :
    (target : SwitchTarget) (ref : SessionRef)
    → guard_target target ref ≡ none
    → target ≡ replacement ref
guard_bound deactivation ref e = cc
guard_bound (replacement bound) ref e =
    ap replacement ((same_session_iff bound ref).0 (ground (arith, e)))

-- Where others give nothing to the outgoing session meanwhile, a commit of a switch either is
-- rejected and changes nothing, or its receipt was valid, bound that candidate and was certified
-- by its fence, is spent, and the candidate is granted only after every surface was emptied of
-- what the receipt binds.
pub commit_switch_cases :
    (m : Meanwhile) (receipt g : ℕ) (ref : SessionRef) (capability : String) (c : ControlPlane)
    → ((b : ReceiptBindings)
        → lookup receipt c.ledger ≡ valid b
        → Abstains (revocation_of b m.lease) m.others)
    → ((reason : ReceiptRejection) × (commit_switch m receipt g ref capability c
          ≡ (c, CommittedTransition.rejected reason)))
      ⊎ ((b : ReceiptBindings) × IsSpent (λ d. guard_target d.target ref) m receipt c b
          × (b.target ≡ replacement ref)
          × (commit_switch m receipt g ref capability c
              ≡ grant g capability
                  (report_of_pass m b c)
                  ((m.between (revoked_of m b c (consume receipt c.ledger).0)).sessions.attempts g)
                  (m.between (revoked_of m b c (consume receipt c.ledger).0))))
unfolding commit_switch
commit_switch_cases m receipt g ref capability c abstains =
    elim (spend_receipt_cases (λ d. guard_target d.target ref) m receipt c abstains) [
      | inl (reason, e) ↦ inl (reason, rw e refl)
      | inr (b, v) ↦ inr (b, v, guard_bound b.target ref v.guarded, rw (v.passed) refl)
    ]
