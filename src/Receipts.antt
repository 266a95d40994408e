-- ===== src/Receipts.antt =====
-- packages/runtime/session-supervisor/commit/switch-receipt.ts: the ledger of one-use receipts.
--
-- A receipt is known by its identity, the number of receipts that were minted before it; an object
-- that the ledger never minted has no entry. The text of a transition's identity is the JSON of its
-- parts, so the parts stand for it. A fence and an origin lease are named by numbers.
pub mod Ledger
pub mod Spent
use astroix.Base.{
  ℕ, zero, suc, String, Bool, true, false, ◌&&◌, Option, none, some, List, [], ◌∷◌, ◌++◌,
  if◌then◌else◌, ◌==◌, get_elem?, length, remove,
}
use astroix.Session.{SessionRef, same_session}
use astroix.Clients.{ClientDocument}
use astroix.DrainReport.{DrainReport}

pub data SwitchTarget : Type 0 where
  replacement : (candidate : SessionRef) → SwitchTarget
  deactivation : SwitchTarget

pub record ExecutorExitView : Type 0 where
  pub code : Option ℕ
  pub signal : Option String

pub data PreparationResult : Type 0 where
  normal : (report : DrainReport) → PreparationResult
  forced : (exit : ExecutorExitView) → PreparationResult

pub record AuthoritativeClient : Type 0 where
  pub document : ClientDocument
  pub capability : String
  pub http_capability : String

pub record ReceiptBindings : Type 0 where
  pub old_session : SessionRef
  pub target : SwitchTarget
  pub client : AuthoritativeClient
  pub fence : ℕ
  pub preparation : PreparationResult
  pub host : String
  pub routes : ℕ
  pub stop_old_run : Bool

-- The identity of a transition.
pub record TransitionKey : Type 0 where
  pub old_session : SessionRef
  pub target : SwitchTarget

abbrev pub transition_key : ReceiptBindings → TransitionKey
transition_key b = record { old_session = b.old_session; target = b.target }

abbrev pub same_target : SwitchTarget → SwitchTarget → Bool
same_target (replacement a) (replacement b) = same_session a b
same_target deactivation deactivation = true
same_target _ _ = false

unfoldable pub same_transition : TransitionKey → TransitionKey → Bool
same_transition a b = same_session a.old_session b.old_session && same_target a.target b.target

pub record LedgerEntry : Type 0 where
  pub bindings : ReceiptBindings
  pub consumed : Bool

pub record ReceiptLedger : Type 0 where
  pub live : List (TransitionKey × ℕ)
  pub entries : List LedgerEntry

unfoldable pub create_receipt_ledger : ReceiptLedger
create_receipt_ledger = record { live = []; entries = [] }

pub data ReceiptLookup : Type 0 where
  valid : ReceiptBindings → ReceiptLookup
  unknown_receipt already_consumed : ReceiptLookup

pub data MintResult : Type 0 where
  minted : (receipt : ℕ) → MintResult
  transition_already_prepared : MintResult

unfoldable pub live_receipt : TransitionKey → List (TransitionKey × ℕ) → Option ℕ
live_receipt key [] = none
live_receipt key ((other, receipt) ∷ live) =
    if same_transition other key then some receipt else live_receipt key live

abbrev pub mint_unless : Option ℕ → ReceiptBindings → ReceiptLedger → ReceiptLedger × MintResult
mint_unless (some receipt) b ledger = (ledger, transition_already_prepared)
mint_unless none b ledger = (
  record {
    live = ledger.live ++ ((transition_key b, length ledger.entries) ∷ []);
    entries = ledger.entries ++ (record { bindings = b; consumed = false } ∷ []);
  },
  minted (length ledger.entries),
)

unfoldable pub mint_receipt : ReceiptBindings → ReceiptLedger → ReceiptLedger × MintResult
mint_receipt b ledger = mint_unless (live_receipt (transition_key b) ledger.live) b ledger

abbrev pub lookup_entry : Option LedgerEntry → ReceiptLookup
lookup_entry none = unknown_receipt
lookup_entry (some entry) = if entry.consumed then already_consumed else valid entry.bindings

unfoldable pub lookup : ℕ → ReceiptLedger → ReceiptLookup
lookup receipt ledger = lookup_entry (get_elem? ledger.entries receipt)

unfoldable pub spend_at : ℕ → List LedgerEntry → List LedgerEntry
spend_at i [] = []
spend_at zero (entry ∷ entries) = record entry { consumed = true } ∷ entries
spend_at (suc i) (entry ∷ entries) = entry ∷ spend_at i entries

abbrev pub consume_entry : Option LedgerEntry → ℕ → ReceiptLedger → ReceiptLedger × Bool
consume_entry none receipt ledger = (ledger, false)
consume_entry (some entry) receipt ledger = if entry.consumed then (ledger, false) else (
  record {
    live = remove (λ l. same_transition l.0 (transition_key entry.bindings)) ledger.live;
    entries = spend_at receipt ledger.entries;
  },
  true,
)

unfoldable pub consume : ℕ → ReceiptLedger → ReceiptLedger × Bool
consume receipt ledger = consume_entry (get_elem? ledger.entries receipt) receipt ledger
