-- ===== src/Switch/Certified.antt =====
-- What a receipt certifies, and when one is spent.
use astroix.Base.{ℕ, String, true, Option, none, some, ◌≡◌, inl, inr, refl, arith, All, Bool-cases}
use astroix.DrainReport.{DrainReport, DrainOperationOutcome}
use astroix.Fence.{FenceState, drained}
use astroix.Fence.Steps
use astroix.Fence.Invariant.{Reach-IsSound}
use astroix.Fence.Verdict.{drained_success}
use astroix.Receipts.{
  ReceiptBindings, PreparationResult, ReceiptLedger, live_receipt, transition_key, mint_receipt,
  mint_unless,
}
use astroix.Switch.{
  ControlPlane, SwitchPreparationInput, Preparation, prepared, PreparationRefusal, bindings_for,
  tail_of, mint_for, is_drained, normal_tail, client_is_authoritative, refuse_preparation,
  is_well_formed, unless_refused, prepare_normal,
}

-- What stands behind a receipt that was minted after a drain.
pub record IsCertified (digest : String → String) (input : SwitchPreparationInput)
    (before after : ControlPlane) : Type 0 where
  pub drained_fence : (after.fences input.fence).state ≡ drained
  pub written :
      All
        (λ op. op.reported ≡ some DrainOperationOutcome.success)
        (after.fences input.fence).accepted
  pub authoritative : client_is_authoritative digest input before ≡ true
  pub well_formed : is_well_formed input.target input.stop_old_run ≡ true
  pub only :
      (preparation : PreparationResult)
      → live_receipt (transition_key (bindings_for input preparation)) after.ledger.live ≡ none

is_drained_eq : (state : FenceState) → is_drained state ≡ true → state ≡ drained
is_drained_eq drained e = refl
is_drained_eq FenceState.opened e = cc
is_drained_eq FenceState.draining e = cc
is_drained_eq FenceState.failed e = cc
is_drained_eq FenceState.timed_out e = cc
is_drained_eq FenceState.terminal_after_timeout e = cc

mint_unless_prepared :
    (old : Option ℕ) (b : ReceiptBindings) (ledger : ReceiptLedger) (receipt : ℕ)
    → tail_of (mint_unless old b ledger).1 ≡ prepared receipt
    → old ≡ none
mint_unless_prepared none b ledger receipt e = refl
mint_unless_prepared (some r) b ledger receipt e = cc

normal_tail_prepared :
    (report : DrainReport) (input : SwitchPreparationInput) (c : ControlPlane) (receipt : ℕ)
    → (normal_tail report input c).1 ≡ prepared receipt
    → ((c.fences input.fence).state ≡ drained)
      × ((preparation : PreparationResult)
          → live_receipt (transition_key (bindings_for input preparation)) c.ledger.live ≡ none)
unfolding mint_for mint_receipt
normal_tail_prepared (DrainReport.timed_out settled pending failure reason) input c receipt e = cc
normal_tail_prepared (DrainReport.failed cause first settled failure reason) input c receipt e = cc
normal_tail_prepared (DrainReport.drained settled) input c receipt e =
    elim (Bool-cases (is_drained (c.fences input.fence).state)) [
      | inl at ↦ (
        is_drained_eq (c.fences input.fence).state at,
        λ preparation. mint_unless_prepared _ _ c.ledger receipt (rw at at e),
      )
      | inr other ↦ cc (rw other at e)
    ]

module _ (digest : String → String) where
  unless_refused_prepared :
      (reason : Option PreparationRefusal) (c : ControlPlane) (go : ControlPlane × Preparation)
      (receipt : ℕ)
      → (unless_refused digest reason c go).1 ≡ prepared receipt
      → (reason ≡ none) × (go.1 ≡ prepared receipt)
  unless_refused_prepared none c go receipt e = (refl, e)
  unless_refused_prepared (some r) c go receipt e = cc

  refuse_none :
      (input : SwitchPreparationInput) (c : ControlPlane)
      → refuse_preparation digest input c ≡ none
      → (client_is_authoritative digest input c ≡ true)
        × (is_well_formed input.target input.stop_old_run ≡ true)
  unfolding refuse_preparation
  refuse_none input c e = ground (arith, e)

  -- A receipt of a normal preparation is minted only over a fence that is drained, every accepted
  -- edit of which was a success, for a client that both tables knew as the editor of the outgoing
  -- session when the preparation began, with a stop of the outgoing run if there is no successor,
  -- and where no live receipt binds the same transition.
  pub prepare_normal_certifies :
      (input : SwitchPreparationInput) (report : DrainReport) (before after : ControlPlane)
      (receipt : ℕ)
      → Steps.Reach (after.fences input.fence)
      → (prepare_normal digest input report before after).1 ≡ prepared receipt
      → IsCertified digest input before after
  unfolding prepare_normal
  prepare_normal_certifies input report before after receipt r e =
      let (admitted, go) =
        unless_refused_prepared (refuse_preparation digest input before) after _ receipt e in
      let (editor, formed) = refuse_none input before admitted in
      let (at, only) = normal_tail_prepared report input after receipt go in
      record {
        drained_fence = at;
        written = (drained_success (after.fences input.fence) (Reach-IsSound r) at).0;
        authoritative = editor;
        well_formed = formed;
        only = only;
      }
