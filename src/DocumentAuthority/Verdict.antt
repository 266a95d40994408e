-- ===== src/DocumentAuthority/Verdict.antt =====
-- The verdicts of a bind.
use astroix.Base.{String, none, some, ◌≡◌, refl, ap, sym, ◌∙◌, subst, Option-cases, inl, inr}
use astroix.Base.Dict.{Misses}
use astroix.Clients.{
  ClientDocument, ClientBindingRecord, SessionClientRole, editor, diagnostic, Live,
  ClientBindingRefusal, is_editor,
}
use astroix.Clients
use astroix.Bindings.{BindingRefusalReason, over_cap, second_editor, fourth_diagnostic}
use astroix.DocumentAuthority.{
  BindInput, DocumentAuthority, http_role, DocumentAuthorityRefusal, bound, refused, guard,
  http_refusal, client_refusal, refuse_or_bind,
}
use astroix.DocumentAuthority.Lockstep.{IsLockstep, IsFresh}
use astroix.DocumentAuthority.Bind.{
  granted, joined, guarded, http_full, client_full, accepted, http_reason, caps_agree,
  joined-IsLockstep,
}

-- The answers of a bind in lockstep: what it bound, or a state that nothing changed.
pub data Verdict (role : SessionClientRole) (input : BindInput) (minted client_minted : String)
    (s : DocumentAuthority) : Type 0 where
  binds_both :
      guard role input s ≡ none
      → Clients.capacity role s.clients ≡ none
      → refuse_or_bind role input minted client_minted s ≡ (
        joined role input minted client_minted s,
        bound minted (granted role input client_minted),
      )
      → Verdict role input minted client_minted s
  refuses_guard :
      (reason : DocumentAuthorityRefusal)
      → guard role input s ≡ some reason
      → refuse_or_bind role input minted client_minted s ≡ (s, refused reason)
      → Verdict role input minted client_minted s
  refuses_cap :
      (reason : ClientBindingRefusal)
      → guard role input s ≡ none
      → Clients.capacity role s.clients ≡ some reason
      → refuse_or_bind role input minted client_minted s ≡ (s, refused (client_refusal reason))
      → Verdict role input minted client_minted s

http_reason-some :
    (reason : ClientBindingRefusal)
    → (r : BindingRefusalReason) × (http_reason (some reason) ≡ some r)
      × (http_refusal r ≡ client_refusal reason)
http_reason-some ClientBindingRefusal.editor_already_bound = (second_editor, refl, refl)
http_reason-some ClientBindingRefusal.diagnostics_full = (fourth_diagnostic, refl, refl)

-- In lockstep a bind either installs one client in both tables, where the guard lets the document pass
-- and the role has room, or is refused and changes nothing.
pub bind-Verdict :
    (role : SessionClientRole) (input : BindInput) (minted client_minted : String)
    (s : DocumentAuthority)
    → IsLockstep s
    → Verdict role input minted client_minted s
bind-Verdict role input minted client_minted s v = elim (Option-cases (guard role input s)) [
  | inr (reason, e) ↦ refuses_guard reason e (guarded role input minted client_minted s reason e)
  | inl passes ↦ elim (Option-cases (Clients.capacity role s.clients)) [
    | inl room ↦ binds_both passes room (
        accepted role input minted client_minted s passes
          (caps_agree role s v ∙ ap http_reason room) room)
    | inr (reason, full) ↦
        let (r, known, same) = http_reason-some reason in
        refuses_cap reason passes full (
          http_full role input minted client_minted s r passes
            (caps_agree role s v ∙ ap http_reason full ∙ known)
          ∙ ap (λ x. (s, refused x)) same)
  ]
]

Verdict-IsLockstep :
    (role : SessionClientRole) (input : BindInput) (minted client_minted : String)
    (s : DocumentAuthority)
    → IsFresh s minted client_minted
    → Verdict role input minted client_minted s
    → IsLockstep s
    → IsLockstep (refuse_or_bind role input minted client_minted s).0
Verdict-IsLockstep role input minted client_minted s fresh (binds_both passes room e) v =
    subst (λ r. IsLockstep r.0) (sym e)
      (joined-IsLockstep role input minted client_minted s fresh passes v)
Verdict-IsLockstep role input minted client_minted s fresh (refuses_guard reason g e) v =
    subst (λ r. IsLockstep r.0) (sym e) v
Verdict-IsLockstep role input minted client_minted s fresh (refuses_cap reason g full e) v =
    subst (λ r. IsLockstep r.0) (sym e) v

pub refuse_or_bind-IsLockstep :
    (role : SessionClientRole) (input : BindInput) (minted client_minted : String)
    (s : DocumentAuthority)
    → IsFresh s minted client_minted
    → IsLockstep s
    → IsLockstep (refuse_or_bind role input minted client_minted s).0
refuse_or_bind-IsLockstep role input minted client_minted s fresh v =
    Verdict-IsLockstep role input minted client_minted s fresh
      (bind-Verdict role input minted client_minted s v) v

-- Where the minted capability is new to the HTTP table, a bind that is refused changes nothing, also
-- where only the second table refuses.
pub refused_unchanged :
    (role : SessionClientRole) (input : BindInput) (minted client_minted : String)
    (s : DocumentAuthority)
    → Misses minted s.http_bindings
    → (reason : DocumentAuthorityRefusal)
    → (refuse_or_bind role input minted client_minted s).1 ≡ refused reason
    → (refuse_or_bind role input minted client_minted s).0 ≡ s
refused_unchanged role input minted client_minted s fresh reason told =
    elim (Option-cases (guard role input s)) [
      | inr (why, e) ↦ ap (λ r. r.0) (guarded role input minted client_minted s why e)
      | inl passes ↦ elim (Option-cases (over_cap (http_role role) s.http_bindings)) [
        | inr (why, full) ↦
            ap (λ r. r.0) (http_full role input minted client_minted s why passes full)
        | inl free ↦ elim (Option-cases (Clients.capacity role s.clients)) [
          | inr (why, full) ↦
              ap (λ r. r.0)
                (client_full role input minted client_minted s why passes free full fresh)
          | inl room ↦
              let e = accepted role input minted client_minted s passes free room in
              cc (sym (ap (λ r. r.1) e) ∙ told)
        ]
      ]
    ]
