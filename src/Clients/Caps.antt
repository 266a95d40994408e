-- ===== src/Clients/Caps.antt =====
-- The caps on the roles hold after any history of the registry's calls.
use astroix.Base.{
  ℕ, ◌≤◌, ◌≡◌, refl, inl, inr, String, Bool, not, none, List, [], ◌∷◌, arith, Option-cases,
}
use astroix.Base.Dict.{put, drop_where, count_if, count_if-drop_where, count_if-put}
use astroix.Session.{SessionRef}
use astroix.Clients.{
  ClientDocument, editor, diagnostic, SessionClientRole, ClientBindingRecord, Live, is_editor,
  editors, diagnostics, capacity, bind, navigated, renderer_lost, revoke_session, revoke,
}

pub data Call : Type 0 where
  binds : String → ClientBindingRecord → Call
  navigates : ClientDocument → Call
  loses : ℕ → Call
  revokes_session : SessionRef → Call
  revokes : String → Call

unfoldable pub call : Live → Call → Live
call live (binds minted input) = (bind minted input live).0
call live (navigates d) = navigated d live
call live (loses id) = renderer_lost id live
call live (revokes_session s) = revoke_session s live
call live (revokes c) = revoke c live

unfoldable pub run : Live → List Call → Live
run live [] = live
run live (c ∷ cs) = run (call live c) cs

pub record IsCapped (live : Live) : Type 0 where
  pub one_editor : editors live ≤ 1
  pub three_diagnostics : diagnostics live ≤ 3

drop_where-IsCapped :
    (q : String → ClientBindingRecord → Bool) (live : Live)
    → IsCapped live
    → IsCapped (drop_where q live)
unfolding editors diagnostics
drop_where-IsCapped q live v = record {
  one_editor = omega (arith, v.one_editor, count_if-drop_where (λ r. is_editor r.role) q live);
  three_diagnostics =
      omega (arith, v.three_diagnostics, count_if-drop_where (λ r. not (is_editor r.role)) q live);
}

put-IsCapped :
    (minted : String) (input : ClientBindingRecord) (role : SessionClientRole) (live : Live)
    → input.role ≡ role
    → capacity role live ≡ none
    → IsCapped live
    → IsCapped (put live minted input)
unfolding editors diagnostics
put-IsCapped minted input editor live e free v =
    let a = count_if-put (λ r. is_editor r.role) minted input live in
    let b = count_if-put (λ r. not (is_editor r.role)) minted input live in ground (arith, a, b)
put-IsCapped minted input diagnostic live e free v =
    let a = count_if-put (λ r. is_editor r.role) minted input live in
    let b = count_if-put (λ r. not (is_editor r.role)) minted input live in ground (arith, a, b)

bind-IsCapped :
    (minted : String) (input : ClientBindingRecord) (live : Live)
    → IsCapped live
    → IsCapped (bind minted input live).0
unfolding bind
bind-IsCapped minted input live v = elim (Option-cases (capacity input.role live)) [
  | inl free ↦ rw (free, bind) (put-IsCapped minted input input.role live refl free v)
  | inr (reason, full) ↦ rw (full, bind) v
]

pub call-IsCapped : (live : Live) (c : Call) → IsCapped live → IsCapped (call live c)
unfolding call navigated renderer_lost revoke_session revoke
call-IsCapped live (binds minted input) v = bind-IsCapped minted input live v
call-IsCapped live (navigates d) v = drop_where-IsCapped _ live v
call-IsCapped live (loses id) v = drop_where-IsCapped _ live v
call-IsCapped live (revokes_session s) v = drop_where-IsCapped _ live v
call-IsCapped live (revokes c) v = drop_where-IsCapped _ live v

run-IsCapped : (live : Live) (cs : List Call) → IsCapped live → IsCapped (run live cs)
unfolding run
run-IsCapped live [] v = v
run-IsCapped live (c ∷ cs) v = run-IsCapped (call live c) cs (call-IsCapped live c v)

-- From the empty registry, no history of calls binds more than one editor or three diagnostics.
pub run_empty-IsCapped : (cs : List Call) → IsCapped (run [] cs)
unfolding editors diagnostics count_if
run_empty-IsCapped cs =
    run-IsCapped [] cs (record { one_editor = omega arith; three_diagnostics = omega arith })
