-- ===== src/Revocation/Complete.antt =====
-- After the pass nothing of the old session is left on any surface.
use astroix.Base.{
  false, List, [], ◌∷◌, ◌≡◌, All, All-remove, remove-survivors, Memᴰ, subst, str_eq, refl, remove,
}
use astroix.Base.Dict.{survivors}
use astroix.Session.{same_session}
use astroix.Hosts.{HostGrants, project, revoke_host, capability_key}
use astroix.Bindings.{HttpBindings, unbind}
use astroix.Streams.{
  SseHub, LiveStream, same_host, is_bound_at, end_for_host, end_for_session, end_for_binding,
}
use astroix.Clients
use astroix.Grants
use astroix.Grants.{belongs_to}
use astroix.Revocation.{
  RevocationSurfaces, RevocationStep, streams, routes, edit_grants, client_bindings,
  host_capability, RevokeOldAuthorityInput, end_streams, run_step, plan, run_plan,
  revoke_old_authority,
}

-- Each surface, empty of the old session.
abbrev pub NoStream : RevokeOldAuthorityInput → SseHub → Type 0
NoStream input hub =
    All (λ (l : LiveStream). str_eq l.stream.client_capability input.client_capability ≡ false)
      hub.live
    × All (λ (l : LiveStream). same_host l.stream.host (project input.host) ≡ false) hub.live
    × All (λ (l : LiveStream). is_bound_at l.stream.session input.session ≡ false) hub.live

abbrev pub NoGrant : RevokeOldAuthorityInput → Grants.Table → Type 0
NoGrant input table = All (λ e. belongs_to input.session e.1 ≡ false) table

abbrev pub NoClient : RevokeOldAuthorityInput → Clients.Live → Type 0
NoClient input live = All (λ e. same_session e.1.session_ref input.session ≡ false) live

abbrev pub NoBinding : RevokeOldAuthorityInput → HttpBindings → Type 0
NoBinding input live = All (λ e. str_eq e.0 input.client_capability ≡ false) live

abbrev pub NoCapability : RevokeOldAuthorityInput → HostGrants → Type 0
NoCapability input hosts = All (λ e. str_eq e.0 (capability_key (project input.host)) ≡ false) hosts

-- Which surfaces the pass has emptied when the steps that are left begin.
abbrev pub Emptied : RevokeOldAuthorityInput → RevocationStep → RevocationSurfaces → Type 0
Emptied input streams s = NoStream input s.streams
Emptied input routes s = Unit {0}
Emptied input edit_grants s = NoGrant input s.grants
Emptied input client_bindings s = NoClient input s.clients × NoBinding input s.http_bindings
Emptied input host_capability s = NoCapability input s.host_capabilities

-- What the pass asks of the others: they give nothing to the session that is revoked.
pub record Abstains (input : RevokeOldAuthorityInput)
    (others : RevocationStep → RevocationSurfaces → RevocationSurfaces) : Type 0 where
  pub keeps :
      (before emptied : RevocationStep) (s : RevocationSurfaces)
      → Emptied input emptied s
      → Emptied input emptied (others before s)

end_streams_empty :
    (input : RevokeOldAuthorityInput) (hub : SseHub) → NoStream input (end_streams input hub).1
unfolding end_streams end_for_binding end_for_host end_for_session
end_streams_empty input hub =
    let P = λ (l : LiveStream). str_eq l.stream.client_capability input.client_capability in
    let Q = λ (l : LiveStream). same_host l.stream.host (project input.host) in
    let R = λ (l : LiveStream). is_bound_at l.stream.session input.session in
    let one = remove P hub.live in
    let two = remove Q one in
    (
      All-remove _ R two (All-remove _ Q one (remove-survivors P hub.live)),
      All-remove _ R two (remove-survivors Q one),
      remove-survivors R two,
    )

-- A step empties its own surface, and fills none.
run_step_empties :
    (input : RevokeOldAuthorityInput) (step : RevocationStep) (s : RevocationSurfaces)
    → Emptied input step (run_step input step s).0
unfolding run_step Grants.revoke_session Clients.revoke_session unbind revoke_host
run_step_empties input streams s = end_streams_empty input s.streams
run_step_empties input routes s = tt
run_step_empties input edit_grants s = survivors _ s.grants
run_step_empties input client_bindings s = (survivors _ s.clients, survivors _ s.http_bindings)
run_step_empties input host_capability s = survivors _ s.host_capabilities

run_step_keeps :
    (input : RevokeOldAuthorityInput) (step emptied : RevocationStep) (s : RevocationSurfaces)
    → Emptied input emptied s
    → Emptied input emptied (run_step input step s).0
unfolding run_step
run_step_keeps input streams streams s v = run_step_empties input streams s
run_step_keeps input streams routes s v = v
run_step_keeps input streams edit_grants s v = v
run_step_keeps input streams client_bindings s v = v
run_step_keeps input streams host_capability s v = v
run_step_keeps input routes streams s v = v
run_step_keeps input routes routes s v = v
run_step_keeps input routes edit_grants s v = v
run_step_keeps input routes client_bindings s v = v
run_step_keeps input routes host_capability s v = v
run_step_keeps input edit_grants streams s v = v
run_step_keeps input edit_grants routes s v = v
run_step_keeps input edit_grants edit_grants s v = run_step_empties input edit_grants s
run_step_keeps input edit_grants client_bindings s v = v
run_step_keeps input edit_grants host_capability s v = v
run_step_keeps input client_bindings streams s v = v
run_step_keeps input client_bindings routes s v = v
run_step_keeps input client_bindings edit_grants s v = v
run_step_keeps input client_bindings client_bindings s v = run_step_empties input client_bindings s
run_step_keeps input client_bindings host_capability s v = v
run_step_keeps input host_capability streams s v = v
run_step_keeps input host_capability routes s v = v
run_step_keeps input host_capability edit_grants s v = v
run_step_keeps input host_capability client_bindings s v = v
run_step_keeps input host_capability host_capability s v = run_step_empties input host_capability s

planned : (step : RevocationStep) → Memᴰ step plan
unfolding plan
planned streams = Memᴰ.head refl
planned routes = Memᴰ.tail (Memᴰ.head refl)
planned edit_grants = Memᴰ.tail (Memᴰ.tail (Memᴰ.head refl))
planned client_bindings = Memᴰ.tail (Memᴰ.tail (Memᴰ.tail (Memᴰ.head refl)))
planned host_capability = Memᴰ.tail (Memᴰ.tail (Memᴰ.tail (Memᴰ.tail (Memᴰ.head refl))))

module _ (others : RevocationStep → RevocationSurfaces → RevocationSurfaces) where
  run_plan_keeps :
      (input : RevokeOldAuthorityInput) (emptied : RevocationStep) (steps : List RevocationStep)
      (s : RevocationSurfaces)
      → Abstains input others
      → Emptied input emptied s
      → Emptied input emptied (run_plan others input steps s).0
  unfolding run_plan
  run_plan_keeps input emptied [] s abstains v = v
  run_plan_keeps input emptied (step ∷ steps) s abstains v =
      run_plan_keeps input emptied steps _ abstains
        (run_step_keeps input step emptied (others step s) (abstains.keeps step emptied s v))

  run_plan_empties :
      (input : RevokeOldAuthorityInput) (emptied : RevocationStep) (steps : List RevocationStep)
      (s : RevocationSurfaces)
      → Abstains input others
      → Memᴰ emptied steps
      → Emptied input emptied (run_plan others input steps s).0
  unfolding run_plan
  run_plan_empties input emptied [] s abstains m = elim m [ ]
  run_plan_empties input emptied (step ∷ steps) s abstains (Memᴰ.head same) =
      run_plan_keeps input emptied steps _ abstains (
        subst (λ x. Emptied input emptied (run_step input x (others step s)).0) same
          (run_step_empties input emptied (others step s)))
  run_plan_empties input emptied (step ∷ steps) s abstains (Memᴰ.tail m) =
      run_plan_empties input emptied steps _ abstains m

  -- If others give the outgoing session nothing between the steps, then after the ordered
  -- revocation no stream is of its client capability, of its host or of the session, no edit grant
  -- and no client binding of the supervisor is of the session, the HTTP table binds nothing under
  -- its client capability, and its host has no capability.
  pub revoke_old_authority-empties :
      (input : RevokeOldAuthorityInput) (s : RevocationSurfaces)
      → Abstains input others
      → (step : RevocationStep) → Emptied input step (revoke_old_authority others input s).0
  unfolding revoke_old_authority plan
  revoke_old_authority-empties input s abstains step =
      run_plan_empties input step plan s abstains (planned step)
