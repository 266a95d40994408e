-- ===== src/Streams/History.antt =====
-- The hub after any calls: the caps on the roles, and the silence of a revoked session.
use astroix.Base.{
  ℕ, ◌≤◌, String, Bool, true, Option, none, some, List, [], ◌∷◌, ◌≡◌, ◌≢◌, refl, arith, any, inl,
  inr, Bool-cases, count, count-remove, count-append, leb, remove, ◌++◌,
}
use astroix.Session.{SessionRef, same_session, same_session_iff}
use astroix.Hosts.{CapabilityHost}
use astroix.Bindings.{ClientRole, editor, same_role}
use astroix.Streams.{
  SseAdmitRefusalReason, SseHub, SseStreamRecord, LiveStream, SsePublication, session_scope, idle,
  EventType, delivered, create_sse_hub, admit, admit_under, stream_cap, count_streams, drop_stream,
  end_for_host, end_for_session, end_for_binding, publish, publish_fitting, is_stale,
  sse_event_bytes,
}

pub data Call : Type 0 where
  admits : SseStreamRecord → Call
  drops : ℕ → Call
  ends_host : CapabilityHost → Call
  ends_session : SessionRef → Call
  ends_binding : String → Call
  publishes : (ℕ → Bool) → SsePublication → Call

module _ (byte_length : SsePublication → ℕ) where
  unfoldable pub call : SseHub → Call → SseHub
  call hub (admits r) = (admit r hub).0
  call hub (drops id) = drop_stream id hub
  call hub (ends_host host) = (end_for_host host hub).1
  call hub (ends_session session) = (end_for_session session hub).1
  call hub (ends_binding capability) = (end_for_binding capability hub).1
  call hub (publishes dead publication) = (publish byte_length dead publication hub).0

  unfoldable pub run : SseHub → List Call → SseHub
  run hub [] = hub
  run hub (c ∷ cs) = run (call hub c) cs

  abbrev Marks : SessionRef → SseHub → Type 0
  Marks s hub = any (λ r. same_session r s) hub.revoked_pairs ≡ true

  admit_under-Marks :
      (s : SessionRef) (cap : Option SseAdmitRefusalReason) (r : SseStreamRecord) (hub : SseHub)
      → Marks s hub
      → Marks s (admit_under cap r hub).0
  admit_under-Marks s none r hub v = v
  admit_under-Marks s (some reason) r hub v = v

  publish_fitting-Marks :
      (s : SessionRef) (dead : ℕ → Bool) (p : SsePublication) (hub : SseHub)
      → Marks s hub
      → Marks s (publish_fitting byte_length dead p hub).0
  publish_fitting-Marks s dead (session_scope minted event) hub v = ground (arith, v)
  publish_fitting-Marks s dead (idle event) hub v = v

  publish-Marks :
      (s : SessionRef) (dead : ℕ → Bool) (p : SsePublication) (hub : SseHub)
      → Marks s hub
      → Marks s (publish byte_length dead p hub).0
  unfolding publish
  publish-Marks s dead p hub v = elim (Bool-cases (leb (byte_length p) sse_event_bytes)) [
    | inl fits ↦ rw (fits, publish) (publish_fitting-Marks s dead p hub v)
    | inr over ↦ rw (over, publish) v
  ]

  call-Marks : (s : SessionRef) (hub : SseHub) (c : Call) → Marks s hub → Marks s (call hub c)
  unfolding call admit drop_stream end_for_host end_for_session end_for_binding
  call-Marks s hub (admits r) v = admit_under-Marks s _ r _ v
  call-Marks s hub (drops id) v = v
  call-Marks s hub (ends_host host) v = v
  call-Marks s hub (ends_session session) v = ground (arith, v)
  call-Marks s hub (ends_binding capability) v = v
  call-Marks s hub (publishes dead p) v = publish-Marks s dead p hub v

  run-Marks : (s : SessionRef) (hub : SseHub) (cs : List Call) → Marks s hub → Marks s (run hub cs)
  unfolding run
  run-Marks s hub [] v = v
  run-Marks s hub (c ∷ cs) v = run-Marks s (call hub c) cs (call-Marks s hub c v)

  -- After the streams of a session were ended, whatever calls of the hub follow, no event of that
  -- session is delivered.
  pub revoked_is_silent :
      (s : SessionRef) (hub : SseHub) (cs : List Call) (dead : ℕ → Bool) (event : EventType) (n : ℕ)
      → (publish byte_length dead (session_scope s event) (run (end_for_session s hub).1 cs)).1
        ≢ delivered n
  unfolding publish end_for_session
  revoked_is_silent s hub cs dead event n e =
      let marked =
        run-Marks s (end_for_session s hub).1 cs (ground (arith, (same_session_iff s s).1 refl)) in
      ground (arith, e, marked)

-- The caps on the streams of each role.
pub record IsCapped (live : List LiveStream) : Type 0 where
  pub one_editor : count_streams editor live ≤ 1
  pub three_diagnostics : count_streams ClientRole.diagnostic live ≤ 3

remove-IsCapped :
    (p : LiveStream → Bool) (live : List LiveStream) → IsCapped live → IsCapped (remove p live)
remove-IsCapped p live v = record {
  one_editor =
      omega (arith, v.one_editor, count-remove (λ s. same_role s.stream.role editor) p live);
  three_diagnostics = omega (
    arith,
    v.three_diagnostics,
    count-remove (λ s. same_role s.stream.role ClientRole.diagnostic) p live,
  );
}

append-IsCapped :
    (role : ClientRole) (s : LiveStream) (live : List LiveStream)
    → s.stream.role ≡ role
    → stream_cap role live ≡ none
    → IsCapped live
    → IsCapped (live ++ (s ∷ []))
unfolding count
append-IsCapped editor s live e free v =
    let a = count-append (λ t. same_role t.stream.role editor) live (s ∷ []) in
    let b = count-append (λ t. same_role t.stream.role ClientRole.diagnostic) live (s ∷ []) in
    ground (arith, a, b)
append-IsCapped ClientRole.diagnostic s live e free v =
    let a = count-append (λ t. same_role t.stream.role editor) live (s ∷ []) in
    let b = count-append (λ t. same_role t.stream.role ClientRole.diagnostic) live (s ∷ []) in
    ground (arith, a, b)
append-IsCapped ClientRole.launcher s live e free v =
    let a = count-append (λ t. same_role t.stream.role editor) live (s ∷ []) in
    let b = count-append (λ t. same_role t.stream.role ClientRole.diagnostic) live (s ∷ []) in
    ground (arith, a, b)

admit_under-IsCapped :
    (cap : Option SseAdmitRefusalReason) (r : SseStreamRecord) (hub : SseHub)
    → stream_cap r.role hub.live ≡ cap
    → IsCapped hub.live
    → IsCapped (admit_under cap r hub).0.live
admit_under-IsCapped none r hub e v = append-IsCapped r.role _ hub.live refl e v
admit_under-IsCapped (some reason) r hub e v = v

module _ (byte_length : SsePublication → ℕ) where
  publish_fitting-IsCapped :
      (dead : ℕ → Bool) (p : SsePublication) (hub : SseHub)
      → IsCapped hub.live
      → IsCapped (publish_fitting byte_length dead p hub).0.live
  publish_fitting-IsCapped dead (session_scope minted event) hub v =
      elim (Bool-cases (is_stale minted hub)) [
        | inl stale ↦ rw stale v
        | inr fresh ↦ rw fresh (remove-IsCapped _ hub.live v)
      ]
  publish_fitting-IsCapped dead (idle event) hub v = remove-IsCapped _ hub.live v

  publish-IsCapped :
      (dead : ℕ → Bool) (p : SsePublication) (hub : SseHub)
      → IsCapped hub.live
      → IsCapped (publish byte_length dead p hub).0.live
  unfolding publish
  publish-IsCapped dead p hub v = elim (Bool-cases (leb (byte_length p) sse_event_bytes)) [
    | inl fits ↦ rw (fits, publish) (publish_fitting-IsCapped dead p hub v)
    | inr over ↦ rw (over, publish) v
  ]

  call-IsCapped :
      (hub : SseHub) (c : Call) → IsCapped hub.live → IsCapped (call byte_length hub c).live
  unfolding call admit drop_stream end_for_host end_for_session end_for_binding
  call-IsCapped hub (admits r) v = admit_under-IsCapped _ r _ refl (remove-IsCapped _ hub.live v)
  call-IsCapped hub (drops id) v = remove-IsCapped _ hub.live v
  call-IsCapped hub (ends_host host) v = remove-IsCapped _ hub.live v
  call-IsCapped hub (ends_session session) v = remove-IsCapped _ hub.live v
  call-IsCapped hub (ends_binding capability) v = remove-IsCapped _ hub.live v
  call-IsCapped hub (publishes dead p) v = publish-IsCapped dead p hub v

  run-IsCapped :
      (hub : SseHub) (cs : List Call) → IsCapped hub.live → IsCapped (run byte_length hub cs).live
  unfolding run
  run-IsCapped hub [] v = v
  run-IsCapped hub (c ∷ cs) v = run-IsCapped (call byte_length hub c) cs (call-IsCapped hub c v)

  -- From
  pub run_hub-IsCapped : (cs : List Call) → IsCapped (run byte_length create_sse_hub cs).live
  unfolding create_sse_hub count
  run_hub-IsCapped cs =
      run-IsCapped create_sse_hub cs
        (record { one_editor = omega arith; three_diagnostics = omega arith })
