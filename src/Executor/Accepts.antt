-- ===== src/Executor/Accepts.antt =====
-- What planning accepts the executor commits, in the same world.
use astroix.Base.{
  ℕ, zero, suc, [], ◌∷◌, ◌≤◌, String, true, false, ◌≡◌, refl, sym, ap, subst, subst₂, ◌∙◌, Option,
  none, some, List, arith, eq_iff, ◌++◌, ◌+◌, length, take, drop, ltb, leb, ◌&&◌, Bool-cases, inl,
  inr,
}
use astroix.Base.Fallible.{ok}
use astroix.Session.{SessionRef, same_session_iff}
use astroix.World.{World, Platform}
use astroix.Grants.Vocabulary.{
  ResourceKind, content, css, permits, kind_operations, create_contents, RevisionContract, sha256,
  expected_absent, Target, existing, creation, GrantedResource,
}
use astroix.Grants.{Table, is_existing}
use astroix.Grants.Live.{TargetFits, IsLive}
use astroix.Grants.Authority.{authorize_iff, authorize_issued}
use astroix.DrainReport.{WriteOutcome}
use astroix.Plans.{
  Payload, replaces, splices, creates, operation_of, WritePlan, DomainWritePlan, is_valid_payload,
  claim_of, plan_edit,
}
use astroix.Plans.Sound.{KindAllows, IsPlanned, plan_edit_sound}
use astroix.Executor.{
  WriteExecutorOptions, is_coherent, check_facts, FinalValidation, existing_at, creation_at,
  validate_target, next_text, splice_text, Answers, Creation, run_operation, replace_existing,
  create_exclusive,
}
use astroix.Executor.Recheck.{text_of, validate_target_iff}

no_css_creation : permits (kind_operations css) create_contents ≡ false
unfolding kind_operations
no_css_creation = refl

-- In a coherent resource the planners admit the payload only on its own kind of target.
KindAllows-coherent :
    (p : Platform) (r : GrantedResource) (kind : ResourceKind) (payload : Payload)
    (text : Option (List ℕ)) (t : Target) (b : RevisionContract)
    → r.kind ≡ kind
    → r.target ≡ t
    → r.baseline ≡ b
    → TargetFits p r t
    → KindAllows kind r payload text
    → is_coherent payload t b ≡ true
KindAllows-coherent p r css (replaces contents) text (existing path) (sha256 d) ek et eb f h = refl
KindAllows-coherent p r css (splices range replacement) text (existing path) (sha256 d) ek et eb f
      h =
    refl
KindAllows-coherent p r content (replaces contents) text (existing path) (sha256 d) ek et eb f h =
    refl
KindAllows-coherent p r content (creates contents) text (creation path name) expected_absent ek et
      eb f h =
    refl
KindAllows-coherent p r kind payload text (existing path) expected_absent ek et eb f h =
    cc (sym eb ∙ f.0.1)
KindAllows-coherent p r kind payload text (creation path name) (sha256 d) ek et eb f h =
    cc (sym eb ∙ f.0)
KindAllows-coherent p r css payload text (creation path name) expected_absent ek et eb f h =
    cc (no_css_creation, subst (λ k. permits (kind_operations k) create_contents ≡ true) ek f.3)
KindAllows-coherent p r css (creates contents) text (existing path) (sha256 d) ek et eb f h =
    absurd h
KindAllows-coherent p r content (replaces contents) text (creation path name) expected_absent ek et
      eb f h =
    cc (ap is_existing et, h)
KindAllows-coherent p r content (creates contents) text (existing path) (sha256 d) ek et eb f h =
    cc (ap is_existing et, h)
KindAllows-coherent p r content (splices range replacement) text t b ek et eb f h = absurd h

check_facts_hold :
    (options : WriteExecutorOptions) (plan : DomainWritePlan)
    → plan.resource.session ≡ options.session
    → plan.resource.canonical_root ≡ options.canonical_root
    → permits plan.resource.operations (operation_of plan.payload) ≡ true
    → is_coherent plan.payload plan.resource.target plan.resource.baseline ≡ true
    → check_facts options plan ≡ ok tt
unfolding check_facts
check_facts_hold options plan s root o c = ground (
  arith,
  (same_session_iff plan.resource.session options.session).1 s,
  (eq_iff plan.resource.canonical_root options.canonical_root).1 root,
  o,
  c,
)

-- The payload fits the text that the recheck read.
next_text_some :
    (p : Platform) (kind : ResourceKind) (r : GrantedResource) (payload : Payload)
    (world : FinalValidation)
    → is_valid_payload p payload ≡ true
    → KindAllows kind r payload (text_of world)
    → (contents : List ℕ) × (next_text payload world ≡ ok contents)
unfolding next_text
next_text_some p kind r (replaces contents) world v h = (contents, refl)
next_text_some p kind r (creates contents) world v h = (contents, refl)
next_text_some p css r (splices range replacement) (existing_at path text mode) v h =
    (splice_text range replacement text, ground arith)
next_text_some p css r (splices range replacement) (creation_at parent name) v h = cc
next_text_some p content r (splices range replacement) world v h = absurd h

-- The text that a payload makes of the one that is there: the whole text, or a splice of it.
abbrev pub Makes : Payload → Option (List ℕ) → List ℕ → Type 0
Makes (replaces contents) text made = made ≡ contents
Makes (creates contents) text made = made ≡ contents
Makes (splices range replacement) none made = ⊥
Makes (splices range replacement) (some text) made =
    (before : List ℕ) × (cut : List ℕ) × (after : List ℕ) × (text ≡ before ++ (cut ++ after))
    × (length before ≡ range.start)
    × (length before + length cut ≡ range.end)
    × (made ≡ before ++ (replacement ++ after))

take-drop-lem :
    (n : ℕ) (text : List ℕ)
    → n ≤ length text
    → (text ≡ take n text ++ drop n text) × (length (take n text) ≡ n)
take-drop-lem zero text h = (refl, refl)
take-drop-lem (suc n) [] h = absurd (omega (arith, h))
take-drop-lem (suc n) (x ∷ text) h =
    let rest = take-drop-lem n text (omega (arith, h)) in
    (ap (λ later. x ∷ later) rest.0, ap suc rest.1)

-- A range inside a text cuts it in three.
unfoldable IsCut : (start end : ℕ) (text : List ℕ) → Type 0
IsCut start end text =
    (cut : List ℕ) × (text ≡ take start text ++ (cut ++ drop end text))
    × (length (take start text) ≡ start)
    × (length (take start text) + length cut ≡ end)

range-IsCut :
    (start end : ℕ) (text : List ℕ) → start ≤ end → end ≤ length text → IsCut start end text
unfolding IsCut
range-IsCut zero end text h inside =
    let whole = take-drop-lem end text inside in
    (take end text, whole.0, refl, omega (arith, whole.1))
range-IsCut (suc start) end [] h inside = absurd (omega (arith, h, inside))
range-IsCut (suc start) zero (x ∷ text) h inside = absurd (omega (arith, h))
range-IsCut (suc start) (suc end) (x ∷ text) h inside =
    let rest = range-IsCut start end text (omega (arith, h)) (omega (arith, inside)) in
    (rest.0, ap (λ later. x ∷ later) rest.1, ap suc rest.2, omega (arith, rest.3))

next_text-Makes :
    (payload : Payload) (world : FinalValidation) (contents : List ℕ)
    → next_text payload world ≡ ok contents
    → Makes payload (text_of world) contents
unfolding next_text IsCut
next_text-Makes (replaces new) world contents e = ground (arith, e)
next_text-Makes (creates new) world contents e = ground (arith, e)
next_text-Makes (splices range replacement) (creation_at parent name) contents e = cc
next_text-Makes (splices range replacement) (existing_at path text mode) contents e =
    elim (Bool-cases (ltb range.start range.end && leb range.end (length text))) [
      | inl inside ↦
          let (cut, whole, starts, ends) =
            range-IsCut range.start range.end text (ground (arith, inside))
              (ground (arith, inside)) in
          (
            take range.start text,
            cut,
            drop range.end text,
            whole,
            starts,
            ends,
            ground (arith, (rw inside at e)),
          )
      | inr outside ↦ cc (rw outside at e)
    ]

-- Every system call of the commit succeeds.
pub record Succeeds (a : Answers) : Type 0 where
  pub temp_written : a.temp_written ≡ true
  pub renamed : a.renamed ≡ true
  pub created : a.creation ≡ Creation.created

run_operation_commits :
    (p : Platform) (a : Answers) (temp_id : String) (w : World) (options : WriteExecutorOptions)
    (plan : DomainWritePlan) (world : FinalValidation) (contents : List ℕ)
    → Succeeds a
    → check_facts options plan ≡ ok tt
    → validate_target p w plan.resource ≡ ok world
    → next_text plan.payload world ≡ ok contents
    → (run_operation p a temp_id w options plan).0
      ≡ WriteOutcome.committed (p.sha256 (p.encode contents))
unfolding run_operation replace_existing create_exclusive
run_operation_commits p a temp_id w options plan (existing_at path text mode) contents s f v n =
    ground (arith, f, v, n, s.temp_written, s.renamed)
run_operation_commits p a temp_id w options plan (creation_at parent name) contents s f v n =
    ground (arith, f, v, n, s.created)

-- What planning has established of the resource: it is the executor's, and its species fit.
IsPlanned-check_facts :
    (p : Platform) (w : World) (root : String) (records : Table) (session : SessionRef)
    (body : Option WritePlan) (plan : DomainWritePlan)
    → IsLive p root records
    → (h : IsPlanned p w records session body plan)
    → check_facts (record { canonical_root = root; session = session }) plan ≡ ok tt
IsPlanned-check_facts p w root records session body plan live h =
    let r = h.granted.resource in
    let g = (authorize_iff (claim_of session h.wire) records h.granted).0 h.authorized in
    let c =
      (authorize_issued p root (claim_of session h.wire) records h.granted live h.authorized).0 in
    let payload = sym h.payload_of in
    let fits =
      KindAllows-coherent p r r.kind h.wire.payload h.text r.target r.baseline refl refl refl c.fits
        h.allowed in
    check_facts_hold (record { canonical_root = root; session = session }) plan
      (ap (λ x. x.session) h.resource_of ∙ g.session)
      (ap (λ x. x.canonical_root) h.resource_of ∙ c.in_root)
      (subst₂ (λ x y. permits x.operations (operation_of y) ≡ true) (sym h.resource_of) payload
        g.permitted)
      (subst₂ (λ x y. is_coherent y x.target x.baseline ≡ true) (sym h.resource_of) payload fits)

-- In a live table of a root, a body that planning accepts for a session is committed by the
-- executor of that root and session, against the same answers of the file system, if every system
-- call of the commit succeeds: the recheck passes, and the outcome carries the digest of the text
-- that the payload makes of the text that the recheck read.
pub plan_edit-run_operation :
    (p : Platform) (w : World) (root : String) (records : Table) (session : SessionRef)
    (body : Option WritePlan) (plan : DomainWritePlan) (a : Answers) (temp_id : String)
    → IsLive p root records
    → plan_edit p w records session body ≡ ok plan
    → Succeeds a
    → (world : FinalValidation) × (contents : List ℕ) × (validate_target p w plan.resource
        ≡ ok world)
      × Makes plan.payload (text_of world) contents
      × ((run_operation p a temp_id w (record { canonical_root = root; session = session }) plan).0
          ≡ WriteOutcome.committed (p.sha256 (p.encode contents)))
plan_edit-run_operation p w root records session body plan a temp_id live e s =
    let h = plan_edit_sound p w records session body plan e in
    let r = h.granted.resource in
    let (world, validated, same) = (validate_target_iff p w r h.text).0 h.verified in
    let allowed = subst (λ t. KindAllows r.kind r h.wire.payload t) (sym same) h.allowed in
    let (contents, produced) =
      next_text_some p r.kind r h.wire.payload world h.valid_payload allowed in
    (
      world,
      contents,
      ap (validate_target p w) h.resource_of ∙ validated,
      subst (λ payload. Makes payload (text_of world) contents) (sym h.payload_of)
          (next_text-Makes h.wire.payload world contents produced),
      run_operation_commits p a temp_id w _ plan world contents s
          (IsPlanned-check_facts p w root records session body plan live h)
          (ap (validate_target p w) h.resource_of ∙ validated)
          (ap (λ x. next_text x world) h.payload_of ∙ produced),
    )
