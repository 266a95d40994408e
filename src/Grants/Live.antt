-- ===== src/Grants/Live.antt =====
-- The table of live grants after any history: every record is coherent, and no session holds two
-- grants on one target.
use astroix.Base.{
  String, Bool, true, ◌≡◌, ◌↔◌, refl, sym, List, [], ◌∷◌, arith, inl, inr, str_eq, eq_iff,
  Bool-cases, All, All-weaken,
}
use astroix.Base.Dict.{
  put, drop_where, HasDistinctKeys, drop_where-HasDistinctKeys, put-HasDistinctKeys, All-drop_where,
  All-put, survivors,
}
use astroix.Session.{SessionRef, same_session_iff}
use astroix.World.{World, Platform}
use astroix.Grants.Vocabulary.{
  create_contents, sha256, expected_absent, permits, kind_operations, creation_operations,
  existing_text_operations, operations_are_subset, Target, existing, creation, GrantedResource,
  is_file_name_segment, is_canonical_descendant, is_creation_parent, same_target,
}
use astroix.Base.Fallible.{ok, failure, thrown}
use astroix.Grants.{
  Check, DiscoveredResource, existing_text, creation_slot, issue_resource, GrantRecord, Table,
  wire_grant, supersedes, commit, committed, issue, revoke, revoke_session,
}
use astroix.Grants.Checks.{issue_existing-ExistingFacts, issue_creation-CreationFacts}

-- The revision contract fits the target, the target lies in the root, and the operations are a
-- non-empty set of those that the kind allows on such a target.
abbrev pub TargetFits : Platform → GrantedResource → Target → Type 0
TargetFits p r (existing path) =
    ((h : String) × (r.baseline ≡ sha256 h))
    × (is_canonical_descendant p.sep r.canonical_root path ≡ true)
    × (operations_are_subset (existing_text_operations r.kind) r.operations ≡ true)
TargetFits p r (creation parent name) =
    (r.baseline ≡ expected_absent)
    × (is_creation_parent p.sep r.canonical_root parent ≡ true)
    × (is_file_name_segment name ≡ true)
    × (permits (kind_operations r.kind) create_contents ≡ true)
    × (operations_are_subset creation_operations r.operations ≡ true)

pub record IsCoherent (p : Platform) (root : String) (r : GrantedResource) : Type 0 where
  pub in_root : r.canonical_root ≡ root
  pub fits : TargetFits p r r.target

pub issue_resource-IsCoherent :
    (p : Platform) (w : World) (root : String) (d : DiscoveredResource) (session : SessionRef)
    (r : GrantedResource)
    → issue_resource p w root d session ≡ ok r
    → IsCoherent p root r × (r.session ≡ session)
issue_resource-IsCoherent p w root (existing_text d) session r e =
    let f = issue_existing-ExistingFacts p w root d session r e in
    (
      record {
        in_root = f.root_of;
        fits =
            rw (f.target_of)
              ((d.revision, f.baseline_of), rw (f.root_of) f.inside, rw (f.kind_of) f.subset);
      },
      f.session_of,
    )
issue_resource-IsCoherent p w root (creation_slot d) session r e =
    let f = issue_creation-CreationFacts p w root d session r e in
    (
      record {
        in_root = f.root_of;
        fits =
            rw (f.target_of)
              (f.baseline_of, rw (f.root_of) f.inside, f.segment, rw (f.kind_of) f.kind, f.subset);
      },
      f.session_of,
    )

pub same_target_iff : (a b : Target) → (same_target a b ≡ true) ↔ (a ≡ b)
same_target_iff (existing a) (existing b) = ground (arith, eq_iff a b)
same_target_iff (existing a) (creation b n) = ((λ e. cc), λ e. cc)
same_target_iff (creation a m) (existing b) = ((λ e. cc), λ e. cc)
same_target_iff (creation a m) (creation b n) = ground (arith, eq_iff a b, eq_iff m n)

-- Two grants of one session on one target.
abbrev pub Rivals : GrantedResource → GrantedResource → Type 0
Rivals a b = (a.session ≡ b.session) × (a.target ≡ b.target)

pub supersedes_iff :
    (r : GrantedResource) (other : GrantRecord)
    → (supersedes r other ≡ true) ↔ Rivals other.resource r
supersedes_iff r other = ground (
  arith,
  same_session_iff other.resource.session r.session,
  same_target_iff other.resource.target r.target,
)

abbrev pub AllApart : GrantedResource → Table → Type 0
AllApart r records = All (λ e. ¬ (Rivals e.1.resource r)) records

abbrev pub IsUnrivalled : Table → Type 0
IsUnrivalled [] = Unit
IsUnrivalled ((token, x) ∷ records) = AllApart x.resource records × IsUnrivalled records

drop_where-IsUnrivalled :
    (q : String → GrantRecord → Bool) (records : Table)
    → IsUnrivalled records
    → IsUnrivalled (drop_where q records)
unfolding drop_where
drop_where-IsUnrivalled q [] h = tt
drop_where-IsUnrivalled q ((token, x) ∷ records) h = elim (Bool-cases (q token x)) [
  | inl gone ↦ rw gone (drop_where-IsUnrivalled q records h.1)
  | inr kept ↦ rw kept (All-drop_where _ q records h.0, drop_where-IsUnrivalled q records h.1)
]

put-IsUnrivalled :
    (token : String) (x : GrantRecord) (records : Table)
    → AllApart x.resource records
    → IsUnrivalled records
    → IsUnrivalled (put records token x)
unfolding put
put-IsUnrivalled token x [] apart h = (tt, tt)
put-IsUnrivalled token x ((other, y) ∷ records) apart h = elim (Bool-cases (str_eq other token)) [
  | inl same ↦ rw same (apart.1, h.1)
  | inr differs ↦ rw differs (
    All-put _ records token x h.0 (λ r. apart.0 (sym r.0, sym r.1)),
    put-IsUnrivalled token x records apart.1 h.1,
  )
]

survivors-AllApart :
    (r : GrantedResource) (records : Table)
    → AllApart r (drop_where (λ _ other. supersedes r other) records)
survivors-AllApart r records =
    All-weaken (λ e kept rival. cc (kept, (supersedes_iff r e.1).1 rival)) _ (survivors _ records)

-- What holds of each entry: its record is coherent, and its wire grant is the record's projection.
abbrev pub IsIssued : Platform → String → String × GrantRecord → Type 0
IsIssued p root (token, x) = IsCoherent p root x.resource × (x.issued ≡ wire_grant token x.resource)

pub record IsLive (p : Platform) (root : String) (records : Table) : Type 0 where
  pub distinct : HasDistinctKeys records
  pub unrivalled : IsUnrivalled records
  pub issued : All (IsIssued p root) records

drop_where-IsLive :
    (p : Platform) (root : String) (q : String → GrantRecord → Bool) (records : Table)
    → IsLive p root records
    → IsLive p root (drop_where q records)
drop_where-IsLive p root q records v = record {
  distinct = drop_where-HasDistinctKeys q records v.distinct;
  unrivalled = drop_where-IsUnrivalled q records v.unrivalled;
  issued = All-drop_where _ q records v.issued;
}

pub commit-IsLive :
    (p : Platform) (root token : String) (r : GrantedResource) (records : Table)
    → IsCoherent p root r
    → IsLive p root records
    → IsLive p root (commit token r records)
unfolding commit
commit-IsLive p root token r records c v =
    let kept = drop_where-IsLive p root (λ _ other. supersedes r other) records v in
    record {
      distinct = put-HasDistinctKeys token _ _ kept.distinct;
      unrivalled = put-IsUnrivalled token _ _ (survivors-AllApart r records) kept.unrivalled;
      issued = All-put _ _ token _ kept.issued (c, refl);
    }

committed-IsLive :
    (p : Platform) (root token : String) (outcome : Check GrantedResource) (records : Table)
    → ((r : GrantedResource) → outcome ≡ ok r → IsCoherent p root r)
    → IsLive p root records
    → IsLive p root (committed token outcome records).1
committed-IsLive p root token (ok r) records c v = commit-IsLive p root token r records (c r refl) v
committed-IsLive p root token (failure code) records c v = v
committed-IsLive p root token thrown records c v = v

-- The calls that change the table; each issuance has the answers that it got.
pub data Call : Type 0 where
  issues : World → String → DiscoveredResource → SessionRef → Call
  revokes : String → Call
  revokes_session : SessionRef → Call

unfoldable pub call : Platform → String → Table → Call → Table
call p root records (issues w token d session) = (issue p w root token d session records).1
call p root records (revokes token) = (revoke token records).1
call p root records (revokes_session session) = (revoke_session session records).1

unfoldable pub run : Platform → String → Table → List Call → Table
run p root records [] = records
run p root records (c ∷ cs) = run p root (call p root records c) cs

pub call-IsLive :
    (p : Platform) (root : String) (records : Table) (c : Call)
    → IsLive p root records
    → IsLive p root (call p root records c)
unfolding call issue revoke revoke_session
call-IsLive p root records (issues w token d session) v =
    committed-IsLive p root token (issue_resource p w root d session) records
      (λ r e. (issue_resource-IsCoherent p w root d session r e).0) v
call-IsLive p root records (revokes token) v = drop_where-IsLive p root _ records v
call-IsLive p root records (revokes_session session) v = drop_where-IsLive p root _ records v

run-IsLive :
    (p : Platform) (root : String) (records : Table) (cs : List Call)
    → IsLive p root records
    → IsLive p root (run p root records cs)
unfolding run
run-IsLive p root records [] v = v
run-IsLive p root records (c ∷ cs) v =
    run-IsLive p root (call p root records c) cs (call-IsLive p root records c v)

-- After any history of issuances and revocations every live grant is coherent with its target, its
-- kind and the root, the wire grant is the projection of its record, and no session holds two
-- grants on one target.
pub run_empty-IsLive :
    (p : Platform) (root : String) (cs : List Call) → IsLive p root (run p root [] cs)
run_empty-IsLive p root cs =
    run-IsLive p root [] cs (record { distinct = tt; unrivalled = tt; issued = tt })
