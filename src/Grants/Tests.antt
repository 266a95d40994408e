-- ===== src/Grants/Tests.antt =====
-- Runs of one grant table over a small file system, and the theorems at them.
use astroix.Base.{
  ℕ, String, true, ◌≡◌, ◌≢◌, ◌↔◌, refl, Option, some, none, List, [], ◌∷◌, str_eq, eq_iff, arith,
  subst, sym, ◌∙◌, Bool-cases, inl, inr, if_true, if_false,
}
use astroix.Base.Dict.{get, put, drop_where, count_if}
use astroix.Session.{SessionRef, same_session}
use astroix.Grants.Vocabulary.{
  create_contents, expected_absent, creation, content, css, splice, kind_operations,
  existing_text_operations, operations_are_subset, is_project_relative, is_file_name_segment,
  is_canonical_descendant, is_creation_parent, is_grant_token_shape, sha256, existing,
  GrantedResource, cross_session, invalid_resource_path,
}
use astroix.Base.Fallible.{ok, failure}
use astroix.Grants.{
  DiscoveredResource, existing_text, Table, GrantRecord, wire_grant, commit, issue_existing,
  issue_creation, issue_resource, issue, AuthorizeInput, authorize, revoke, revoke_session, verify,
}
use astroix.Grants.Checks.{IsCanonical, verify_of_issue}
use astroix.Grants.Live.{IsLive, issues, revokes, call, run, run_empty-IsLive}
use astroix.Grants.Authority.{IsGranted, own_claim, authorize_iff}
use astroix.Grants.Sample.{
  digest, node, disk, disk_rest, now, token_a, token_b, sheet, slot, sheet_resource,
}

table : Table
unfolding issue issue_existing issue_creation existing_text_operations kind_operations commit put
    drop_where operations_are_subset is_project_relative is_file_name_segment
    is_canonical_descendant is_creation_parent authorize is_grant_token_shape get revoke
    same_session revoke_session verify run call count_if
table = (issue node disk "/p" token_a (existing_text sheet) now []).1

abbrev claim : AuthorizeInput
claim = own_claim token_a sheet_resource splice

sheet_issued : issue_resource node disk "/p" (existing_text sheet) now ≡ ok sheet_resource
unfolding table
sheet_issued = refl

abbrev sheet_record : GrantRecord
sheet_record = record { resource = sheet_resource; issued = wire_grant token_a sheet_resource }

abbrev lost_file : DiscoveredResource
lost_file =
    existing_text (record { kind = css; path = "../a.css"; revision = digest; operations = none })

abbrev before : SessionRef
before = record { runtime_epoch = "e"; generation = 1 }

abbrev stolen : AuthorizeInput
stolen = record { token = token_a; session = before; kind = css; operation = splice }

table_tests :
    (table ≡ (token_a, sheet_record) ∷ [])
    × ((issue node disk "/p" token_b lost_file now table) ≡ (failure invalid_resource_path, table))
    × (authorize stolen table ≡ failure cross_session)
    × ((issue node disk "/p" token_b (existing_text sheet) now table).1
        ≡ (
          token_b,
          record { resource = sheet_resource; issued = wire_grant token_b sheet_resource },
        )
          ∷ [])
    × (issue_resource node disk "/p" slot now
        ≡ ok (record {
          canonical_root = "/p";
          session = now;
          kind = content;
          operations = create_contents ∷ [];
          display_path = "src/n.md";
          baseline = expected_absent;
          target = creation "/p/src" "n.md";
        }))
    × (verify node disk sheet_resource ≡ ok (some (1 ∷ [])))
    × (revoke_session now table ≡ (1, []))
unfolding table
table_tests = (refl, refl, refl, refl, refl, refl, refl)

eq_of_some : {a b : String} → some a ≡ some b → a ≡ b
eq_of_some e = cc

fixed :
    (known canonical : String)
    → disk.realpath known ≡ some known
    → some known ≡ some canonical
    → disk.realpath canonical ≡ some canonical
fixed known canonical stays e = subst (λ c. disk.realpath c ≡ some c) (eq_of_some e) stays

disk-IsCanonical : IsCanonical disk
disk-IsCanonical path canonical e = elim (Bool-cases (str_eq path "/p/a.css")) [
  | inl sheet_path ↦
      fixed "/p/a.css" canonical refl
        (sym (if_true {A = Option String} (some "/p/a.css") (disk_rest path) sheet_path) ∙ e)
  | inr other ↦
      let rest = sym (if_false {A = Option String} (some "/p/a.css") (disk_rest path) other) ∙ e in
      elim (Bool-cases (str_eq path "/p/src")) [
        | inl folder ↦
            fixed "/p/src" canonical refl
              (sym (if_true {A = Option String} (some "/p/src") none folder) ∙ rest)
        | inr nothing ↦ cc (sym (if_false {A = Option String} (some "/p/src") none nothing) ∙ rest)
      ]
]

verify_of_issue_example : (text : Option (List ℕ)) × (verify node disk sheet_resource ≡ ok text)
verify_of_issue_example =
    verify_of_issue node disk "/p" (existing_text sheet) now sheet_resource disk-IsCanonical
      sheet_issued

run_empty-IsLive_example : IsLive node "/p" (
    run node "/p" [] (
      issues disk token_a (existing_text sheet) now
      ∷ issues disk token_b slot now
      ∷ revokes token_a
      ∷ []))
run_empty-IsLive_example = run_empty-IsLive node "/p" (
    issues disk token_a (existing_text sheet) now
    ∷ issues disk token_b slot now
    ∷ revokes token_a
    ∷ [])

one_call : run node "/p" [] (issues disk token_a (existing_text sheet) now ∷ []) ≡ table
unfolding table
one_call = refl

table-IsLive : IsLive node "/p" table
table-IsLive =
    subst (IsLive node "/p") one_call
      (run_empty-IsLive node "/p" (issues disk token_a (existing_text sheet) now ∷ []))

claimed : authorize claim table ≡ ok sheet_record
unfolding table
claimed = refl

authorize_iff_example :
    (authorize claim table ≡ ok sheet_record) ↔ IsGranted claim table sheet_record
authorize_iff_example = authorize_iff claim table sheet_record

token_shaped : is_grant_token_shape token_b ≡ true
unfolding table
token_shaped = refl

abbrev script_resource : GrantedResource
script_resource = record {
  canonical_root = "/p";
  session = now;
  kind = css;
  operations = splice ∷ [];
  display_path = "b.css";
  baseline = sha256 digest;
  target = existing "/p/b.css";
}

still_claimed : authorize claim (commit token_b script_resource table) ≡ ok sheet_record
unfolding table
still_claimed = refl

other_token : claim.token ≢ token_b
other_token = ground (arith, eq_iff token_a token_b)
