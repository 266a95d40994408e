-- ===== src/ProjectKey/Allocation.antt =====
-- packages/runtime/registry/identity.ts: what the allocation of a key gives.
use astroix.Base.{
  ℕ, String, Bool, true, false, refl, Option, none, some, List, [], ◌∷◌, map, any, ◌≡◌, arith,
  str_eq, subst, All, Bool-cases, inl, inr,
}
use astroix.Documents.{RegistryRecord}
use astroix.Registry.{has_key}
use astroix.ProjectKey.{
  encode_digits, encode_project_key, key_text, parse_digits, unless_taken, allocate_project_key,
}

-- A key that is new among those that are taken, and that the schema reads.
abbrev pub IsNew : (String → Bool) → List String → String → Type 0
IsNew is_project_key taken key =
    (is_project_key key ≡ true) × (any (λ k. str_eq k key) taken ≡ false)

encode_project_key-valid :
    (is_project_key : String → Bool) (digits : Option (List ℕ)) (key : String)
    → parse_digits is_project_key digits ≡ some key
    → is_project_key key ≡ true
encode_project_key-valid is_project_key none key e = cc
encode_project_key-valid is_project_key (some digits) key e =
    elim (Bool-cases (is_project_key (key_text digits))) [
      | inl accepted ↦
          let same : key_text digits ≡ key = ground (arith, (rw accepted at e)) in
          subst (λ k. is_project_key k ≡ true) same accepted
      | inr refused ↦ cc (rw refused at e)
    ]

unless_taken-IsNew :
    (is_project_key : String → Bool) (taken : List String) (encoded : Option String)
    (later : Option String) (key : String)
    → ((k : String) → encoded ≡ some k → is_project_key k ≡ true)
    → (later ≡ some key → IsNew is_project_key taken key)
    → unless_taken taken encoded later ≡ some key
    → IsNew is_project_key taken key
unless_taken-IsNew is_project_key taken none later key valid rest e = cc
unless_taken-IsNew is_project_key taken (some candidate) later key valid rest e =
    elim (Bool-cases (any (λ k. str_eq k candidate) taken)) [
      | inl old ↦ rest (rw old at e)
      | inr new ↦
          let same : candidate ≡ key = ground (arith, (rw new at e)) in
          subst (IsNew is_project_key taken) same (valid candidate refl, new)
    ]

-- A key that is allocated is read by the schema and is none of those that are taken.
pub allocate_project_key-IsNew :
    (is_project_key : String → Bool) (taken : List String) (draws : List (List ℕ)) (key : String)
    → allocate_project_key is_project_key taken draws ≡ some key
    → IsNew is_project_key taken key
unfolding allocate_project_key
allocate_project_key-IsNew is_project_key taken [] key e = cc
allocate_project_key-IsNew is_project_key taken (bytes ∷ draws) key e =
    unless_taken-IsNew is_project_key taken (encode_project_key is_project_key bytes)
      (allocate_project_key is_project_key taken draws) key
      (encode_project_key-valid is_project_key (encode_digits bytes))
      (allocate_project_key-IsNew is_project_key taken draws key) e

pub any_key :
    (key : String) (rs : List RegistryRecord)
    → any (λ k. str_eq k key) (map (λ r. r.project_key) rs) ≡ false
    → All (λ r. has_key key r ≡ false) rs
any_key key [] e = tt
any_key key (r ∷ rs) e = (ground (arith, e), any_key key rs (ground (arith, e)))
