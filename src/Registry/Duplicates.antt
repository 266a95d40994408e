-- ===== src/Registry/Duplicates.antt =====
-- The search for duplicates of document.ts finds none exactly when all the records differ.
use astroix.Base.{String, false, List, [], ◌∷◌, ◌≡◌, refl, arith, any, str_eq, All, All-weaken}
use astroix.Documents.{RegistryRecord, has_duplicates}
use astroix.Registry.{RegistryPlatform}
use astroix.Registry.Unique.{Differs, AllDiffer}

module _ (p : RegistryPlatform) where
  -- Not among the keys and the roots that were seen.
  abbrev IsFresh : List String → List String → RegistryRecord → Type 0
  IsFresh keys roots r =
      (any (λ key. str_eq key r.project_key) keys ≡ false)
      × (any (λ root. str_eq root r.canonical_root) roots ≡ false)

  IsFresh-split :
      (keys roots : List String) (r s : RegistryRecord)
      → IsFresh (r.project_key ∷ keys) (r.canonical_root ∷ roots) s
      → Differs p r s × IsFresh keys roots s
  IsFresh-split keys roots r s v = ground (arith, v.0, v.1)

  IsFresh-join :
      (keys roots : List String) (r s : RegistryRecord)
      → Differs p r s
      → IsFresh keys roots s
      → IsFresh (r.project_key ∷ keys) (r.canonical_root ∷ roots) s
  IsFresh-join keys roots r s d v = ground (arith, d.0, d.1, v.0, v.1)

  join-all :
      (keys roots : List String) (r : RegistryRecord) (rs : List RegistryRecord)
      → All (Differs p r) rs
      → All (IsFresh keys roots) rs
      → All (IsFresh (r.project_key ∷ keys) (r.canonical_root ∷ roots)) rs
  join-all keys roots r [] d v = tt
  join-all keys roots r (s ∷ rs) d v =
      (IsFresh-join keys roots r s d.0 v.0, join-all keys roots r rs d.1 v.1)

  pub no_duplicates :
      (keys roots : List String) (rs : List RegistryRecord)
      → has_duplicates keys roots rs ≡ false
      → All (IsFresh keys roots) rs × AllDiffer p rs
  unfolding has_duplicates
  no_duplicates keys roots [] e = (tt, tt)
  no_duplicates keys roots (r ∷ rs) e =
      let keys_miss : any (λ key. str_eq key r.project_key) keys ≡ false = ground (arith, e) in
      let roots_miss : any (λ root. str_eq root r.canonical_root) roots ≡ false =
        ground (arith, e) in
      let rest : has_duplicates (r.project_key ∷ keys) (r.canonical_root ∷ roots) rs ≡ false =
        ground (arith, e) in
      let later : All (IsFresh (r.project_key ∷ keys) (r.canonical_root ∷ roots)) rs
          × AllDiffer p rs =
        no_duplicates (r.project_key ∷ keys) (r.canonical_root ∷ roots) rs rest in
      (
        (
          (keys_miss, roots_miss),
          All-weaken (λ s v. (IsFresh-split keys roots r s v).1) rs later.0,
        ),
        (All-weaken (λ s v. (IsFresh-split keys roots r s v).0) rs later.0, later.1),
      )

  pub differ-no_duplicates :
      (keys roots : List String) (rs : List RegistryRecord)
      → All (IsFresh keys roots) rs
      → AllDiffer p rs
      → has_duplicates keys roots rs ≡ false
  unfolding has_duplicates
  differ-no_duplicates keys roots [] v d = refl
  differ-no_duplicates keys roots (r ∷ rs) v d =
      let rest : has_duplicates (r.project_key ∷ keys) (r.canonical_root ∷ roots) rs ≡ false =
        differ-no_duplicates (r.project_key ∷ keys) (r.canonical_root ∷ roots) rs
          (join-all keys roots r rs d.0 v.1) d.1 in
      rw v.0.0 (rw v.0.1 rest)
