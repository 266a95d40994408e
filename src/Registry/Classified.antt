-- ===== src/Registry/Classified.antt =====
-- packages/runtime/registry/document.ts: what classifies as valid, and what is serialized.
use astroix.Base.{
  String, false, Option, none, some, List, [], ◌∷◌, ◌≡◌, refl, subst, ap, arith, any, str_eq,
  Bool-cases, ltb, inl, inr, All,
}
use astroix.Documents.{
  RegistryRecord, RegistryDocument, VersionField, not_an_integer, negative, version, ParsedDocument,
  not_json, not_an_object, an_object, has_duplicates, valid, classify_version, classify_schema,
  classify_registry_document,
}
use astroix.Registry.{RegistryPlatform, classify}
use astroix.Registry.Unique.{FitsSchema, IsValid}
use astroix.Registry.Duplicates.{no_duplicates, differ-no_duplicates}

-- The strict schema accepts only records that fit, and gives back a valid document that was serialized.
pub record SchemaLaws (p : RegistryPlatform) : Type 0 where
  pub fields_fit :
      (text : String) (v : VersionField) (d : RegistryDocument)
      → p.parse text ≡ an_object v (some d)
      → All (FitsSchema p) d.records
  pub round_trip :
      (d : RegistryDocument)
      → IsValid p d.records
      → p.parse (p.serialize d) ≡ an_object (version 1) (some d)

module _ (p : RegistryPlatform) (laws : SchemaLaws p) where
  classify_schema-IsValid :
      (d e : RegistryDocument)
      → All (FitsSchema p) d.records
      → classify_schema (some d) ≡ valid e
      → IsValid p e.records
  classify_schema-IsValid d e fits h = elim (Bool-cases (has_duplicates [] [] d.records)) [
    | inl dup ↦ cc (rw dup at h)
    | inr unique ↦
        let same : d ≡ e = ground (arith, (rw unique at h)) in
        subst (λ x. IsValid p x.records) same
          (record { fits = fits; differ = (no_duplicates p [] [] d.records unique).1 })
  ]

  classify_version-IsValid :
      (v : VersionField) (fields : Option RegistryDocument) (e : RegistryDocument)
      → ((d : RegistryDocument) → fields ≡ some d → All (FitsSchema p) d.records)
      → classify_version v fields ≡ valid e
      → IsValid p e.records
  classify_version-IsValid not_an_integer fields e fit h = cc
  classify_version-IsValid negative fields e fit h = cc
  classify_version-IsValid (version n) none e fit h = elim (Bool-cases (ltb 1 n)) [
    | inl future ↦ cc (rw future at h)
    | inr known ↦ elim (Bool-cases (ltb n 1)) [
      | inl older ↦ cc (rw older at (rw known at h))
      | inr current ↦ cc (rw current at (rw known at h))
    ]
  ]
  classify_version-IsValid (version n) (some d) e fit h = elim (Bool-cases (ltb 1 n)) [
    | inl future ↦ cc (rw future at h)
    | inr known ↦ elim (Bool-cases (ltb n 1)) [
      | inl older ↦ cc (rw older at (rw known at h))
      | inr current ↦ classify_schema-IsValid d e (fit d refl) (rw current at (rw known at h))
    ]
  ]

  classify_parsed-IsValid :
      (q : ParsedDocument) (e : RegistryDocument)
      → ((v : VersionField) (d : RegistryDocument)
          → q ≡ an_object v (some d)
          → All (FitsSchema p) d.records)
      → classify_registry_document q ≡ valid e
      → IsValid p e.records
  classify_parsed-IsValid not_json e fit h = cc
  classify_parsed-IsValid not_an_object e fit h = cc
  classify_parsed-IsValid (an_object v fields) e fit h =
      classify_version-IsValid v fields e (λ d same. fit v d (ap (an_object v) same)) h

  -- What classifies as valid is valid.
  pub classify-IsValid :
      (text : String) (e : RegistryDocument) → classify p text ≡ valid e → IsValid p e.records
  classify-IsValid text e h = classify_parsed-IsValid (p.parse text) e (laws.fields_fit text) h

  -- What is serialized classifies as what it was.
  pub classify-serialize :
      (d : RegistryDocument) → IsValid p d.records → classify p (p.serialize d) ≡ valid d
  classify-serialize d v =
      rw (laws.round_trip d v)
        (rw (differ-no_duplicates p [] [] d.records (fresh_all d.records) v.differ) refl)
    where
      fresh_all :
          (rs : List RegistryRecord)
          → All
              (λ r.
                (any (λ key. str_eq key r.project_key) [] ≡ false)
                × (any (λ root. str_eq root r.canonical_root) [] ≡ false))
              rs
      fresh_all [] = tt
      fresh_all (r ∷ rs) = ((refl, refl), fresh_all rs)
