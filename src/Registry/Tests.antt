-- ===== src/Registry/Tests.antt =====
-- Runs of the registry and its load, on a platform whose documents hold at most one record.
use astroix.Base.{
  ℕ, String, true, none, some, List, [], ◌∷◌, ◌≡◌, ◌∙◌, sym, take, refl, subst, Bool-cases, inl,
  inr, All, arith, str_eq, eq_iff, if◌then◌else◌,
}
use text.Mathlib.Text.{starts_with}
use astroix.Documents.{
  RegistryRecord, RegistryDocument, VersionField, version, ParsedDocument, not_json, an_object,
  has_duplicates,
}
use astroix.Registry.{
  RegistryPlatform, Disk, register, restore, dispatch, write_all, RegistryCommand, write, persist,
  find_by,
}
use astroix.ProjectKey.{allocate_project_key, push_all, emit, key_text}
use astroix.Registry.Load.{load_state}
use astroix.Registry.Unique.{FitsSchema, IsValid}
use astroix.Registry.Classified.{SchemaLaws}
use astroix.Registry.Crash.{IsAtomic, crash_safe, load_again, load_state-IsValid}
use astroix.Registry.Dispatch.{dispatch-IsValid}

-- The key of sixteen zero bytes.
abbrev shop_key : String
shop_key = "aaaaaaaaaaaaaaaaaaaaaaaaaa"

abbrev zeroes : List ℕ
zeroes = 0 ∷ 0 ∷ 0 ∷ 0 ∷ 0 ∷ 0 ∷ 0 ∷ 0 ∷ 0 ∷ 0 ∷ 0 ∷ 0 ∷ 0 ∷ 0 ∷ 0 ∷ 0 ∷ []

abbrev shop_at : String → RegistryRecord
shop_at root = record { project_key = shop_key; canonical_root = root; display_name = "Shop" }

abbrev document_of : List RegistryRecord → RegistryDocument
document_of rs = record { records = rs }

abbrev shop_parse : String → ParsedDocument
shop_parse text =
    if starts_with text "/"
    then an_object (version 1) (some (record { records = shop_at text ∷ [] }))
    else if str_eq text "none"
    then an_object (version 1) (some (record { records = [] }))
    else not_json

abbrev shop_serialize : List RegistryRecord → String
shop_serialize [] = "none"
shop_serialize (r ∷ rs) = r.canonical_root

abbrev platform : RegistryPlatform
platform = record {
  parse = shop_parse;
  serialize = λ d. shop_serialize d.records;
  is_sanitized = λ text. str_eq text "Shop";
  is_project_key = λ text. str_eq text shop_key;
  basename = λ text. "Shop";
}

shop_at_fits :
    (text : String) → starts_with text "/" ≡ true → All (FitsSchema platform) (shop_at text ∷ [])
shop_at_fits text absolute = (record { key = refl; root = absolute; name = refl }, tt)

shop_fields_fit :
    (text : String) (v : VersionField) (d : RegistryDocument)
    → shop_parse text ≡ an_object v (some d)
    → All (FitsSchema platform) d.records
shop_fields_fit text v d e = elim (Bool-cases (starts_with text "/")) [
  | inl absolute ↦
      let same : document_of (shop_at text ∷ []) ≡ d = ground (arith, (rw absolute at e)) in
      subst (λ x. All (FitsSchema platform) x.records) same (shop_at_fits text absolute)
  | inr other ↦ elim (Bool-cases (str_eq text "none")) [
    | inl empty ↦
        let same : document_of [] ≡ d = ground (arith, (rw empty at (rw other at e))) in
        subst (λ x. All (FitsSchema platform) x.records) same tt
    | inr neither ↦ cc (rw neither at (rw other at e))
  ]
]

shop_round_trip :
    (rs : List RegistryRecord)
    → IsValid platform rs
    → shop_parse (shop_serialize rs) ≡ an_object (version 1) (some (record { records = rs }))
shop_round_trip [] v = refl
shop_round_trip (r ∷ []) v =
    let key : r.project_key ≡ shop_key = (eq_iff r.project_key shop_key).0 v.fits.0.key in
    let name : r.display_name ≡ "Shop" = (eq_iff r.display_name "Shop").0 v.fits.0.name in
    rw v.fits.0.root (cc (key, name))
shop_round_trip (r ∷ s ∷ rs) v =
    let own : r.project_key ≡ shop_key = (eq_iff r.project_key shop_key).0 v.fits.0.key in
    let other : s.project_key ≡ shop_key = (eq_iff s.project_key shop_key).0 v.fits.1.0.key in
    cc (v.differ.0.0.0, (eq_iff r.project_key s.project_key).1 (own ∙ sym other))

shop_laws : SchemaLaws platform
shop_laws = record { fields_fit = shop_fields_fit; round_trip = λ d. shop_round_trip d.records }

abbrev fresh_disk : Disk
fresh_disk = record { registry = none; last_known_good = none; quarantined = none }

abbrev register_shop : RegistryCommand
register_shop = register (some "/srv/shop") (some true) none (zeroes ∷ [])

shop_root_is_absolute : (root : String) → some "/srv/shop" ≡ some root → starts_with root "/" ≡ true
shop_root_is_absolute root e =
    let same : "/srv/shop" ≡ root = ground (arith, e) in
    subst (λ x. starts_with x "/" ≡ true) same refl

dispatch-IsValid_example :
    IsValid platform
      (dispatch platform register_shop fresh_disk
        (load_state platform fresh_disk).0).state.document.records
unfolding load_state
dispatch-IsValid_example =
    dispatch-IsValid platform shop_laws register_shop fresh_disk (load_state platform fresh_disk).0
      shop_root_is_absolute (load_state-IsValid platform shop_laws fresh_disk)

crash_safe_example :
    IsAtomic platform fresh_disk
      (load_state platform fresh_disk).0
      (dispatch platform register_shop fresh_disk (load_state platform fresh_disk).0)
unfolding load_state
crash_safe_example = crash_safe platform shop_laws register_shop fresh_disk shop_root_is_absolute

-- A registry that cannot be read, beside a snapshot that can.
abbrev torn_disk : Disk
torn_disk = record { registry = some "{"; last_known_good = some "/srv/shop"; quarantined = none }

load_again_example :
    (load_state platform (write_all (take 1 (load_state platform torn_disk).1) torn_disk)).0
    ≡ (load_state platform torn_disk).0
load_again_example = load_again platform torn_disk 1

registered_file :
    (write_all
      (dispatch platform register_shop fresh_disk (load_state platform fresh_disk).0).writes
      fresh_disk).registry
    ≡ some "/srv/shop"
unfolding load_state dispatch write_all write persist find_by allocate_project_key push_all emit
    key_text
registered_file = refl

restored_file :
    (write_all
      (dispatch platform restore torn_disk (load_state platform torn_disk).0).writes
      torn_disk).registry
    ≡ some "/srv/shop"
unfolding load_state dispatch write_all write persist find_by has_duplicates
restored_file = refl
