-- ===== src/Registry/Unique.antt =====
-- Every command keeps the registry's document valid: each record fits the schema, and no two have the
-- same key or the same root.
use astroix.Base.{
  String, Bool, subst, true, false, none, some, List, [], ◌∷◌, ◌++◌, map, ◌≡◌, refl, sym, ap, arith,
  str_eq, eq_iff, Bool-cases, inl, inr, remove, All, All-remove, All-append,
}
use text.Mathlib.Text.{starts_with}
use astroix.Documents.{RegistryRecord}
use astroix.Registry.{RegistryPlatform, find_by, has_key, has_root, renamed_in}

module _ (p : RegistryPlatform) where
  pub record FitsSchema (r : RegistryRecord) : Type 0 where
    pub key : p.is_project_key r.project_key ≡ true
    pub root : starts_with r.canonical_root "/" ≡ true
    pub name : p.is_sanitized r.display_name ≡ true

  -- Neither the key nor the root of one is that of the other.
  abbrev pub Differs : RegistryRecord → RegistryRecord → Type 0
  Differs a b =
      (str_eq a.project_key b.project_key ≡ false)
      × (str_eq a.canonical_root b.canonical_root ≡ false)

  abbrev pub AllDiffer : List RegistryRecord → Type 0
  AllDiffer [] = Unit
  AllDiffer (r ∷ rs) = All (Differs r) rs × AllDiffer rs

  pub record IsValid (rs : List RegistryRecord) : Type 0 where
    pub fits : All FitsSchema rs
    pub differ : AllDiffer rs

  remove-AllDiffer :
      (q : RegistryRecord → Bool) (rs : List RegistryRecord)
      → AllDiffer rs
      → AllDiffer (remove q rs)
  unfolding remove
  remove-AllDiffer q [] v = tt
  remove-AllDiffer q (r ∷ rs) v = elim (Bool-cases (q r)) [
    | inl out ↦ rw out (remove-AllDiffer q rs v.1)
    | inr kept ↦ rw kept (All-remove (Differs r) q rs v.0, remove-AllDiffer q rs v.1)
  ]

  pub remove-IsValid :
      (q : RegistryRecord → Bool) (rs : List RegistryRecord) → IsValid rs → IsValid (remove q rs)
  remove-IsValid q rs v = record {
    fits = All-remove FitsSchema q rs v.fits;
    differ = remove-AllDiffer q rs v.differ;
  }

  -- What a search that fails says of the records.
  pub find_by-none :
      (q : RegistryRecord → Bool) (rs : List RegistryRecord)
      → find_by q rs ≡ none
      → All (λ r. q r ≡ false) rs
  unfolding find_by
  find_by-none q [] e = tt
  find_by-none q (r ∷ rs) e = elim (Bool-cases (q r)) [
    | inl hit ↦ cc (rw hit at e)
    | inr miss ↦ (miss, find_by-none q rs (rw miss at e))
  ]

  -- What a search finds is a record that passes.
  pub find_by-some :
      (q : RegistryRecord → Bool) (rs : List RegistryRecord) (r : RegistryRecord)
      → All FitsSchema rs
      → find_by q rs ≡ some r
      → FitsSchema r × (q r ≡ true)
  unfolding find_by
  find_by-some q [] r v e = cc
  find_by-some q (s ∷ rs) r v e = elim (Bool-cases (q s)) [
    | inl hit ↦
        let same : s ≡ r = ground (arith, (rw hit at e)) in
        (subst FitsSchema same v.0, subst (λ x. q x ≡ true) same hit)
    | inr miss ↦ find_by-some q rs r v.1 (rw miss at e)
  ]

  append-AllDiffer :
      (rs : List RegistryRecord) (new : RegistryRecord)
      → All (λ r. has_key new.project_key r ≡ false) rs
      → All (λ r. has_root new.canonical_root r ≡ false) rs
      → AllDiffer rs
      → AllDiffer (rs ++ (new ∷ []))
  append-AllDiffer [] new keys roots v = (tt, tt)
  append-AllDiffer (r ∷ rs) new keys roots v = (
    All-append (Differs r) rs (new ∷ []) (v.0, ((keys.0, roots.0), tt)),
    append-AllDiffer rs new keys.1 roots.1 v.1,
  )

  pub append-IsValid :
      (rs : List RegistryRecord) (new : RegistryRecord)
      → FitsSchema new
      → All (λ r. has_key new.project_key r ≡ false) rs
      → All (λ r. has_root new.canonical_root r ≡ false) rs
      → IsValid rs
      → IsValid (rs ++ (new ∷ []))
  append-IsValid rs new own keys roots v = record {
    fits = All-append FitsSchema rs (new ∷ []) (v.fits, (own, tt));
    differ = append-AllDiffer rs new keys roots v.differ;
  }

  -- A rename keeps keys and roots.
  rename-Fits :
      (new : RegistryRecord) (rs : List RegistryRecord)
      → FitsSchema new
      → All FitsSchema rs
      → All FitsSchema (map (renamed_in p new) rs)
  rename-Fits new [] own v = tt
  rename-Fits new (r ∷ rs) own v = elim (Bool-cases (has_key new.project_key r)) [
    | inl hit ↦ rw hit (own, rename-Fits new rs own v.1)
    | inr miss ↦ rw miss (v.0, rename-Fits new rs own v.1)
  ]

  abbrev SameIds : RegistryRecord → RegistryRecord → Type 0
  SameIds a b = (a.project_key ≡ b.project_key) × (a.canonical_root ≡ b.canonical_root)

  map-Differs :
      (f : RegistryRecord → RegistryRecord) (r : RegistryRecord) (rs : List RegistryRecord)
      → SameIds (f r) r
      → All (λ s. SameIds (f s) s) rs
      → All (Differs r) rs
      → All (Differs (f r)) (map f rs)
  map-Differs f r [] same all v = tt
  map-Differs f r (s ∷ rs) same all v = (
    (cc (v.0.0, same.0, all.0.0), cc (v.0.1, same.1, all.0.1)),
    map-Differs f r rs same all.1 v.1,
  )

  map-AllDiffer :
      (f : RegistryRecord → RegistryRecord) (rs : List RegistryRecord)
      → All (λ s. SameIds (f s) s) rs
      → AllDiffer rs
      → AllDiffer (map f rs)
  map-AllDiffer f [] all v = tt
  map-AllDiffer f (r ∷ rs) all v =
      (map-Differs f r rs all.0 all.1 v.0, map-AllDiffer f rs all.1 v.1)

  -- A record with the key of the one that is found has its root.
  abbrev OwnsKey : String → RegistryRecord → RegistryRecord → Type 0
  OwnsKey key found r = has_key key r ≡ true → r.canonical_root ≡ found.canonical_root

  others-OwnsKey :
      (key : String) (found : RegistryRecord) (rs : List RegistryRecord)
      → has_key key found ≡ true
      → All (Differs found) rs
      → All (OwnsKey key found) rs
  others-OwnsKey key found [] hit v = tt
  others-OwnsKey key found (r ∷ rs) hit v = (
    λ same.
        let keys : found.project_key ≡ r.project_key =
          cc ((eq_iff found.project_key key).0 hit, (eq_iff r.project_key key).0 same) in
        cc (v.0.0, (eq_iff found.project_key r.project_key).1 keys),
    others-OwnsKey key found rs hit v.1,
  )

  find_by-OwnsKey :
      (key : String) (rs : List RegistryRecord) (found : RegistryRecord)
      → AllDiffer rs
      → find_by (has_key key) rs ≡ some found
      → All (OwnsKey key found) rs
  unfolding find_by
  find_by-OwnsKey key [] found v e = cc
  find_by-OwnsKey key (s ∷ rs) found v e = elim (Bool-cases (has_key key s)) [
    | inl hit ↦
        let same : s ≡ found = ground (arith, (rw hit at e)) in
        (
          λ ignored. ap (λ r. r.canonical_root) same,
          others-OwnsKey key found rs (subst (λ r. has_key key r ≡ true) same hit)
              (subst (λ r. All (Differs r) rs) same v.0),
        )
    | inr miss ↦ (λ hit. cc (hit, miss), find_by-OwnsKey key rs found v.1 (rw miss at e))
  ]

  renamed-SameIds :
      (new : RegistryRecord) (rs : List RegistryRecord)
      → All (OwnsKey new.project_key new) rs
      → All (λ r. SameIds (renamed_in p new r) r) rs
  renamed-SameIds new [] v = tt
  renamed-SameIds new (r ∷ rs) v = elim (Bool-cases (has_key new.project_key r)) [
    | inl hit ↦
        let keys : r.project_key ≡ new.project_key = (eq_iff r.project_key new.project_key).0 hit in
        rw hit ((sym keys, sym (v.0 hit)), renamed-SameIds new rs v.1)
    | inr miss ↦ rw miss ((refl, refl), renamed-SameIds new rs v.1)
  ]

  pub rename-IsValid :
      (key name : String) (found : RegistryRecord) (rs : List RegistryRecord)
      → find_by (has_key key) rs ≡ some found
      → p.is_sanitized name ≡ true
      → IsValid rs
      → IsValid (map (renamed_in p (record found { display_name = name })) rs)
  rename-IsValid key name found rs e ok v =
      let new : RegistryRecord = record found { display_name = name } in
      let own : FitsSchema found × (has_key key found ≡ true) =
        find_by-some (has_key key) rs found v.fits e in
      let same_key : key ≡ found.project_key = sym ((eq_iff found.project_key key).0 own.1) in
      record {
        fits = rename-Fits new rs (record { key = own.0.key; root = own.0.root; name = ok }) v.fits;
        differ =
            map-AllDiffer (renamed_in p new) rs
              (renamed-SameIds new rs (
                subst (λ k. All (OwnsKey k found) rs) same_key
                  (find_by-OwnsKey key rs found v.differ e)))
              v.differ;
      }
