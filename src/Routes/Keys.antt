-- ===== src/Routes/Keys.antt =====
-- packages/core/src/route-resolver.ts: what the keys of the hits say of the entries.
use astroix.Base.{
  String, Bool, true, false, not, ◌&&◌, Option, none, some, List, [], ◌∷◌, ◌≡◌, refl, ap, sym, ◌∙◌,
  ◌≢◌, arith, any, str_eq, eq_iff, subst, All, Bool-cases, inl, inr,
}
use Prim.Native.Char.{Char}
use Prim.Native.String.{◌++◌ as ◌<>◌}
use Prim.Native.String.append
use astroix.Routes.{RouteInfo, ActiveEntry, CollectionsIndex}
use astroix.Routes.Resolve.{hit_key, collections_with_entry}
use astroix.Routes.Hits.{lists, shows, capture, KeysOf, is_id}

-- No character of the text is the one that the key puts between the two names.
unfoldable pub is_free : String → Bool
is_free String.[] = true
is_free (String.◌∷◌ c text) = not (str_eq (String.◌∷◌ c "") "\0") && is_free text

head_text : String → String
head_text String.[] = ""
head_text (String.◌∷◌ c text) = String.◌∷◌ c ""

tail_text : String → String
tail_text String.[] = ""
tail_text (String.◌∷◌ c text) = text

with_tail : String → String → String
with_tail text String.[] = text
with_tail text (String.◌∷◌ c old) = String.◌∷◌ c text

-- The first character of a key, and the rest.
empty_key : (id : String) → (head_text (hit_key "" id) ≡ "\0") × (tail_text (hit_key "" id) ≡ id)
unfolding head_text tail_text
empty_key id =
    let e = append.nil ("\0" <> id) ∙ append.cons "\0" "" id in
    (ap head_text e, ap tail_text e ∙ append.nil id)

longer_key :
    (x : Char) (c id : String)
    → (head_text (hit_key (String.◌∷◌ x c) id) ≡ String.◌∷◌ x "")
      × (tail_text (hit_key (String.◌∷◌ x c) id) ≡ hit_key c id)
unfolding head_text tail_text
longer_key x c id = let e = append.cons x c ("\0" <> id) in (ap head_text e, ap tail_text e)

same_text :
    (x y : Char) (c d : String)
    → String.◌∷◌ x "" ≡ String.◌∷◌ y ""
    → c ≡ d
    → String.◌∷◌ x c ≡ String.◌∷◌ y d
unfolding with_tail
same_text x y c d e rest = ap (with_tail c) e ∙ ap (λ text. String.◌∷◌ y text) rest

starts_free : (x : Char) (c : String) → is_free (String.◌∷◌ x c) ≡ true → String.◌∷◌ x "" ≢ "\0"
unfolding is_free
starts_free x c free e =
    let apart : str_eq (String.◌∷◌ x "") "\0" ≡ false = ground (arith, free) in
    cc (apart, (eq_iff (String.◌∷◌ x "") "\0").1 e)

-- Two keys of names without the separator are equal only where the names are.
hit_key-injective :
    (c d id other : String)
    → is_free c ≡ true
    → is_free d ≡ true
    → hit_key c id ≡ hit_key d other
    → (c ≡ d) × (id ≡ other)
unfolding is_free
hit_key-injective String.[] String.[] id other free_c free_d e =
    (refl, sym (empty_key id).1 ∙ ap tail_text e ∙ (empty_key other).1)
hit_key-injective String.[] (String.◌∷◌ y d) id other free_c free_d e = absurd (
    starts_free y d free_d (sym (longer_key y d other).0 ∙ sym (ap head_text e) ∙ (empty_key id).0))
hit_key-injective (String.◌∷◌ x c) String.[] id other free_c free_d e =
    absurd
      (starts_free x c free_c (sym (longer_key x c id).0 ∙ ap head_text e ∙ (empty_key other).0))
hit_key-injective (String.◌∷◌ x c) (String.◌∷◌ y d) id other free_c free_d e =
    let rest =
      hit_key-injective c d id other (ground (arith, free_c)) (ground (arith, free_d))
        (sym (longer_key x c id).1 ∙ ap tail_text e ∙ (longer_key y d other).1) in
    (
      same_text x y c d (sym (longer_key x c id).0 ∙ ap head_text e ∙ (longer_key y d other).0)
          rest.0,
      rest.1,
    )

listed_key :
    (P : String → Type 0) (collection id : String) (collections : CollectionsIndex)
    → lists collection id collections ≡ true
    → All P (collections_with_entry id collections)
    → P collection
unfolding collections_with_entry
listed_key P collection id [] e h = cc
listed_key P collection id ((name, ids) ∷ collections) e h =
    elim (Bool-cases (any (λ x. str_eq x id) ids)) [
      | inr absent ↦
          listed_key P collection id collections (ground (arith, e, absent)) (rw absent at h)
      | inl present ↦
          let all : All P (name ∷ collections_with_entry id collections) = rw present at h in
          elim (Bool-cases (str_eq name collection)) [
            | inl here ↦ subst P ((eq_iff name collection).0 here) all.0
            | inr later ↦ listed_key P collection id collections (ground (arith, e, later)) all.1
          ]
    ]

-- A listed collection is free where all names are.
listed_free :
    (collection id : String) (collections : CollectionsIndex)
    → All (λ c. is_free c.0 ≡ true) collections
    → lists collection id collections ≡ true
    → is_free collection ≡ true
listed_free collection id [] free e = cc
listed_free collection id ((name, ids) ∷ collections) free e =
    elim (Bool-cases (str_eq name collection)) [
      | inl here ↦ subst (λ c. is_free c ≡ true) ((eq_iff name collection).0 here) free.0
      | inr later ↦ listed_free collection id collections free.1 (ground (arith, e, later))
    ]

module _ (url : List String) (collections : CollectionsIndex) where
  captured_key :
      (P : String → Type 0) (collection id : String) (o : Option String)
      → is_id url collections id o ≡ true
      → lists collection id collections ≡ true
      → KeysOf url collections P o
      → P (hit_key collection id)
  captured_key P collection id none shown listed h = cc
  captured_key P collection id (some own) shown listed h =
      let same : own ≡ id = (eq_iff own id).0 shown in
      listed_key (λ c. P (hit_key c id)) collection id collections listed
        (subst (λ k. KeysOf url collections P (some k)) same h)

  shown_key :
      (P : String → Type 0) (collection id : String) (routes : List RouteInfo)
      → shows url collections routes id ≡ true
      → lists collection id collections ≡ true
      → All (λ route. KeysOf url collections P (capture url collections route)) routes
      → P (hit_key collection id)
  shown_key P collection id [] shown listed h = cc
  shown_key P collection id (route ∷ routes) shown listed h =
      elim (Bool-cases (is_id url collections id (capture url collections route))) [
        | inl here ↦ captured_key P collection id (capture url collections route) here listed h.0
        | inr later ↦ shown_key P collection id routes (ground (arith, shown, later)) listed h.1
      ]

  -- Where the keys of all that is shown and listed are the key of one entry, it is the only entry.
  pub only_entry :
      (entry other : ActiveEntry) (routes : List RouteInfo)
      → All (λ c. is_free c.0 ≡ true) collections
      → lists entry.collection entry.entry_id collections ≡ true
      → All
          (λ route.
            KeysOf url collections
              (λ k. k ≡ hit_key entry.collection entry.entry_id)
              (capture url collections route))
          routes
      → lists other.collection other.entry_id collections ≡ true
      → shows url collections routes other.entry_id ≡ true
      → other ≡ entry
  only_entry entry other routes free own keys listed shown =
      let same =
        hit_key-injective other.collection entry.collection other.entry_id entry.entry_id
          (listed_free other.collection other.entry_id collections free listed)
          (listed_free entry.collection entry.entry_id collections free own)
          (shown_key (λ k. k ≡ hit_key entry.collection entry.entry_id) other.collection
            other.entry_id routes shown listed keys) in
      cc (same.0, same.1)
