-- ===== src/Grants/Checks.antt =====
-- What a chain of checks has established when it succeeds, and that a grant which was just issued
-- verifies.
use astroix.Base.{
  ℕ, String, true, ◌≡◌, sym, subst, Option, none, some, List, arith, eq_iff, eq_refl, leb,
}
use astroix.Session.{SessionRef}
use astroix.World.{World, Platform, FileInfo, absent, found}
use astroix.Grants.Vocabulary.{
  create_contents, sha256, expected_absent, permits, kind_operations, creation_operations,
  existing_text_operations, operations_are_subset, existing, creation, GrantedResource,
  is_project_relative, is_file_name_segment, is_canonical_descendant, is_creation_parent,
}
use astroix.Base.Fallible.{ok}
use astroix.Grants.{
  DiscoveredTextResource, DiscoveredCreationResource, DiscoveredResource, existing_text,
  creation_slot, issue_existing, issue_creation, issue_resource, verify,
}

-- What the issuance of a grant on existing text has established.
pub record ExistingFacts (p : Platform) (w : World) (root : String) (d : DiscoveredTextResource)
    (session : SessionRef) (r : GrantedResource) : Type 0 where
  pub canonical : String
  pub info : FileInfo
  pub bytes : List ℕ
  pub relative : is_project_relative d.path ≡ true
  pub subset : operations_are_subset (existing_text_operations d.kind) r.operations ≡ true
  pub resolved : w.realpath (p.join root d.path) ≡ some canonical
  pub inside : is_canonical_descendant p.sep root canonical ≡ true
  pub statted : w.lstat canonical ≡ found info
  pub file : info.is_file ≡ true
  pub single : leb info.nlink 1 ≡ true
  pub contents : w.read canonical ≡ some bytes
  pub digest : p.sha256 bytes ≡ d.revision
  pub root_of : r.canonical_root ≡ root
  pub session_of : r.session ≡ session
  pub kind_of : r.kind ≡ d.kind
  pub baseline_of : r.baseline ≡ sha256 d.revision
  pub target_of : r.target ≡ existing canonical

issue_existing_values :
    (p : Platform) (w : World) (root : String) (d : DiscoveredTextResource) (session : SessionRef)
    (r : GrantedResource)
    → issue_existing p w root d session ≡ ok r
    → (canonical : String) × (w.realpath (p.join root d.path) ≡ some canonical)
      × ((info : FileInfo) × (w.lstat canonical ≡ found info))
      × ((bytes : List ℕ) × (w.read canonical ≡ some bytes))
unfolding issue_existing
issue_existing_values p w root d session r e = ground arith

pub issue_existing-ExistingFacts :
    (p : Platform) (w : World) (root : String) (d : DiscoveredTextResource) (session : SessionRef)
    (r : GrantedResource)
    → issue_existing p w root d session ≡ ok r
    → ExistingFacts p w root d session r
unfolding issue_existing
issue_existing-ExistingFacts p w root d session r e =
    let (canonical, resolved, (info, statted), (bytes, contents)) =
      issue_existing_values p w root d session r e in
    record {
      canonical = canonical;
      info = info;
      bytes = bytes;
      relative = ground arith;
      subset = ground arith;
      resolved = resolved;
      inside = ground arith;
      statted = statted;
      file = ground arith;
      single = ground arith;
      contents = contents;
      digest = (eq_iff _ _).0 (ground arith);
      root_of = ground arith;
      session_of = ground arith;
      kind_of = ground arith;
      baseline_of = ground arith;
      target_of = ground arith;
    }

-- What the issuance of a creation grant has established.
pub record CreationFacts (p : Platform) (w : World) (root : String) (d : DiscoveredCreationResource)
    (session : SessionRef) (r : GrantedResource) : Type 0 where
  pub parent : String
  pub info : FileInfo
  pub kind : permits (kind_operations d.kind) create_contents ≡ true
  pub relative : is_project_relative d.parent_path ≡ true
  pub segment : is_file_name_segment d.file_name ≡ true
  pub subset : operations_are_subset creation_operations r.operations ≡ true
  pub resolved : w.realpath (p.join root d.parent_path) ≡ some parent
  pub inside : is_creation_parent p.sep root parent ≡ true
  pub statted : w.lstat parent ≡ found info
  pub directory : info.is_directory ≡ true
  pub free : w.lstat (p.join parent d.file_name) ≡ absent
  pub root_of : r.canonical_root ≡ root
  pub session_of : r.session ≡ session
  pub kind_of : r.kind ≡ d.kind
  pub baseline_of : r.baseline ≡ expected_absent
  pub target_of : r.target ≡ creation parent d.file_name

issue_creation_values :
    (p : Platform) (w : World) (root : String) (d : DiscoveredCreationResource)
    (session : SessionRef) (r : GrantedResource)
    → issue_creation p w root d session ≡ ok r
    → (parent : String) × (w.realpath (p.join root d.parent_path) ≡ some parent)
      × ((info : FileInfo) × (w.lstat parent ≡ found info))
      × (w.lstat (p.join parent d.file_name) ≡ absent)
unfolding issue_creation
issue_creation_values p w root d session r e = ground arith

pub issue_creation-CreationFacts :
    (p : Platform) (w : World) (root : String) (d : DiscoveredCreationResource)
    (session : SessionRef) (r : GrantedResource)
    → issue_creation p w root d session ≡ ok r
    → CreationFacts p w root d session r
unfolding issue_creation
issue_creation-CreationFacts p w root d session r e =
    let (parent, resolved, (info, statted), free) = issue_creation_values p w root d session r e in
    record {
      parent = parent;
      info = info;
      kind = ground arith;
      relative = ground arith;
      segment = ground arith;
      subset = ground arith;
      resolved = resolved;
      inside = ground arith;
      statted = statted;
      directory = ground arith;
      free = free;
      root_of = ground arith;
      session_of = ground arith;
      kind_of = ground arith;
      baseline_of = ground arith;
      target_of = ground arith;
    }

-- `realpath` of a resolved path is that path.
abbrev pub IsCanonical : World → Type 0
IsCanonical w =
    (path canonical : String)
    → w.realpath path ≡ some canonical
    → w.realpath canonical ≡ some canonical

existing_verifies :
    (p : Platform) (w : World) (root : String) (d : DiscoveredTextResource) (session : SessionRef)
    (r : GrantedResource)
    → IsCanonical w
    → ExistingFacts p w root d session r
    → (text : Option (List ℕ)) × (verify p w r ≡ ok text)
unfolding verify
existing_verifies p w root d session r stable f =
    let again = stable _ _ f.resolved in
    let same = (eq_iff (p.sha256 f.bytes) d.revision).1 f.digest in
    let inside =
      subst (λ x. is_canonical_descendant p.sep x f.canonical ≡ true) (sym f.root_of) f.inside in
    (some (p.decode f.bytes), ground (arith, again, same, inside, eq_refl f.canonical))

creation_verifies :
    (p : Platform) (w : World) (root : String) (d : DiscoveredCreationResource)
    (session : SessionRef) (r : GrantedResource)
    → IsCanonical w
    → CreationFacts p w root d session r
    → (text : Option (List ℕ)) × (verify p w r ≡ ok text)
unfolding verify
creation_verifies p w root d session r stable f =
    let again = stable _ _ f.resolved in
    let inside = subst (λ x. is_creation_parent p.sep x f.parent ≡ true) (sym f.root_of) f.inside in
    (none, ground (arith, again, inside, eq_refl f.parent))

-- Where realpath of a resolved path is that path, a resource that passes the checks of issuance
-- passes verification against the same answers of the file system.
pub verify_of_issue :
    (p : Platform) (w : World) (root : String) (d : DiscoveredResource) (session : SessionRef)
    (r : GrantedResource)
    → IsCanonical w
    → issue_resource p w root d session ≡ ok r
    → (text : Option (List ℕ)) × (verify p w r ≡ ok text)
verify_of_issue p w root (existing_text d) session r stable e =
    existing_verifies p w root d session r stable
      (issue_existing-ExistingFacts p w root d session r e)
verify_of_issue p w root (creation_slot d) session r stable e =
    creation_verifies p w root d session r stable
      (issue_creation-CreationFacts p w root d session r e)
