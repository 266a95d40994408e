-- ===== src/Grants/Sample.antt =====
-- A platform, a small file system and the resources that the tests issue. Paths are joined by a
-- slash, and every content has one digest.
use astroix.Base.{String, true, false, Option, some, none, [], ◌∷◌, str_eq, if◌then◌else◌}
use Prim.Native.String.{◌++◌}
use astroix.Session.{SessionRef}
use astroix.World.{World, Platform, FileInfo, absent, found}
use astroix.Grants.Vocabulary.{
  content, css, splice, replace_contents, sha256, existing, GrantedResource,
}
use astroix.Grants.{DiscoveredTextResource, DiscoveredResource, creation_slot}

abbrev pub digest : String
digest = "dddddddddddddddddddddddddddddddddddddddddddddddddddddddddddddddd"

abbrev pub node : Platform
node = record {
  join = λ a b. a ++ "/" ++ b;
  dirname = λ path. "/p";
  sep = "/";
  sha256 = λ bytes. digest;
  decode = λ bytes. bytes;
  encode = λ units. units;
}

abbrev pub file : FileInfo
file = record { is_file = true; is_directory = false; nlink = 1; mode = 420 }

abbrev pub directory : FileInfo
directory = record { is_file = false; is_directory = true; nlink = 3; mode = 493 }

abbrev pub disk : World
disk = record {
  realpath = λ path.
      if str_eq path "/p/a.css"
      then some "/p/a.css"
      else if str_eq path "/p/src"
      then some "/p/src"
      else none;
  lstat = λ path.
      if str_eq path "/p/a.css"
      then found file
      else if str_eq path "/p/src"
      then found directory
      else absent;
  read = λ path. some (1 ∷ []);
}

abbrev pub disk_rest : String → Option String
disk_rest path = if str_eq path "/p/src" then some "/p/src" else none

abbrev pub now : SessionRef
now = record { runtime_epoch = "e"; generation = 2 }

abbrev pub token_a : String
token_a = "AAAAAAAAAAAAAAAAAAAAAAAAAAAAAAAAAAAAAAAAAA0"

abbrev pub token_b : String
token_b = "AAAAAAAAAAAAAAAAAAAAAAAAAAAAAAAAAAAAAAAAAA1"

abbrev pub sheet : DiscoveredTextResource
sheet = record { kind = css; path = "a.css"; revision = digest; operations = none }

abbrev pub slot : DiscoveredResource
slot =
    creation_slot
      (record { kind = content; parent_path = "src"; file_name = "n.md"; operations = none })

abbrev pub sheet_resource : GrantedResource
sheet_resource = record {
  canonical_root = "/p";
  session = now;
  kind = css;
  operations = replace_contents ∷ splice ∷ [];
  display_path = "a.css";
  baseline = sha256 digest;
  target = existing "/p/a.css";
}
