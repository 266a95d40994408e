-- ===== src/World.antt =====
-- What the edit authority uses of Node: the answers that the file-system calls of one operation
-- get, and the pure functions of node:path, node:crypto and the UTF-8 codec.
--
-- An operation asks each path at most once by each call, so a `World` need not be one moment of the
-- file system: its answers may come from different moments between the operation's awaits.
use astroix.Base.{ℕ, ◌%◌, String, Bool, true, false, Option, List}
use astroix.Base.Fallible.{Fallible, ok, thrown}

pub record FileInfo : Type 0 where
  pub is_file : Bool
  pub is_directory : Bool
  pub nlink : ℕ
  pub mode : ℕ

pub data Lstat : Type 0 where
  absent broken : Lstat
  found : FileInfo → Lstat

-- `absent` is ENOENT, `broken` any other rejection. `realpath` and `read` are `none` where the call rejects. Contents are bytes.
pub record World : Type 0 where
  pub realpath : String → Option String
  pub lstat : String → Lstat
  pub read : String → Option (List ℕ)

-- `decode` gives the string contents as UTF-16 code units.
pub record Platform : Type 0 where
  pub join : String → String → String
  pub dirname : String → String
  pub sep : String
  pub sha256 : List ℕ → String
  pub decode : List ℕ → List ℕ
  pub encode : List ℕ → List ℕ

-- `await lstat`, where nothing catches a rejection.
abbrev pub stat {ℓ} : {E : Type ℓ} → World → String → Fallible E FileInfo
stat w path = elim (w.lstat path) [ found info ↦ ok info | _ ↦ thrown ]

-- The `lstat` in a `try` whose `catch` asks for ENOENT.
abbrev pub is_absent {ℓ} : {E : Type ℓ} → World → String → Fallible E Bool
is_absent w path = elim (w.lstat path) [
  | found info ↦ ok false
  | absent ↦ ok true
  | broken ↦ thrown
]

-- `mode & 0o7777`.
abbrev pub permission_bits : ℕ → ℕ
permission_bits mode = mode % 4096
