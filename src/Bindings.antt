-- ===== src/Bindings.antt =====
-- packages/runtime/api/http/client-bindings.ts: the table of client bindings on the HTTP side.
--
-- The capability is an argument of `bind_http`: the one that the caller gives, or the one that
-- `randomBytes` draws. The digest of the comparator is a parameter.
use astroix.Base.{
  ℕ, String, Bool, true, false, Option, none, some, List, [], ◌∷◌, if◌then◌else◌, leb, str_eq,
}
use astroix.Base.Dict.{put, delete, count_if}
use astroix.Session.{SessionRef}
use astroix.Clients.{same_secret}

pub data ClientRole : Type 0 where
  launcher editor diagnostic : ClientRole

pub data VirtualHostClass : Type 0 where
  launcher project : VirtualHostClass

pub record ClientBinding : Type 0 where
  pub role : ClientRole
  pub host : VirtualHostClass
  pub session_ref : Option SessionRef

pub data BindingRefusalReason : Type 0 where
  second_editor fourth_diagnostic : BindingRefusalReason

pub data BindingResult : Type 0 where
  bound : (capability : String) → BindingResult
  refused : BindingRefusalReason → BindingResult

abbrev pub HttpBindings : Type 0
HttpBindings = List (String × ClientBinding)

abbrev pub same_role : ClientRole → ClientRole → Bool
same_role ClientRole.launcher ClientRole.launcher = true
same_role editor editor = true
same_role diagnostic diagnostic = true
same_role _ _ = false

unfoldable pub count_role : ClientRole → HttpBindings → ℕ
count_role role = count_if (λ b. same_role b.role role)

abbrev pub over_cap : ClientRole → HttpBindings → Option BindingRefusalReason
over_cap ClientRole.launcher live = none
over_cap editor live = if leb 1 (count_role editor live) then some second_editor else none
over_cap diagnostic live =
    if leb 3 (count_role diagnostic live) then some fourth_diagnostic else none

abbrev pub install_http :
    Option BindingRefusalReason
    → String
    → ClientBinding
    → HttpBindings
    → HttpBindings × BindingResult
install_http (some reason) capability input live = (live, refused reason)
install_http none capability input live = (put live capability input, bound capability)

unfoldable pub bind_http : String → ClientBinding → HttpBindings → HttpBindings × BindingResult
bind_http capability input live = install_http (over_cap input.role live) capability input live

unfoldable pub unbind : String → HttpBindings → HttpBindings
unbind capability = delete capability

module _ (digest : String → String) where
  -- The loop of `resolve`.
  unfoldable pub resolve_secret : String → HttpBindings → Option ClientBinding
  resolve_secret presented [] = none
  resolve_secret presented ((capability, b) ∷ live) =
      if same_secret digest presented capability then some b else resolve_secret presented live

  abbrev pub resolve : Option String → HttpBindings → Option ClientBinding
  resolve none live = none
  resolve (some presented) live =
      if str_eq presented "" then none else resolve_secret presented live
