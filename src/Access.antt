-- ===== src/Access.antt =====
-- auth.py: what stands before every handler, and before those that need a role. The answer of
-- api_tokens.py to a token is an argument. That a denial for a role is recorded in the audit log
-- is left out. `site` is what the settings say of signing in.
pub mod Serving
mod Tests
use domain_lens.Prelude.{
  ℕ, zero, suc, Bool, true, false, not, ◌&&◌, ◌||◌, Option, none, some, List, [], ◌∷◌, Text, codes,
  text_eq, strip, lower, starts_with, if◌then◌else◌,
}
use domain_lens.Roles
use domain_lens.Roles.{normalize, at_least}
use domain_lens.Users.{Users, or_empty}
use domain_lens.Sessions.{Reads, Signed, Web, current_user}

pub record Site : Type 0 where
  pub enabled : Bool
  pub require_login : Bool

-- A request: its path, its method and its header `Authorization`.
pub record Hit : Type 0 where
  pub path : Text
  pub method : Text
  pub authorization : Option Text

pub data Denial : Type 0 where
  token_elsewhere bad_token read_only login_needed role_needed : Denial

pub data Access : Type 0 where
  passed : Access
  denied : Denial → Access

-- What the header says: no token of this program, a refusal, or the token's owner.
pub data Bearer : Type 0 where
  no_token : Bearer
  refused : Denial → Bearer
  owner : Signed → Bearer

unfoldable pub starts_any : Text → List Text → Bool
unfolding starts_with
starts_any s [] = false
starts_any s (p ∷ rest) = starts_with s p || starts_any s rest

-- `path == p or path.startswith(p)` is the latter.
abbrev pub public_prefixes : List Text
public_prefixes =
    codes "/health"
    ∷ codes "/api/health"
    ∷ codes "/api/version"
    ∷ codes "/api/auth/me"
    ∷ codes "/login"
    ∷ codes "/auth/"
    ∷ codes "/static/"
    ∷ codes "/i18n/nl-ui.json"
    ∷ codes "/scim/"
    ∷ codes "/oauth/token"
    ∷ codes "/.well-known/"
    ∷ []

unfoldable pub _public_path : Text → Bool
unfolding starts_any text_eq
_public_path path = text_eq path (codes "/favicon.ico") || starts_any path public_prefixes

abbrev pub _viewer_writable_prefixes : List Text
_viewer_writable_prefixes =
    codes "/logout"
    ∷ codes "/auth/"
    ∷ codes "/account/"
    ∷ codes "/api/locale"
    ∷ codes "/api/preferences/"
    ∷ []

abbrev pub is_safe : Text → Bool
is_safe method =
    text_eq method (codes "GET")
    || text_eq method (codes "HEAD")
    || text_eq method (codes "OPTIONS")

unfoldable pub _viewer_may : Text → Text → Bool
unfolding starts_any text_eq
_viewer_may path method = is_safe method || starts_any path _viewer_writable_prefixes

abbrev pub without_first : ℕ → Text → Text
without_first n [] = []
without_first zero (c ∷ s) = c ∷ s
without_first (suc n) (c ∷ s) = without_first n s

abbrev pub owner_or : Option Signed → Bearer
owner_or none = refused bad_token
owner_or (some user) = owner user

-- `authenticate_api_token`.
unfoldable pub authenticate_api_token : (Text → Option Signed) → Hit → Bearer
unfolding starts_with starts_any lower strip
authenticate_api_token authenticate hit =
    let header = or_empty hit.authorization in
    let raw = strip (without_first 7 header) in
    if not (starts_with (lower header) (codes "bearer "))
    then no_token
    else if not (starts_with raw (codes "dlk_"))
    then no_token
    else if not (starts_any hit.path (codes "/api/" ∷ codes "/metrics" ∷ []))
    then refused token_elsewhere
    else owner_or (authenticate raw)

abbrev pub gate_user : Hit → Web × Option Signed → Web × Access
gate_user hit (web, none) = (web, denied login_needed)
gate_user hit (web, some user) =
    if text_eq (normalize (some user.role) Roles.user) Roles.viewer
      && not (_viewer_may hit.path hit.method)
    then (web, denied read_only)
    else (web, passed)

abbrev pub gate : Site → Reads → Hit → Option Signed → Users → Web → Web × Access
gate site reads hit token_user t web =
    if not (site.enabled && site.require_login) || _public_path hit.path
    then (web, passed)
    else gate_user hit (current_user reads token_user t web)

-- The owner of a token that is accepted.
abbrev pub token_user : Bearer → Option Signed
token_user no_token = none
token_user (refused why) = none
token_user (owner user) = some user

abbrev pub gate_bearer : Site → Reads → Hit → Bearer → Users → Web → Web × Access
gate_bearer site reads hit no_token t web = gate site reads hit none t web
gate_bearer site reads hit (refused why) t web = (web, denied why)
gate_bearer site reads hit (owner user) t web = gate site reads hit (some user) t web

unfoldable pub enforce_login_before_request :
    Site → Reads → (Text → Option Signed) → Hit → Users → Web → Web × Access
unfolding authenticate_api_token _public_path _viewer_may current_user normalize
enforce_login_before_request site reads authenticate hit t web =
    gate_bearer site reads hit (authenticate_api_token authenticate hit) t web

abbrev pub role_of : Text → Option Signed → Access
role_of minimum none = denied role_needed
role_of minimum (some user) = if at_least user.role minimum then passed else denied role_needed

-- `require_role`, on a request that comes through.
unfoldable pub require_role : Site → Reads → Text → Option Signed → Users → Web → Access
unfolding current_user at_least
require_role site reads minimum token_user t web =
    if not site.enabled then passed else role_of minimum ((current_user reads token_user t web).1)

abbrev pub then_role : Site → Reads → Text → Option Signed → Users → Web × Access → Access
then_role site reads minimum caller t (web, passed) = require_role site reads minimum caller t web
then_role site reads minimum caller t (web, denied why) = denied why

-- Whether the view of a role is run for a request.
unfoldable pub serve : Site → Reads → (Text → Option Signed) → Text → Hit → Users → Web → Access
unfolding enforce_login_before_request require_role authenticate_api_token
serve site reads authenticate minimum hit t web =
    then_role site reads minimum (token_user (authenticate_api_token authenticate hit)) t
      (enforce_login_before_request site reads authenticate hit t web)
