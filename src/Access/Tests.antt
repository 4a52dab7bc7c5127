-- ===== src/Access/Tests.antt =====
-- Runs of the checks of auth.py before a view, and its theorem there.
use domain_lens.Prelude.{◌≡◌, refl, ◌⊎◌, true, false, Option, none, some, Text, codes, text_eq}
use domain_lens.Roles
use domain_lens.Roles.{normalize, at_least}
use domain_lens.Users.{User, get_user}
use domain_lens.Login.Tests.{table}
use domain_lens.Sessions.{Signed, begin, cleared, issued_before, _is_db_backed}
use domain_lens.Sessions.Tests.{me, signed_session, reads}
use domain_lens.Access.{
  Site, Hit, passed, denied, login_needed, role_needed, serve, authenticate_api_token,
}
use domain_lens.Access.Serving.{serve-role}

abbrev site : Site
site = record { enabled = true; require_login = true }

abbrev hit : Hit
hit = record { path = codes "/scan"; method = codes "POST"; authorization = none }

abbrev no_tokens : Text → Option Signed
no_tokens raw = none

served_run : serve site reads no_tokens Roles.user hit table (begin signed_session) ≡ passed
unfolding serve
served_run = refl

admin_run :
    serve site reads no_tokens Roles.admin hit table (begin signed_session) ≡ denied role_needed
unfolding serve
admin_run = refl

nobody_run : serve site reads no_tokens Roles.user hit table (begin cleared) ≡ denied login_needed
unfolding serve
nobody_run = refl

serve-role_example :
    ((reads.answers ≡ false) × (at_least me.role Roles.user ≡ true))
    ⊎ ((u : User) × (get_user 1 table ≡ some u)
        × (u.enabled ≡ true)
        × (issued_before me.issued_at u.sessions_valid_after ≡ false)
        × (at_least (normalize (some u.role) Roles.user) Roles.user ≡ true))
serve-role_example =
    serve-role site reads no_tokens Roles.user hit table signed_session me 1 refl
      (unfold authenticate_api_token in refl) refl refl (unfold _is_db_backed text_eq in refl)
      served_run
