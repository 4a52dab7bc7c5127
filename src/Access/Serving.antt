-- ===== src/Access/Serving.antt =====
-- For whom auth.py lets a view be run.
use domain_lens.Prelude.{
  ℕ, ◌≡◌, refl, sym, ◌∙◌, ap, subst, inl, inr, ◌⊎◌, true, false, not, ◌&&◌, ◌||◌, Option, none,
  some, arith, Text, Bool-cases,
}
use domain_lens.Roles
use domain_lens.Roles.{normalize, at_least}
use domain_lens.Users.{User, Users, get_user}
use domain_lens.Sessions.{
  Reads, Signed, Session, Web, begin, number, current_user, _is_db_backed, issued_before,
}
use domain_lens.Sessions.Revoking.{current_user-role, current_user-stale}
use domain_lens.Account.Callers.{Kept-current_user, current_user-seen}
use domain_lens.Access.{
  Site, Hit, Access, passed, denied, no_token, _public_path, authenticate_api_token, gate,
  gate_user, gate_bearer, enforce_login_before_request, role_of, require_role, then_role, serve,
  token_user,
}

role_of-passed :
    (minimum : Text) (found : Option Signed)
    → role_of minimum found ≡ passed
    → (user : Signed) × (found ≡ some user) × (at_least user.role minimum ≡ true)
role_of-passed minimum none h = absurd (ground (arith, h))
role_of-passed minimum (some user) h = (user, refl, ground (arith, h))

gate_user-web : (hit : Hit) (looked : Web × Option Signed) → (gate_user hit looked).0 ≡ looked.0
gate_user-web hit (web, none) = refl
gate_user-web hit (web, some user) = ground arith

-- The caller that is looked up after the gate is the one of the cookie.
gate-caller :
    (site : Site) (reads : Reads) (hit : Hit) (t : Users) (s : Session)
    → (current_user reads none t ((gate site reads hit none t (begin s)).0)).1
      ≡ (current_user reads none t (begin s)).1
gate-caller site reads hit t s =
    let looked = current_user reads none t (begin s) in
    elim (Bool-cases (not (site.enabled && site.require_login) || _public_path hit.path)) [
      | inl open_to_all ↦ simp open_to_all refl
      | inr closed ↦ simp closed (
          ap (λ w. (current_user reads none t w).1) (gate_user-web hit looked)
          ∙ ap (λ c. c.1)
              (current_user-seen reads t (looked.0) (looked.1) (Kept-current_user reads t s).seen))
    ]

then_role-passed :
    (site : Site) (reads : Reads) (minimum : Text) (t : Users) (gated : Web × Access)
    → site.enabled ≡ true
    → then_role site reads minimum none t gated ≡ passed
    → role_of minimum ((current_user reads none t (gated.0)).1) ≡ passed
unfolding require_role
then_role-passed site reads minimum t (web, passed) on h = ground (arith, h, on)
then_role-passed site reads minimum t (web, denied why) on h = absurd (ground (arith, h))

-- A view that needs a role, where signing in is on: for a request without an API token and with the
-- session of an account, it is run only if the account is there and enabled at that moment, its
-- sessions of that age are not ended, and the role that it then has is at least the one that
-- the view needs; or if the read of the account fails and the role that the session holds is at
-- least that one.
pub serve-role :
    (site : Site) (reads : Reads) (authenticate : Text → Option Signed) (minimum : Text) (hit : Hit)
    (t : Users) (s : Session) (me : Signed) (id : ℕ)
    → site.enabled ≡ true
    → authenticate_api_token authenticate hit ≡ no_token
    → s.user ≡ some me
    → me.id ≡ number id
    → _is_db_backed me ≡ true
    → serve site reads authenticate minimum hit t (begin s) ≡ passed
    → ((reads.answers ≡ false) × (at_least me.role minimum ≡ true))
      ⊎ ((u : User) × (get_user id t ≡ some u)
          × (u.enabled ≡ true)
          × (issued_before me.issued_at u.sessions_valid_after ≡ false)
          × (at_least (normalize (some u.role) Roles.user) minimum ≡ true))
unfolding serve enforce_login_before_request
serve-role site reads authenticate minimum hit t s me id on bare here named backed done =
    let gated = gate site reads hit none t (begin s) in
    let let_in : then_role site reads minimum none t gated ≡ passed =
      subst
        (λ b.
          then_role site reads minimum (token_user b) t (gate_bearer site reads hit b t (begin s))
          ≡ passed)
        bare done in
    let role = then_role-passed site reads minimum t gated on let_in in
    let (user, found, enough) =
      role_of-passed minimum ((current_user reads none t (begin s)).1)
        (ap (role_of minimum) (sym (gate-caller site reads hit t s)) ∙ role) in
    let looked : current_user reads none t (begin s)
        ≡ ((current_user reads none t (begin s)).0, some user) =
      ap (λ f. ((current_user reads none t (begin s)).0, f)) found in
    elim (Bool-cases reads.answers) [
      | inl answered ↦
          let (u, there, able, fresh, same) =
            current_user-role reads t s me user ((current_user reads none t (begin s)).0) id here
              named backed answered looked in
          inr (u, there, able, fresh, subst (λ r. at_least r minimum ≡ true) same enough)
      | inr failed ↦
          let stale : some me ≡ some user =
            ap (λ p. p.1) (sym (current_user-stale reads t s me here failed) ∙ looked) in
          let same : me ≡ user = cc in
          inl (failed, subst (λ m. at_least m.role minimum ≡ true) (sym same) enough)
    ]
