-- ===== src/Account/Replacing.antt =====
-- When the account page of app.py replaces an authenticator.
use domain_lens.Prelude.{
  ℕ, ◌+◌, ◌-◌, ◌≤◌, ◌<◌, ◌≡◌, refl, sym, ap, ◌∙◌, subst, inl, inr, ◌⊎◌, true, Option, none, some,
  List, arith, ltb, Text, strip, Bool-cases, Option-cases,
}
use domain_lens.Users.{Users, get_user, or_empty}
use domain_lens.Login.{verify_totp}
use domain_lens.Sessions.{Identity, number, Signed, Session, Web, begin, current_user, Reply}
use domain_lens.Account.{
  Given, caller, is_on, for_caller, account_mfa_confirm, confirm_with, confirm_as,
  _mfa_replace_window, or_zero,
}
use domain_lens.Account.Callers.{Kept, Kept-current_user}
use domain_lens.Account.Proving.{Moment, Run, IsProof, Happened, Holds, local_caller-found}
use domain_lens.Account.Steps.{Holds-run}

-- What a session has shown that may replace the authenticator of its account.
pub record MayReplace (h : List Moment) (s : Session) (g : Given) (id : Identity) (code : Text)
    : Type 0 where
  pub at : ℕ
  pub holds : s.replace_verified_at ≡ some at
  pub recent : g.now ≤ at + _mfa_replace_window
  pub proof : Happened (IsProof id at) h
  pub new_code : verify_totp g.tools.hmac g.now (or_empty s.setup_secret) (strip code) ≡ true

confirm_with-table :
    (g : Given) (backup : List Text) (code : Text) (web : Web) (t : Users) (id : ℕ)
    → _mfa_replace_window < g.now
    → ((confirm_with g backup code web t true id).table ≡ t)
      ⊎ ((at : ℕ) × (web.session.replace_verified_at ≡ some at)
          × (g.now ≤ at + _mfa_replace_window)
          × (verify_totp g.tools.hmac g.now (or_empty web.session.setup_secret) (strip code)
              ≡ true))
confirm_with-table g backup code web t id past =
    let secret = or_empty web.session.setup_secret in
    elim (Bool-cases (ltb _mfa_replace_window (g.now - or_zero web.session.replace_verified_at))) [
      | inl late ↦ inl (simp late refl)
      | inr ok ↦ elim (Bool-cases (verify_totp g.tools.hmac g.now secret (strip code))) [
        | inr wrong ↦ inl (simp (ok, wrong) refl)
        | inl right ↦ elim (Option-cases web.session.replace_verified_at) [
          | inl never ↦ absurd (ground (arith, ok, never, past))
          | inr (at, since) ↦ inr (at, since, ground (arith, ok, since), right)
        ]
      ]
    ]

confirm_as-table :
    (h : List Moment) (g : Given) (backup : List Text) (code : Text) (s : Session) (web : Web)
    (t : Users) (user me : Signed) (id : ℕ)
    → Kept s (some user) web
    → s.user ≡ some me
    → me.id ≡ number id
    → is_on (get_user id t) ≡ true
    → _mfa_replace_window < g.now
    → Holds h s
    → ((confirm_as g backup code web t user.id).table ≡ t) ⊎ MayReplace h s g me.id code
confirm_as-table h g backup code s web t user me id kept here named on past inv =
    let (me', here', same) = kept.id user refl in
    let mine : user.id ≡ number id =
      sym same
      ∙ (let both = sym here' ∙ here in let eq : me' ≡ me = cc in ap (λ m. m.id) eq)
      ∙ named in
    subst (λ i. ((confirm_as g backup code web t i).table ≡ t) ⊎ MayReplace h s g me.id code)
      (sym mine)
      (subst
        (λ b. ((confirm_with g backup code web t b id).table ≡ t) ⊎ MayReplace h s g me.id code)
        (sym on)
        (elim (confirm_with-table g backup code web t id past) [
          | inl kept_table ↦ inl kept_table
          | inr (at, since, recent, right) ↦
              let holds = sym kept.at ∙ since in
              inr record {
                at = at;
                holds = holds;
                recent = recent;
                proof = inv at me holds here;
                new_code =
                    subst (λ x. verify_totp g.tools.hmac g.now (or_empty x) (strip code) ≡ true)
                      kept.secret right;
              }
        ]))

for_caller-table :
    (P : Users → Type 0) (c : Web × Option Signed) (t : Users) (handle : Web → Signed → Reply)
    → P t
    → ((user : Signed) → c.1 ≡ some user → P (handle (c.0) user).table)
    → P (for_caller c t handle).table
for_caller-table P (web, none) t handle out go = out
for_caller-table P (web, some user) t handle out go = go user refl

-- Whatever a browser asked the account page for before, on an account whose second factor is on,
-- and once the clock shows more than ten minutes: a request that confirms a new authenticator
-- changes no account, or the session has given the password of that account and an accepted code of
-- its authenticator or a backup code, at most ten minutes ago, and the new code is one of the
-- secret that the session holds.
pub account_mfa_confirm-MayReplace :
    (h : List Moment) (s : Session) (t : Users) (g : Given) (backup : List Text) (code : Text)
    (me : Signed) (id : ℕ)
    → Run h s t
    → s.user ≡ some me
    → me.id ≡ number id
    → is_on (get_user id t) ≡ true
    → _mfa_replace_window < g.now
    → ((account_mfa_confirm g backup code (begin s) t).table ≡ t) ⊎ MayReplace h s g me.id code
unfolding account_mfa_confirm
account_mfa_confirm-MayReplace h s t g backup code me id run here named on past =
    let found = (current_user g.reads none t (begin s)).1 in
    let web = (current_user g.reads none t (begin s)).0 in
    for_caller-table (λ t'. (t' ≡ t) ⊎ MayReplace h s g me.id code) (caller g t (begin s)) t
      (λ web user. confirm_as g backup code web t user.id) (inl refl)
      (λ user e.
        confirm_as-table h g backup code s web t user me id
          (subst (λ f. Kept s f web) (local_caller-found found user e)
            (Kept-current_user g.reads t s))
          here named on past (Holds-run h s t run))
