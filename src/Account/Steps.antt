-- ===== src/Account/Steps.antt =====
-- Each request to the account page of app.py keeps what a session holds.
use domain_lens.Prelude.{
  ℕ, ◌-◌, ◌≡◌, refl, sym, ap, ◌∙◌, subst, inl, inr, Bool, true, false, ◌&&◌, Option, none, some,
  List, [], ◌∷◌, arith, ltb, Text, text_eq, strip, if◌then◌else◌, Bool-cases, Option-cases,
}
use domain_lens.Users.{
  set_mfa_enabled, set_mfa_secret, set_backup_codes, User, Users, get_user, or_empty,
}
use domain_lens.Login.{save, verify_totp, Fault, validate_password}
use domain_lens.Sessions.{
  Reads, Identity, number, missing, Signed, Session, Web, current_user, second_factor, account_page,
  mfa_is_required, revoke_other_sessions,
}
use domain_lens.Account.{
  Given, row_of, knows, is_on, reply, replace_with, replace_as, account_mfa_start,
  account_mfa_replace, account_mfa_cancel, account_mfa_confirm, account_mfa_disable,
  account_change_password, confirm_with, confirm_as, confirmed, disable_as, turned_off,
  _mfa_replace_window, or_zero, change_as, with_faults, start_as, ended, with_proof, with_flag,
  once, confirmed_table,
}
use domain_lens.Account.Callers.{Kept, Kept-current_user, current_user-seen, current_user-unseen}
use domain_lens.Account.Proving.{
  Request, password_change, start, replacement_cancelled, replace, confirm, disable, Moment, answer,
  Run, enter, enter_again, elsewhere, asked, IsProof, Happened, Holds, Holds-none, Holds-through,
}

with_faults-web :
    (g : Given) (salt : List ℕ) (password : Text) (web : Web) (t : Users) (user : Signed) (u : User)
    (faults : List Fault)
    → (with_faults g salt password web t user u faults).web ≡ web
with_faults-web g salt password web t user u [] = refl
with_faults-web g salt password web t user u (f ∷ fs) = refl

change_as-web :
    (g : Given) (salt : List ℕ) (current password again : Text) (web : Web) (t : Users)
    (user : Signed) (row : Option User)
    → (change_as g salt current password again web t user row).web ≡ web
change_as-web g salt current password again web t user none = refl
change_as-web g salt current password again web t user (some u) =
    let faults = validate_password g.policy password u.email in
    elim (Bool-cases (knows g current (some u))) [
      | inr odd ↦ simp odd refl
      | inl right ↦ elim (Bool-cases (text_eq password again)) [
        | inr differ ↦ simp (right, differ) refl
        | inl same ↦ simp (right, same) (with_faults-web g salt password web t user u faults)
      ]
    ]

-- The proof that an accepted replacement gives.
Holds-replace_as :
    (h : List Moment) (g : Given) (secret password code : Text) (s : Session) (t : Users)
    (web : Web) (user : Signed) (row : Option User)
    → row_of user.id t ≡ row
    → Kept s (some user) web
    → Holds
        (record { session = s; table = t; request = replace g secret password code } ∷ h)
        web.session
    → Holds
        (record { session = s; table = t; request = replace g secret password code } ∷ h)
        (replace_as g secret password code web t user row).web.session
Holds-replace_as h g secret password code s t web user none found kept base = base
Holds-replace_as h g secret password code s t web user (some u) found kept base =
    elim (Bool-cases u.mfa_enabled) [
      | inr off ↦ simp off base
      | inl on ↦ elim (Bool-cases (knows g password (some u))) [
        | inr odd ↦ simp (on, odd) base
        | inl right ↦
            simp (on, right) (go (second_factor g.tools g.now u (strip code) t) refl right)
      ]
    ]
  where
    go :
        (f : Users × Bool)
        → second_factor g.tools g.now u (strip code) t ≡ f
        → knows g password (some u) ≡ true
        → Holds
            (record { session = s; table = t; request = replace g secret password code } ∷ h)
            (replace_with g secret web user f).web.session
    go (t', false) e right at me time here = base at me time here
    go (t', true) e right at me time here =
        let (user', is, same) = kept.own me here in
        let same' : user.id ≡ me.id = cc in
        inl record {
          g = g;
          secret = secret;
          password = password;
          code = code;
          user = u;
          is_replace = refl;
          at_time = cc;
          found = subst (λ i. row_of i t ≡ some u) same' found;
          knows_password = right;
          factor = ap (λ f. f.1) e;
        }

current_user-at :
    (reads : Reads) (t : Users) (web : Web)
    → (current_user reads none t web).0.session.replace_verified_at
      ≡ web.session.replace_verified_at
current_user-at reads t web = elim (Option-cases web.seen) [
  | inl new ↦
      ap (λ c. (c.0).session.replace_verified_at) (current_user-unseen reads t web new)
      ∙ (Kept-current_user reads t web.session).at
  | inr (found, seen) ↦
      ap (λ c. (c.0).session.replace_verified_at) (current_user-seen reads t web found seen)
]

with_flag-at :
    (flag : Bool) (looked : Web × Option Signed)
    → (with_flag flag looked).session.replace_verified_at ≡ (looked.0).session.replace_verified_at
with_flag-at flag (web, none) = refl
with_flag-at flag (web, some user) = refl

ended-at :
    (g : Given) (replacing : Bool) (id : ℕ) (t : Users) (web : Web)
    → ((ended g replacing id t web).1).session.replace_verified_at ≡ web.session.replace_verified_at
ended-at g true id t web = unfold revoke_other_sessions in refl
ended-at g false id t web = refl

confirmed-at :
    (g : Given) (backup : List Text) (replacing : Bool) (secret : Text) (id : ℕ) (web : Web)
    (t : Users)
    → (confirmed g backup replacing secret id web t).web.session.replace_verified_at ≡ none
confirmed-at g backup replacing secret id web t =
    let t1 = confirmed_table g backup secret id t in
    let left = ended g replacing id t1 (with_proof none none web) in
    with_flag-at true (current_user g.reads_again none (left.0) (once backup (left.1)))
    ∙ current_user-at g.reads_again (left.0) (once backup (left.1))
    ∙ ended-at g replacing id t1 (with_proof none none web)

Holds-confirm_with :
    (h : List Moment) (g : Given) (backup : List Text) (code : Text) (web : Web) (t : Users)
    (replacing : Bool) (id : ℕ)
    → Holds h web.session
    → Holds h (confirm_with g backup code web t replacing id).web.session
Holds-confirm_with h g backup code web t replacing id base =
    let secret = or_empty web.session.setup_secret in
    let late = ltb _mfa_replace_window (g.now - or_zero web.session.replace_verified_at) in
    elim (Bool-cases (replacing && late)) [
      | inl over ↦ simp over (λ at me e here. absurd (ground (arith, e)))
      | inr ok ↦ elim (Bool-cases (verify_totp g.tools.hmac g.now secret (strip code))) [
        | inr wrong ↦ simp (ok, wrong) base
        | inl right ↦
            simp (ok, right)
              (Holds-none h (confirmed g backup replacing secret id web t).web.session
                (confirmed-at g backup replacing secret id web t))
      ]
    ]

Holds-confirm_as :
    (h : List Moment) (g : Given) (backup : List Text) (code : Text) (web : Web) (t : Users)
    (id : Identity)
    → Holds h web.session
    → Holds h (confirm_as g backup code web t id).web.session
Holds-confirm_as h g backup code web t (number id) base =
    Holds-confirm_with h g backup code web t (is_on (get_user id t)) id base
Holds-confirm_as h g backup code web t (Identity.given s) base = base
Holds-confirm_as h g backup code web t missing base = base

Holds-turned_off :
    (h : List Moment) (g : Given) (s : Session) (web : Web) (user : Signed) (id : ℕ)
    (f : Users × Bool)
    → Kept s (some user) web
    → Holds h s
    → Holds h web.session
    → Holds h (turned_off g web id f).web.session
Holds-turned_off h g s web user id (t, false) kept first base = base
Holds-turned_off h g s web user id (t, true) kept first base =
    let t' =
      save g.now id (set_mfa_enabled false ∷ set_mfa_secret none ∷ set_backup_codes [] ∷ []) t in
    subst (λ c. Holds h (with_flag false c).session)
      (sym (current_user-seen g.reads_again t' web (some user) kept.seen))
      (λ at me e here.
        let (me0, here0, same) = kept.id user refl in
        let same' : user.id ≡ me.id = ground (arith, here) in
        subst (λ i. Happened (IsProof i at) h) (same ∙ same')
          (first at me0 (sym kept.at ∙ e) here0))

Holds-disable_as :
    (h : List Moment) (g : Given) (password code : Text) (s : Session) (t : Users) (web : Web)
    (user : Signed) (row : Option User)
    → Kept s (some user) web
    → Holds h s
    → Holds h web.session
    → Holds h (disable_as g password code web t row).web.session
Holds-disable_as h g password code s t web user none kept first base = base
Holds-disable_as h g password code s t web user (some u) kept first base =
    elim (Bool-cases (knows g password (some u))) [
      | inr odd ↦ simp odd base
      | inl right ↦ simp right (
          Holds-turned_off h g s web user u.id
            (if u.mfa_enabled then second_factor g.tools g.now u (strip code) t else (t, true)) kept
            first base)
    ]

Holds-start_as :
    (h : List Moment) (g : Given) (secret : Text) (web : Web) (t : Users) (user : Signed)
    → Holds h web.session
    → Holds h (start_as g secret web t user).web.session
Holds-start_as h g secret web t user base = elim (Bool-cases g.cfg.mfa_available) [
  | inr off ↦ simp off base
  | inl on ↦ elim (Bool-cases (is_on (row_of user.id t))) [
    | inl already ↦ simp (on, already) base
    | inr not_yet ↦ simp (on, not_yet) base
  ]
]

Holds-answer :
    (h : List Moment) (s : Session) (t : Users) (r : Request)
    → Holds h s
    → Holds
        (record { session = s; table = t; request = r } ∷ h)
        (answer record { session = s; table = t; request = r }).web.session
unfolding answer account_mfa_start account_mfa_replace account_mfa_cancel account_mfa_confirm
    account_mfa_disable account_change_password
Holds-answer h s t (password_change g salt current password again) inv =
    Holds-through
      (record { session = s; table = t; request = password_change g salt current password again }) h
      g s t (λ web user. change_as g salt current password again web t user (row_of user.id t))
      (λ web user kept first base.
        subst
          (λ w.
            Holds
              (record {
                session = s;
                table = t;
                request = password_change g salt current password again;
              }
                ∷ h)
              w.session)
          (sym (change_as-web g salt current password again web t user (row_of user.id t))) base)
      inv
Holds-answer h s t (start g secret) inv =
    Holds-through _ h g s t (λ web user. start_as g secret web t user)
      (λ web user kept first base.
        Holds-start_as (record { session = s; table = t; request = start g secret } ∷ h) g secret
          web t user base)
      inv
Holds-answer h s t (replacement_cancelled g secret) inv =
    Holds-none (record { session = s; table = t; request = replacement_cancelled g secret } ∷ h)
      (answer
        record { session = s; table = t; request = replacement_cancelled g secret }).web.session
      refl
Holds-answer h s t (replace g secret password code) inv =
    Holds-through _ h g s t
      (λ web user. replace_as g secret password code web t user (row_of user.id t))
      (λ web user kept first base.
        Holds-replace_as h g secret password code s t web user (row_of user.id t) refl kept base)
      inv
Holds-answer h s t (confirm g backup code) inv =
    Holds-through _ h g s t (λ web user. confirm_as g backup code web t user.id)
      (λ web user kept first base.
        Holds-confirm_as (record { session = s; table = t; request = confirm g backup code } ∷ h) g
          backup code web t user.id base)
      inv
Holds-answer h s t (disable g password code) inv =
    Holds-through _ h g s t
      (λ web user.
        if g.cfg.mfa_required
        then reply web t (account_page mfa_is_required)
        else disable_as g password code web t (row_of user.id t))
      (λ web user kept first base. elim (Bool-cases g.cfg.mfa_required) [
        | inl must ↦ simp must base
        | inr may ↦ simp may (
            Holds-disable_as
              (record { session = s; table = t; request = disable g password code } ∷ h) g password
              code s t web user (row_of user.id t) kept first base)
      ])
      inv

pub Holds-run : (h : List Moment) (s : Session) (t : Users) → Run h s t → Holds h s
Holds-run h s t (enter s' t' off) = Holds-none [] s' off
Holds-run h s t (enter_again h' s0 s' t' r off) = Holds-none h' s' off
Holds-run h s t (elsewhere h' s' t0 t' r) = Holds-run h' s' t0 r
Holds-run h' s' t' (asked h s t r run) = Holds-answer h s t r (Holds-run h s t run)
