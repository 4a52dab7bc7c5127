-- ===== src/Sessions/Tests.antt =====
-- Runs of the handlers of app.py for signing in, and their theorems there.
use domain_lens.Prelude.{
  ℕ, ◌≡◌, refl, true, false, none, some, List, [], ◌∷◌, arith, Text, codes, text_eq, strip, All,
}
use domain_lens.Users.{local_part, User, Users, get_user, clean}
use domain_lens.Login.{counter_of, totp_at, verify_totp, contains, clean_code}
use domain_lens.Login.Tests.{toy, hmac, as_is, kim, table, right, cfg, here, kim-Open, right_run}
use domain_lens.Sessions.{
  Reads, Signed, Session, cleared, begin, number, Web, Tools, mfa_page, home, auth_local_login,
  auth_mfa_verify, current_user, session_of, revoke_other_sessions, _is_db_backed,
}
use domain_lens.Sessions.Signing.{
  login, verify, Run, start, asked, answer, Moment, IsShown, signed_in-IsShown,
}
use domain_lens.Sessions.Guesses.{guessed, guessed-unlocked, Guarded, Missed, IsRound}
use domain_lens.Sessions.Revoking.{revoke_other_sessions-ends}

abbrev pub tools : Tools
tools = record { crypto = toy; hmac = hmac; digest = as_is }

abbrev email : Text
email = codes "Kim@example.org"

abbrev asks : Moment
asks = record { session = cleared; table = table; request = login 60 home email right }

abbrev between : Session × Users
between = answer tools cfg asks

abbrev proves : Moment
proves = record {
  session = between.0;
  table = between.1;
  request = verify 60000000 home (codes "015499");
}

abbrev at_last : Session × Users
at_last = answer tools cfg proves

run : Run tools cfg (proves ∷ asks ∷ []) (at_last.0) (at_last.1)
run =
    asked (asks ∷ []) (between.0) (between.1) (verify 60000000 home (codes "015499"))
      (asked [] cleared table (login 60 home email right) (start table))

abbrev pub me : Signed
me = record {
  id = number 1;
  email = some (codes "kim@example.org");
  name = some (codes "kim");
  provider = some (codes "local");
  role = codes "user";
  mfa_enabled = true;
  db_user = false;
  issued_at = some 60000000;
}

signed_run : at_last.0.user ≡ some me
unfolding answer auth_local_login auth_mfa_verify session_of totp_at counter_of local_part
signed_run = refl

signed_in-IsShown_example :
    (id : ℕ) × (me.id ≡ number id) × IsShown tools cfg (proves ∷ asks ∷ []) id
signed_in-IsShown_example =
    signed_in-IsShown tools cfg (proves ∷ asks ∷ []) (at_last.0) (at_last.1) me run signed_run

abbrev rounds : List (ℕ × List (ℕ × Text))
rounds =
    (10, (11, codes "000000") ∷ (12, codes "000001") ∷ [])
    ∷ (20, (21, codes "000002") ∷ (22, codes "000003") ∷ [])
    ∷ []

missed :
    (now : ℕ) (code : Text)
    → verify_totp hmac now (codes "JBSW") (strip code) ≡ false
    → contains (clean_code (strip code)) kim.mfa_backup_codes ≡ false
    → Missed tools (codes "JBSW") kim.mfa_backup_codes now code
missed now code a b = record { totp = a; backup = b }

rounds-IsRound : All (IsRound tools cfg (codes "JBSW") kim.mfa_backup_codes) rounds
unfolding verify_totp totp_at strip contains clean counter_of
rounds-IsRound = (
  (omega arith, (missed 11 (codes "000000") refl refl, (missed 12 (codes "000001") refl refl, tt))),
  (
    (
      omega arith,
      (missed 21 (codes "000002") refl refl, (missed 22 (codes "000003") refl refl, tt)),
    ),
    tt,
  ),
)

guarded : Guarded tools email right 0 (codes "JBSW") kim.mfa_backup_codes table kim
guarded = record {
  here = here;
  able = kim-Open;
  mfa = refl;
  knows = right_run;
  id = refl;
  with_secret = refl;
  with_codes = refl;
}

guessed-unlocked_example :
    ((left : User) × (get_user 1 ((guessed tools cfg home email right rounds cleared table).1)
        ≡ some left)
      × (left.locked_until ≡ none))
    × ((auth_local_login tools cfg 30 home email right
          (begin ((guessed tools cfg home email right rounds cleared table).0))
          ((guessed tools cfg home email right rounds cleared table).1)).page
        ≡ mfa_page false home)
guessed-unlocked_example =
    guessed-unlocked tools cfg home email right 0 (codes "JBSW") kim.mfa_backup_codes rounds 30
      cleared table kim refl refl (unfold clean in refl) refl rounds-IsRound guarded

abbrev pub reads : Reads
reads = record { int_of = λ s. none; answers = true }

abbrev failing : Reads
failing = record { int_of = λ s. none; answers = false }

abbrev pub signed_session : Session
signed_session = record cleared { user = some me }

abbrev older : Signed
older = record me { issued_at = some 7 }

abbrev revoked : Users × Web
revoked = revoke_other_sessions (λ n. []) 60000005 1 table (begin signed_session)

revoke_other_sessions-ends_example :
    ((current_user reads none (revoked.0) (begin (record cleared { user = some older }))).1 ≡ none)
    × ((me' : Signed) × ((current_user reads none (revoked.0) (begin (revoked.1).session)).1
          ≡ some me')
        × (me'.id ≡ number 1))
    × ((current_user failing none (revoked.0) (begin (record cleared { user = some older }))).1
        ≡ some older)
revoke_other_sessions-ends_example =
    revoke_other_sessions-ends reads failing (λ n. []) 60000005 7 1 table kim signed_session
      (record cleared { user = some older }) me older (unfold get_user in refl) refl refl refl
      (unfold _is_db_backed text_eq in refl) refl refl (unfold _is_db_backed text_eq in refl) refl
      (omega arith) refl refl
