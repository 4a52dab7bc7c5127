-- ===== src/Account/Tests.antt =====
-- Runs of the account page of app.py, and its theorem there.
use domain_lens.Prelude.{ℕ, ◌*◌, ◌≡◌, refl, ◌⊎◌, true, some, [], ◌∷◌, arith, codes}
use domain_lens.Users.{Users, get_user}
use domain_lens.Login.{second, counter_of, totp_at}
use domain_lens.Login.Tests.{cfg, table, right}
use domain_lens.Sessions.{Session, begin, number, account_page, mfa_replace_scan, mfa_replaced}
use domain_lens.Sessions.Tests.{tools, me, signed_session, reads}
use domain_lens.Account.{Given, is_on, account_mfa_confirm}
use domain_lens.Account.Proving.{Run, Moment, replace, answer, enter, asked}
use domain_lens.Account.Replacing.{MayReplace, account_mfa_confirm-MayReplace}

abbrev given_at : ℕ → Given
given_at now = record {
  tools = tools;
  cfg = cfg;
  policy = record {
    min_length = 8;
    require_upper = true;
    require_lower = true;
    require_digit = true;
    require_special = true;
  };
  now = now;
  reads = reads;
  reads_again = reads;
  str_of = λ n. [];
}

abbrev proves : Moment
proves = record {
  session = signed_session;
  table = table;
  request = replace (given_at (700 * second)) (codes "NEWS") right (codes "337035");
}

page_run : (answer proves).page ≡ account_page mfa_replace_scan
unfolding answer totp_at counter_of
page_run = refl

abbrev session_then : Session
session_then = (answer proves).web.session

abbrev table_then : Users
table_then = (answer proves).table

replaced_run :
    (account_mfa_confirm
      (given_at (760 * second))
      (codes "aaaa" ∷ [])
      (codes "891467")
      (begin session_then)
      table_then).page
    ≡ account_page mfa_replaced
unfolding answer totp_at counter_of account_mfa_confirm
replaced_run = refl

run : Run (proves ∷ []) session_then table_then
run =
    asked [] signed_session table
      (replace (given_at (700 * second)) (codes "NEWS") right (codes "337035"))
      (enter signed_session table refl)

session_run : (session_then.user ≡ some me) × (is_on (get_user 1 table_then) ≡ true)
unfolding answer totp_at counter_of
session_run = (refl, refl)

account_mfa_confirm-MayReplace_example :
    ((account_mfa_confirm
        (given_at (760 * second))
        (codes "aaaa" ∷ [])
        (codes "891467")
        (begin session_then)
        table_then).table
      ≡ table_then)
    ⊎ MayReplace (proves ∷ []) session_then (given_at (760 * second)) (number 1) (codes "891467")
account_mfa_confirm-MayReplace_example =
    account_mfa_confirm-MayReplace (proves ∷ []) session_then table_then (given_at (760 * second))
      (codes "aaaa" ∷ []) (codes "891467") me 1 run (session_run.0) refl (session_run.1)
      (omega arith)
