-- ===== src/Lib.antt =====
-- DomainLens: the core of a domain intelligence toolkit (Python), its registries, records and rules.
--
-- The application is a web server over SQLite. Requests and a background scheduler start scans; a
-- scan runs in a job (scan_jobs.py), asks outside services through a cache (scan_cache.py), and its
-- findings are marked where their risk is accepted (risk_acceptance.py), and two scans are compared
-- (scan_diff.py). Monitors (db.py) are scanned again by the scheduler (scheduler.py). Who may do
-- what is decided by roles (roles.py), also for personal API tokens (api_tokens.py), and what was
-- done is written to a hash-chained log (audit_log.py).
--
-- Accounts (db.py) sign in with a password and a second factor (auth.py, app.py) and change both on the
-- account page (app.py); a session lasts until its account ends it or is disabled. Active
-- checks run only against domains that are verified (domain_ownership.py), and lookups at outside
-- services keep to budgets (rate_limits.py).
--
-- Prelude        the shared names; Prelude/Lists: lists over the native numbers; Prelude/Strings:
--                Python's text as code points; Prelude/Int: signed integers; Prelude/Sorting and
--                Prelude/Permuting: lists in another order
-- RateLimits     rate_limits.py: what is kept of one provider is an Entry; one turn of the loop of
--                `acquire` is turn, the loop is acquire_from with the sleeps in between, `cooldown` is
--                cool_down, `status` of a provider is usage. Its fuel is a turn for each twentieth of a
--                second in the budget, as each sleep is at least that long
-- Users          db.py, the table `users`: every function under its own name; a keyword argument of
--                `update_user` is a Change
-- Login          auth.py: `hash_password`, `verify_password`, `validate_password`, `totp_at` (over truncate
--                and six_digits), `verify_totp`, `consume_backup_code`, `register_mfa_failure`,
--                `clear_login_failures`; `attempt_local_login` with attempt_as for a found account
-- Sessions       auth.py and app.py: the session of a cookie, `current_user`, `_refresh_from_db`,
--                `revoke_other_sessions`, `login_local_user_record`, and the handlers
--                `auth_local_login` and `auth_mfa_verify`
-- Account        app.py: the handlers `account_change_password` and `account_mfa_start`, `_replace`,
--                `_cancel`, `_confirm` and `_disable`, each over a function for its signed-in part
-- Access         auth.py: `enforce_login_before_request` (over `authenticate_api_token`, `_public_path` and
--                `_viewer_may`) and `require_role`; serve is one after the other
-- Ownership      domain_ownership.py: every function under its own name; the loop of `check` is probed,
--                its UPDATE checked; `attest` is attest_with over attested; Ownership/Views has the calls
--                as operations (Op) and what they do to a map from domains to rows
-- ScanJobs       scan_jobs.py: `_prune_locked` is prune, `_is_stuck` is is_stuck, the loop of
--                `find_active` is find_from, `progress_cb` is report, the two ends of `worker` are
--                finish and fail; `get`, `start`, `count_running` and `public_view` keep their names.
--                Each locked section is one step on the registry
-- AuditLog       audit_log.py: `record` is append_entry, over entry_of; `_hash` is hash over cells; the
--                loop of `verify` is walk; the DELETE of `purge_older_than` is delete_before
-- Roles          roles.py: every function under its own name
-- ApiTokens      api_tokens.py: `_public` is public; `create` is made of short_name, checked_days,
--                wanted_role and insert; `authenticate` of find_hash, admit, owner_of and touch
-- Monitors       db.py, the table `monitors`: every function under its own name; a keyword argument of
--                `update_monitor` is a Change
-- Schedule       scheduler.py: `next_run` over timed_run and daily_run, `_parse_time` is parse_time,
--                `_zone` is find_zone, `plan_slot`, and `free_plan_slot` over search_slot
-- Scheduler      scheduler.py: `_postpone_for_dns` is postpone over try_again and give_up, `_run_one` is
--                settle in run_one, `process_due_monitors` with attend (ask_resolver, then run_all) and
--                close_pass for its middle and its end; `_record_success` and its like without the underscore
-- RiskAcceptance risk_acceptance.py: `_all_active` is all_active over query and fill, `_active_for` is
--                active_for over collect, the loop of `apply` maps mark; the others under their names
-- ScanCache      scan_cache.py: `ttl_seconds` is ttl_of, `max_stale_seconds` is max_stale_of,
--                `_default_should_store` is default_should_store; the others under their names. Also
--                db.py's external_cache_get and external_cache_put
-- ScanDiff       scan_diff.py, compare_dimensions: `_tls_grade` and its like without the underscore,
--                `_number_worse_when_higher` is worse_when_higher, `_set_growth_worse` and
--                `_ports_status` are growth_status, `_grade_worse` is grade_status
-- ScanFields     scan_diff.py, compare: `_FIELDS` is fields, one turn of the loop is compare_field,
--                `_direction` is direction over mapped and ranked
--
-- Numbers are unbounded, as Python's are. Times are microseconds; the program compares ISO texts of
-- one format and zone, which sort as the numbers do. An operation reads the clock once. But for
-- `acquire` no loop needs fuel: all are recursions on lists, or on the count of a range. Text that
-- is only compared is the native String; text that is stripped or cut is a list of code points,
-- whose `lower` acts on ASCII letters. What the libraries compute (SHA-256, PBKDF2, HMAC, JSON, DNS,
-- random tokens, floating-point rounding) is a parameter, and what is assumed of it is a hypothesis
-- of the theorem that needs it.
--
-- Not modelled: sign-in over OAuth and SAML and the provisioning over SCIM, the settings, the grading
-- of findings and the advisories, which are left for later; the checks over the network and the
-- parsers of files, which are input and output over libraries; pages, exports and mail, which are
-- rendering; failures of the database, but for a refused write or a failed read where a function
-- handles it.
pub mod Prelude
pub mod RateLimits
pub mod Users
pub mod Login
pub mod Sessions
pub mod Account
pub mod Access
pub mod Ownership
pub mod ScanJobs
pub mod AuditLog
pub mod Roles
pub mod ApiTokens
pub mod Monitors
pub mod Schedule
pub mod Scheduler
pub mod RiskAcceptance
pub mod ScanCache
pub mod ScanDiff
pub mod ScanFields
