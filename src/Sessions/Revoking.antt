-- ===== src/Sessions/Revoking.antt =====
-- What a session of auth.py is worth after the account changed: its role, and its end.
use domain_lens.Prelude.{
  ℕ, ◌<◌, ◌≡◌, refl, sym, ◌∙◌, ap, true, false, none, some, [], ◌∷◌, arith, keep, Text, text_eq,
  text_eq_iff, Bool-cases, Option-cases, inl, inr,
}
use domain_lens.Roles
use domain_lens.Roles.{normalize}
use domain_lens.Users.{User, Users, get_user, changed_at, assign_all, set_sessions_valid_after}
use domain_lens.Login.{save}
use domain_lens.Login.Saved.{get-save_own}
use domain_lens.Sessions.{
  Reads, Signed, Session, number, begin, Web, _is_db_backed, issued_before, refreshed,
  _refresh_from_db, current_user, revoke_other_sessions, stamped, restamp, is_row, looked_up,
  row_id,
}

refreshed-role :
    (u : User) (me me' : Signed) (s s' : Session)
    → refreshed (some u) me s ≡ (s', some me')
    → (u.enabled ≡ true)
      × (issued_before me.issued_at u.sessions_valid_after ≡ false)
      × (me'.role ≡ normalize (some u.role) Roles.user)
refreshed-role u me me' s s' h =
    ground (arith, text_eq_iff me.role (normalize (some u.role) Roles.user))

looked-up :
    (reads : Reads) (t : Users) (s : Session) (me : Signed) (id : ℕ)
    → s.user ≡ some me
    → me.id ≡ number id
    → _is_db_backed me ≡ true
    → reads.answers ≡ true
    → current_user reads none t (begin s) ≡ looked_up (refreshed (get_user id t) me s)
unfolding current_user _refresh_from_db
looked-up reads t s me id here named backed answered = simp (here, backed, named, answered) refl

-- While the read fails, the session is taken as it stands.
pub current_user-stale :
    (reads : Reads) (t : Users) (s : Session) (me : Signed)
    → s.user ≡ some me
    → reads.answers ≡ false
    → current_user reads none t (begin s) ≡ looked_up (s, some me)
unfolding current_user _refresh_from_db
current_user-stale reads t s me here failed = elim (Bool-cases (_is_db_backed me)) [
  | inr off ↦ simp (here, off) refl
  | inl on ↦ elim (Option-cases (row_id reads.int_of me.id)) [
    | inl odd ↦ simp (here, on, odd) refl
    | inr (n, e) ↦ simp (here, on, e, failed) refl
  ]
]

-- Where the database answers: whoever a request without a token takes for signed in, from a session
-- of an account, is an account that is there and enabled at that moment, in a session that began no
-- earlier than the account allows, and with the role that the account now has.
pub current_user-role :
    (reads : Reads) (t : Users) (s : Session) (me me' : Signed) (web : Web) (id : ℕ)
    → s.user ≡ some me
    → me.id ≡ number id
    → _is_db_backed me ≡ true
    → reads.answers ≡ true
    → current_user reads none t (begin s) ≡ (web, some me')
    → (u : User) × (get_user id t ≡ some u)
      × (u.enabled ≡ true)
      × (issued_before me.issued_at u.sessions_valid_after ≡ false)
      × (me'.role ≡ normalize (some u.role) Roles.user)
current_user-role reads t s me me' web id here named backed answered said =
    let out = sym (looked-up reads t s me id here named backed answered) ∙ said in
    elim (Option-cases (get_user id t)) [
      | inl gone ↦ absurd (ground (arith, out, gone))
      | inr (u, found) ↦
          let same : refreshed (some u) me s ≡ (web.session, some me') =
            ground (arith, out, found) in
          let what = refreshed-role u me me' s web.session same in
          (u, found, what.0, what.1, what.2)
    ]

refreshed-old :
    (u : User) (me : Signed) (s : Session)
    → issued_before me.issued_at u.sessions_valid_after ≡ true
    → (refreshed (some u) me s).1 ≡ none
refreshed-old u me s h = ground arith

refreshed-new :
    (u : User) (me : Signed) (s : Session)
    → u.enabled ≡ true
    → issued_before me.issued_at u.sessions_valid_after ≡ false
    → (me' : Signed) × ((refreshed (some u) me s).1 ≡ some me') × (me'.id ≡ me.id)
refreshed-new u me s on fresh =
    let role = normalize (some u.role) Roles.user in
    let me' : Signed = record me { role = role } in
    elim (Bool-cases (text_eq me.role role)) [
      | inl same ↦ (me, simp (on, fresh, same) refl, refl)
      | inr other ↦ (me', simp (on, fresh, other) refl, refl)
    ]

-- When a session of an account ends the others at a moment, each session of the account that began
-- before is refused on its next request in which the database answers, and the session itself is
-- still signed in to the account, if that is enabled. In a request whose read of the account fails,
-- a session that began before is taken as it stands.
pub revoke_other_sessions-ends :
    (reads failing : Reads) (str_of : ℕ → Text) (stamp began id : ℕ) (t : Users) (u : User)
    (mine its : Session) (me it : Signed)
    → get_user u.id t ≡ some u
    → u.enabled ≡ true
    → mine.user ≡ some me
    → me.id ≡ number u.id
    → _is_db_backed me ≡ true
    → its.user ≡ some it
    → it.id ≡ number u.id
    → _is_db_backed it ≡ true
    → it.issued_at ≡ some began
    → began < stamp
    → reads.answers ≡ true
    → failing.answers ≡ false
    → ((current_user reads none
          ((revoke_other_sessions str_of stamp u.id t (begin mine)).0)
          (begin its)).1
        ≡ none)
      × ((me' : Signed) × ((current_user reads none
              ((revoke_other_sessions str_of stamp u.id t (begin mine)).0)
              (begin ((revoke_other_sessions str_of stamp u.id t (begin mine)).1).session)).1
            ≡ some me')
          × (me'.id ≡ number u.id))
      × ((current_user failing none
            ((revoke_other_sessions str_of stamp u.id t (begin mine)).0)
            (begin its)).1
          ≡ some it)
unfolding revoke_other_sessions
revoke_other_sessions-ends reads failing str_of stamp began id t u mine its me it found on here
      named backed here' named' backed' since early answered failed =
    let c = set_sessions_valid_after (some stamp) in
    let t' = save stamp u.id (c ∷ []) t in
    let now : get_user u.id t' ≡ some (changed_at stamp (c ∷ []) u) =
      get-save_own stamp u c [] t found (unfold keep in refl) refl in
    let u' = changed_at stamp (c ∷ []) u in
    let old : (refreshed (get_user u.id t') it its).1 ≡ none =
      rw now (refreshed-old u' it its (unfold assign_all in ground (arith, since, early))) in
    let mine' : Session = record mine { user = restamp str_of u.id stamp mine.user } in
    let again : mine'.user ≡ some (stamped stamp me) =
      let own : is_row str_of u.id me ≡ true = rw named (ground arith) in simp (here, own) refl in
    let new =
      refreshed-new u' (stamped stamp me) mine' (unfold assign_all in on)
        (unfold assign_all in ground arith) in
    (
      ap (λ p. p.1) (looked-up reads t' its it u.id here' named' backed' answered) ∙ old,
      (
        new.0,
        ap (λ p. p.1)
              (looked-up reads t' mine' (stamped stamp me) u.id again named
                (unfold _is_db_backed in backed) answered)
            ∙ ap (λ r. (refreshed r (stamped stamp me) mine').1) now
            ∙ new.1,
        new.2 ∙ named,
      ),
      ap (λ p. p.1) (current_user-stale failing t' its it here' failed),
    )
