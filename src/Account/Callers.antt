-- ===== src/Account/Callers.antt =====
-- The session that a request of app.py is left with when it has looked up its caller.
use domain_lens.Prelude.{
  ◌≡◌, refl, sym, ◌∙◌, inl, inr, not, ◌||◌, Option, none, some, Text, text_eq, Bool-cases,
  Option-cases,
}
use domain_lens.Roles
use domain_lens.Roles.{normalize}
use domain_lens.Users.{User, Users, get_user}
use domain_lens.Sessions.{
  Signed, Session, Web, begin, current_user, _refresh_from_db, refreshed, with_role, without_user,
  Reads, issued_before, _is_db_backed, looked_up, row_id,
}

-- What a request that looks up its caller has left of its session.
pub record Kept (s : Session) (found : Option Signed) (web : Web) : Type 0 where
  pub at : web.session.replace_verified_at ≡ s.replace_verified_at
  pub secret : web.session.setup_secret ≡ s.setup_secret
  pub seen : web.seen ≡ some found
  pub own :
      (me : Signed)
      → web.session.user ≡ some me
      → (user : Signed) × (found ≡ some user) × (me.id ≡ user.id)
  pub id :
      (user : Signed) → found ≡ some user → (me : Signed) × (s.user ≡ some me) × (me.id ≡ user.id)

Kept-same :
    (s : Session) (me : Signed)
    → s.user ≡ some me
    → Kept s (some me) record { session = s; seen = some (some me) }
Kept-same s me here = record {
  at = refl;
  secret = refl;
  seen = refl;
  own = λ m e. (me, refl, (let same = sym here ∙ e in cc));
  id = λ u e. (me, here, cc);
}

Kept-changed :
    (s : Session) (me me' : Signed)
    → s.user ≡ some me
    → me.id ≡ me'.id
    → Kept s (some me') record { session = record s { user = some me' }; seen = some (some me') }
Kept-changed s me me' here same = record {
  at = refl;
  secret = refl;
  seen = refl;
  own = λ m e. (me', refl, cc);
  id = λ u e. (me, here, cc);
}

Kept-gone : (s : Session) → Kept s none record { session = without_user s; seen = some none }
Kept-gone s = record { at = refl; secret = refl; seen = refl; own = λ m e. cc; id = λ u e. cc }

Kept-with_role :
    (role : Text) (me : Signed) (s : Session)
    → s.user ≡ some me
    → Kept s (with_role role me s).1 (looked_up (with_role role me s)).0
Kept-with_role role me s here = elim (Bool-cases (text_eq me.role role)) [
  | inl same ↦ simp same (Kept-same s me here)
  | inr other ↦ simp other (Kept-changed s me (record me { role = role }) here refl)
]

Kept-refreshed :
    (row : Option User) (me : Signed) (s : Session)
    → s.user ≡ some me
    → Kept s (refreshed row me s).1 (looked_up (refreshed row me s)).0
Kept-refreshed none me s here = Kept-gone s
Kept-refreshed (some u) me s here =
    elim (Bool-cases (not u.enabled || issued_before me.issued_at u.sessions_valid_after)) [
      | inl old ↦ simp old (Kept-gone s)
      | inr fresh ↦ simp fresh (Kept-with_role (normalize (some u.role) Roles.user) me s here)
    ]

Kept-refresh :
    (reads : Reads) (me : Signed) (t : Users) (s : Session)
    → s.user ≡ some me
    → Kept s (_refresh_from_db reads me t s).1 (looked_up (_refresh_from_db reads me t s)).0
unfolding _refresh_from_db
Kept-refresh reads me t s here = elim (Bool-cases (_is_db_backed me)) [
  | inr off ↦ simp off (Kept-same s me here)
  | inl on ↦ elim (Option-cases (row_id reads.int_of me.id)) [
    | inl odd ↦ simp (on, odd) (Kept-same s me here)
    | inr (n, e) ↦ elim (Bool-cases reads.answers) [
      | inl answered ↦ simp (on, e, answered) (Kept-refreshed (get_user n t) me s here)
      | inr failed ↦ simp (on, e, failed) (Kept-same s me here)
    ]
  ]
]

pub Kept-current_user :
    (reads : Reads) (t : Users) (s : Session)
    → Kept s ((current_user reads none t (begin s)).1) ((current_user reads none t (begin s)).0)
unfolding current_user
Kept-current_user reads t s = elim (Option-cases s.user) [
  | inl out ↦ simp out record {
    at = refl;
    secret = refl;
    seen = refl;
    own = λ m e. absurd (let same = sym out ∙ e in cc);
    id = λ u e. cc;
  }
  | inr (me, here) ↦ simp here (Kept-refresh reads me t s here)
]

pub current_user-seen :
    (reads : Reads) (t : Users) (web : Web) (found : Option Signed)
    → web.seen ≡ some found
    → current_user reads none t web ≡ (web, found)
unfolding current_user
current_user-seen reads t web found e = simp (current_user, e) refl

pub current_user-unseen :
    (reads : Reads) (t : Users) (web : Web)
    → web.seen ≡ none
    → current_user reads none t web ≡ current_user reads none t (begin web.session)
unfolding current_user
current_user-unseen reads t web e = simp (current_user, e) refl
