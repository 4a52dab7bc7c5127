-- ===== src/Login/Saved.antt =====
-- The account of an id after the UPDATEs that the sign-in of auth.py makes.
use domain_lens.Prelude.{
  ℕ, ◌≡◌, refl, Bool, true, false, some, List, [], ◌∷◌, arith, keep, ◌==◌, if◌then◌else◌,
}
use mathlib.Core.Option
use domain_lens.Users.{
  find_by, User, Users, Change, is_allowed, writes_email, update_user, get_user, update_rows,
  changed_at, written,
}
use domain_lens.Users.Rows.{get-update_user}
use domain_lens.Login.{save}

saved :
    (now id : ℕ) (changes : List Change) (t : Users)
    → writes_email changes ≡ false
    → update_user now id changes t
      ≡ some (save now id changes t, get_user id (save now id changes t))
unfolding update_user save
saved now id changes t quiet = rw (quiet, update_user) refl

-- With changes that are all allowed and write no address, the account of the id has them, and every
-- other is as it was.
pub get-save :
    (now id i : ℕ) (changes : List Change) (c : Change) (cs : List Change) (t : Users)
    → keep is_allowed changes ≡ c ∷ cs
    → writes_email changes ≡ false
    → get_user i (save now id changes t)
      ≡ (if id == i then Option.map (changed_at now (c ∷ cs)) (get_user i t) else get_user i t)
get-save now id i changes c cs t allowed quiet =
    get-update_user now id i changes c cs t (save now id changes t)
      (get_user id (save now id changes t)) allowed (saved now id changes t quiet)

-- So for the account itself.
pub get-save_own :
    (now : ℕ) (user : User) (c : Change) (cs : List Change) (t : Users)
    → get_user user.id t ≡ some user
    → keep is_allowed (c ∷ cs) ≡ c ∷ cs
    → writes_email (c ∷ cs) ≡ false
    → get_user user.id (save now user.id (c ∷ cs) t) ≡ some (changed_at now (c ∷ cs) user)
get-save_own now user c cs t here allowed quiet =
    let itself : (user.id == user.id) ≡ true = ground arith in
    rw (get-save now user.id user.id (c ∷ cs) c cs t allowed quiet, itself, here) refl

find_by-update_rows :
    (p : User → Bool) (id : ℕ) (f : User → User) (rows : List User)
    → ((u : User) → p (f u) ≡ p u)
    → find_by p (update_rows id f rows)
      ≡ Option.map (λ u. if u.id == id then f u else u) (find_by p rows)
unfolding find_by update_rows
find_by-update_rows p id f [] same = refl
find_by-update_rows p id f (u ∷ rest) same =
    ground (arith, same u, find_by-update_rows p id f rest same)

-- A row that is found by what the update leaves alone is found again, updated.
pub find_by-save :
    (p : User → Bool) (now : ℕ) (user : User) (c : Change) (cs : List Change) (t : Users)
    → keep is_allowed (c ∷ cs) ≡ c ∷ cs
    → writes_email (c ∷ cs) ≡ false
    → ((u : User) → p (changed_at now (c ∷ cs) u) ≡ p u)
    → find_by p t.rows ≡ some user
    → find_by p (save now user.id (c ∷ cs) t).rows ≡ some (changed_at now (c ∷ cs) user)
unfolding save update_user written
find_by-save p now user c cs t allowed quiet same here =
    let itself : (user.id == user.id) ≡ true = ground arith in
    rw
      (
        quiet,
        allowed,
        find_by-update_rows p user.id (changed_at now (c ∷ cs)) t.rows same,
        here,
        itself,
      )
      refl
