-- ===== src/Users/Rows.antt =====
-- What the reads of the table `users` of db.py give after its writes.
use domain_lens.Prelude.{
  ℕ, ◌≡◌, refl, ◌∙◌, inl, inr, true, Option, none, some, List, [], ◌∷◌, ◌++◌, arith, keep, ◌==◌,
  Text, text_eq_iff, strip, lower, if◌then◌else◌, Bool-cases, subst,
}
use mathlib.Core.Option
use domain_lens.Users.{
  User, Users, Change, NewUser, assign, assign_all, update_rows, find_by, get_user, has_email,
  get_user_by_email, distinct_emails, changed_at, written, is_allowed, update_user, new_user,
  create_user, clean,
}

id-assign : (c : Change) (u : User) → (assign c u).id ≡ u.id
unfolding assign
id-assign (Change.set_email v) u = refl
id-assign _ u = refl

pub id-assign_all : (cs : List Change) (u : User) → (assign_all cs u).id ≡ u.id
unfolding assign_all
id-assign_all [] u = refl
id-assign_all (c ∷ cs) u = id-assign_all cs (assign c u) ∙ id-assign c u

-- The row of an id after the rows of an id were changed.
pub find-update_rows :
    (id i : ℕ) (f : User → User) (rows : List User)
    → ((u : User) → (f u).id ≡ u.id)
    → find_by (λ u. u.id == i) (update_rows id f rows) ≡ (
        if id == i
        then Option.map f (find_by (λ u. u.id == i) rows)
        else find_by (λ u. u.id == i) rows)
unfolding find_by update_rows
find-update_rows id i f [] same = ground arith
find-update_rows id i f (u ∷ rest) same = ground (arith, same u, find-update_rows id i f rest same)

-- The account of an id after an update: with an allowed key among the changes the one of that id has
-- the allowed changes in their order and the time of the update, and every other is as it was.
pub get-update_user :
    (now id i : ℕ) (changes : List Change) (c : Change) (cs : List Change) (t t' : Users)
    (read : Option User)
    → keep is_allowed changes ≡ c ∷ cs
    → update_user now id changes t ≡ some (t', read)
    → get_user i t'
      ≡ (if id == i then Option.map (changed_at now (c ∷ cs)) (get_user i t) else get_user i t)
unfolding update_user get_user
get-update_user now id i changes c cs t t' read allowed done =
    let rows : t'.rows ≡ update_rows id (changed_at now (c ∷ cs)) t.rows =
      unfold written in ground (arith, allowed) in
    rw rows (find-update_rows id i (changed_at now (c ∷ cs)) t.rows (λ u. id-assign_all (c ∷ cs) u))

has_email-eq : (email : Text) (u : User) → has_email email u ≡ true → u.email ≡ email
has_email-eq email u h = (text_eq_iff u.email email).0 h

distinct-cons :
    (v : User) (rows : List User)
    → distinct_emails (v ∷ rows) ≡ true
    → (find_by (has_email v.email) rows ≡ none) × (distinct_emails rows ≡ true)
unfolding distinct_emails
distinct-cons v rows h = ground arith

-- A last row whose address no row before it has is found by its address.
find-append_new :
    (rows : List User) (u : User)
    → distinct_emails (rows ++ u ∷ []) ≡ true
    → find_by (has_email u.email) (rows ++ u ∷ []) ≡ some u
unfolding find_by
find-append_new [] u h = rw ((text_eq_iff u.email u.email).1 refl) refl
find-append_new (v ∷ rows) u h =
    let both = distinct-cons v (rows ++ u ∷ []) h in
    let found = find-append_new rows u (both.1) in
    elim (Bool-cases (has_email u.email v)) [
      | inl e ↦
          let same = has_email-eq u.email v e in
          let gone : find_by (has_email u.email) (rows ++ u ∷ []) ≡ none =
            subst (λ m. find_by (has_email m) (rows ++ u ∷ []) ≡ none) same (both.0) in
          cc
      | inr e ↦ rw e found
    ]

-- A new account has the next free id, and is found by every spelling of the address that it was made
-- with: by each text that is the same once the blanks around it are cut and its letters are small.
pub get_user_by_email-create :
    (now id : ℕ) (args : NewUser) (spelled : Text) (t t' : Users)
    → create_user now args t ≡ some (t', id)
    → lower (strip spelled) ≡ lower (strip args.email)
    → (get_user_by_email spelled t' ≡ some (new_user now id args)) × (id ≡ t.next_id)
unfolding create_user get_user_by_email clean
get_user_by_email-create now id args spelled t t' done alike =
    let unique : distinct_emails (t.rows ++ new_user now t.next_id args ∷ []) ≡ true =
      ground arith in
    let same : id ≡ t.next_id = ground (arith, unique) in
    let rows : t'.rows ≡ t.rows ++ new_user now t.next_id args ∷ [] = ground (arith, unique) in
    (rw (rows, same, alike) (find-append_new t.rows (new_user now t.next_id args) unique), same)
