-- ===== src/Team/Owners.antt =====
-- The owners of a team in repository/models/team.py and api/cyberstorm/services/team.py.
pub mod Rows
use thunderstore.Prelude.{
  ℕ, ◌≤◌, String, ◌≡◌, refl, sym, subst, ◌⊎◌, inl, inr, Bool, true, false, some, List, [], ◌∷◌,
  arith, ◌==◌, ◌==ℕ◌, ==ℕ_refl, Bool-cases, length, any, select, Any, >>=-eq-ok, ok,
}
use thunderstore.Team.{
  TeamMember, Db, is_real_owner_of, Team, is_last_owner, is_member_of, role_owner,
}
use thunderstore.Permissions.{User}
use thunderstore.Team.Checks.{ensure_member_can_be_removed, ensure_member_role_can_be_changed}
use thunderstore.Team.Services.{
  team_of, delete_member, remove_team_member, set_role, update_team_member,
}
use thunderstore.Team.Owners.Rows.{DistinctKeys, bit-le, count-delete, count-update}
use thunderstore.Version.Order.{same}

unfoldable pub owner_count : ℕ → Db → ℕ
owner_count team db = length (select (is_real_owner_of team) db.members)

-- The key of each membership is its own, as the primary key ensures.
abbrev pub IsKeyed : Db → Type 0
IsKeyed db = DistinctKeys db.members

-- The membership is a row of the table, as it was read.
abbrev pub IsStored : TeamMember → Db → Type 0
IsStored m db = Any (λ x. x ≡ m) db.members

-- A stored owner whose key is among the owners' keys.
owner_listed :
    (p : TeamMember → Bool) (m : TeamMember) (xs : List TeamMember)
    → Any (λ x. x ≡ m) xs
    → p m ≡ true
    → any (λ o. o.pk ==ℕ m.pk) (select p xs) ≡ true
owner_listed p m [] s h = absurd s
owner_listed p m (x ∷ xs) (inl e) h =
    subst (λ y. any (λ o. o.pk ==ℕ y.pk) (select p (x ∷ xs)) ≡ true) e
      (rw (subst (λ y. p y ≡ true) (sym e) h) (rw (==ℕ_refl x.pk) refl))
owner_listed p m (x ∷ xs) (inr s) h = ground (arith, owner_listed p m xs s h)

-- A stored owner that is not the last one leaves another owner behind.
not_last :
    (db : Db) (team : Team) (m : TeamMember)
    → IsStored m db
    → is_last_owner db team (some m) ≡ false
    → is_real_owner_of team.pk m ≡ true
    → 2 ≤ owner_count team.pk db
unfolding is_last_owner owner_count
not_last db team m s l h = ground (arith, owner_listed (is_real_owner_of team.pk) m db.members s h)

-- The team whose check a removal passed.
record Removed (agent : User) (m : TeamMember) (db db' : Db) : Type 0 where
  team : Team
  spared : is_last_owner db team (some m) ≡ false
  inside : is_member_of team.pk m ≡ true
  result : db' ≡ delete_member m db

remove-Removed :
    (agent : User) (m : TeamMember) (db db' : Db)
    → remove_team_member agent m db ≡ ok db'
    → Removed agent m db db'
unfolding remove_team_member ensure_member_can_be_removed
remove-Removed agent m db db' h =
    let (team, found, k) = >>=-eq-ok (team_of db m.team) _ h in
    record { team = team; spared = ground arith; inside = ground arith; result = ground arith }

owner-in_team :
    (t : ℕ) (m : TeamMember) (team : Team)
    → is_member_of team.pk m ≡ true
    → is_real_owner_of t m ≡ true
    → t ≡ team.pk
owner-in_team t m team h k = ground arith

-- An owner whom the check of its team spared leaves another owner in the team that it owns.
two_owners :
    (t : ℕ) (m : TeamMember) (db : Db) (team : Team)
    → IsStored m db
    → is_member_of team.pk m ≡ true
    → is_real_owner_of t m ≡ true
    → is_last_owner db team (some m) ≡ false
    → 2 ≤ owner_count t db
two_owners t m db team stored inside owner spared =
    let same = owner-in_team t m team inside owner in
    subst (λ k. 2 ≤ owner_count k db) (sym same)
      (not_last db team m stored spared (subst (λ k. is_real_owner_of k m ≡ true) same owner))

-- If a stored membership is removed and the service does not refuse, a team that had an owner who
-- is a real user still has one, whichever team it is and whoever asks, where the keys of the
-- memberships differ.
pub remove_team_member-owner_count :
    (agent : User) (m : TeamMember) (db db' : Db) (t : ℕ)
    → IsKeyed db
    → IsStored m db
    → remove_team_member agent m db ≡ ok db'
    → 1 ≤ owner_count t db
    → 1 ≤ owner_count t db'
unfolding owner_count delete_member
remove_team_member-owner_count agent m db db' t keyed stored h one =
    let r = remove-Removed agent m db db' h in
    let counted = count-delete (is_real_owner_of t) m db.members keyed stored in
    rw r.result (elim (Bool-cases (is_real_owner_of t m)) [
      | inl owner ↦
          let two = two_owners t m db r.team stored r.inside owner r.spared in
          omega (arith, counted, bit-le (is_real_owner_of t m), two)
      | inr other ↦ omega (arith, rw other at counted)
    ])

-- An owner whose new role is the owner's is one still.
kept :
    (t : ℕ) (m : TeamMember) (role : String)
    → is_real_owner_of t m ≡ true
    → (role == role_owner) ≡ true
    → is_real_owner_of t (record m { role = role }) ≡ true
kept t m role h k = ground arith

-- The team whose check a change of role passed.
record Changed (m : TeamMember) (role : String) (db : Db) (m' : TeamMember) (db' : Db)
    : Type 0 where
  team : Team
  spared : ((role == role_owner) ≡ true) ⊎ (is_last_owner db team (some m) ≡ false)
  inside : is_member_of team.pk m ≡ true
  returned : m' ≡ record m { role = role }
  result : db' ≡ set_role m role db

update-Changed :
    (agent : User) (m : TeamMember) (role : String) (db : Db) (m' : TeamMember) (db' : Db)
    → update_team_member agent m role db ≡ ok (m', db')
    → Changed m role db m' db'
unfolding update_team_member ensure_member_role_can_be_changed
update-Changed agent m role db m' db' h =
    let (team, found, k) = >>=-eq-ok (team_of db m.team) _ h in
    record {
      team = team;
      spared = ground arith;
      inside = ground arith;
      returned = ground arith;
      result = ground arith;
    }

-- If a stored membership is given a role and the service does not refuse, a team that had an owner
-- who is a real user still has one, whichever team it is and whoever asks, where the keys of the
-- memberships differ.
pub update_team_member-owner_count :
    (agent : User) (m : TeamMember) (role : String) (db : Db) (m' : TeamMember) (db' : Db) (t : ℕ)
    → IsKeyed db
    → IsStored m db
    → update_team_member agent m role db ≡ ok (m', db')
    → 1 ≤ owner_count t db
    → 1 ≤ owner_count t db'
unfolding owner_count set_role
update_team_member-owner_count agent m role db m' db' t keyed stored h one =
    let r = update-Changed agent m role db m' db' h in
    let counted =
      count-update (is_real_owner_of t) m (record m { role = role }) db.members keyed stored in
    rw r.result (elim (Bool-cases (is_real_owner_of t m)) [
      | inl owner ↦ elim r.spared [
        | inl to_owner ↦ omega (arith, rw (kept t m role owner to_owner, owner) at counted)
        | inr spared ↦
            let two = two_owners t m db r.team stored r.inside owner spared in
            omega (arith, counted, bit-le (is_real_owner_of t m), two)
      ]
      | inr other ↦ omega (arith, rw other at counted)
    ])
