-- ===== src/Users/Scoped.antt =====
-- The roles that an administrator can give (users.service.ts, `setRoles`).
use asset_hub.Prelude.{
  ℕ, ◌≡◌, sym, some, true, ◌&&◌, List, [], ◌∷◌, ◌==◌, length, any, arith, Option-cases, inl, inr,
}
use asset_hub.Prelude.Members.{has, found_all, All-has}
use asset_hub.Prelude.Collection.{find_one, find_all, update_one, All, Distinct}
use asset_hub.Prelude.Action.{ok, ◌>>=◌}
use asset_hub.Models.{Db, User}
use asset_hub.Database.{update_user}
use asset_hub.Access.Scope.{AuthContext, scope}
use asset_hub.Users.Accounts.{SafeUser, reachable, require_user, unique_ids, role_passes, set_roles}

found_with_roles :
    (auth : AuthContext) (id : ℕ) (ids : List ℕ) (us : List User) (u : User)
    → find_one (reachable auth id) us ≡ some u
    → find_one
        (reachable auth id)
        (update_one (reachable auth id) (λ x. record x { role_ids = ids }) us)
      ≡ some (record u { role_ids = ids })
found_with_roles auth id ids [] u h = cc
found_with_roles auth id ids (x ∷ us) u h = ground (arith, found_with_roles auth id ids us u)

-- Where roles have distinct ids, a call that returns leaves the user found in scope with the roles of the
-- answer, and each of these is the id of a role of the caller's tenant, and of the caller's company too
-- unless the caller has the scope of the tenant.
pub set_roles-scoped :
    (auth : AuthContext) (user_id : ℕ) (role_ids : List ℕ) (db db' : Db) (r : SafeUser)
    → Distinct (λ x. x.id) db.roles
    → set_roles auth user_id role_ids db ≡ (ok r, db')
    → (u : User) × (find_one (reachable auth user_id) db'.users ≡ some u)
      × (u.role_ids ≡ r.role_ids)
      × All (λ i. any (λ x. x.id == i && role_passes (scope auth) x) db'.roles ≡ true) r.role_ids
unfolding set_roles require_user update_user ◌>>=◌
set_roles-scoped auth user_id role_ids db db' r roles h =
    let ids = unique_ids [] role_ids in
    let chosen = find_all (λ x. has x.id ids && role_passes (scope auth) x) db.roles in
    elim (Option-cases (find_one (reachable auth user_id) db.users)) [
      | inl e ↦ absurd (ground arith)
      | inr (u, e) ↦
          let f : User → User = λ x. record x { role_ids = ids } in
          let many : length chosen ≡ length ids = ground arith in
          let answer : r.role_ids ≡ ids = ground arith in
          let same : db' ≡ record db { users = update_one (reachable auth user_id) f db.users } =
            ground arith in
          (
            f u,
            rw same (found_with_roles auth user_id ids db.users u e),
            sym answer,
            rw (same, answer)
                (All-has (λ i. any (λ x. x.id == i && role_passes (scope auth) x) db.roles ≡ true)
                  ids (found_all (λ x. x.id) (role_passes (scope auth)) ids db.roles roles many)),
          )
    ]
