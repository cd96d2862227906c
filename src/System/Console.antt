-- ===== src/System/Console.antt =====
-- Who gets to the platform console (system-admin.service.ts, `setPlatformUserRoles`).
use asset_hub.Prelude.{
  ℕ, ◌≡◌, sym, Option, some, Bool, true, ◌&&◌, List, [], ◌∷◌, ◌==◌, length, any, arith,
  Option-cases, inl, inr,
}
use asset_hub.Prelude.Members.{has, found_all, All-has}
use asset_hub.Prelude.Collection.{
  find_one, find_all, update_one, All, Distinct, find_one_sound, find_one-update_one,
}
use asset_hub.Prelude.Action.{ok, ◌>>=◌}
use asset_hub.Models.{Db, User, Role}
use asset_hub.Database.{update_user}
use asset_hub.Users.Accounts.{unique_ids}
use asset_hub.System.PlatformRoles.{
  is_platform_role, grants_console, system_account, set_platform_user_roles, RolesAnswer,
}

any_selected :
    (p q : Role → Bool) (rs : List Role)
    → any q (find_all p rs) ≡ true
    → any (λ r. p r && q r) rs ≡ true
any_selected p q [] h = cc
any_selected p q (r ∷ rs) h = ground (arith, any_selected p q rs)

-- What the checks of the handler ask of the ids.
abbrev pub PlatformIds : List Role → List ℕ → Type 0
PlatformIds roles ids =
    All (λ i. any (λ r. r.id == i && is_platform_role r) roles ≡ true) ids
    × (any (λ r. (has r.id ids && is_platform_role r) && grants_console r) roles ≡ true)

-- Where ids of users and of roles are distinct, a call that returns leaves the platform account found
-- with the roles of the answer, each of which is the id of a role with a platform permission, and one
-- of which grants access to the console.
pub set_platform_user_roles-grants :
    (user_id : ℕ) (role_ids : List ℕ) (actor : Option ℕ) (db db' : Db) (r : RolesAnswer)
    → Distinct (λ u. u.id) db.users
    → Distinct (λ x. x.id) db.roles
    → set_platform_user_roles user_id role_ids actor db ≡ (ok r, db')
    → (u : User) × (find_one (system_account user_id) db'.users ≡ some u)
      × (u.role_ids ≡ r.role_ids)
      × PlatformIds db'.roles r.role_ids
unfolding set_platform_user_roles update_user ◌>>=◌
set_platform_user_roles-grants user_id role_ids actor db db' r users roles h =
    let ids = unique_ids [] role_ids in
    let chosen = find_all (λ x. has x.id ids && is_platform_role x) db.roles in
    elim (Option-cases (find_one (system_account user_id) db.users)) [
      | inl e ↦ absurd (ground arith)
      | inr (u, e) ↦
          let f : User → User = λ x. record x { role_ids = ids } in
          let many : length chosen ≡ length ids = ground arith in
          let console : any grants_console chosen ≡ true = ground arith in
          let answer : r.role_ids ≡ ids = ground arith in
          let same : db' ≡ record db { users = update_one (λ x. x.id == u.id) f db.users } =
            ground arith in
          let kept : system_account user_id u ≡ true =
            find_one_sound (system_account user_id) db.users u e in
          (
            f u,
            rw same (
                find_one-update_one (system_account user_id) (λ x. x.id) f db.users u users kept e),
            sym answer,
            rw (same, answer)
                (
                  All-has (λ i. any (λ x. x.id == i && is_platform_role x) db.roles ≡ true) ids
                      (found_all (λ x. x.id) is_platform_role ids db.roles roles many),
                  any_selected (λ x. has x.id ids && is_platform_role x) grants_console db.roles
                      console,
                ),
          )
    ]
