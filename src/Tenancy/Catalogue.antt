-- ===== src/Tenancy/Catalogue.antt =====
-- What a new role and its assignment grant (rbac.service.ts).
use asset_hub.Prelude.{
  true, ℕ, ◌≡◌, ◌≢◌, refl, Bool, false, ◌&&◌, ◌||◌, List, [], ◌∷◌, ◌++◌, ◌==◌, any, String, map,
  arith, Bool-cases, inl, inr,
}
use asset_hub.Prelude.Text.{Text}
use asset_hub.Prelude.Collection.{All, All-mono, Distinct, find_all}
use asset_hub.Prelude.Action.{ok, ◌>>=◌}
use asset_hub.Access.Scope.{AuthContext}
use asset_hub.Tenancy.Directory.{Directory, Permission, RoleRow, RolePermission, UserRole, require}
use asset_hub.Tenancy.Roles.{asked_for, create_role, assign_role, role_has, user_has}

any-append :
    {A : Type 0} (p : A → Bool) (xs ys : List A) → any p (xs ++ ys) ≡ (any p xs || any p ys)
any-append p [] ys = refl
any-append p (x ∷ xs) ys = ground (arith, any-append p xs ys)

abbrev rows_for : ℕ → List Permission → List RolePermission
rows_for role_id ps = map (λ p. record { role_id = role_id; permission_id = p.id }) ps

-- Whether the rows of a role name the permission.
abbrev named : ℕ → ℕ → List RolePermission → Bool
named role_id permission_id = any (λ x. x.role_id == role_id && x.permission_id == permission_id)

not_named :
    (keys : List String) (role_id : ℕ) (p : Permission) (ps : List Permission)
    → All (λ q. q.id ≢ p.id) ps
    → named role_id p.id (rows_for role_id (find_all (asked_for keys) ps)) ≡ false
not_named keys role_id p [] a = refl
not_named keys role_id p (q ∷ ps) a = elim (Bool-cases (asked_for keys q)) [
  | inl e ↦ rw e (ground (arith, not_named keys role_id p ps a.1, a.0))
  | inr e ↦ rw e (not_named keys role_id p ps a.1)
]

named_others :
    (keys : List String) (role_id : ℕ) (p : Permission) (ps qs : List Permission)
    → All (λ q. q.id ≢ p.id) qs
    → All
        (λ q.
          named role_id q.id (rows_for role_id (find_all (asked_for keys) ps)) ≡ asked_for keys q)
        qs
    → All
        (λ q.
          named role_id q.id (rows_for role_id (find_all (asked_for keys) (p ∷ ps)))
          ≡ asked_for keys q)
        qs
named_others keys role_id p ps [] n a = tt
named_others keys role_id p ps (q ∷ qs) n a = (
  elim (Bool-cases (asked_for keys p)) [
    | inl e ↦ rw e (ground (arith, a.0, n.0))
    | inr e ↦ rw e a.0
  ],
  named_others keys role_id p ps qs n.1 a.1,
)

named_asked :
    (keys : List String) (role_id : ℕ) (ps : List Permission)
    → Distinct (λ p. p.id) ps
    → All
        (λ q.
          named role_id q.id (rows_for role_id (find_all (asked_for keys) ps)) ≡ asked_for keys q)
        ps
named_asked keys role_id [] d = tt
named_asked keys role_id (p ∷ ps) d = (
  elim (Bool-cases (asked_for keys p)) [
    | inl e ↦ rw e (ground arith)
    | inr e ↦ rw e (not_named keys role_id p ps d.0)
  ],
  named_others keys role_id p ps ps d.0 (named_asked keys role_id ps d.1),
)

unnamed_yet :
    (role_id permission_id : ℕ) (rows : List RolePermission)
    → All (λ x. x.role_id ≢ role_id) rows
    → named role_id permission_id rows ≡ false
unnamed_yet role_id permission_id [] a = refl
unnamed_yet role_id permission_id (x ∷ xs) a =
    ground (arith, unnamed_yet role_id permission_id xs a.1, a.0)

-- A role that is created belongs to the caller's tenant and has, of the permissions of the catalogue,
-- exactly those whose keys were asked for, whichever these are, if permissions have distinct ids and no
-- row had the id of the role.
pub create_role-grants :
    (auth : AuthContext) (name : Text) (keys : List String) (new_id : ℕ) (d d' : Directory)
    (r : RoleRow)
    → Distinct (λ p. p.id) d.permissions
    → All (λ x. x.role_id ≢ new_id) d.role_permissions
    → create_role auth name keys new_id d ≡ (ok r, d')
    → (r.tenant_id ≡ auth.tenant_id)
      × All (λ p. role_has d' r.id p.id ≡ asked_for keys p) d'.permissions
unfolding create_role ◌>>=◌
create_role-grants auth name keys new_id d d' r distinct unused h =
    let chosen = find_all (asked_for keys) d.permissions in
    let id : r.id ≡ new_id = ground arith in
    let permissions : d'.permissions ≡ d.permissions = ground arith in
    let rows : d'.role_permissions ≡ d.role_permissions ++ rows_for new_id chosen = ground arith in
    (
      ground arith,
      rw (permissions, rows, id)
          (All-mono _ _ d.permissions
            (λ p k. ground (
              arith,
              any-append (λ x. x.role_id == new_id && x.permission_id == p.id) d.role_permissions
                  (rows_for new_id chosen),
              unnamed_yet new_id p.id d.role_permissions unused,
              k,
            ))
            (named_asked keys new_id d.permissions distinct)),
    )

-- An assignment of a role that exists to a user who exists and does not have it yet succeeds, whoever calls
-- and whatever the tenants of the role and the user are, and gives the user all permissions of the role, and
-- nothing else to anyone.
pub assign_role-grants :
    (user_id role_id : ℕ) (d : Directory)
    → any (λ u. u.id == user_id) d.users ≡ true
    → any (λ r. r.id == role_id) d.roles ≡ true
    → any (λ x. x.user_id == user_id && x.role_id == role_id) d.user_roles ≡ false
    → let done = assign_role user_id role_id d in
      (done.0 ≡ ok (record { user_id = user_id; role_id = role_id }))
      × ((u p : ℕ)
          → user_has done.1 u p ≡ (user_has d u p || (user_id == u && role_has d role_id p)))
unfolding assign_role require ◌>>=◌
assign_role-grants user_id role_id d user role free =
    let row : UserRole = record { user_id = user_id; role_id = role_id } in
    rw (user, role, free)
      (
        refl,
        λ u p. ground (
          arith,
          any-append (λ x. x.user_id == u && role_has d x.role_id p) d.user_roles (row ∷ []),
        ),
      )
