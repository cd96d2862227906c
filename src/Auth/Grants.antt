-- ===== src/Auth/Grants.antt =====
-- What an access token opens: the token of a session, through the guards of a route
-- (session.service.ts, tenant-context.guard.ts, rbac.guard.ts).
use asset_hub.Prelude.{
  ℕ, ◌≡◌, ◌↔◌, ◌∙◌, refl, sym, some, Bool, true, false, ◌||◌, List, [], ◌∷◌, ◌++◌, ◌==◌, arith,
  Option-cases, inl, inr, Bool-cases, String, any, drop, ◌&&◌,
}
use asset_hub.Prelude.Text.{Text, starts_with}
use asset_hub.Prelude.Collection.{find_one, find_all, find_one_sound}
use asset_hub.Prelude.Action.{ok, ◌>>=◌}
use text.Mathlib.Text.{◌==◌ as str_eq}
use mathlib.Core.Path.{subst}
use text.Mathlib.TextEquality.{eq_iff}
use asset_hub.Access.Scope.{AuthContext}
use asset_hub.Access.Guards.{tenant_context_guard, rbac_guard, bearer}
use asset_hub.Auth.Store.{Account, UserRole, Store, Crypto, create_session}
use asset_hub.Auth.Sessions.{
  Tokens, Client, Fresh, issue_session, resolve_permissions, collect_keys, add_keys, add_key,
  claims_of,
}

any-append : (p : String → Bool) (xs ys : List String) → any p (xs ++ ys) ≡ (any p xs || any p ys)
any-append p [] ys = refl
any-append p (x ∷ xs) ys = ground (arith, any-append p xs ys)

any-add_key :
    (k j : String) (keys : List String)
    → any (str_eq k) (add_key keys j) ≡ (any (str_eq k) keys || str_eq k j)
any-add_key k j keys = elim (Bool-cases (any (str_eq j) keys)) [
  | inl e ↦ rw e (elim (Bool-cases (str_eq k j)) [
    | inl p ↦
        let held : any (str_eq k) keys ≡ true =
          subst (λ z. any (str_eq z) keys ≡ true) (sym ((eq_iff k j).0 p)) e in
        ground arith
    | inr p ↦ ground arith
  ])
  | inr e ↦ rw e (ground (arith, any-append (str_eq k) keys (j ∷ [])))
]

any-add_keys :
    (k : String) (keys js : List String)
    → any (str_eq k) (add_keys keys js) ≡ (any (str_eq k) keys || any (str_eq k) js)
unfolding add_keys
any-add_keys k keys [] = ground arith
any-add_keys k keys (j ∷ js) =
    ground (arith, any-add_keys k (add_key keys j) js, any-add_key k j keys)

any-collect_keys :
    (k : String) (keys : List String) (rs : List UserRole)
    → any (str_eq k) (collect_keys keys rs)
      ≡ (any (str_eq k) keys || any (λ r. any (str_eq k) r.permission_keys) rs)
unfolding collect_keys
any-collect_keys k keys [] = ground arith
any-collect_keys k keys (r ∷ rs) = ground (
  arith,
  any-collect_keys k (add_keys keys r.permission_keys) rs,
  any-add_keys k keys r.permission_keys,
)

any-find_all :
    (p q : UserRole → Bool) (rs : List UserRole) → any q (find_all p rs) ≡ any (λ r. p r && q r) rs
any-find_all p q [] = refl
any-find_all p q (r ∷ rs) = ground (arith, any-find_all p q rs)

-- Some role of the user has the permission.
abbrev pub has_permission : String → ℕ → Store → Bool
has_permission k user_id s =
    any (λ r. r.user_id == user_id && any (str_eq k) r.permission_keys) s.user_roles

any-resolve_permissions :
    (k : String) (user_id : ℕ) (s : Store)
    → any (str_eq k) (resolve_permissions user_id s) ≡ has_permission k user_id s
unfolding resolve_permissions
any-resolve_permissions k user_id s =
    any-collect_keys k [] (find_all (λ r. r.user_id == user_id) s.user_roles)
    ∙ any-find_all (λ r. r.user_id == user_id) (λ r. any (str_eq k) r.permission_keys) s.user_roles

bearer_header :
    (token : Text)
    → (starts_with bearer (bearer ++ token) ≡ true) × (drop 7 (bearer ++ token) ≡ token)
bearer_header token = (refl, refl)

module _ (crypto : Crypto) where
  -- The context that the guard reads from the access token of a new session: the user's id, tenant
  -- and company, and never the tenant-wide scope.
  abbrev pub context : Account → Store → AuthContext
  context user s = record {
    user_id = user.id;
    tenant_id = user.tenant_id;
    company_id = user.company_id;
    cross_company = false;
    permissions = resolve_permissions user.id s;
  }

  -- Where the JWT service verifies the token that it signed for the user to the claims that it signed,
  -- the access token of a session passes the first guard, with the user's id, tenant and company in
  -- the context and the tenant-wide scope never set; and the second guard then lets it through to
  -- exactly the routes whose permission some role of the user has.
  pub issue_session_grants :
      (user_id : ℕ) (client : Client) (fresh : Fresh) (s s' : Store) (t : Tokens)
      (required : String)
      → ((user : Account)
          → find_one (λ u. u.id == user_id) s.users ≡ some user
          → crypto.verify (crypto.sign (claims_of user (resolve_permissions user_id s)))
            ≡ some (claims_of user (resolve_permissions user_id s)))
      → issue_session crypto user_id client fresh s ≡ (ok t, s')
      → (user : Account) × (find_one (λ u. u.id == user_id) s.users ≡ some user)
        × (tenant_context_guard crypto (some (bearer ++ t.access_token)) ≡ ok (context user s))
        × ((rbac_guard (some required) (some (context user s)) ≡ ok true)
            ↔ (has_permission required user.id s ≡ true))
  unfolding issue_session create_session tenant_context_guard rbac_guard ◌>>=◌
  issue_session_grants user_id client fresh s s' t required verifies h =
      elim (Option-cases (find_one (λ u. u.id == user_id) s.users)) [
        | inl e ↦ absurd (ground arith)
        | inr (user, e) ↦
            let same : user.id ≡ user_id =
              ground (arith, find_one_sound (λ u. u.id == user_id) s.users user e) in
            let signed : t.access_token
                ≡ crypto.sign (claims_of user (resolve_permissions user_id s)) =
              ground arith in
            (
              user,
              e,
              rw (signed, verifies user e, same),
              ground (arith, any-resolve_permissions required user.id s),
            )
      ]
