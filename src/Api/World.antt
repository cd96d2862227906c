-- ===== src/Api/World.antt =====
-- The databases behind the API, and what guards a route (`@UseGuards(TenantContextGuard, RbacGuard)` with
-- `@RequirePermission`, in the controllers of apps/api/src/modules).
use asset_hub.Prelude.{
  ⊤, Option, some, Bool, true, String, ◌≡◌, ◌≢◌, refl, ap, any, ltb, length, ℕ, inl, inr,
  Bool-cases,
}
use asset_hub.Prelude.Text.{Text}
use asset_hub.Prelude.Action.{Action, Result, ok, err, raise_if, bad_request, ◌>>◌}
use asset_hub.Prelude.Action.Moves.{Moves}
use asset_hub.Prelude.Action.Atomic.{Same}
use text.Mathlib.Text.{◌==◌ as str_eq}
use asset_hub.Models.{Db}
use asset_hub.Auth.Store.{Crypto}
use asset_hub.Access.Scope.{AuthContext}
use asset_hub.Access.Guards.{tenant_context_guard, rbac_guard}
use asset_hub.Tenancy.Directory.{Directory}
use asset_hub.Assets.Registry.{Register}

-- MongoDB, and the tables of PostgreSQL that the tenancy and role services and that the asset service use.
pub record World : Type 0 where
  pub db : Db
  pub directory : Directory
  pub register : Register

abbrev pub keep_db : {A : Type 0} → World → Result A × Db → Result ⊤ × World
keep_db w (ok a, d) = (ok tt, record w { db = d })
keep_db w (err e, d) = (err e, record w { db = d })

abbrev keep_directory : {A : Type 0} → World → Result A × Directory → Result ⊤ × World
keep_directory w (ok a, d) = (ok tt, record w { directory = d })
keep_directory w (err e, d) = (err e, record w { directory = d })

abbrev keep_register : {A : Type 0} → World → Result A × Register → Result ⊤ × World
keep_register w (ok a, r) = (ok tt, record w { register = r })
keep_register w (err e, r) = (err e, record w { register = r })

-- A service's answer is sent as it is; the state is what is followed here.
unfoldable pub on_db : {A : Type 0} → Action Db A → Action World ⊤
on_db m w = keep_db w (m w.db)

unfoldable pub on_directory : {A : Type 0} → Action Directory A → Action World ⊤
on_directory m w = keep_directory w (m w.directory)

unfoldable pub on_register : {A : Type 0} → Action Register A → Action World ⊤
on_register m w = keep_register w (m w.register)

-- `@MinLength(n)`
abbrev pub too_short : ℕ → Text → Bool
too_short n t = ltb (length t) n

-- The `ValidationPipe`, which runs after the guards.
unfoldable pub validated : Bool → Action World ⊤ → Action World ⊤
validated invalid m = raise_if invalid (bad_request "Bad Request") >> m

abbrev after_permission : Result Bool → Action World ⊤ → Action World ⊤
after_permission (ok b) m w = m w
after_permission (err e) m w = (err e, w)

abbrev after_context : Result AuthContext → String → (AuthContext → Action World ⊤) → Action World ⊤
after_context (ok auth) permission handler =
    after_permission (rbac_guard (some permission) (some auth)) (handler auth)
after_context (err e) permission handler = λ w. (err e, w)

-- The two guards in a row, and then the handler.
unfoldable pub guarded :
    Crypto → Option Text → String → (AuthContext → Action World ⊤) → Action World ⊤
unfolding rbac_guard
guarded crypto header permission handler =
    after_context (tenant_context_guard crypto header) permission handler

-- What a request that got through has shown.
abbrev pub Entitled : Crypto → Option Text → String → Type 0
Entitled crypto header permission =
    (auth : AuthContext) × (tenant_context_guard crypto header ≡ ok auth)
    × (any (str_eq permission) auth.permissions ≡ true)

pub guarded-Entitled :
    (crypto : Crypto) (header : Option Text) (permission : String)
    (handler : AuthContext → Action World ⊤) (w : World)
    → (guarded crypto header permission handler w).1 ≢ w
    → Entitled crypto header permission
unfolding guarded rbac_guard
guarded-Entitled crypto header permission handler w changed =
    go (tenant_context_guard crypto header) refl changed
  where
    go :
        (c : Result AuthContext)
        → tenant_context_guard crypto header ≡ c
        → (after_context c permission handler w).1 ≢ w
        → Entitled crypto header permission
    go (err e) h n = absurd (n refl)
    go (ok auth) h n = elim (Bool-cases (any (str_eq permission) auth.permissions)) [
      | inl t ↦ (auth, h, t)
      | inr f ↦ absurd (n (rw f refl))
    ]

-- A handler that changes nothing changes nothing behind the guards either.
pub guarded-Same :
    (crypto : Crypto) (header : Option Text) (permission : String)
    (handler : AuthContext → Action World ⊤) (w : World)
    → ((auth : AuthContext) → (handler auth w).1 ≡ w)
    → (guarded crypto header permission handler w).1 ≡ w
unfolding guarded rbac_guard
guarded-Same crypto header permission handler w same = go (tenant_context_guard crypto header)
  where
    go : (c : Result AuthContext) → (after_context c permission handler w).1 ≡ w
    go (err e) = refl
    go (ok auth) = elim (Bool-cases (any (str_eq permission) auth.permissions)) [
      | inl t ↦ rw t (same auth)
      | inr f ↦ rw f refl
    ]

-- A service call that only reads leaves the databases as they are.
pub on_db-Same : {A : Type 0} (m : Action Db A) → Moves Same m → (w : World) → (on_db m w).1 ≡ w
unfolding on_db
on_db-Same {A} m k w = go (m w.db) (k.at w.db)
  where
    go : (r : Result A × Db) → r.1 ≡ w.db → (keep_db w r).1 ≡ w
    go (ok a, d) h = ap (λ z. record w { db = z }) h
    go (err e, d) h = ap (λ z. record w { db = z }) h

pub on_directory-Same :
    {A : Type 0} (m : Action Directory A) → Moves Same m → (w : World) → (on_directory m w).1 ≡ w
unfolding on_directory
on_directory-Same {A} m k w = go (m w.directory) (k.at w.directory)
  where
    go : (r : Result A × Directory) → r.1 ≡ w.directory → (keep_directory w r).1 ≡ w
    go (ok a, d) h = ap (λ z. record w { directory = z }) h
    go (err e, d) h = ap (λ z. record w { directory = z }) h

pub on_register-Same :
    {A : Type 0} (m : Action Register A) → Moves Same m → (w : World) → (on_register m w).1 ≡ w
unfolding on_register
on_register-Same {A} m k w = go (m w.register) (k.at w.register)
  where
    go : (r : Result A × Register) → r.1 ≡ w.register → (keep_register w r).1 ≡ w
    go (ok a, d) h = ap (λ z. record w { register = z }) h
    go (err e, d) h = ap (λ z. record w { register = z }) h
