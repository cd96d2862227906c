-- ===== src/Api/Server.antt =====
-- The API as one server: a request for any of the routes, with the header that it comes with
-- (apps/api/src/modules/*/*.controller.ts).
use asset_hub.Prelude.{ℕ, ⊤, ◌≡◌, ◌≢◌, ◌⊎◌, inl, inr, refl, true, Option, Bool, String}
use asset_hub.Prelude.Text.{Text}
use asset_hub.Prelude.Action.{Action}
use asset_hub.Auth.Store.{Crypto}
use asset_hub.Organization.Management.{Change}
use asset_hub.Api.World.{World, guarded, Entitled, guarded-Entitled, guarded-Same}
use asset_hub.Access.Scope.{AuthContext}
use asset_hub.Api.Reads.{
  is_write_permission, user_route_reads, company_route_reads, role_route_reads, asset_route_reads,
}
use asset_hub.Api.Users.{UserRoute, user_permission, user_handler}
use asset_hub.Api.Organization.{organization_permission, organization_handler}
use asset_hub.Api.Directory.{
  CompanyRoute, company_permission, company_handler, RoleRoute, role_permission, role_handler,
}
use asset_hub.Api.Assets.{AssetRoute, asset_permission, asset_handler}

pub data Route : Type 0 where
  on_users : UserRoute → Route
  on_organization : Change → Route
  on_companies : CompanyRoute → Route
  on_roles : RoleRoute → Route
  on_assets : AssetRoute → Route

unfoldable pub permission_of : Route → String
permission_of (on_users r) = user_permission r
permission_of (on_organization c) = organization_permission c
permission_of (on_companies r) = company_permission r
permission_of (on_roles r) = role_permission r
permission_of (on_assets r) = asset_permission r

module _ (crypto : Crypto) (is_email : Text → Bool) (sha256 : Text → Text) where
  unfoldable pub answer : Option Text → Route → ℕ → Action World ⊤
  answer header (on_users r) now =
      guarded crypto header (user_permission r) (user_handler is_email sha256 r now)
  answer header (on_organization c) now =
      guarded crypto header (organization_permission c) (organization_handler c)
  answer header (on_companies r) now =
      guarded crypto header (company_permission r) (company_handler r)
  answer header (on_roles r) now = guarded crypto header (role_permission r) (role_handler r)
  answer header (on_assets r) now = guarded crypto header (asset_permission r) (asset_handler r)

  through :
      (header : Option Text) (permission : String) (handler : AuthContext → Action World ⊤)
      (w : World)
      → (is_write_permission permission ≡ true) ⊎ ((auth : AuthContext) → (handler auth w).1 ≡ w)
      → (guarded crypto header permission handler w).1 ≢ w
      → Entitled crypto header permission × (is_write_permission permission ≡ true)
  through header permission handler w (inl write) changed =
      (guarded-Entitled crypto header permission handler w changed, write)
  through header permission handler w (inr reads) changed =
      absurd (changed (guarded-Same crypto header permission handler w reads))

  -- A request to any of these routes that changed anything came with an access token that verifies and holds the
  -- permission of the route, which is one to write: without a token, with a bad one, without the permission,
  -- or to a route that asks for a permission to read, nothing changes.
  pub answer-Entitled :
      (header : Option Text) (r : Route) (now : ℕ) (w : World)
      → (answer header r now w).1 ≢ w
      → Entitled crypto header (permission_of r) × (is_write_permission (permission_of r) ≡ true)
  unfolding answer permission_of organization_permission
  answer-Entitled header (on_users r) now w changed =
      through header _ (user_handler is_email sha256 r now) w
        (user_route_reads is_email sha256 r now w) changed
  answer-Entitled header (on_organization c) now w changed =
      through header _ (organization_handler c) w (inl refl) changed
  answer-Entitled header (on_companies r) now w changed =
      through header _ (company_handler r) w (company_route_reads r w) changed
  answer-Entitled header (on_roles r) now w changed =
      through header _ (role_handler r) w (role_route_reads r w) changed
  answer-Entitled header (on_assets r) now w changed =
      through header _ (asset_handler r) w (asset_route_reads r w) changed
