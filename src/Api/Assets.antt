-- ===== src/Api/Assets.antt =====
-- The routes of assets (assets.controller.ts). A given padding is at least one.
use asset_hub.Prelude.{ℕ, ⊤, Option, none, some, Bool, false, ◌==◌, String}
use asset_hub.Prelude.Text.{Text}
use asset_hub.Prelude.Action.{Action, gets}
use asset_hub.Models.{LifecycleState}
use asset_hub.Access.Scope.{AuthContext}
use asset_hub.Assets.Registry.{
  Fields, registered_assets, list_asset_types, create_asset_type, create_asset, transition_state,
}
use asset_hub.Api.World.{World, on_register, validated}

pub data AssetRoute : Type 0 where
  assets types : AssetRoute
  new_type : Text → Text → Option Text → Option ℕ → ℕ → ℕ → AssetRoute
  new_asset_of : ℕ → Fields → ℕ → AssetRoute
  transition : ℕ → LifecycleState → Option Text → AssetRoute

unfoldable pub asset_permission : AssetRoute → String
asset_permission assets = "asset:read"
asset_permission types = "asset:read"
asset_permission (new_type name prefix separator padding type_id rule_id) = "asset:write"
asset_permission (new_asset_of type_id fields id) = "asset:write"
asset_permission (transition id to reason) = "asset:write"

abbrev bad_padding : Option ℕ → Bool
bad_padding none = false
bad_padding (some n) = n == 0

unfoldable pub asset_handler : AssetRoute → AuthContext → Action World ⊤
asset_handler assets auth = on_register (gets (registered_assets auth))
asset_handler types auth = on_register (gets (list_asset_types auth))
asset_handler (new_type name prefix separator padding type_id rule_id) auth =
    validated (bad_padding padding)
      (on_register (create_asset_type auth name prefix separator padding type_id rule_id))
asset_handler (new_asset_of type_id fields id) auth =
    on_register (create_asset auth type_id fields id)
asset_handler (transition id to reason) auth =
    on_register (transition_state auth id to auth.user_id reason)
