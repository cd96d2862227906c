-- ===== src/Transfer/Boundary.antt =====
-- Every call of the transfer service stays within the caller's scope (asset-transfer.service.ts).
use asset_hub.Prelude.{ℕ, Option, none, some, Bool, true, ◌≡◌, refl, arith}
use asset_hub.Prelude.Text.{Text}
use asset_hub.Prelude.Action.{Error, Result, ok, err, ◌>>=◌, continue}
use asset_hub.Prelude.Action.Moves.{Moves, moves_rules}
use asset_hub.Prelude.Action.Atomic.{Same-order}
use asset_hub.Models.{Db, Asset, AssetAssignment, AssetTransfer, TransferStatus, LifecycleState}
use asset_hub.Access.Scope.{AuthContext}
use asset_hub.Transfer.Workflow.{
  is_pending, is_approved, is_active, require_events, request_create, request_check, check_user,
  Input, request,
}
use asset_hub.Transfer.Decisions.{
  in_status, change_transfer, approve_write, reject_write, cancel_write,
}
use asset_hub.Transfer.Completion.{
  touch_asset, close_assignment, close_found, move_asset, open_assignment, complete_fields,
  lifecycle_event, in_scope, in_state, moved,
}
use asset_hub.Transfer.Frame.{
  AllowsWrites, request_check-Moves, check_user-Moves, approve-Moves, reject-Moves, cancel-Moves,
  complete-Moves,
}
use asset_hub.Transfer.Isolation.{
  Isolated, Isolated-order, OwnTransfer, OwnAsset, update_assignment-Isolated,
  create_assignment-Isolated, create_asset_audit_event-Isolated, audit-Isolated,
  create_transfer-Isolated, update_transfer-Isolated, update_asset-Isolated,
}
use asset_hub.Transfer.Calls.{Call, ask, accept, refuse, finish, withdraw, serve}

module _ (auth : AuthContext) where
  own_change :
      (id : ℕ) (from : TransferStatus → Bool) (f : AssetTransfer → AssetTransfer)
      → ((t : AssetTransfer) → (f t).tenant_id ≡ t.tenant_id)
      → (t : AssetTransfer) → in_status auth id from t ≡ true
      → OwnTransfer auth t × OwnTransfer auth (f t)
  own_change id from f keeps t h = ground (arith, keeps t)

  change-Isolated :
      (id : ℕ) (from : TransferStatus → Bool) (f : AssetTransfer → AssetTransfer) (e : Error)
      → ((t : AssetTransfer) → (f t).tenant_id ≡ t.tenant_id)
      → Moves (Isolated auth) (change_transfer auth id from f e)
  unfolding change_transfer
  change-Isolated id from f e keeps =
      search
        (
          moves_rules,
          Isolated-order auth,
          update_transfer-Isolated auth,
          own_change id from f keeps,
        )
        depth 8

  touch_asset-Isolated : (id now : ℕ) → Moves (Isolated auth) (touch_asset auth id now)
  unfolding touch_asset
  touch_asset-Isolated id now =
      search (moves_rules, Isolated-order auth, update_asset-Isolated auth, own) depth 8
    where
      own :
          (a : Asset)
          → in_scope auth id a ≡ true
          → OwnAsset auth a × OwnAsset auth (record a { updated_at = now })
      own a h = ground arith

  move_asset-Isolated :
      (t : AssetTransfer) (from to : LifecycleState) (now : ℕ)
      → Moves (Isolated auth) (move_asset auth t from to now)
  unfolding move_asset
  move_asset-Isolated t from to now =
      search (moves_rules, Isolated-order auth, update_asset-Isolated auth, own) depth 8
    where
      own :
          (a : Asset)
          → in_state auth t.asset_id from a ≡ true
          → OwnAsset auth a × OwnAsset auth (moved t to now a)
      own a h = ground arith

  close_found-Isolated :
      (e : Option AssetAssignment) (t now : ℕ) → Moves (Isolated auth) (close_found e t now)
  unfolding close_found
  close_found-Isolated none t now = search (moves_rules, Isolated-order auth)
  close_found-Isolated (some e) t now = update_assignment-Isolated auth _ _ λ a. (refl, refl, refl)

  close_assignment-Isolated : (id t now : ℕ) → Moves (Isolated auth) (close_assignment id t now)
  unfolding close_assignment
  close_assignment-Isolated id t now =
      search (moves_rules, Isolated-order auth, close_found-Isolated)

  open_assignment-Isolated :
      (id : ℕ) (u : Option ℕ) (t new_id now : ℕ)
      → Moves (Isolated auth) (open_assignment id u t new_id now)
  unfolding open_assignment
  open_assignment-Isolated id none t new_id now = search (moves_rules, Isolated-order auth)
  open_assignment-Isolated id (some u) t new_id now =
      search (moves_rules, Isolated-order auth, create_assignment-Isolated auth) depth 7

  lifecycle_event-Isolated :
      (t : AssetTransfer) (id : ℕ) (from to : LifecycleState) (now : ℕ)
      → Moves (Isolated auth) (lifecycle_event auth t id from to now)
  unfolding lifecycle_event require_events
  lifecycle_event-Isolated t id from to now =
      search (moves_rules, Isolated-order auth, create_asset_audit_event-Isolated auth) depth 9

  approve_write-Isolated :
      (id : ℕ) (n : Option Text) (now : ℕ) → Moves (Isolated auth) (approve_write auth id n now)
  unfolding approve_write
  approve_write-Isolated id n now = change-Isolated id is_pending _ _ λ t. refl

  reject_write-Isolated :
      (id : ℕ) (n : Option Text) (now : ℕ) → Moves (Isolated auth) (reject_write auth id n now)
  unfolding reject_write
  reject_write-Isolated id n now = change-Isolated id is_pending _ _ λ t. refl

  cancel_write-Isolated :
      (id : ℕ) (n : Option Text) (now : ℕ) → Moves (Isolated auth) (cancel_write auth id n now)
  unfolding cancel_write
  cancel_write-Isolated id n now = change-Isolated id is_active _ _ λ t. refl

  Isolated-writes : AllowsWrites (Isolated auth) auth
  Isolated-writes = record {
    approval = approve_write-Isolated;
    rejection = reject_write-Isolated;
    cancellation = cancel_write-Isolated;
    completion =
        λ id n now e. change-Isolated id is_approved (complete_fields auth n now) e λ t. refl;
    carry = record {
      touch = touch_asset-Isolated;
      move = move_asset-Isolated;
      close = close_assignment-Isolated;
      reopen = open_assignment-Isolated;
      trail = audit-Isolated auth;
      lifecycle = lifecycle_event-Isolated;
    };
  }

  -- What a request creates belongs to the caller's tenant.
  request_check-own :
      (asset_id : ℕ) (input : Input) (s s' : Db) (t : AssetTransfer)
      → request_check auth asset_id input s ≡ (ok t, s')
      → OwnTransfer auth t
  unfolding request_check ◌>>=◌
  request_check-own asset_id input s s' t h =
      let same : (check_user auth input.to_user_id s).1 ≡ s =
        (check_user-Moves Same-order auth input.to_user_id).at s in
      ground arith

  request_create-Isolated :
      (t : AssetTransfer) (id now : ℕ)
      → OwnTransfer auth t
      → Moves (Isolated auth) (request_create auth t id now)
  unfolding request_create
  request_create-Isolated t id now own =
      search (moves_rules, Isolated-order auth, create_transfer-Isolated auth, audit-Isolated auth)
        depth 8

  request-Isolated :
      (asset_id : ℕ) (input : Input) (id now : ℕ) (s : Db)
      → Isolated auth s (request auth asset_id input id now s).1
  unfolding request ◌>>=◌
  request-Isolated asset_id input id now s =
      go (request_check auth asset_id input s) refl
        ((request_check-Moves (Isolated-order auth) auth asset_id input).at s)
    where
      go :
          (r : Result AssetTransfer × Db)
          → request_check auth asset_id input s ≡ r
          → Isolated auth s r.1
          → Isolated auth s (continue (λ t. request_create auth t id now) r).1
      go (err e, s') h k = k
      go (ok t, s') h k =
          (Isolated-order auth).then_also s s' _ k
            ((request_create-Isolated t id now (request_check-own asset_id input s s' t h)).at s')

  -- A call changes transfers of the caller's tenant only, and assets only where the caller's tenant
  -- and, for a caller who is bound to a company, that company match. The transfers that it creates carry the
  -- caller's tenant, its audit events the caller's tenant and user, and its lifecycle events the
  -- caller's tenant and company. It creates no asset, rewrites no event, gives no assignment that there was
  -- to another asset or user, and leaves users, companies, tenants, roles, sessions, subscriptions and entitlements alone.
  pub serve-Isolated :
      (lifecycle_error : LifecycleState → LifecycleState → Option Error) (c : Call) (now : ℕ)
      (db : Db)
      → Isolated auth db (serve lifecycle_error auth c now db).1
  unfolding serve
  serve-Isolated _ (ask asset_id input id) now db = request-Isolated asset_id input id now db
  serve-Isolated _ (accept id n) now db =
      (approve-Moves (Isolated-order auth) auth Isolated-writes id n now).at db
  serve-Isolated _ (refuse id n) now db =
      (reject-Moves (Isolated-order auth) auth Isolated-writes id n now).at db
  serve-Isolated lifecycle_error (finish id n new_id) now db =
      (complete-Moves (Isolated-order auth) auth Isolated-writes lifecycle_error id n new_id now).at
        db
  serve-Isolated _ (withdraw id n) now db =
      (cancel-Moves (Isolated-order auth) auth Isolated-writes id n now).at db
