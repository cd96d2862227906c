-- ===== src/Transfer/Frame.antt =====
-- The writes of the transfer service (asset-transfer.service.ts), and the lemma that a relation of
-- states which allows each of them allows every call: what a call does to the database is what its
-- writes do.
use asset_hub.Prelude.{ℕ, Option, none, some, String}
use asset_hub.Prelude.Text.{Text}
use asset_hub.Prelude.Action.{Error}
use asset_hub.Prelude.Action.Moves.{IsPreorder, Moves, moves_rules}
use asset_hub.Models.{Db, Object, AssetTransfer, LifecycleState}
use asset_hub.Access.Scope.{AuthContext}
use asset_hub.Transfer.Destination.{validate_destination, validate_location, validate_department}
use asset_hub.Transfer.Workflow.{
  is_approved, audit, require_transfer, request, request_check, request_create, check_user, Input,
}
use asset_hub.Transfer.Decisions.{
  change_transfer, approve, approve_write, reject, reject_write, cancel, cancel_write,
}
use asset_hub.Transfer.Completion.{
  complete, complete_body, complete_fields, touch_asset, recheck_user, close_assignment, move_asset,
  open_assignment, lifecycle_event,
}

-- `R` allows every write that a call by `auth` makes, but for the creation of a request and the change of a
-- transfer's status.
pub record AllowsCarry (R : Db → Db → Type 0) (auth : AuthContext) : Type 0 where
  pub touch : (id now : ℕ) → Moves R (touch_asset auth id now)
  pub move :
      (t : AssetTransfer) (from to : LifecycleState) (now : ℕ)
      → Moves R (move_asset auth t from to now)
  pub close : (id t now : ℕ) → Moves R (close_assignment id t now)
  pub reopen :
      (id : ℕ) (u : Option ℕ) (t new_id now : ℕ) → Moves R (open_assignment id u t new_id now)
  pub trail : (a : String) (id : ℕ) (m : Object) (now : ℕ) → Moves R (audit auth a id m now)
  pub lifecycle :
      (t : AssetTransfer) (id : ℕ) (from to : LifecycleState) (now : ℕ)
      → Moves R (lifecycle_event auth t id from to now)

-- `R` allows the changes of status too.
pub record AllowsWrites (R : Db → Db → Type 0) (auth : AuthContext) : Type 0 where
  pub approval : (id : ℕ) (n : Option Text) (now : ℕ) → Moves R (approve_write auth id n now)
  pub rejection : (id : ℕ) (n : Option Text) (now : ℕ) → Moves R (reject_write auth id n now)
  pub cancellation : (id : ℕ) (n : Option Text) (now : ℕ) → Moves R (cancel_write auth id n now)
  pub completion :
      (id : ℕ) (n : Option Text) (now : ℕ) (e : Error)
      → Moves R (change_transfer auth id is_approved (complete_fields auth n now) e)
  pub carry : AllowsCarry R auth

module _ {R : Db → Db → Type 0} (order : IsPreorder R) (auth : AuthContext) where
  pub require_transfer-Moves : (id : ℕ) → Moves R (require_transfer auth id)
  unfolding require_transfer
  require_transfer-Moves id = search (moves_rules, order)

  validate_location-Moves : (l : ℕ) (d : Option ℕ) → Moves R (validate_location auth l d)
  unfolding validate_location
  validate_location-Moves l d = search (moves_rules, order) depth 9

  validate_department-Moves : (d : ℕ) → Moves R (validate_department auth d)
  unfolding validate_department
  validate_department-Moves d = search (moves_rules, order) depth 9

  pub validate_destination-Moves : (l d : Option ℕ) → Moves R (validate_destination auth l d)
  unfolding validate_destination
  validate_destination-Moves (some l) d = validate_location-Moves l d
  validate_destination-Moves none (some d) = validate_department-Moves d
  validate_destination-Moves none none = search (moves_rules, order)

  pub check_user-Moves : (u : Option ℕ) → Moves R (check_user auth u)
  unfolding check_user
  check_user-Moves none = search (moves_rules, order)
  check_user-Moves (some u) = search (moves_rules, order) depth 7

  pub recheck_user-Moves : (u : Option ℕ) → Moves R (recheck_user auth u)
  unfolding recheck_user
  recheck_user-Moves none = search (moves_rules, order)
  recheck_user-Moves (some u) = search (moves_rules, order) depth 7

  pub request_check-Moves :
      (asset_id : ℕ) (input : Input) → Moves R (request_check auth asset_id input)
  unfolding request_check
  request_check-Moves asset_id input =
      search (moves_rules, order, check_user-Moves, validate_destination-Moves) depth 12

  pub request-Moves :
      (asset_id : ℕ) (input : Input) (id now : ℕ)
      → ((t : AssetTransfer) → Moves R (request_create auth t id now))
      → Moves R (request auth asset_id input id now)
  unfolding request
  request-Moves asset_id input id now create =
      search (moves_rules, order, request_check-Moves, create)

  module _ (w : AllowsCarry R auth) where
    pub approve_by-Moves :
        (id : ℕ) (n : Option Text) (now : ℕ)
        → ((at : ℕ) → Moves R (approve_write auth id n at))
        → Moves R (approve auth id n now)
    unfolding approve
    approve_by-Moves id n now write =
        search (moves_rules, order, require_transfer-Moves, write, w.trail) depth 9

    pub reject_by-Moves :
        (id : ℕ) (n : Option Text) (now : ℕ)
        → ((at : ℕ) → Moves R (reject_write auth id n at))
        → Moves R (reject auth id n now)
    unfolding reject
    reject_by-Moves id n now write =
        search (moves_rules, order, require_transfer-Moves, write, w.trail) depth 9

    pub cancel_by-Moves :
        (id : ℕ) (n : Option Text) (now : ℕ)
        → ((at : ℕ) → Moves R (cancel_write auth id n at))
        → Moves R (cancel auth id n now)
    unfolding cancel
    cancel_by-Moves id n now write =
        search (moves_rules, order, require_transfer-Moves, write, w.trail) depth 9

    module _ (lifecycle_error : LifecycleState → LifecycleState → Option Error) (t_id : ℕ)
        (n : Option Text) (new_id now : ℕ)
        (completion : (e : Error)
          → Moves R (change_transfer auth t_id is_approved (complete_fields auth n now) e)) where
      complete_body-Moves :
          (t : AssetTransfer) → Moves R (complete_body lifecycle_error auth t t_id n new_id now)
      unfolding complete_body
      complete_body-Moves t =
          search
            (
              moves_rules, order, w.touch, recheck_user-Moves, validate_destination-Moves, w.close,
              w.move, w.reopen, completion,
            )
            depth 16

      pub complete_by-Moves : Moves R (complete lifecycle_error auth t_id n new_id now)
      unfolding complete
      complete_by-Moves =
          search
            (moves_rules, order, require_transfer-Moves, complete_body-Moves, w.trail, w.lifecycle)
            depth 12

  module _ (w : AllowsWrites R auth) where
    pub approve-Moves : (id : ℕ) (n : Option Text) (now : ℕ) → Moves R (approve auth id n now)
    approve-Moves id n now = approve_by-Moves w.carry id n now (w.approval id n)

    pub reject-Moves : (id : ℕ) (n : Option Text) (now : ℕ) → Moves R (reject auth id n now)
    reject-Moves id n now = reject_by-Moves w.carry id n now (w.rejection id n)

    pub cancel-Moves : (id : ℕ) (n : Option Text) (now : ℕ) → Moves R (cancel auth id n now)
    cancel-Moves id n now = cancel_by-Moves w.carry id n now (w.cancellation id n)

    pub complete-Moves :
        (lifecycle_error : LifecycleState → LifecycleState → Option Error) (id : ℕ)
        (n : Option Text) (new_id now : ℕ)
        → Moves R (complete lifecycle_error auth id n new_id now)
    complete-Moves lifecycle_error id n new_id now =
        complete_by-Moves w.carry lifecycle_error id n new_id now (w.completion id n now)
