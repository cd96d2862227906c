-- ===== src/Transfer/Calls.antt =====
-- The calls that the transfer service answers, in any order and by anyone
-- (asset-transfer.service.ts).
use asset_hub.Prelude.{ℕ, Option, List, [], ◌∷◌}
use asset_hub.Prelude.Text.{Text}
use asset_hub.Prelude.Action.{Action, Error}
use asset_hub.Models.{Db, AssetTransfer, LifecycleState}
use asset_hub.Access.Scope.{AuthContext}
use asset_hub.Transfer.Workflow.{Input, request}
use asset_hub.Transfer.Decisions.{approve, reject, cancel}
use asset_hub.Transfer.Completion.{complete}

-- The numbers are the asset or the transfer, and the id that the database gives a new document.
pub data Call : Type 0 where
  ask : ℕ → Input → ℕ → Call
  accept : ℕ → Option Text → Call
  refuse : ℕ → Option Text → Call
  finish : ℕ → Option Text → ℕ → Call
  withdraw : ℕ → Option Text → Call

module _ (lifecycle_error : LifecycleState → LifecycleState → Option Error) where
  unfoldable pub serve : AuthContext → Call → ℕ → Action Db AssetTransfer
  serve auth (ask asset_id input new_id) now = request auth asset_id input new_id now
  serve auth (accept transfer_id note) now = approve auth transfer_id note now
  serve auth (refuse transfer_id note) now = reject auth transfer_id note now
  serve auth (finish transfer_id note new_id) now =
      complete lifecycle_error auth transfer_id note new_id now
  serve auth (withdraw transfer_id note) now = cancel auth transfer_id note now

  -- A request that throws is answered by an error; the next one starts from the state it left.
  unfoldable pub serve_all : List (AuthContext × Call × ℕ) → Db → Db
  serve_all [] db = db
  serve_all ((auth, call, now) ∷ calls) db = serve_all calls (serve auth call now db).1
