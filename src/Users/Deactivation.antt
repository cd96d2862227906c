-- ===== src/Users/Deactivation.antt =====
-- What a deactivation leaves behind (users.service.ts, `setActive`).
use asset_hub.Prelude.{ℕ, ◌≡◌, ◌⊎◌, refl, some, false, List, [], ◌∷◌, arith, Option-cases, inl, inr}
use asset_hub.Prelude.Collection.{find_one, update_one, update_many, All, Evolves, find_one_sound}
use asset_hub.Prelude.Action.{ok, ◌>>=◌}
use asset_hub.Models.{Db, User, Session}
use asset_hub.Database.{update_user, update_sessions}
use asset_hub.Access.Scope.{AuthContext}
use asset_hub.Users.Accounts.{SafeUser, reachable, require_user}
use asset_hub.Users.Credentials.{set_active, revoke_all, revoked, live_of}

-- No session of the user is live.
abbrev pub LoggedOut : ℕ → List Session → Type 0
LoggedOut user_id = All (λ x. live_of user_id x ≡ false)

-- Only sessions of the user changed, and none is new.
abbrev pub OnlyOf : ℕ → List Session → List Session → Type 0
OnlyOf user_id = Evolves (λ x y. (x.user_id ≡ user_id) ⊎ (y ≡ x)) (λ _. ⊥)

none_live :
    (user_id now : ℕ) (xs : List Session)
    → LoggedOut user_id (update_many (live_of user_id) (revoked now "admin_deactivated") xs)
none_live user_id now [] = tt
none_live user_id now (x ∷ xs) = (ground arith, none_live user_id now xs)

only_theirs :
    (user_id now : ℕ) (xs : List Session)
    → OnlyOf user_id xs (update_many (live_of user_id) (revoked now "admin_deactivated") xs)
only_theirs user_id now [] = tt
only_theirs user_id now (x ∷ xs) = (ground arith, only_theirs user_id now xs)

found_inactive :
    (auth : AuthContext) (id : ℕ) (us : List User) (u : User)
    → find_one (reachable auth id) us ≡ some u
    → find_one
        (reachable auth id)
        (update_one (reachable auth id) (λ x. record x { is_active = false }) us)
      ≡ some (record u { is_active = false })
found_inactive auth id [] u h = cc
found_inactive auth id (x ∷ us) u h = ground (arith, found_inactive auth id us u)

-- A deactivation that returns leaves the user found in scope inactive, with no session live, and
-- changes no session of anyone else.
pub set_active-deactivates :
    (auth : AuthContext) (user_id now : ℕ) (db db' : Db) (r : SafeUser)
    → set_active auth user_id false now db ≡ (ok r, db')
    → (u : User) × (find_one (reachable auth user_id) db'.users ≡ some u)
      × (u.is_active ≡ false)
      × LoggedOut user_id db'.sessions
      × OnlyOf user_id db.sessions db'.sessions
unfolding set_active require_user revoke_all update_user update_sessions ◌>>=◌
set_active-deactivates auth user_id now db db' r h =
    elim (Option-cases (find_one (reachable auth user_id) db.users)) [
      | inl e ↦ absurd (ground arith)
      | inr (u, e) ↦
          let same : u.id ≡ user_id =
            ground (arith, find_one_sound (reachable auth user_id) db.users u e) in
          let users : db'.users
              ≡ update_one (reachable auth user_id) (λ x. record x { is_active = false }) db.users =
            ground arith in
          let sessions : db'.sessions
              ≡ update_many (live_of user_id) (revoked now "admin_deactivated") db.sessions =
            ground arith in
          (
            record u { is_active = false },
            rw users (found_inactive auth user_id db.users u e),
            refl,
            rw sessions (none_live user_id now db.sessions),
            rw sessions (only_theirs user_id now db.sessions),
          )
    ]
