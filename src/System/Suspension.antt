-- ===== src/System/Suspension.antt =====
-- What the suspension of a tenant leaves behind (system-admin.service.ts, `setTenantStatus`).
use asset_hub.Prelude.{
  ℕ, ◌≡◌, ◌⊎◌, refl, Option, some, true, false, List, [], ◌∷◌, ltb, length, arith, ◌==◌,
  Option-cases, Bool-cases, inl, inr,
}
use asset_hub.Prelude.Text.{Text}
use asset_hub.Prelude.Members.{has}
use asset_hub.Prelude.Collection.{find_one, update_one, update_many, All, Evolves, Evolves-refl}
use asset_hub.Prelude.Action.{ok, ◌>>=◌}
use asset_hub.Models.{Db, Tenant, TenantStatus, Session}
use asset_hub.Database.{update_tenant, update_sessions}
use asset_hub.System.Tenants.{
  tenant_user_ids, live_of_any, cut_off, revoke_tenant_sessions, suspend, suspended,
  set_tenant_status, StatusAnswer,
}

-- No user among the given ones has a live session.
abbrev pub CutOff : List ℕ → List Session → Type 0
CutOff ids = All (λ x. live_of_any ids x ≡ false)

-- Sessions of anyone else are as they were, and none is new.
abbrev pub OthersKept : List ℕ → List Session → List Session → Type 0
OthersKept ids = Evolves (λ x y. (has x.user_id ids ≡ true) ⊎ (y ≡ x)) (λ _. ⊥)

cuts_off :
    (ids : List ℕ) (now : ℕ) (xs : List Session)
    → CutOff ids (update_many (live_of_any ids) (cut_off now) xs)
cuts_off ids now [] = tt
cuts_off ids now (x ∷ xs) = (ground arith, cuts_off ids now xs)

keeps_others :
    (ids : List ℕ) (now : ℕ) (xs : List Session)
    → OthersKept ids xs (update_many (live_of_any ids) (cut_off now) xs)
keeps_others ids now [] = tt
keeps_others ids now (x ∷ xs) = (ground arith, keeps_others ids now xs)

nobody : (ids : List ℕ) (xs : List Session) → ltb 0 (length ids) ≡ false → CutOff ids xs
nobody [] [] e = tt
nobody [] (x ∷ xs) e = (refl, nobody [] xs e)
nobody (i ∷ ids) xs e = absurd (ground arith)

-- What the revocation does to the database.
revoked_sessions :
    (tenant_id now : ℕ) (db : Db)
    → let db' = (revoke_tenant_sessions tenant_id now db).1 in
      let ids = tenant_user_ids tenant_id db.users in
      (revoke_tenant_sessions tenant_id now db ≡ (ok tt, db'))
      × (db'.tenants ≡ db.tenants)
      × (db'.users ≡ db.users)
      × CutOff ids db'.sessions
      × OthersKept ids db.sessions db'.sessions
unfolding revoke_tenant_sessions update_sessions ◌>>=◌
revoked_sessions tenant_id now db =
    let ids = tenant_user_ids tenant_id db.users in
    elim (Bool-cases (ltb 0 (length ids))) [
      | inl e ↦
          rw e (refl, refl, refl, cuts_off ids now db.sessions, keeps_others ids now db.sessions)
      | inr e ↦ rw e (
        refl,
        refl,
        refl,
        nobody ids db.sessions e,
        Evolves-refl (λ x y. (has x.user_id ids ≡ true) ⊎ (y ≡ x)) (λ _. ⊥) (λ x. inr refl)
            db.sessions,
      )
    ]

found_suspended :
    (tenant_id now : ℕ) (actor : Option ℕ) (reason : Option Text) (ts : List Tenant) (t : Tenant)
    → find_one (λ x. x.id == tenant_id) ts ≡ some t
    → find_one
        (λ x. x.id == tenant_id)
        (update_one (λ x. x.id == tenant_id) (suspended now actor reason) ts)
      ≡ some (suspended now actor reason t)
found_suspended tenant_id now actor reason [] t h = cc
found_suspended tenant_id now actor reason (x ∷ ts) t h =
    ground (arith, found_suspended tenant_id now actor reason ts t)

-- A suspension that returns leaves the tenant suspended at this time, no session of a tenant account of
-- the tenant live, and every session of anyone else as it was.
pub suspension_logs_out :
    (tenant_id now : ℕ) (actor : Option ℕ) (reason : Option Text) (db db' : Db) (r : StatusAnswer)
    → set_tenant_status tenant_id false actor reason now db ≡ (ok r, db')
    → (t : Tenant) × (find_one (λ x. x.id == tenant_id) db'.tenants ≡ some t)
      × (t.status ≡ TenantStatus.suspended)
      × (t.suspended_at ≡ some now)
      × CutOff (tenant_user_ids tenant_id db'.users) db'.sessions
      × OthersKept (tenant_user_ids tenant_id db.users) db.sessions db'.sessions
unfolding set_tenant_status suspend update_tenant ◌>>=◌
suspension_logs_out tenant_id now actor reason db db' r h =
    elim (Option-cases (find_one (λ t. t.id == tenant_id) db.tenants)) [
      | inl e ↦ absurd (ground arith)
      | inr (t, e) ↦
          let f = suspended now actor reason in
          let db1 = record db { tenants = update_one (λ x. x.id == tenant_id) f db.tenants } in
          let (done, tenants, users, cut, kept) = revoked_sessions tenant_id now db1 in
          let same : db' ≡ (revoke_tenant_sessions tenant_id now db1).1 = ground (arith, done) in
          (
            f t,
            rw (same, tenants) (found_suspended tenant_id now actor reason db.tenants t e),
            refl,
            refl,
            rw (same, users) cut,
            rw same kept,
          )
    ]
