-- ===== src/Audit/Recording.antt =====
-- What the interceptor leaves in the audit log (audit.interceptor.ts).
use asset_hub.Prelude.{
  ℕ, ◌+◌, ◌≡◌, refl, Option, none, some, Bool, false, not, ◌&&◌, ◌||◌, List, ◌==◌, length,
  length-append, arith, Bool-cases, inl, inr, if◌then◌else◌,
}
use asset_hub.Prelude.Collection.{Evolves, Evolves-refl, Evolves-append}
use asset_hub.Prelude.Action.{ok, ◌>>=◌}
use asset_hub.Access.Scope.{AuthContext}
use asset_hub.Prelude.Text.{codes, text_eq, contains}
use asset_hub.Audit.Log.{Event, record_event}
use asset_hub.Audit.Redaction.{Redacted, redact-safe}
use asset_hub.Audit.Interceptor.{
  HttpRequest, Outcome, event_of, is_audited, is_ignored, is_write, method_of, route_of, intercept,
  returned, thrown,
}

-- An event of the caller, without secrets.
abbrev pub ByCaller : Option AuthContext → Event → Type 0
ByCaller none e = ⊥
ByCaller (some auth) e =
    (e.tenant_id ≡ auth.tenant_id)
    × (e.company_id ≡ some auth.company_id)
    × (e.actor_user_id ≡ some auth.user_id)
    × Redacted e

-- A request that is to be recorded: a caller with a tenant, one of the four methods, and a route that is
-- none of documentation, health and audit.
abbrev pub worth_recording : AuthContext → HttpRequest → Bool
worth_recording auth req =
    not (auth.tenant_id == 0)
    && (text_eq (method_of req) (codes "POST")
        || text_eq (method_of req) (codes "PUT")
        || text_eq (method_of req) (codes "PATCH")
        || text_eq (method_of req) (codes "DELETE"))
    && not (
        text_eq (method_of req) (codes "OPTIONS")
        || contains (codes "/api/docs") (route_of req)
        || contains (codes "/health") (route_of req)
        || contains (codes "/audit") (route_of req))

audited : (auth : AuthContext) (req : HttpRequest) → is_audited auth req ≡ worth_recording auth req
unfolding is_ignored is_write
audited auth req = ground arith

abbrev pub audits : Option AuthContext → HttpRequest → ℕ
audits none req = 0
audits (some auth) req = if worth_recording auth req then 1 else 0

-- Old events stay as they are, and new ones are the caller's.
abbrev pub Appends : Option AuthContext → List Event → List Event → Type 0
Appends auth = Evolves (λ x y. y ≡ x) (ByCaller auth)

event_fields :
    (auth : AuthContext) (req : HttpRequest) (status : ℕ) (outcome : Outcome)
    → let e = event_of auth req status outcome in
      (e.tenant_id ≡ auth.tenant_id)
      × (e.company_id ≡ some auth.company_id)
      × (e.actor_user_id ≡ some auth.user_id)
unfolding event_of
event_fields auth req status (returned value) = (refl, refl, refl)
event_fields auth req status (thrown error_status message) = (refl, refl, refl)

-- What the handler returned or threw goes on unchanged; the log keeps its events and has one more, of the
-- caller's tenant, company and user and without secrets or long texts, if the request has a method
-- that changes something, a caller with a tenant and no ignored route, and else no more.
pub intercept-records :
    (req : HttpRequest) (status : ℕ) (outcome : Outcome) (now : ℕ) (log : List Event)
    → ((intercept req status outcome now log).0 ≡ ok outcome)
      × Appends req.auth log (intercept req status outcome now log).1
      × (length (intercept req status outcome now log).1 ≡ length log + audits req.auth req)
unfolding intercept record_event ◌>>=◌
intercept-records req status outcome now log = go req.auth
  where
    unchanged : (auth : Option AuthContext) → Appends auth log log
    unchanged auth = Evolves-refl (λ x y. y ≡ x) (ByCaller auth) (λ x. refl) log

    go :
        (auth : Option AuthContext)
        → let done = intercept (record req { auth = auth }) status outcome now log in
          (done.0 ≡ ok outcome)
          × Appends auth log done.1
          × (length done.1 ≡ length log + audits auth req)
    go none = (refl, unchanged none, omega arith)
    go (some auth) = rw (audited auth req) (elim (Bool-cases (worth_recording auth req)) [
      | inl e ↦
          let event = event_of auth req status outcome in
          let fields = event_fields auth req status outcome in
          let tenant : (event.tenant_id == 0) ≡ false = ground (arith, fields) in
          rw (e, tenant)
            (
              refl,
              Evolves-append (λ x y. y ≡ x) (ByCaller (some auth)) (λ x. refl) log _
                  ((fields.0, fields.1, fields.2, redact-safe event.metadata), tt),
              length-append log _,
            )
      | inr e ↦ rw e (refl, unchanged (some auth), omega arith)
    ])
