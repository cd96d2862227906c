-- ===== src/Audit/Interceptor.antt =====
-- The interceptor that records what requests changed (apps/api/src/common/audit/audit.interceptor.ts).
-- A text that is longer than its bound is cut by code points; a failure to record is not modelled.
use asset_hub.Prelude.{
  ℕ, ⊤, Option, none, some, Bool, not, ◌&&◌, ◌||◌, List, [], ◌∷◌, ◌++◌, ◌==◌, any, take, get_or,
  or_else, if◌then◌else◌,
}
use asset_hub.Prelude.Text.{Text, codes, text_eq, to_lower, to_upper, contains}
use asset_hub.Prelude.Action.{Action, pure, ◌>>◌}
use asset_hub.Models.{Value, Object}
use asset_hub.Access.Scope.{AuthContext}
use asset_hub.Audit.Log.{Event, record_event}
use asset_hub.Audit.Naming.{Params, target_id, infer_target_type, normalize_route}

pub record HttpRequest : Type 0 where
  pub http_method : Option Text
  pub route_path : Option Text
  pub original_url : Option Text
  pub url : Option Text
  pub auth : Option AuthContext
  pub params : Params
  pub ip : Option Text
  pub user_agent : Option Text

-- What the handler did: it returned a value that may be an object, or threw.
pub data Outcome : Type 0 where
  returned : Option Object → Outcome
  thrown : Option ℕ → Option Text → Outcome

abbrev pub method_of : HttpRequest → Text
method_of req = to_upper (get_or req.http_method (codes "GET"))

abbrev pub route_of : HttpRequest → Text
route_of req = get_or (or_else req.route_path (or_else req.original_url req.url)) (codes "unknown")

unfoldable pub is_ignored : Text → Text → Bool
unfolding contains
is_ignored http_method route =
    text_eq http_method (codes "OPTIONS")
    || contains (codes "/api/docs") route
    || contains (codes "/health") route
    || contains (codes "/audit") route

unfoldable pub is_write : Text → Bool
is_write m = any (text_eq m) (codes "POST" ∷ codes "PUT" ∷ codes "PATCH" ∷ codes "DELETE" ∷ [])

-- `safeMetadata`: of an object, the listed keys that it has, in the order of the list.
abbrev pub safe_keys : List Text
safe_keys =
    codes "id"
    ∷ codes "assetNumber"
    ∷ codes "status"
    ∷ codes "condition"
    ∷ codes "templateName"
    ∷ codes "documentId"
    ∷ codes "acknowledgementId"
    ∷ codes "imported"
    ∷ codes "updated"
    ∷ codes "deletedCount"
    ∷ []

abbrev pub field : Text → Object → Option Value
field key [] = none
field key ((k, v) ∷ m) = if text_eq k key then some v else field key m

abbrev kept : Text → Option Value → Object → Object
kept key none m = m
kept key (some Value.undefined) m = m
kept key (some v) m = (key, v) ∷ m

unfoldable pub picked : List Text → Object → Object
picked [] value = []
picked (key ∷ keys) value = kept key (field key value) (picked keys value)

unfoldable pub safe_metadata : Option Object → Object
unfolding picked
safe_metadata none = []
safe_metadata (some value) = picked safe_keys value

abbrev pub action_of : HttpRequest → Text
action_of req = to_lower (method_of req) ++ codes "." ++ normalize_route (route_of req)

abbrev text_value : Option Text → Value
text_value none = Value.undefined
text_value (some t) = Value.text t

-- What both kinds of event have in their metadata.
abbrev request_metadata : HttpRequest → ℕ → Text → Object
request_metadata req status result =
    (codes "result", Value.text result)
    ∷ (codes "statusCode", Value.num status)
    ∷ (codes "route", Value.text (route_of req))
    ∷ (codes "method", Value.text (method_of req))
    ∷ (codes "ipAddress", text_value req.ip)
    ∷ (codes "userAgent", Value.text (take 500 (get_or req.user_agent [])))
    ∷ []

abbrev pub event_base : AuthContext → HttpRequest → Event
event_base auth req = record {
  tenant_id = auth.tenant_id;
  company_id = some auth.company_id;
  actor_user_id = some auth.user_id;
  action = action_of req;
  target_type = infer_target_type (route_of req) req.params;
  target_id = target_id req.params;
  result = none;
  route = none;
  http_method = none;
  status_code = none;
  ip_address = none;
  user_agent = none;
  metadata = [];
  occurred_at = 0;
}

-- The event of a request, where the response has the given status. A later field of the same name takes
-- the place of an earlier one, and `safeMetadata` has none of the names of the request's own.
unfoldable pub event_of : AuthContext → HttpRequest → ℕ → Outcome → Event
unfolding safe_metadata
event_of auth req status (returned value) = record (event_base auth req) {
  metadata = safe_metadata value ++ request_metadata req status (codes "success");
}
event_of auth req status (thrown error_status message) = record (event_base auth req) {
  action = action_of req ++ codes ".failed";
  metadata =
      request_metadata req (get_or error_status 500) (codes "failure")
      ++ (codes "error", Value.text (take 1000 (get_or message (codes "Request failed")))) ∷ [];
}

-- `ignored`, no tenant, or a method that changes nothing: the handler runs without a record.
abbrev pub is_audited : AuthContext → HttpRequest → Bool
is_audited auth req =
    not (is_ignored (method_of req) (route_of req))
    && not (auth.tenant_id == 0)
    && is_write (method_of req)

abbrev intercept_with : Option AuthContext → HttpRequest → ℕ → Outcome → ℕ → Action (List Event) ⊤
intercept_with none req status outcome now = pure tt
intercept_with (some auth) req status outcome now =
    if is_audited auth req then record_event (event_of auth req status outcome) now else pure tt

-- After the handler: what it returned or threw goes on as it was.
unfoldable pub intercept : HttpRequest → ℕ → Outcome → ℕ → Action (List Event) Outcome
unfolding is_ignored is_write event_of infer_target_type normalize_route
intercept req status outcome now = do intercept_with req.auth req status outcome now; pure outcome
