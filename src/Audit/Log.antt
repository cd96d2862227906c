-- ===== src/Audit/Log.antt =====
-- Writing and reading the audit log (audit.service.ts, `record`, `list` and `summary`). The state is
-- the collection of audit events. A text is counted by its code units; the tenant id 0 stands for an
-- empty one.
use asset_hub.Prelude.{
  ℕ, ⊤, Option, none, some, Bool, true, false, ◌&&◌, ◌||◌, List, [], ◌∷◌, ◌++◌, ◌==◌, leb, ltb,
  length, take, any, get_or, min, max, if◌then◌else◌,
}
use asset_hub.Prelude.Text.{Text, codes, text_eq, to_lower, contains}
use asset_hub.Prelude.Collection.{find_all, count_where}
use asset_hub.Prelude.Action.{Action, pure, modify}
use asset_hub.Models.{Value, Object}
use asset_hub.Access.Scope.{AuthContext}

pub record Event : Type 0 where
  pub tenant_id : ℕ
  pub company_id : Option ℕ
  pub actor_user_id : Option ℕ
  pub action : Text
  pub target_type : Option Text
  pub target_id : Option Text
  pub result : Option Text
  pub route : Option Text
  pub http_method : Option Text
  pub status_code : Option ℕ
  pub ip_address : Option Text
  pub user_agent : Option Text
  pub metadata : Object
  pub occurred_at : ℕ

-- The words of the expression `sensitive`, which ignores the case of letters.
abbrev pub sensitive_words : List Text
sensitive_words =
    codes "password"
    ∷ codes "token"
    ∷ codes "secret"
    ∷ codes "authorization"
    ∷ codes "cookie"
    ∷ codes "refresh"
    ∷ codes "accesstoken"
    ∷ codes "access_token"
    ∷ codes "access-token"
    ∷ codes "privatekey"
    ∷ codes "private_key"
    ∷ codes "private-key"
    ∷ []

unfoldable pub is_sensitive : Text → Bool
is_sensitive key = any (λ w. contains w (to_lower key)) sensitive_words

-- A text of more than 2000 units is cut.
abbrev pub clipped : Value → Value
clipped (Value.text t) = Value.text (if ltb 2000 (length t) then take 2000 t else t)
clipped (Value.str s) =
    if ltb 2000 (length (codes s)) then Value.text (take 2000 (codes s)) else Value.str s
clipped v = v

-- The loop over `Object.entries(input.metadata ?? {})`.
unfoldable pub redact : Object → Object
redact [] = []
redact ((key, v) ∷ m) =
    let rest = redact m in if is_sensitive key then rest else (key, clipped v) ∷ rest

-- `record`, where the input has no time and its metadata are not yet redacted.
unfoldable pub record_event : Event → ℕ → Action (List Event) ⊤
record_event input now =
    if input.tenant_id == 0
    then pure tt
    else modify
        λ log. log ++ record input { metadata = redact input.metadata; occurred_at = now } ∷ []

pub record AuditQuery : Type 0 where
  pub action : Option Text
  pub target_type : Option Text
  pub actor_user_id : Option ℕ
  pub from : Option ℕ
  pub until : Option ℕ
  pub limit : Option ℕ

abbrev text_is : Option Text → Text → Bool
text_is none t = false
text_is (some s) t = text_eq s t

abbrev wants_text : Option Text → Option Text → Bool
wants_text none t = true
wants_text (some w) t = text_is t w

abbrev pub wants_id : Option ℕ → Option ℕ → Bool
wants_id none i = true
wants_id (some w) none = false
wants_id (some w) (some i) = i == w

abbrev since : Option ℕ → ℕ → Bool
since none t = true
since (some f) t = leb f t

abbrev up_to : Option ℕ → ℕ → Bool
up_to none t = true
up_to (some u) t = leb t u

-- `{ tenantId }`, with the company where the caller is bound to one.
abbrev pub visible : AuthContext → Event → Bool
visible auth e =
    e.tenant_id == auth.tenant_id
    && (auth.cross_company || wants_id (some auth.company_id) e.company_id)

abbrev pub matches : AuthContext → AuditQuery → Event → Bool
matches auth query e =
    visible auth e
    && wants_text query.action (some e.action)
    && wants_text query.target_type e.target_type
    && wants_id query.actor_user_id e.actor_user_id
    && since query.from e.occurred_at
    && up_to query.until e.occurred_at

-- `sort({ occurredAt: -1 })`, by insertion: events of the same time keep their order.
unfoldable pub insert_newest : Event → List Event → List Event
insert_newest e [] = e ∷ []
insert_newest e (x ∷ xs) =
    let rest = insert_newest e xs in
    if ltb e.occurred_at x.occurred_at then x ∷ rest else e ∷ x ∷ xs

unfoldable pub newest_first : List Event → List Event
unfolding insert_newest
newest_first [] = []
newest_first (e ∷ es) = insert_newest e (newest_first es)

-- `Math.min(Math.max(query.limit ?? 200, 1), 1000)`
abbrev pub page_limit : Option ℕ → ℕ
page_limit limit = min (max (get_or limit 200) 1) 1000

unfoldable pub list_events : AuthContext → AuditQuery → List Event → List Event
unfolding newest_first
list_events auth query log =
    take (page_limit query.limit) (newest_first (find_all (matches auth query) log))

-- The two counts of `summary`, from the start of the day.
pub record Totals : Type 0 where
  pub total : ℕ
  pub today : ℕ

unfoldable pub totals : AuthContext → ℕ → List Event → Totals
totals auth midnight log = record {
  total = count_where (visible auth) log;
  today = count_where (λ e. visible auth e && leb midnight e.occurred_at) log;
}
