-- ===== src/Audit/Naming.antt =====
-- The names that the interceptor gives to what a request was about (audit.interceptor.ts, `intercept`,
-- `inferTargetType`, `normalizeRoute`).
use asset_hub.Prelude.{
  ℕ, Option, none, some, Bool, true, false, ◌&&◌, ◌||◌, List, [], ◌∷◌, ◌==◌, any, or_else, given,
  drop, length, if◌then◌else◌,
}
use asset_hub.Prelude.Text.{Text, codes, text_eq, to_lower, starts_with, contains}

-- The parameters in the path of the route.
pub record Params : Type 0 where
  pub asset_id : Option Text
  pub user_id : Option Text
  pub company_id : Option Text
  pub vendor_id : Option Text
  pub role_id : Option Text
  pub idp_config_id : Option Text
  pub token_id : Option Text
  pub asset_type_id : Option Text
  pub transfer_id : Option Text
  pub acknowledgement_id : Option Text
  pub template_id : Option Text
  pub document_id : Option Text

-- `a ?? b ?? …`
abbrev pub first_given : List (Option Text) → Option Text
first_given [] = none
first_given (o ∷ os) = or_else o (first_given os)

abbrev pub target_id : Params → Option Text
target_id p = first_given (
    p.asset_id ∷ p.user_id ∷ p.company_id ∷ p.vendor_id ∷ p.role_id ∷ p.idp_config_id ∷ p.token_id
    ∷ p.asset_type_id ∷ p.transfer_id ∷ p.acknowledgement_id ∷ p.template_id ∷ p.document_id ∷ [])

-- `inferTargetType`: a rule for each type of target, of which the first that fits is taken. It fits if
-- its parameter is given or the route has one of its parts.
pub record Rule : Type 0 where
  pub param : Option Text
  pub parts : List Text
  pub target_type : Text

abbrev rule : Option Text → List Text → Text → Rule
rule param parts target_type = record { param = param; parts = parts; target_type = target_type }

abbrev pub target_rules : Params → List Rule
target_rules p =
    rule p.asset_id (codes "/assets" ∷ []) (codes "asset")
    ∷ rule p.user_id (codes "/users" ∷ []) (codes "user")
    ∷ rule p.role_id (codes "/roles" ∷ []) (codes "role")
    ∷ rule p.vendor_id (codes "/vendors" ∷ []) (codes "vendor")
    ∷ rule p.company_id (codes "/companies" ∷ []) (codes "company")
    ∷ rule p.idp_config_id (codes "/identity" ∷ []) (codes "identity_provider")
    ∷ rule p.token_id (codes "/scim" ∷ []) (codes "scim")
    ∷ rule p.asset_type_id (codes "/asset-templates" ∷ codes "/assets/types" ∷ [])
        (codes "asset_type")
    ∷ rule p.transfer_id (codes "/transfers" ∷ []) (codes "asset_transfer")
    ∷ rule p.acknowledgement_id (codes "/asset-acknowledgements" ∷ [])
        (codes "asset_acknowledgement")
    ∷ rule p.template_id (codes "/templates" ∷ []) (codes "template")
    ∷ rule p.document_id (codes "/documents" ∷ []) (codes "asset_document")
    ∷ []

unfoldable pub first_fitting : Text → List Rule → Option Text
unfolding contains
first_fitting route [] = none
first_fitting route (r ∷ rs) =
    if given r.param || any (λ part. contains part route) r.parts
    then some r.target_type
    else first_fitting route rs

unfoldable pub infer_target_type : Text → Params → Option Text
unfolding first_fitting
infer_target_type route params = first_fitting route (target_rules params)

-- `normalizeRoute`
abbrev pub is_slash : ℕ → Bool
is_slash c = c == b'/'

abbrev pub is_separator : ℕ → Bool
is_separator c = c == b':' || c == b'/'

abbrev pub is_dot : ℕ → Bool
is_dot c = c == b'.'

unfoldable pub drop_while : (ℕ → Bool) → Text → Text
drop_while p [] = []
drop_while p (c ∷ s) = let rest = drop_while p s in if p c then rest else c ∷ s

-- `replace(/^api\/v1\//, '')`
unfoldable pub without_prefix : Text → Text → Text
without_prefix p s = if starts_with p s then drop (length p) s else s

-- Each run of such characters becomes one dot; with whether a run is going on.
unfoldable pub runs_to_dot : (ℕ → Bool) → Bool → Text → Text
runs_to_dot p within [] = []
runs_to_dot p within (c ∷ s) =
    let inside = runs_to_dot p true s in
    let outside = runs_to_dot p false s in
    if p c then (if within then inside else b'.' ∷ inside) else c ∷ outside

-- `replace(/\.+$/g, '')`
unfoldable pub without_last_dots : Text → Text
without_last_dots [] = []
without_last_dots (c ∷ s) =
    let rest = without_last_dots s in if is_dot c && text_eq rest [] then [] else c ∷ rest

unfoldable pub normalize_route : Text → Text
unfolding drop_while without_prefix runs_to_dot without_last_dots to_lower
normalize_route route = to_lower (
    without_last_dots (
      runs_to_dot is_dot false (
        runs_to_dot is_separator false
          (without_prefix (codes "api/v1/") (drop_while is_slash route)))))
