-- ===== src/Csrf.antt =====
-- The check of requests that change something (apps/api/src/common/security/csrf.middleware.ts), after
-- the cookies of the request were parsed. The setting of the cookie itself is left out. `new URL` is a
-- parameter: the protocol and the host name of a text that is a URL.
use asset_hub.Prelude.{
  ℕ, ◌+◌, Option, none, some, Bool, true, false, not, ◌&&◌, ◌||◌, List, [], ◌∷◌, ◌++◌, ◌==◌, any,
  all, leb, length, drop, given, if◌then◌else◌, suc, ltb,
}
use asset_hub.Prelude.Text.{Text, codes, text_eq, to_lower, to_upper, starts_with}
use asset_hub.Prelude.Action.{Result, ok, err, forbidden}

pub record Url : Type 0 where
  pub protocol : Text
  pub hostname : Text

pub record Settings : Type 0 where
  pub origins : List Text
  pub production : Bool
  -- The root domain, without dots around it and in small letters.
  pub root : Text
  pub parse_url : Text → Option Url

-- `value.replace(/\/$/, '')`
unfoldable pub without_slash : Text → Text
without_slash [] = []
without_slash (c ∷ []) = if c == b'/' then [] else c ∷ []
without_slash (c ∷ d ∷ s) = c ∷ without_slash (d ∷ s)

abbrev is_digit : ℕ → Bool
is_digit c = leb b'0' c && leb c b'9'

-- `(?::\d+)?$`
abbrev port_or_end : Text → Bool
port_or_end [] = true
port_or_end (c ∷ s) = c == b':' && ltb 0 (length s) && all is_digit s

abbrev after : Text → Text → Option Text
after p s = if starts_with p s then some (drop (length p) s) else none

abbrev host_then_port : Option Text → Bool
host_then_port none = false
host_then_port (some s) = port_or_end s

abbrev local_host : Option Text → Bool
local_host none = false
local_host (some s) =
    host_then_port (after (codes "localhost") s) || host_then_port (after (codes "127.0.0.1") s)

-- `/^https?:\/\/(localhost|127\.0\.0\.1)(?::\d+)?$/i`
unfoldable pub is_local : Text → Bool
unfolding to_lower
is_local value =
    local_host (after (codes "http://") (to_lower value))
    || local_host (after (codes "https://") (to_lower value))

abbrev ends_with : Text → Text → Bool
ends_with p [] = text_eq p []
ends_with p (c ∷ s) = text_eq p (c ∷ s) || ends_with p s

-- `split('.').length`
unfoldable pub labels : Text → ℕ
labels [] = 1
labels (c ∷ s) = let n = labels s in if c == b'.' then suc n else n

abbrev pub trusted_host : Settings → Option Url → Bool
trusted_host settings none = false
trusted_host settings (some url) =
    (text_eq url.protocol (codes "http:") || text_eq url.protocol (codes "https:"))
    && not (text_eq settings.root [] || text_eq (to_lower url.hostname) settings.root)
    && ends_with (codes "." ++ settings.root) (to_lower url.hostname)
    && labels url.hostname == labels settings.root + 1

unfoldable pub is_trusted_browser_origin : Settings → Text → Bool
is_trusted_browser_origin settings value =
    not (text_eq value [] || text_eq value (codes "null"))
    && (any (text_eq (without_slash value)) settings.origins
        || (not settings.production && is_local value)
        || trusted_host settings (settings.parse_url value))

pub record Request : Type 0 where
  pub http_method : Text
  -- The path without the query and the prefix `/api/v1`.
  pub path : Text
  -- `browserOrigin`: the origin, or that of the referer.
  pub origin : Option Text
  pub csrf_tokens : List Text
  -- The values of the four cookies with access and refresh tokens.
  pub authentication_cookies : List Text
  pub csrf_header : Text

unfoldable pub is_mutating : Text → Bool
unfolding to_upper
is_mutating m =
    any (text_eq (to_upper m)) (codes "POST" ∷ codes "PUT" ∷ codes "PATCH" ∷ codes "DELETE" ∷ [])

abbrev pub is_authentication_transition : Text → Bool
is_authentication_transition path =
    text_eq path (codes "/auth/login") || text_eq path (codes "/auth/system/login")

abbrev pub is_session_refresh : Text → Bool
is_session_refresh path = text_eq path (codes "/auth/refresh")

abbrev pub has_authentication_cookie : Request → Bool
has_authentication_cookie req = ltb 0 (length req.authentication_cookies)

abbrev pub origin_trusted : Settings → Option Text → Bool
origin_trusted settings none = false
origin_trusted settings (some o) = is_trusted_browser_origin settings o

-- `!supplied || !csrfTokens.some(…)` does not hold.
abbrev pub token_ok : Request → Bool
token_ok req =
    not (text_eq req.csrf_header []) && any (λ t. text_eq t req.csrf_header) req.csrf_tokens

abbrev refused_origin : Result Bool
refused_origin = err (forbidden "CSRF origin validation failed")

-- The check of the middleware, for a request that goes on or is refused.
unfoldable pub csrf_check : Settings → Request → Result Bool
csrf_check settings req =
    let trusted = origin_trusted settings req.origin in
    if not (is_mutating req.http_method)
    then ok true
    else if is_authentication_transition req.path
    then (if given req.origin && not trusted then refused_origin else ok true)
    else if is_session_refresh req.path
    then (if trusted then ok true else refused_origin)
    else if not (has_authentication_cookie req)
    then ok true
    else if not trusted
    then refused_origin
    else if token_ok req
    then ok true
    else err (forbidden "CSRF token validation failed")
