-- ===== src/Api/Access.antt =====
-- Who may call what: AuthMiddleware of server/orchestrator/mesh/middleware.go, the admin check of
-- setupRoutes in api.go, and CORSMiddleware of cors.go. An absent header is the empty text.
use lattice_hub.Base.{
  Bool, true, false, not, ◌&&◌, ◌||◌, Option, none, some, List, [], ◌∷◌, ◌==◌, if◌then◌else◌, Text,
  codes, length, text_eq, drop,
}

-- strings.HasPrefix and strings.TrimPrefix.
unfoldable pub has_prefix : Text → Text → Bool
has_prefix [] t = true
has_prefix (c ∷ p) [] = false
has_prefix (c ∷ p) (d ∷ t) = c == d && has_prefix p t

unfoldable pub trim_prefix : Text → Text → Text
unfolding has_prefix
trim_prefix p t = if has_prefix p t then drop (length p) t else t

abbrev pub bearer : Text
bearer = codes "Bearer "

-- The test of AuthMiddleware, and of the admin check.
unfoldable pub carries_key : Text → Text → Bool
unfolding has_prefix trim_prefix
carries_key key auth = has_prefix bearer auth && text_eq (trim_prefix bearer auth) key

pub data Tier : Type 0 where
  open_tier key_tier admin_tier : Tier

pub record Keys : Type 0 where
  pub api_key : Text
  pub admin_key : Text

abbrev is_set : Text → Bool
is_set t = not (text_eq t [])

-- The middleware that setupRoutes puts before each tier. Without an admin key the admin tier asks
-- for the API key; without either it is open.
unfoldable pub authorised : Keys → Tier → Text → Bool
unfolding carries_key
authorised k open_tier auth = true
authorised k key_tier auth = if is_set k.api_key then carries_key k.api_key auth else true
authorised k admin_tier auth =
    if is_set k.admin_key
    then carries_key k.admin_key auth
    else if is_set k.api_key
    then carries_key k.api_key auth
    else true

abbrev is_among : List Text → Text → Bool
is_among [] t = false
is_among (o ∷ os) t = text_eq o t || is_among os t

-- CORSMiddleware: the origin that is let in, if any, and whether the request stops here, as a
-- preflight does.
unfoldable pub cors : List Text → Text → Bool → Option Text × Bool
cors allowed origin preflight =
    (if is_set origin && is_among allowed origin then some origin else none, preflight)
