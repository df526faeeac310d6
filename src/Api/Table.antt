-- ===== src/Api/Table.antt =====
-- The routes of the API in the order in which src/app.js mounts the routers, with the places where a token is
-- checked. How Express matches a path with a pattern is a parameter.
use sentinel_adc.Base.{Bool, true, false, not, ◌&&◌, String, List, [], ◌∷◌, if◌then◌else◌}

pub data Method : Type 0 where
  get post put delete : Method

abbrev pub method_eq : Method → Method → Bool
method_eq get get = true
method_eq post post = true
method_eq put put = true
method_eq delete delete = true
method_eq _ _ = false

-- A segment of a pattern: a text, or a parameter.
pub data Segment : Type 0 where
  literal : String → Segment
  param : Segment

abbrev pub Pattern : Type 0
Pattern = List Segment

-- An entry of a router: a route, or `router.use(jwtMiddleware())` for all that lies below a path.
pub data Entry : Type 0 where
  on : Method → Pattern → Entry
  protect : Pattern → Entry

-- Whether a path is matched as a whole, or by a prefix.
pub record Express : Type 0 where
  pub matches : Pattern → List String → Bool
  pub starts : Pattern → List String → Bool

abbrev api : String → Pattern → Pattern
api mount rest = literal "api" ∷ literal mount ∷ rest

abbrev status_routes : List Entry
status_routes = on get (api "status" []) ∷ on get (api "status" (literal "ping" ∷ [])) ∷ []

abbrev admin_routes : List Entry
admin_routes =
    protect (api "admin" [])
    ∷ on get (api "admin" (literal "algorithm" ∷ []))
    ∷ on put (api "admin" (literal "algorithm" ∷ []))
    ∷ on get (api "admin" (literal "backends" ∷ []))
    ∷ on put (api "admin" (literal "backends" ∷ param ∷ literal "weight" ∷ []))
    ∷ on post (api "admin" (literal "backends" ∷ param ∷ literal "drain" ∷ []))
    ∷ on post (api "admin" (literal "backends" ∷ param ∷ literal "undrain" ∷ []))
    ∷ []

abbrev health_routes : List Entry
health_routes =
    on get (api "health" [])
    ∷ on get (api "health" (param ∷ []))
    ∷ protect (api "health" [])
    ∷ on post (api "health" (param ∷ literal "override" ∷ []))
    ∷ []

abbrev metrics_routes : List Entry
metrics_routes = on get (api "metrics" []) ∷ on get (api "metrics" (param ∷ [])) ∷ []

abbrev cache_routes : List Entry
cache_routes =
    on get (api "cache" (literal "stats" ∷ []))
    ∷ protect (api "cache" [])
    ∷ on delete (api "cache" [])
    ∷ on delete (api "cache" (literal "invalidate" ∷ []))
    ∷ []

abbrev security_routes : List Entry
security_routes =
    on post (api "security" (literal "login" ∷ []))
    ∷ protect (api "security" [])
    ∷ on get (api "security" (literal "events" ∷ []))
    ∷ on delete (api "security" (literal "events" ∷ []))
    ∷ on get (api "security" (literal "blocklist" ∷ []))
    ∷ on post (api "security" (literal "blocklist" ∷ []))
    ∷ on delete (api "security" (literal "blocklist" ∷ param ∷ []))
    ∷ on get (api "security" (literal "anomalies" ∷ []))
    ∷ on post (api "security" (literal "anomalies" ∷ literal "config" ∷ []))
    ∷ on delete (api "security" (literal "anomalies" ∷ []))
    ∷ []

abbrev analytics_routes : List Entry
analytics_routes =
    protect (api "analytics" [])
    ∷ on get (api "analytics" (literal "realtime" ∷ []))
    ∷ on get (api "analytics" (literal "historical" ∷ []))
    ∷ on get (api "analytics" (literal "backends" ∷ []))
    ∷ []

abbrev resilience_routes : List Entry
resilience_routes =
    protect (api "resilience" [])
    ∷ on get (api "resilience" (literal "circuit-breakers" ∷ []))
    ∷ on post (api "resilience" (literal "circuit-breakers" ∷ literal "reset" ∷ []))
    ∷ on post (api "resilience" (literal "circuit-breakers" ∷ literal "reset-all" ∷ []))
    ∷ []

abbrev pub mounts : List (List Entry)
mounts =
    status_routes ∷ admin_routes ∷ health_routes ∷ metrics_routes ∷ cache_routes ∷ security_routes
    ∷ analytics_routes ∷ resilience_routes ∷ []

-- A route answers, the token is refused, or nothing has answered.
pub data Dispatched : Type 0 where
  handled : Pattern → Dispatched
  unauthorized unanswered : Dispatched

abbrev pub or_else : Dispatched → Dispatched → Dispatched
or_else (handled p) rest = handled p
or_else unauthorized rest = unauthorized
or_else unanswered rest = rest

unfoldable pub through : Express → Bool → Method → List String → List Entry → Dispatched
through express valid m path [] = unanswered
through express valid m path (on n p ∷ es) =
    if method_eq m n && express.matches p path then handled p else through express valid m path es
through express valid m path (protect p ∷ es) =
    if not valid && express.starts p path then unauthorized else through express valid m path es

-- A request below `/api` that no router has answered passes the proxy and gets Express's own 404.
unfoldable pub dispatch : Express → Bool → Method → List String → List (List Entry) → Dispatched
unfolding through
dispatch express valid m path [] = unanswered
dispatch express valid m path (r ∷ rs) =
    or_else (through express valid m path r) (dispatch express valid m path rs)
