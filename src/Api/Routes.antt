-- ===== src/Api/Routes.antt =====
-- The routes that `SetupRoutes` of api/src/api_server.cpp registers, over httplib's matching.
pub mod Runs
pub mod Paths
use Prim.Native.Char.{code}
use cdc_pipeline.Base.{
  ℕ, String, ◌<>◌, ◌≡◌, refl, Bool, true, false, Option, none, some, str_eq, ◌==◌, if◌then◌else◌,
}
use cdc_pipeline.Api.Action.{Service}
use cdc_pipeline.Api.Library.{Library, Postgres}
use cdc_pipeline.Api.Cache.{Reply}
use cdc_pipeline.Api.Server.{Response, respond, post_order, patch_status, get_order}

pub data Method : Type 0 where
  get post patch : Method

-- The path after httplib has decoded it.
pub record Request : Type 0 where
  pub method : Method
  pub path : String
  pub body : String

-- The text up to the first slash, and the text from there.
unfoldable pub segment : String → String × String
segment String.[] = ("", "")
segment (String.◌∷◌ c s) =
    let (a, b) = segment s in if code c == 47 then ("", String.◌∷◌ c s) else (String.◌∷◌ c a, b)

unfoldable pub strip_prefix : String → String → Option String
strip_prefix String.[] s = some s
strip_prefix (String.◌∷◌ c p) String.[] = none
strip_prefix (String.◌∷◌ c p) (String.◌∷◌ d s) =
    let rest = strip_prefix p s in if code c == code d then rest else none

pub data Route : Type 0 where
  orders unknown : Route
  order status_of : String → Route

abbrev pub path_prefix : String
path_prefix = "/api/v1/orders"

abbrev is_empty : String → Bool
is_empty String.[] = true
is_empty _ = false

-- `([^/]+)` and `([^/]+)/status`
member_route : String × String → Route
member_route (id, rest) =
    if is_empty id
    then unknown
    else if is_empty rest
    then order id
    else if str_eq rest "/status"
    then status_of id
    else unknown

suffix_route : String → Route
unfolding member_route segment
suffix_route String.[] = orders
suffix_route (String.◌∷◌ c s) = if code c == 47 then member_route (segment s) else unknown

unfoldable pub route : String → Route
unfolding suffix_route strip_prefix
route path = elim (strip_prefix path_prefix path) [ some s ↦ suffix_route s | none ↦ unknown ]

module _ (L : Library) (P : Postgres L.Double) (redis : String → Reply) (uuid : String) where
  -- httplib's own answer where no handler is registered.
  abbrev pub no_route : Service P.State → Response × Service P.State
  no_route w = (respond 404 "", w)

  dispatch : Method → Route → String → Service P.State → Response × Service P.State
  unfolding post_order patch_status get_order
  dispatch post orders body w = post_order L P uuid body w
  dispatch patch (status_of id) body w = patch_status L P id body w
  dispatch get (order id) body w = get_order L P redis id w
  dispatch method r body w = no_route w

  unfoldable pub handle : Request → Service P.State → Response × Service P.State
  unfolding dispatch route
  handle req w = dispatch req.method (route req.path) req.body w

route_of_status : route "/api/v1/orders/ab-1/status" ≡ status_of "ab-1"
unfolding route
route_of_status = refl

route_of_order : route "/api/v1/orders/ab-1" ≡ order "ab-1"
unfolding route
route_of_order = refl

route_of_nothing : route "/api/v1/orders/" ≡ unknown
unfolding route
route_of_nothing = refl
