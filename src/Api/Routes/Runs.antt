-- ===== src/Api/Routes/Runs.antt =====
-- Requests to the order service, one after the other. Its mutexes make each access to Postgres
-- and to Redis one step; two handlers are not interleaved here.
use mathlib.Core.Path.{subst}
use cdc_pipeline.Base.{String, ◌≡◌, true, false, none, List, [], ◌∷◌, arith}
use cdc_pipeline.Api.Action.{Service}
use cdc_pipeline.Api.Library.{Library, Postgres}
use cdc_pipeline.Api.Table.{View, IsPostgres, is_plain}
use cdc_pipeline.Api.Cache.{Reply}
use cdc_pipeline.Api.Database.{select_sql}
use cdc_pipeline.Api.Server.{get_order, cache_key}
use cdc_pipeline.Api.Server.Reads.{Read, cached, get_order-Read, get_order-connected}
use cdc_pipeline.Api.Server.Creates.{post_order-connected}
use cdc_pipeline.Api.Server.Updates.{patch_status-connected}
use cdc_pipeline.Api.Routes.{Method, Route, Request, route, handle, dispatch}

-- A request, what Redis replies at that moment, and the identifier that would be drawn.
pub record Event : Type 0 where
  pub request : Request
  pub redis : String → Reply
  pub uuid : String

module _ (L : Library) (P : Postgres L.Double) where
  unfoldable pub serve : List Event → Service P.State → Service P.State
  unfolding handle
  serve [] w = w
  serve (e ∷ es) w = serve es (handle L P e.redis e.uuid e.request w).1

  dispatch-connected :
      (redis : String → Reply) (uuid : String) (m : Method) (r : Route) (body : String)
      (w : Service P.State)
      → w.connected ≡ false
      → (dispatch L P redis uuid m r body w).1.connected ≡ false
  unfolding dispatch
  dispatch-connected redis uuid m r body w lost = ground (
    arith,
    post_order-connected L P uuid body w,
    λ (id : String). patch_status-connected L P id body w,
    λ (id : String). get_order-connected L P redis id w,
  )

  handle-connected :
      (redis : String → Reply) (uuid : String) (req : Request) (w : Service P.State)
      → w.connected ≡ false
      → (handle L P redis uuid req w).1.connected ≡ false
  unfolding handle
  handle-connected redis uuid req w lost =
      dispatch-connected redis uuid req.method (route req.path) req.body w lost

  serve-connected :
      (es : List Event) (w : Service P.State) → w.connected ≡ false → (serve es w).connected ≡ false
  unfolding serve
  serve-connected [] w lost = lost
  serve-connected (e ∷ es) w lost =
      serve-connected es (handle L P e.redis e.uuid e.request w).1
        (handle-connected e.redis e.uuid e.request w lost)

module _ (L : Library) (P : Postgres L.Double) (V : View L.Double P.State)
    (H : IsPostgres L P V) where
  pub serve-Read :
      (es : List Event) (redis : String → Reply) (id : String) (w : Service P.State)
      → w.connected ≡ false
      → is_plain id ≡ true
      → Read L P V id none
          (serve L P es w)
          (P.execute (select_sql id) (serve L P es w).database)
          (get_order L P redis id (serve L P es w))
  serve-Read es redis id w lost plain =
      subst
        (λ b.
          Read L P V id (cached L b (redis (cache_key id))) (serve L P es w)
            (P.execute (select_sql id) (serve L P es w).database)
            (get_order L P redis id (serve L P es w)))
        (serve-connected L P es w lost) (get_order-Read L P V H redis id (serve L P es w) plain)
