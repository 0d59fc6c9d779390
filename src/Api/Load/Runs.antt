-- ===== src/Api/Load/Runs.antt =====
-- What holds of a worker of the load generator after any rounds against the order service.
use cdc_pipeline.Base.{
  ℕ, suc, ◌≤◌, ◌<◌, ◌%◌, String, ◌≡◌, refl, ◌⊎◌, inl, inr, Bool, true, false, not, List, [], ◌∷◌,
  ◌++◌, length, get_elem?, ◌==◌, Bool-cases, All, All-append, All-drop, All-map, get_elem?-All,
  arith, length-append, length-drop, drop, leb, &&-true,
}
use cdc_pipeline.Api.Action.{Service}
use cdc_pipeline.Api.Library.{Library, Postgres}
use cdc_pipeline.Api.Table.{View, IsPostgres}
use cdc_pipeline.Api.Server.{Response, respond, server_error, created}
use cdc_pipeline.Api.Routes.Paths.{is_id}
use cdc_pipeline.Api.Routes.{post, patch}
use cdc_pipeline.Api.Load.{
  Worker, Log, request_sent, request_failed, keep_id, round, do_patch, is_empty, or_empty, patched,
  posted,
}
use cdc_pipeline.Api.Load.Served.{IsOrder, Keeps}
use cdc_pipeline.Api.Load.Rounds as Rounds
use cdc_pipeline.Api.Load.Rounds.{
  Round, IsFit, IsExpected, client, send, rounds, posted-Accepted, patched-Changed, new_id-created,
}

length-keep_id :
    (id : String) (ids : List String) → length ids ≤ 512 → length (keep_id id ids) ≤ 512
unfolding keep_id
length-keep_id id ids h = elim (Bool-cases (leb 512 (length ids))) [
  | inl full ↦
      rw full (omega (arith, length-append {0} (drop 1 ids) (id ∷ []), length-drop {0} 1 ids))
  | inr room ↦ rw room (ground (arith, length-append {0} ids (id ∷ [])))
]

All-keep_id :
    (Q : String → Type 0) (id : String) (ids : List String)
    → All Q ids
    → Q id
    → All Q (keep_id id ids)
unfolding keep_id
All-keep_id Q id ids h q = elim (Bool-cases (leb 512 (length ids))) [
  | inl full ↦ rw full (All-append Q (drop 1 ids) (id ∷ []) (All-drop Q 1 ids h) (q, tt))
  | inr room ↦ rw room (All-append Q ids (id ∷ []) h (q, tt))
]

mod-lt : (n k : ℕ) → n % suc k < suc k
mod-lt n k = grind arith

picked_All :
    (Q : String → Type 0) (n : ℕ) (ids : List String)
    → All Q ids
    → not (is_empty ids) ≡ true
    → Q (or_empty (get_elem? ids (n % length ids)))
picked_All Q n [] h e = cc
picked_All Q n (x ∷ xs) h e =
    let (y, there, q) = get_elem?-All Q (x ∷ xs) (n % suc (length xs)) h (mod-lt n (length xs)) in
    rw there q

module _ (L : Library) (P : Postgres L.Double) (V : View L.Double P.State)
    (H : IsPostgres L P V) where
  abbrev IsKnown : P.State → String → Type 0
  IsKnown s k = (is_id k ≡ true) × IsOrder V s k

  -- At most 512 identifiers are kept, each of an order that the service has, and no request was
  -- answered with anything but 200, 201 and 500.
  abbrev pub IsServed : Worker (Service P.State) → Type 0
  IsServed w =
      (length w.created_ids ≤ 512)
      × All (IsKnown w.server.database) w.created_ids
      × All IsExpected w.logs

  IsServed-moved :
      (w : Worker (Service P.State)) (s : Service P.State)
      → Keeps V w.server.database s.database
      → IsServed w
      → IsServed (record w { server = s })
  IsServed-moved w s kept (bound, known, logs) = (
    bound,
    All-map (IsKnown w.server.database) (IsKnown s.database) (λ k (there, row). (there, kept k row))
        w.created_ids known,
    logs,
  )

  IsServed-logged :
      (w : Worker (Service P.State)) (l : Log)
      → IsServed w
      → IsExpected l
      → IsServed (record w { logs = w.logs ++ l ∷ [] })
  IsServed-logged w l (bound, known, logs) fine =
      (bound, known, All-append IsExpected w.logs (l ∷ []) logs (fine, tt))

  IsServed-kept :
      (w : Worker (Service P.State)) (id : String)
      → IsServed w
      → IsKnown w.server.database id
      → IsServed (record w { created_ids = keep_id id w.created_ids })
  IsServed-kept w id (bound, known, logs) new = (
    length-keep_id id w.created_ids bound,
    All-keep_id (IsKnown w.server.database) id w.created_ids known new,
    logs,
  )

  patched-IsServed :
      (w : Worker (Service P.State)) (lost : Bool) (r : Response)
      → IsServed w
      → (r ≡ respond 200 "{\"updated\": true}") ⊎ (r ≡ server_error)
      → IsServed (patched (client lost r) w)
  unfolding patched
  patched-IsServed w true r h e = IsServed-logged w (request_failed patch 0) h (inl refl)
  patched-IsServed w false r h (inl e) =
      rw e (IsServed-logged w (request_sent patch 200) h (inl refl))
  patched-IsServed w false r h (inr e) =
      rw e (IsServed-logged w (request_failed patch 500) h (inr refl))

  posted-IsServed :
      (e : Round L.Double) (fit : IsFit L e) (w : Worker (Service P.State)) (lost : Bool)
      (r : Response)
      → IsServed w
      → ((r ≡ respond 201 (L.dump (created e.uuid))) × IsOrder V w.server.database e.uuid)
        ⊎ (r ≡ server_error)
      → IsServed (posted L (client lost r) w)
  unfolding posted
  posted-IsServed e fit w true r h a = IsServed-logged w (request_failed post 0) h (inl refl)
  posted-IsServed e fit w false r h (inl (a, row)) = rw a (
      rw (new_id-created L e fit) (
        IsServed-logged (record w { created_ids = keep_id e.uuid w.created_ids })
          (request_sent post 201) (IsServed-kept w e.uuid h (fit.id, row)) (inr refl)))
  posted-IsServed e fit w false r h (inr a) =
      rw a (IsServed-logged w (request_failed post 500) h (inr refl))

  abbrev after : Round L.Double → Worker (Service P.State) → Worker (Service P.State)
  after e w = round L (send L P e) e.draws w

  round-patched :
      (e : Round L.Double) (fit : IsFit L e) (w : Worker (Service P.State))
      → IsServed w
      → do_patch L e.draws w.created_ids ≡ true
      → IsServed (after e w)
  unfolding round
  round-patched e fit w served chosen =
      let (there, row) =
        picked_All (IsKnown w.server.database) e.draws.picked w.created_ids served.1
          (&&-true (not (is_empty w.created_ids)) (e.draws.patch_chance == 0) chosen).0 in
      let (kept, reply) = patched-Changed L P V H e fit w.server w.created_ids there row in
      let (r, s) = Rounds.patched L P V H e fit w.server w.created_ids there row in
      rw chosen
        (patched-IsServed (record w { server = s }) e.lost r (IsServed-moved w s kept served) reply)

  round-posted :
      (e : Round L.Double) (fit : IsFit L e) (w : Worker (Service P.State))
      → IsServed w
      → do_patch L e.draws w.created_ids ≡ false
      → IsServed (after e w)
  unfolding round
  round-posted e fit w served chosen =
      let (kept, reply) = posted-Accepted L P V H e fit w.server in
      let (r, s) = Rounds.posted L P V H e fit w.server in
      rw chosen (
        posted-IsServed e fit (record w { server = s }) e.lost r (IsServed-moved w s kept served)
          reply)

  round-IsServed :
      (e : Round L.Double) (fit : IsFit L e) (w : Worker (Service P.State))
      → IsServed w
      → IsServed (after e w)
  round-IsServed e fit w served = elim (Bool-cases (do_patch L e.draws w.created_ids)) [
    | inl chosen ↦ round-patched e fit w served chosen
    | inr chosen ↦ round-posted e fit w served chosen
  ]

  pub rounds-IsServed :
      (es : List (Round L.Double)) (w : Worker (Service P.State))
      → All (IsFit L) es
      → IsServed w
      → IsServed (rounds L P es w)
  unfolding rounds
  rounds-IsServed [] w fit served = served
  rounds-IsServed (e ∷ es) w fit served =
      rounds-IsServed es (round L (send L P e) e.draws w) fit.1 (round-IsServed e fit.0 w served)
