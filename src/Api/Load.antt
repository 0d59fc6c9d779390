-- ===== src/Api/Load.antt =====
-- A worker of `LoadGenerator` in api/src/load_generator.cpp: its requests and the identifiers that it keeps.
pub mod Served
pub mod Rounds
pub mod Runs
pub mod Rate
use cdc_pipeline.Base.{
  ℕ, zero, suc, ◌+◌, ◌*◌, ◌/◌, ◌%◌, max, String, ◌<>◌, ◌≡◌, refl, Bool, true, false, not, ◌&&◌,
  ◌||◌, Option, none, some, List, [], ◌∷◌, ◌++◌, length, drop, get_elem?, leb, ◌==◌, if◌then◌else◌,
}
use cdc_pipeline.Base.Text.{show}
use cdc_pipeline.Json.{Value, num, str, arr, obj, nil, ◌▹◌, end, ◌⦂◌⨾◌, field?}
use cdc_pipeline.Api.Library.{Library, and_then, string_of}
use cdc_pipeline.Api.Server.{Response}
use cdc_pipeline.Api.Routes.{Method, post, patch, Request}

-- `std::max(1, req_per_sec_ / num_threads_)`, and the pause of a tick in microseconds.
unfoldable pub thread_rps : ℕ → ℕ → ℕ
thread_rps req_per_sec num_threads = max 1 (req_per_sec / num_threads)

unfoldable pub sleep_duration : ℕ → ℕ → ℕ
unfolding thread_rps
sleep_duration req_per_sec num_threads = 1000000 / thread_rps req_per_sec num_threads

-- What a round of the loop draws.
pub record Draws (D : Type 0) : Type 0 where
  pub patch_chance : ℕ
  pub picked : ℕ
  pub status_pick : ℕ
  pub product : ℕ
  pub quantity : ℕ
  pub user_id : String
  pub amount : D

pub data Log : Type 0 where
  request_sent request_failed : Method → ℕ → Log

pub record Worker (S : Type 0) : Type 0 where
  pub server : S
  pub created_ids : List String
  pub logs : List Log

abbrev pub status_cycle : List String
status_cycle = "PROCESSING" ∷ "SHIPPED" ∷ "DELIVERED" ∷ []

abbrev pub or_empty : Option String → String
or_empty none = ""
or_empty (some s) = s

abbrev pub is_empty : {A : Type 0} → List A → Bool
is_empty [] = true
is_empty (x ∷ xs) = false

-- Above 512 the oldest goes.
unfoldable pub keep_id : String → List String → List String
keep_id id ids = (if leb 512 (length ids) then drop 1 ids else ids) ++ id ∷ []

abbrev pub keep : Option String → List String → List String
keep none ids = ids
keep (some id) ids = keep_id id ids

abbrev pub patch_body : String → Value
patch_body status = obj ("status" ⦂ str status ⨾ end)

module _ (L : Library) (d : Draws L.Double) where
  abbrev pub items : Value
  items = arr (
      obj (
        "product_id"
        ⦂ str ("prod_" <> show (d.product % 20 + 1)) ⨾ "qty"
        ⦂ num (d.quantity % 5 + 1) ⨾ end)
      ▹ nil)

  abbrev pub payload : Value
  payload =
      obj ("items" ⦂ items ⨾ "total_amount" ⦂ L.value_of d.amount ⨾ "user_id" ⦂ str d.user_id ⨾ end)

  abbrev pub post_request : Request
  post_request = record { method = post; path = "/api/v1/orders"; body = L.dump payload }

  -- `created_ids[gen() % created_ids.size()]` and `kStatusCycle[status_pick(gen)]`
  abbrev pub picked_id : List String → String
  picked_id ids = or_empty (get_elem? ids (d.picked % length ids))

  abbrev pub picked_status : String
  picked_status = or_empty (get_elem? status_cycle d.status_pick)

  abbrev pub patch_request : List String → Request
  patch_request ids = record {
    method = patch;
    path = "/api/v1/orders/" <> (picked_id ids <> "/status");
    body = L.dump (patch_body picked_status);
  }

  abbrev pub do_patch : List String → Bool
  do_patch ids = not (is_empty ids) && d.patch_chance == 0

  abbrev pub next_request : List String → Request
  next_request ids = if do_patch ids then patch_request ids else post_request

abbrev pub status_code : Option Response → ℕ
status_code none = 0
status_code (some r) = r.status

abbrev pub body_of : Option Response → String
body_of none = ""
body_of (some r) = r.body

-- The text `id` of a body; none also where the body does not parse.
abbrev pub new_id : Library → String → Option String
new_id L body = and_then (λ v. and_then string_of (field? "id" v)) (L.parse body)

module _ {S : Type 0} where
  abbrev pub sent : Method → Option Response → Bool → Worker S → Worker S
  sent m r true w = record w { logs = w.logs ++ request_sent m (status_code r) ∷ [] }
  sent m r false w = record w { logs = w.logs ++ request_failed m (status_code r) ∷ [] }

  patched : Option Response → Worker S → Worker S
  patched r w = sent patch r (status_code r == 200 || status_code r == 204) w

module _ {S : Type 0} (L : Library) where
  posted : Option Response → Worker S → Worker S
  unfolding keep_id
  posted r w = sent post r (status_code r == 201) (
      if status_code r == 201
      then record w { created_ids = keep (new_id L (body_of r)) w.created_ids }
      else w)

  -- A round of the loop. `send` is the client with the server behind it: the reply, or none after an error.
  unfoldable pub round : (Request → S → Option Response × S) → Draws L.Double → Worker S → Worker S
  unfolding patched posted
  round send d w =
      let (r, s) = send (next_request L d w.created_ids) w.server in
      if do_patch L d w.created_ids
      then patched r (record w { server = s })
      else posted r (record w { server = s })
