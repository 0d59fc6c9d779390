-- ===== src/Api/Database.antt =====
-- `DatabaseClient` of api/src/database_client.cpp. Its mutex makes each operation one step, and a
-- connection that is lost shows as failures of the server.
use cdc_pipeline.Base.{ℕ, String, ◌<>◌, Bool, true, false, List, [], ◌∷◌, Option, none, some, ltb}
use cdc_pipeline.Json.{Value, str, obj, end}
use cdc_pipeline.Json.Members.{set_field}
use cdc_pipeline.Consumer.Effects.{Answer, answered, failed}
use cdc_pipeline.Api.Action.{
  Log, order_created_db, order_status_updated_db, db_insert_failed, db_update_failed,
  db_read_failed, Exception, other_exception, what, returned, thrown, Action, pure, throw, rescue,
  log, ◌>>=◌, ◌>>◌,
}
use cdc_pipeline.Api.Library.{Library, Postgres, Row, parse}

-- `fmt::format` of the two statements that are put together from texts.
unfoldable pub insert_sql : String → String → String → String → String
insert_sql id user_id amount items =
    "INSERT INTO orders (id, user_id, total_amount, status, items_jsonb) VALUES ('"
    <> (id <> ("', '" <> (user_id <> ("', " <> (amount <> (", 'CREATED', '" <> (items <> "')")))))))

unfoldable pub select_sql : String → String
select_sql id =
    "SELECT id, user_id, total_amount, status, items_jsonb FROM orders WHERE id = '" <> (id <> "'")

abbrev pub update_sql : String
update_sql = "UPDATE orders SET status = $1 WHERE id = $2"

-- Logs the failure and throws on.
abbrev pub logged : {S A : Type 0} → (String → Log) → Exception → Action S A
logged event e = log (event (what e)) >> throw e

module _ (L : Library) (P : Postgres L.Double) where
  abbrev answer_of : {A : Type 0} → Answer A × P.State → Action P.State A
  answer_of (answered a, s) w = (returned a, record w { database = s })
  answer_of (failed why, s) w = (thrown (other_exception why), record w { database = s })

  execute : String → Action P.State (List (Row L.Double))
  execute sql w = answer_of (P.execute sql w.database) w

  execute_params : String → List String → Action P.State ℕ
  execute_params sql args w = answer_of (P.execute_params sql args w.database) w

  -- `uuid` is what `generate_uuid` has drawn.
  unfoldable pub create_order : String → String → L.Double → Value → Action P.State String
  unfolding execute insert_sql
  create_order uuid user_id amount items w = rescue (logged db_insert_failed) (
      (execute (insert_sql uuid user_id (L.show amount) (L.dump items)) >>= λ rows.
      log (order_created_db uuid) >> pure uuid)
        w)

  report_update : String → String → Bool → Action P.State Bool
  report_update id status false = pure false
  report_update id status true = log (order_status_updated_db id status) >> pure true

  unfoldable pub update_order_status : String → String → Action P.State Bool
  unfolding execute_params report_update
  update_order_status id status w = rescue (logged (db_update_failed id)) (
      (execute_params update_sql (status ∷ id ∷ []) >>= λ affected.
      report_update id status (ltb 0 affected))
        w)

  order_json : Row L.Double → Value → Value
  unfolding set_field
  order_json row items = obj (
      set_field "items_jsonb" items (
        set_field "status" (str row.status) (
          set_field "total_amount" (L.value_of row.total_amount)
            (set_field "user_id" (str row.user_id) (set_field "id" (str row.id) end)))))

  read_rows : List (Row L.Double) → Action P.State (Option Value)
  unfolding order_json
  read_rows [] = pure none
  read_rows (row ∷ rows) = parse L row.items_jsonb >>= λ items. pure (some (order_json row items))

  unfoldable pub get_order_by_id : String → Action P.State (Option Value)
  unfolding execute select_sql read_rows
  get_order_by_id id w = rescue (logged db_read_failed) ((execute (select_sql id) >>= read_rows) w)
