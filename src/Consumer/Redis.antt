-- ===== src/Consumer/Redis.antt =====
-- The keys of Redis and the two Lua scripts of consumers/src/redis_updater.cpp.
pub mod Latest
use cdc_pipeline.Base.{
  ℕ, String, ◌<>◌, ◌≡◌, Bool, true, false, Option, none, some, List, [], ◌∷◌, str_eq, if◌then◌else◌,
}
use cdc_pipeline.Base.Int.{ℤ}
use cdc_pipeline.Base.Text.{show_ℤ}

-- Expiry is not modelled here: each key has a day to live.
abbrev pub Keys : Type 0
Keys = String → Option String

unfoldable pub update : Keys → String → Option String → Keys
update keys k v j = if str_eq k j then v else keys j

-- The numbers of Redis' Lua, which are floating point: `tonumber`, and `<=`.
pub record Lua : Type 1 where
  pub Number : Type 0
  pub tonumber : String → Option Number
  pub le : Number → Number → Bool

abbrev pub lsn_key : String → String
lsn_key key = key <> ":lsn"

-- A run of a script: its key, the change's position in the log, and the order's text, or none for a
-- delete.
pub record Write : Type 0 where
  pub key : String
  pub lsn : ℤ
  pub value : Option String

module _ (L : Lua) where
  -- `current_lsn and tonumber(…) and tonumber(…) and tonumber(lsn) <= tonumber(current_lsn)`
  abbrev pub is_stale_text : Option String → Option L.Number → Bool
  is_stale_text (some current) (some lsn) = elim (L.tonumber current) [
    | some c ↦ L.le lsn c
    | none ↦ false
  ]
  is_stale_text _ _ = false

  unfoldable pub is_stale : Keys → String → String → Bool
  is_stale keys key lsn = is_stale_text (keys (lsn_key key)) (L.tonumber lsn)

  -- `lua_upsert`: the reply and the keys.
  unfoldable pub lua_upsert : String → String → String → Keys → ℕ × Keys
  unfolding is_stale update
  lua_upsert key json lsn keys =
      if is_stale keys key lsn
      then (0, keys)
      else (1, update (update keys key (some json)) (lsn_key key) (some lsn))

  -- `lua_del`: the mark of the last change stays.
  unfoldable pub lua_del : String → String → Keys → ℕ × Keys
  unfolding is_stale update
  lua_del key lsn keys =
      if is_stale keys key lsn
      then (0, keys)
      else (1, update (update keys key none) (lsn_key key) (some lsn))

  unfoldable pub run_script : Write → Keys → ℕ × Keys
  unfolding lua_upsert lua_del
  run_script e keys = elim e.value [
    | some json ↦ lua_upsert e.key json (show_ℤ e.lsn) keys
    | none ↦ lua_del e.key (show_ℤ e.lsn) keys
  ]

  -- The keys after the scripts for a sequence of changes.
  unfoldable pub run_scripts : List Write → Keys → Keys
  run_scripts [] keys = keys
  run_scripts (e ∷ es) keys = run_scripts es (run_script e keys).1
