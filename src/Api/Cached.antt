-- ===== src/Api/Cached.antt =====
-- From Kafka to a client: what the Redis updater stores, the order service answers. The two programs
-- share the key "order:" and the text that nlohmann prints.
use cdc_pipeline.Base.{
  ◌*◌, ◌≤◌, String, ◌≡◌, refl, ap, ◌∙◌, true, some, List, ◌∷◌, ◌++◌, length, All,
}
use cdc_pipeline.Base.Int.{ℤ}
use cdc_pipeline.Base.Decimal.{IsInt64}
use cdc_pipeline.Json.{str, obj, Fields}
use cdc_pipeline.Json.Members.{set_field}
use cdc_pipeline.Consumer.Change.{Nlohmann}
use cdc_pipeline.Consumer.Redis.{Lua, Keys, Write, run_scripts}
use cdc_pipeline.Consumer.Redis.Latest.{
  IsLua, IsExact, IsOlder, Earlier, NotNewer, run_scripts-Holds,
}
use cdc_pipeline.Consumer.Effects.{Link, Sink}
use cdc_pipeline.Consumer.Updater.{write_of, process_record, order_key}
use cdc_pipeline.Consumer.Updater.Reliable.{IsFit, scripts, run_applies}
use cdc_pipeline.Consumer.Loop.{Settings, Consumer, run}
use cdc_pipeline.Consumer.Loop.Progress.{reads_per_round}
use cdc_pipeline.Consumer.Inbox.{Message, polls}
use cdc_pipeline.Api.Action.{Service}
use cdc_pipeline.Api.Library.{Library, Postgres}
use cdc_pipeline.Api.Cache.{replies}
use cdc_pipeline.Api.Server.{respond, get_order}
use cdc_pipeline.Api.Server.Reads.{hit, cached}

-- A GET over the keys that hold the text of an object.
module _ (L : Library) (P : Postgres L.Double) (keys : Keys) (id text : String) (fs : Fields)
    (w : Service P.State) where
  replies-hit :
      w.connected ≡ true
      → keys (order_key id) ≡ some text
      → L.parse text ≡ some (obj fs)
      → cached L w.connected (replies keys (order_key id))
        ≡ some (obj (set_field "source" (str "redis") fs))
  unfolding replies
  replies-hit alive there reads = rw (alive, there) (rw reads refl)

  get_order-hit :
      w.connected ≡ true
      → keys (order_key id) ≡ some text
      → L.parse text ≡ some (obj fs)
      → ((get_order L P (replies keys) id w).0
          ≡ respond 200 (L.dump (obj (set_field "source" (str "redis") fs))))
        × ((get_order L P (replies keys) id w).1.database ≡ w.database)
  get_order-hit alive there reads =
      hit L P (replies keys) id w (obj (set_field "source" (str "redis") fs))
        (replies-hit alive there reads)

-- The keys after a run of the updater.
abbrev pub keys_after : Nlohmann → Lua → Settings → List (Message Link) → Consumer Sink → Keys
keys_after J lua S ms c = (run S (polls (process_record J lua) ms) c).sink.keys

module _ (J : Nlohmann) (lua : Lua) (I : IsLua lua) (S : Settings) (L : Library)
    (P : Postgres L.Double) where
  -- A GET of an order, over the keys that a run of the updater over `ms` leaves, answers with the object of
  -- an upsert of the order, with source redis, and leaves the database alone. The producer would take the
  -- dead letter of every message, all LSNs are of 64 bits, the run was not stopped and wrote no letter;
  -- the scripts of the messages are those `before`, the upsert, and those `after`, which are of orders
  -- with keys apart, or of the order with a smaller LSN, after the upsert one that is not greater; Redis
  -- held no LSN of the order or a smaller one; the LSNs compared from below and that of the upsert are
  -- within 2^53; the printed object is read back, and the connection to Redis is alive.
  pub run-get_order :
      (ms : List (Message Link)) (c : Consumer Sink) (before after : List Write) (id : String)
      (lsn : ℤ) (fs : Fields) (w : Service P.State) (fits : IsInt64 lsn) (exact : IsExact lsn)
      → All (IsFit J lua I S) ms
      → length ms * reads_per_round S ≤ c.reads
      → (run S (polls (process_record J lua) ms) c).letters ≡ c.letters
      → scripts J lua ms ≡ (before ++ write_of J lua id lsn (some (obj fs)) ∷ after)
      → IsOlder lua I (write_of J lua id lsn (some (obj fs))) fits exact c.sink.keys
      → All (Earlier lua I (write_of J lua id lsn (some (obj fs))) fits exact) before
      → All (NotNewer lua I (write_of J lua id lsn (some (obj fs))) fits exact) after
      → L.parse (J.dump (obj fs)) ≡ some (obj fs)
      → w.connected ≡ true
      → ((get_order L P (replies (keys_after J lua S ms c)) id w).0
          ≡ respond 200 (L.dump (obj (set_field "source" (str "redis") fs))))
        × ((get_order L P (replies (keys_after J lua S ms c)) id w).1.database ≡ w.database)
  run-get_order ms c before after id lsn fs w fits exact fit reads kept split older b a parses
        alive =
      get_order-hit L P (keys_after J lua S ms c) id (J.dump (obj fs)) fs w alive
        (ap (λ (keys : Keys). keys (order_key id))
            (run_applies J lua I S ms c fit reads kept
              ∙ ap (λ es. run_scripts lua es c.sink.keys) split)
          ∙ (run_scripts-Holds lua I (write_of J lua id lsn (some (obj fs))) fits exact before after
              c.sink.keys older b a).0)
        parses
