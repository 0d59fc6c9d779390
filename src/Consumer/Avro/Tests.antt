-- ===== src/Consumer/Avro/Tests.antt =====
-- A framed payload whose JSON text is cut off.
use cdc_pipeline.Base.{ℕ, ◌≡◌, refl, false, Option, none, some, List, [], ◌∷◌, arith}
use cdc_pipeline.Json.Print.{dumps}
use cdc_pipeline.Consumer.Change.{Nlohmann}
use cdc_pipeline.Consumer.Redis.{Lua}
use cdc_pipeline.Consumer.Effects.{Link, up, Sink}
use cdc_pipeline.Consumer.Updater.{process_record}
use cdc_pipeline.Consumer.Loop.{Settings, settings, Consumer, accepts, handle}
use cdc_pipeline.Consumer.Inbox.{Message, delivery}
use cdc_pipeline.Consumer.Avro.{Libraries, deserialize}
use cdc_pipeline.Consumer.Avro.Dropped.{handle_drops}

abbrev libraries : Libraries
libraries = record {
  Avro = Unit {0};
  deserialize_avro = λ bytes. some tt;
  to_json = λ v. some "{";
  parse = λ text. none;
  raw_text = λ bytes. "";
}

abbrev lua : Lua
lua = record { Number = ℕ; tonumber = λ text. none; le = λ a b. false }

abbrev json : Nlohmann
json = record { dump = dumps; value_error = λ v k. "" }

abbrev framed : List ℕ
framed = 0 ∷ 0 ∷ 0 ∷ 0 ∷ 1 ∷ 255 ∷ []

abbrev carrying : Option (List ℕ) → Message Link
carrying payload = record {
  offset = 7;
  raw = "";
  key = "1";
  document = deserialize libraries payload;
  links = λ n. up;
  producer = accepts;
}

abbrev S : Settings
S = settings "RedisUpdater" "dbserver1.public.orders"

abbrev started : Consumer Sink
started = record {
  sink = record { keys = λ k. none; connected = false; log = [] };
  reads = 20;
  committed = [];
  letters = [];
  slept = [];
  events = [];
  crashed = none;
}

abbrev handled : Option (List ℕ) → Consumer Sink
handled payload = handle S (delivery (process_record json lua) (carrying payload)) started

handle_drops_example :
    ((handled (some framed)).committed ≡ 7 ∷ [])
    × ((handled (some framed)).letters ≡ [])
    × ((handled (some framed)).sink ≡ started.sink)
handle_drops_example =
    handle_drops json lua libraries S (carrying (some framed)) started framed tt "{" refl refl refl
      refl refl (omega arith) (omega arith)
