-- ===== src/Lib.antt =====
-- The change data capture pipeline: orders go from an API into PostgreSQL, Debezium publishes the
-- changes to Kafka, and consumers keep Redis and Elasticsearch up to date and send mails; scripts
-- set up Kibana, which shows the logs of all of them.
--
-- Parts, and the files that model them:
--
-- - Base, Base/Lists, Base/Tests, Base/Int, Base/Text, Base/Decimal: what the parts share. Numbers
--   are native; a signed number is a ℤ of Base/Int. Base/Decimal is `std::stoll`.
-- - Json, Json/Print, Json/Parse and Json/Members: JSON values, Python's `json.dumps` with and
--   without indent, `json.loads`, and the writing of a member. A dictionary keeps its members in
--   order, and a floating point number is in tenths, which is all that occurs. Json/Parse runs on
--   fuel, three calls for each character of the text; Json/Print/Loads shows that this is enough
--   for what `dumps` prints, from the escapes (Escapes, Characters, Texts), the numbers, the
--   arrays and the objects (RoundTrip).
-- - Exec and Http: Python statements that may raise, over the world that a script sees. The server
--   is a parameter: any state, and any reply to a request, or none.
-- - Kibana: `create_saved_object` of scripts/build_full_kibana_dashboard.py. Kibana/Deploy and
--   Kibana/Stored are about any sequence of such calls, against a Kibana that stores what it
--   accepts.
-- - Dashboard: the rest of scripts/build_full_kibana_dashboard.py. Dashboard/Objects has one
--   definition for each saved object, Dashboard/Panels and Dashboard/References the dashboard,
--   Dashboard/Main the function `main`. Dashboard/Wiring looks a panel up as Kibana does,
--   Dashboard/Layout reads the panels' rectangles, Dashboard/Runs is about whole runs.
-- - Update: scripts/update_kibana_dashboard.py, which writes a dashboard under the same id.
--   Update/Texts has its texts, and Update/Runs is about its runs.
-- - Views: scripts/setup_kibana.py, and Views/Runs its runs.
-- - Push: scripts/push_repo.py over a shell that is a parameter, and Push/Clean which URL of
--   origin is left in git's configuration.
-- - Consumer/Loop: `KafkaConsumerBase` of consumers/src/kafka_consumer_base.cpp, for any sink.
--   `Run` is `run`, the retry loop is `retry`, `RouteToDLQ` is `route_to_dlq`. A delivery says
--   what `ProcessRecord` will do in each attempt, and whether the dead letter producer exists, its
--   letter can be printed, and it takes the letter. An exception in the print of a dead letter
--   leaves `run`, as it leaves `Run`; Consumer/Loop/Poison is about that. Consumer/Loop/Attempts
--   has an induction on the retry loop, and Consumer/Loop/Refines is about sinks on which an
--   effect may be repeated.
-- - Consumer/Inbox puts `ProcessRecord` of a consumer into a delivery; Consumer/Key makes the
--   message from what Kafka hands over, with its key, and Consumer/Key/Named is about the orders
--   that keyed messages change.
-- - Consumer/Change, Consumer/Lsn, Consumer/Redis, Consumer/Updater:
--   consumers/src/redis_updater.cpp. `ExtractLSN` is `extract_lsn`; the Lua scripts are
--   `lua_upsert` and `lua_del`.
-- - Consumer/Notifier: consumers/src/notifier.cpp.
-- - Consumer/Indexer: consumers/src/es_indexer.cpp over an Elasticsearch that is a parameter.
-- - Consumer/Avro: consumers/src/avro_deserializer.cpp; libserdes, Avro and the JSON parser are
--   parameters.
-- - Startup: the readiness loops of api/src/main.cpp and consumers/src/main.cpp, and Startup/Told
--   how they end.
-- - Soak: scripts/check_soak_status.py, and Soak/Report what its run prints.
-- - Routing: the filter and the output of logstash/logstash.conf, as far as they choose the index
--   of a log line; Routing/Cards compares that with what the cards of the dashboard search.
-- - Charts: the data of scripts/generate_benchmark_charts.py. Charts/Fetch has its requests and
--   reads the answers, Charts/Timeline is about the throughput chart, Charts/Queries compares its
--   queries with Routing.
-- - Api/Action, Api/Library: what a handler of api/src changes, with C++ exceptions, and
--   nlohmann::json, fmt and libpqxx as parameters. Api/Database is `DatabaseClient`, Api/Cache
--   `RedisClient`, Api/Server the three handlers of api/src/api_server.cpp and Api/Routes the way
--   to them. Api/Table says what is relied on in Postgres. Api/Server/Creates, Updates, Reads and
--   Injection are about one request, Api/Routes/Runs about sequences of requests, and Api/Cached
--   goes from Kafka through the Redis updater to a GET.
-- - Api/Load: a worker of api/src/load_generator.cpp; Api/Load/Rounds puts the order service
--   behind its client, Api/Load/Runs is about all rounds, and Api/Load/Rate about the rate.
-- - Consumer/Effects: Redis as the consumers meet it. It may answer, refuse the connection, answer
--   with an error, or lose the reply before or after the command ran.
--
-- Loops: `retry` recurs on the attempts that are left, which the code bounds by `max_retries`.
-- `rounds`, which `run` starts, recurs on what the broker delivers. Another thread may call
-- `Stop()` at any time: a consumer carries the number of reads of `running_` that come before, and
-- every read in the code counts one down. A round reads it at most `max_retries * 2 + 2` times, so
-- a consumer with so many reads for each poll is not stopped. The pauses are an `int` in the code;
-- `Settings` asks that their doubles are one too. `attempts` of Startup has the 20 values of the
-- code's counter.
--
-- Parameters: Redis' Lua numbers (Consumer/Redis and `IsLua`, which holds of doubles), nlohmann's
-- `dump()` and the texts of its exceptions, git (`IsGit`), Kibana (`IsKibana`), Elasticsearch
-- (`IsElastic`), Postgres (`IsPostgres`), the libraries of the deserializer. Each set of
-- hypotheses has an instance among the tests.
--
-- Not modelled: the expiry of keys in Redis after a day; Kafka's rebalancing and redelivery other
-- than as messages that come again; the time stamps, partitions and keys in dead letters; the
-- environment of the processes, their signals, threads and logging; a commit to Postgres whose
-- outcome is in doubt; the drawing of charts, and the scripts that only test.
pub mod Base
pub mod Json
pub mod Exec
pub mod Http
pub mod Kibana
pub mod Dashboard
pub mod Api
pub mod Soak
pub mod Views
pub mod Push
pub mod Update
pub mod Consumer
pub mod Routing
pub mod Charts
pub mod Startup
