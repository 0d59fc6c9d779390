-- ===== src/Dashboard/Objects/Banner.antt =====
-- The markdown panels at the top and at the bottom. (`main` of scripts/build_full_kibana_dashboard.py)
use cdc_pipeline.Base.{String, ◌<>◌, none}
use cdc_pipeline.Base.Text.{emoji_style}
use cdc_pipeline.Json.{str, obj, end, ◌⦂◌⨾◌}
use cdc_pipeline.Json.Print.{dumps}
use cdc_pipeline.Kibana.{SavedObject}
use cdc_pipeline.Dashboard.Parts.{no_search}

abbrev pub banner_markdown : String
banner_markdown = "# TransactFlow — Distributed Systems Observability & Telemetry"

abbrev pub header_banner : SavedObject
header_banner = record {
  obj_type = "visualization";
  obj_id = "vis-header-banner";
  attributes = obj (
      "title"
      ⦂ str "" ⨾ "visState"
      ⦂ str (
          dumps (
            obj (
              "title"
              ⦂ str "" ⨾ "type"
              ⦂ str "markdown" ⨾ "params"
              ⦂ obj ("markdown" ⦂ str banner_markdown ⨾ end) ⨾ end))) ⨾
        "uiStateJSON"
      ⦂ str "{}" ⨾ "kibanaSavedObjectMeta"
      ⦂ obj ("searchSourceJSON" ⦂ str (dumps no_search) ⨾ end) ⨾ end);
  references = none;
}

abbrev pub arch_markdown : String
arch_markdown =
    (("### 🛡" <> (emoji_style <> " Distributed Systems Architecture & Reliability Verification\n"))
      <> ("| Subsystem | Architectural Role | Measured Soak Test Result | SLA Verdict |\n"
          <> ("|---|---|---|:---:|\n"
              <> ("| **Client Ingestion** | Multi-threaded C++ load generator firing `POST` & `PATCH` orders | **1,024 req/sec peak**, 100.0% HTTP 200/201 | 🟢 **PASS** |\n"
                  <> ("| **Redis Hot Cache** | `RedisUpdater` consumer executing atomic Lua scripts with monotonic LSN guard | **Avg Latency: 0.038 ms** (P99 < 1.5 ms), Lag = 0 | 🟢 **PASS** |\n"
                      <> ("| **Elasticsearch Index** | `ESIndexer` consumer performing bulk indexing with exponential backoff | **Avg Latency: 26.78 ms**, 0 write dropouts | 🟢 **PASS** |\n"
                          <> ("| **Idempotency Guard** | Redis `SET NX` idempotency key preventing duplicate notifications | **2,064 replays safely filtered**, zero duplicates | 🟢 **PASS** |\n"
                              <> ("| **Fault Tolerance** | Dead Letter Queue isolation routing malformed events to `dbserver1.public.orders.dlq` | **0 DLQ events**, 0.000% data loss | 🟢 **PASS** |"))))))))

abbrev pub architecture_summary : SavedObject
architecture_summary = record {
  obj_type = "visualization";
  obj_id = "vis-architecture-summary";
  attributes = obj (
      "title"
      ⦂ str "System Architecture & SLA Verification" ⨾ "visState"
      ⦂ str (
          dumps (
            obj (
              "title"
              ⦂ str "System Architecture & SLA Verification" ⨾ "type"
              ⦂ str "markdown" ⨾ "params"
              ⦂ obj ("markdown" ⦂ str arch_markdown ⨾ end) ⨾ end))) ⨾
        "uiStateJSON"
      ⦂ str "{}" ⨾ "kibanaSavedObjectMeta"
      ⦂ obj ("searchSourceJSON" ⦂ str (dumps no_search) ⨾ end) ⨾ end);
  references = none;
}
