-- ===== src/Dashboard/References.antt =====
-- The references that name the objects of the panels, and the dashboard itself. (`main` of scripts/build_full_kibana_dashboard.py)
use cdc_pipeline.Base.{true, some}
use cdc_pipeline.Json.{bool, num, str, arr, obj, Items, nil, ◌▹◌, end, ◌⦂◌⨾◌}
use cdc_pipeline.Json.Print.{dumps}
use cdc_pipeline.Kibana.{SavedObject}
use cdc_pipeline.Dashboard.Parts.{no_search, visualization}
use cdc_pipeline.Dashboard.Panels.{panels}

abbrev pub references : Items
references =
    visualization "panel_banner" "vis-header-banner"
    ▹ visualization "panel_total_orders" "vis-total-orders"
    ▹ visualization "panel_p50_latency" "vis-p50-latency"
    ▹ visualization "panel_p95_latency" "vis-p95-latency"
    ▹ visualization "panel_redis_sink_latency" "vis-redis-sink-latency"
    ▹ visualization "panel_total_consumer_events" "vis-total-consumer-events"
    ▹ visualization "panel_es_sink_latency" "vis-es-sink-latency"
    ▹ visualization "panel_idempotency_dedup" "vis-idempotency-dedup"
    ▹ visualization "panel_dlq_count" "vis-dlq-count"
    ▹ visualization "panel_fig1_throughput" "vis-figure1-throughput"
    ▹ visualization "panel_fig4_consumer_throughput" "vis-figure4-consumer-throughput"
    ▹ visualization "panel_fig2_percentiles" "vis-figure2-percentiles"
    ▹ visualization "panel_fig3_dual_store" "vis-figure3-dual-store"
    ▹ visualization "panel_api_pie" "vis-api-status-pie"
    ▹ visualization "panel_api_method_pie" "vis-api-method-pie"
    ▹ visualization "panel_consumer_pie" "vis-events-pie"
    ▹ visualization "panel_system_severity_pie" "vis-system-severity-pie"
    ▹ visualization "panel_api_table" "vis-api-summary-table"
    ▹ visualization "panel_consumer_table" "vis-consumer-summary-table"
    ▹ visualization "panel_api_detailed_table" "vis-api-detailed-table"
    ▹ visualization "panel_consumer_detailed_table" "vis-consumer-detailed-table"
    ▹ visualization "panel_arch_summary" "vis-architecture-summary"
    ▹ nil

abbrev pub cdc_telemetry_dashboard : SavedObject
cdc_telemetry_dashboard = record {
  obj_type = "dashboard";
  obj_id = "cdc-telemetry-dashboard";
  attributes = obj (
      "title"
      ⦂ str "TransactFlow — Distributed Systems Observability & Telemetry" ⨾ "description"
      ⦂ str
          "Enterprise production telemetry dashboard with full benchmark figures for 1,000 req/sec TransactFlow CDC soak test" ⨾
        "hits"
      ⦂ num 0 ⨾ "kibanaSavedObjectMeta"
      ⦂ obj ("searchSourceJSON" ⦂ str (dumps no_search) ⨾ end) ⨾ "panelsJSON"
      ⦂ str (dumps (arr panels)) ⨾ "timeRestore"
      ⦂ bool true ⨾ "timeFrom"
      ⦂ str "now-24h" ⨾ "timeTo"
      ⦂ str "now" ⨾ end);
  references = some references;
}
