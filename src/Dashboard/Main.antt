-- ===== src/Dashboard/Main.antt =====
-- The run of scripts/build_full_kibana_dashboard.py: its requests, in the order in which it makes them.
use cdc_pipeline.Base.{String, List, [], ◌∷◌, ◌++◌}
use cdc_pipeline.Exec.{Exec, ◌>>◌}
use cdc_pipeline.Http.{Server, World, print}
use cdc_pipeline.Kibana.{SavedObject, create_saved_object}
use cdc_pipeline.Dashboard.Objects.Banner.{header_banner, architecture_summary}
use cdc_pipeline.Dashboard.Objects.Cards.{
  total_orders, p50_latency, p95_latency, redis_sink_latency,
}
use cdc_pipeline.Dashboard.Objects.MoreCards.{
  total_consumer_events, es_sink_latency, idempotency_dedup, dlq_count,
}
use cdc_pipeline.Dashboard.Objects.Figure1.{figure1_throughput}
use cdc_pipeline.Dashboard.Objects.Figure4.{figure4_consumer_throughput}
use cdc_pipeline.Dashboard.Objects.Figure2.{figure2_percentiles}
use cdc_pipeline.Dashboard.Objects.Figure3.{figure3_dual_store}
use cdc_pipeline.Dashboard.Objects.Pies.{
  api_status_pie, api_method_pie, events_pie, system_severity_pie,
}
use cdc_pipeline.Dashboard.Objects.Tables.{api_summary_table, consumer_summary_table}
use cdc_pipeline.Dashboard.Objects.DetailTables.{api_detailed_table, consumer_detailed_table}
use cdc_pipeline.Dashboard.References.{cdc_telemetry_dashboard}

abbrev pub rule : String
rule = "==================================================================="

abbrev pub success_line : String
success_line =
    "\n[SUCCESS] Master Kibana benchmark & telemetry dashboard successfully deployed and active!"

module _ (V : Server) where
  unfoldable pub main : Exec (World V.State) (Unit {0})
  main = do
    print rule
    print " Deploying Complete Enterprise Kibana Observability & Benchmark Suite"
    print " Includes All Figures 1-4: Throughput Timelines & Latency Bar Graphs"
    print rule
    create_saved_object V header_banner
    create_saved_object V total_orders
    create_saved_object V p50_latency
    create_saved_object V p95_latency
    create_saved_object V redis_sink_latency
    create_saved_object V total_consumer_events
    create_saved_object V es_sink_latency
    create_saved_object V idempotency_dedup
    create_saved_object V dlq_count
    create_saved_object V figure1_throughput
    create_saved_object V figure4_consumer_throughput
    create_saved_object V figure2_percentiles
    create_saved_object V figure3_dual_store
    create_saved_object V api_status_pie
    create_saved_object V api_method_pie
    create_saved_object V events_pie
    create_saved_object V system_severity_pie
    create_saved_object V api_summary_table
    create_saved_object V consumer_summary_table
    create_saved_object V api_detailed_table
    create_saved_object V consumer_detailed_table
    create_saved_object V architecture_summary
    create_saved_object V cdc_telemetry_dashboard
    print success_line

-- The visualizations, in the order of the calls.
abbrev pub visualizations : List SavedObject
visualizations =
    header_banner ∷ total_orders ∷ p50_latency ∷ p95_latency ∷ redis_sink_latency
    ∷ total_consumer_events ∷ es_sink_latency ∷ idempotency_dedup ∷ dlq_count ∷ figure1_throughput
    ∷ figure4_consumer_throughput ∷ figure2_percentiles ∷ figure3_dual_store ∷ api_status_pie
    ∷ api_method_pie ∷ events_pie ∷ system_severity_pie ∷ api_summary_table ∷ consumer_summary_table
    ∷ api_detailed_table ∷ consumer_detailed_table ∷ architecture_summary ∷ []

abbrev pub objects : List SavedObject
objects = visualizations ++ (cdc_telemetry_dashboard ∷ [])
