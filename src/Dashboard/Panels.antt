-- ===== src/Dashboard/Panels.antt =====
-- The grid of panels. (`main` of scripts/build_full_kibana_dashboard.py)
use cdc_pipeline.Base.{true}
use cdc_pipeline.Json.{bool, num, str, obj, Items, nil, ◌▹◌, end, ◌⦂◌⨾◌}
use cdc_pipeline.Dashboard.Parts.{panel}

abbrev pub panels : Items
panels =
    obj (
      "version"
      ⦂ str "8.10.2" ⨾ "type"
      ⦂ str "visualization" ⨾ "gridData"
      ⦂ obj ("x" ⦂ num 0 ⨾ "y" ⦂ num 0 ⨾ "w" ⦂ num 48 ⨾ "h" ⦂ num 4 ⨾ "i" ⦂ str "1" ⨾ end) ⨾
        "panelIndex"
      ⦂ str "1" ⨾ "panelRefName"
      ⦂ str "panel_banner" ⨾ "embeddableConfig"
      ⦂ obj ("hidePanelTitles" ⦂ bool true ⨾ end) ⨾ end)
    ▹ panel 0 4 12 6 "2" "panel_total_orders"
    ▹ panel 12 4 12 6 "3" "panel_p50_latency"
    ▹ panel 24 4 12 6 "4" "panel_p95_latency"
    ▹ panel 36 4 12 6 "5" "panel_redis_sink_latency"
    ▹ panel 0 10 12 6 "6" "panel_total_consumer_events"
    ▹ panel 12 10 12 6 "7" "panel_es_sink_latency"
    ▹ panel 24 10 12 6 "8" "panel_idempotency_dedup"
    ▹ panel 36 10 12 6 "9" "panel_dlq_count"
    ▹ panel 0 16 24 16 "10" "panel_fig1_throughput"
    ▹ panel 24 16 24 16 "11" "panel_fig4_consumer_throughput"
    ▹ panel 0 32 24 16 "12" "panel_fig2_percentiles"
    ▹ panel 24 32 24 16 "13" "panel_fig3_dual_store"
    ▹ panel 0 48 12 12 "14" "panel_api_pie"
    ▹ panel 12 48 12 12 "15" "panel_api_method_pie"
    ▹ panel 24 48 12 12 "16" "panel_consumer_pie"
    ▹ panel 36 48 12 12 "17" "panel_system_severity_pie"
    ▹ panel 0 60 24 12 "18" "panel_api_table"
    ▹ panel 24 60 24 12 "19" "panel_consumer_table"
    ▹ panel 0 72 24 14 "20" "panel_api_detailed_table"
    ▹ panel 24 72 24 14 "21" "panel_consumer_detailed_table"
    ▹ panel 0 86 48 9 "22" "panel_arch_summary"
    ▹ nil
