-- ===== src/Dashboard/Objects/Figure3.antt =====
-- Figure 3, the latency of the two stores. (`main` of scripts/build_full_kibana_dashboard.py)
use cdc_pipeline.Base.{true, none}
use cdc_pipeline.Base.Int.{negsuc}
use cdc_pipeline.Json.{Value, bool, int, num, str, arr, obj, nil, ◌▹◌, end, ◌⦂◌⨾◌}
use cdc_pipeline.Json.Print.{dumps, dumps_indent}
use cdc_pipeline.Kibana.{SavedObject}
use cdc_pipeline.Dashboard.Parts.{no_search}

abbrev pub fig3_spec : Value
fig3_spec = obj (
    "$schema"
    ⦂ str "https://vega.github.io/schema/vega-lite/v5.json" ⨾ "description"
    ⦂ str "Figure 3: Dual-Storage Sink Latency Comparison" ⨾ "width"
    ⦂ str "container" ⨾ "height"
    ⦂ str "container" ⨾ "padding"
    ⦂ obj ("top" ⦂ num 15 ⨾ "left" ⦂ num 15 ⨾ "right" ⦂ num 15 ⨾ "bottom" ⦂ num 15 ⨾ end) ⨾
      "autosize"
    ⦂ obj ("type" ⦂ str "fit" ⨾ "contains" ⦂ str "padding" ⨾ end) ⨾ "data"
    ⦂ obj (
        "url"
        ⦂ obj (
            "%context%"
            ⦂ bool true ⨾ "%timefield%"
            ⦂ str "@timestamp" ⨾ "index"
            ⦂ str "cdc-consumer-logs-*" ⨾ "body"
            ⦂ obj (
                "size"
                ⦂ num 0 ⨾ "aggs"
                ⦂ obj (
                    "by_sink"
                    ⦂ obj (
                        "terms"
                        ⦂ obj (
                            "field"
                            ⦂ str "consumer.keyword" ⨾ "include"
                            ⦂ arr (str "RedisUpdater" ▹ str "ESIndexer" ▹ nil) ⨾ end) ⨾
                          "aggs"
                        ⦂ obj (
                            "avg_lat"
                            ⦂ obj ("avg" ⦂ obj ("field" ⦂ str "sink_latency_ms" ⨾ end) ⨾ end) ⨾
                              end) ⨾
                          end) ⨾
                      end) ⨾
                  end) ⨾
              end) ⨾
          "format"
        ⦂ obj ("property" ⦂ str "aggregations.by_sink.buckets" ⨾ end) ⨾ end) ⨾
      "transform"
    ⦂ arr (
        obj (
          "calculate"
          ⦂ str
              "datum.key == 'RedisUpdater' ? 'Redis Hot Cache (Lua Upsert)' : 'Elasticsearch Inverted Index'" ⨾
            "as"
          ⦂ str "tier_label" ⨾ end)
        ▹ nil) ⨾
      "layer"
    ⦂ arr (
        obj (
          "mark"
          ⦂ obj ("type" ⦂ str "bar" ⨾ "cornerRadiusEnd" ⦂ num 6 ⨾ "size" ⦂ num 60 ⨾ end) ⨾
            "encoding"
          ⦂ obj (
              "x"
              ⦂ obj (
                  "field"
                  ⦂ str "tier_label" ⨾ "type"
                  ⦂ str "nominal" ⨾ "title"
                  ⦂ str "Storage Subsystem" ⨾ "axis"
                  ⦂ obj (
                      "labelAngle"
                      ⦂ num 0 ⨾ "labelFontSize"
                      ⦂ num 12 ⨾ "titleFontSize"
                      ⦂ num 12 ⨾ end) ⨾
                    end) ⨾
                "y"
              ⦂ obj (
                  "field"
                  ⦂ str "avg_lat.value" ⨾ "type"
                  ⦂ str "quantitative" ⨾ "title"
                  ⦂ str "Average Sink Latency (ms)" ⨾ "axis"
                  ⦂ obj (
                      "grid"
                      ⦂ bool true ⨾ "gridColor"
                      ⦂ str "#e5e5e5" ⨾ "titleFontSize"
                      ⦂ num 12 ⨾ end) ⨾
                    end) ⨾
                "color"
              ⦂ obj (
                  "field"
                  ⦂ str "tier_label" ⨾ "type"
                  ⦂ str "nominal" ⨾ "scale"
                  ⦂ obj (
                      "domain"
                      ⦂ arr (
                          str "Redis Hot Cache (Lua Upsert)"
                          ▹ str "Elasticsearch Inverted Index"
                          ▹ nil) ⨾
                        "range"
                      ⦂ arr (str "#00bfb3" ▹ str "#6f42c1" ▹ nil) ⨾ end) ⨾
                    "legend"
                  ⦂ obj ("title" ⦂ str "Storage Tier" ⨾ end) ⨾ end) ⨾
                "tooltip"
              ⦂ arr (
                  obj (
                    "field"
                    ⦂ str "tier_label" ⨾ "type"
                    ⦂ str "nominal" ⨾ "title"
                    ⦂ str "Engine" ⨾ end)
                  ▹ obj (
                      "field"
                      ⦂ str "avg_lat.value" ⨾ "type"
                      ⦂ str "quantitative" ⨾ "format"
                      ⦂ str ".4f" ⨾ "title"
                      ⦂ str "Avg Latency (ms)" ⨾ end)
                  ▹ obj (
                      "field"
                      ⦂ str "doc_count" ⨾ "type"
                      ⦂ str "quantitative" ⨾ "title"
                      ⦂ str "Operations Count" ⨾ end)
                  ▹ nil) ⨾
                end) ⨾
            end)
        ▹ obj (
            "mark"
            ⦂ obj (
                "type"
                ⦂ str "text" ⨾ "dy"
                ⦂ int (negsuc 9) ⨾ "fontSize"
                ⦂ num 13 ⨾ "fontWeight"
                ⦂ str "bold" ⨾ end) ⨾
              "encoding"
            ⦂ obj (
                "x"
                ⦂ obj ("field" ⦂ str "tier_label" ⨾ "type" ⦂ str "nominal" ⨾ end) ⨾ "y"
                ⦂ obj ("field" ⦂ str "avg_lat.value" ⨾ "type" ⦂ str "quantitative" ⨾ end) ⨾ "text"
                ⦂ obj (
                    "field"
                    ⦂ str "avg_lat.value" ⨾ "type"
                    ⦂ str "quantitative" ⨾ "format"
                    ⦂ str ".3f" ⨾ end) ⨾
                  end) ⨾
              end)
        ▹ nil) ⨾
      end)

abbrev pub figure3_dual_store : SavedObject
figure3_dual_store = record {
  obj_type = "visualization";
  obj_id = "vis-figure3-dual-store";
  attributes = obj (
      "title"
      ⦂ str "Figure 3: Dual-Storage Write Latency Comparison" ⨾ "visState"
      ⦂ str (
          dumps (
            obj (
              "title"
              ⦂ str "Figure 3: Dual-Storage Write Latency Comparison" ⨾ "type"
              ⦂ str "vega" ⨾ "params"
              ⦂ obj ("spec" ⦂ str (dumps_indent fig3_spec) ⨾ end) ⨾ end))) ⨾
        "uiStateJSON"
      ⦂ str "{}" ⨾ "kibanaSavedObjectMeta"
      ⦂ obj ("searchSourceJSON" ⦂ str (dumps no_search) ⨾ end) ⨾ end);
  references = none;
}
