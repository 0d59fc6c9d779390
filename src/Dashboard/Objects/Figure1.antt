-- ===== src/Dashboard/Objects/Figure1.antt =====
-- Figure 1, the ingestion timeline. (`main` of scripts/build_full_kibana_dashboard.py)
use cdc_pipeline.Base.{true, false, none}
use cdc_pipeline.Json.{Value, bool, num, tenths, str, arr, obj, nil, ◌▹◌, end, ◌⦂◌⨾◌}
use cdc_pipeline.Json.Print.{dumps, dumps_indent}
use cdc_pipeline.Kibana.{SavedObject}
use cdc_pipeline.Dashboard.Parts.{no_search}

abbrev pub fig1_spec : Value
fig1_spec = obj (
    "$schema"
    ⦂ str "https://vega.github.io/schema/vega-lite/v5.json" ⨾ "description"
    ⦂ str "Figure 1: Pipeline Ingestion Throughput Timeline" ⨾ "width"
    ⦂ str "container" ⨾ "height"
    ⦂ str "container" ⨾ "padding"
    ⦂ obj ("top" ⦂ num 15 ⨾ "left" ⦂ num 15 ⨾ "right" ⦂ num 15 ⨾ "bottom" ⦂ num 15 ⨾ end) ⨾
      "autosize"
    ⦂ obj ("type" ⦂ str "fit" ⨾ "contains" ⦂ str "padding" ⨾ end) ⨾ "data"
    ⦂ obj (
        "url"
        ⦂ obj (
            "%context%"
            ⦂ bool true ⨾ "%timefield%"
            ⦂ str "@timestamp" ⨾ "index"
            ⦂ str "cdc-api-logs-*" ⨾ "body"
            ⦂ obj (
                "size"
                ⦂ num 0 ⨾ "aggs"
                ⦂ obj (
                    "timeline"
                    ⦂ obj (
                        "date_histogram"
                        ⦂ obj ("field" ⦂ str "@timestamp" ⨾ "fixed_interval" ⦂ str "1m" ⨾ end) ⨾
                          end) ⨾
                      end) ⨾
                  end) ⨾
              end) ⨾
          "format"
        ⦂ obj ("property" ⦂ str "aggregations.timeline.buckets" ⨾ end) ⨾ end) ⨾
      "layer"
    ⦂ arr (
        obj (
          "mark"
          ⦂ obj (
              "type"
              ⦂ str "area" ⨾ "color"
              ⦂ str "#00bfb3" ⨾ "opacity"
              ⦂ tenths 2 ⨾ "interpolate"
              ⦂ str "monotone" ⨾ end) ⨾
            "encoding"
          ⦂ obj (
              "x"
              ⦂ obj ("field" ⦂ str "key" ⨾ "type" ⦂ str "temporal" ⨾ end) ⨾ "y"
              ⦂ obj ("field" ⦂ str "doc_count" ⨾ "type" ⦂ str "quantitative" ⨾ end) ⨾ end) ⨾
            end)
        ▹ obj (
            "mark"
            ⦂ obj (
                "type"
                ⦂ str "line" ⨾ "color"
                ⦂ str "#00bfb3" ⨾ "strokeWidth"
                ⦂ tenths 25 ⨾ "point"
                ⦂ obj ("filled" ⦂ bool true ⨾ "fill" ⦂ str "#00bfb3" ⨾ "size" ⦂ num 35 ⨾ end) ⨾
                  "interpolate"
                ⦂ str "monotone" ⨾ end) ⨾
              "encoding"
            ⦂ obj (
                "x"
                ⦂ obj (
                    "field"
                    ⦂ str "key" ⨾ "type"
                    ⦂ str "temporal" ⨾ "title"
                    ⦂ str "Ingestion Timeline (UTC)" ⨾ "axis"
                    ⦂ obj (
                        "grid"
                        ⦂ bool false ⨾ "labelColor"
                        ⦂ str "#666" ⨾ "titleColor"
                        ⦂ str "#444" ⨾ "titleFontSize"
                        ⦂ num 12 ⨾ end) ⨾
                      end) ⨾
                  "y"
                ⦂ obj (
                    "field"
                    ⦂ str "doc_count" ⨾ "type"
                    ⦂ str "quantitative" ⨾ "title"
                    ⦂ str "Throughput (Requests / min)" ⨾ "axis"
                    ⦂ obj (
                        "grid"
                        ⦂ bool true ⨾ "gridColor"
                        ⦂ str "#e5e5e5" ⨾ "labelColor"
                        ⦂ str "#666" ⨾ "titleColor"
                        ⦂ str "#444" ⨾ "titleFontSize"
                        ⦂ num 12 ⨾ end) ⨾
                      end) ⨾
                  "tooltip"
                ⦂ arr (
                    obj (
                      "field"
                      ⦂ str "key_as_string" ⨾ "type"
                      ⦂ str "nominal" ⨾ "title"
                      ⦂ str "Time Window" ⨾ end)
                    ▹ obj (
                        "field"
                        ⦂ str "doc_count" ⨾ "type"
                        ⦂ str "quantitative" ⨾ "title"
                        ⦂ str "Requests Ingested" ⨾ end)
                    ▹ nil) ⨾
                  end) ⨾
              end)
        ▹ nil) ⨾
      end)

abbrev pub figure1_throughput : SavedObject
figure1_throughput = record {
  obj_type = "visualization";
  obj_id = "vis-figure1-throughput";
  attributes = obj (
      "title"
      ⦂ str "Figure 1: Pipeline Ingestion Throughput Timeline" ⨾ "visState"
      ⦂ str (
          dumps (
            obj (
              "title"
              ⦂ str "Figure 1: Pipeline Ingestion Throughput Timeline" ⨾ "type"
              ⦂ str "vega" ⨾ "params"
              ⦂ obj ("spec" ⦂ str (dumps_indent fig1_spec) ⨾ end) ⨾ end))) ⨾
        "uiStateJSON"
      ⦂ str "{}" ⨾ "kibanaSavedObjectMeta"
      ⦂ obj ("searchSourceJSON" ⦂ str (dumps no_search) ⨾ end) ⨾ end);
  references = none;
}
