-- ===== src/Dashboard/Objects/Figure2.antt =====
-- Figure 2, the latency percentiles. (`main` of scripts/build_full_kibana_dashboard.py)
use cdc_pipeline.Base.{true, false, none}
use cdc_pipeline.Base.Int.{negsuc}
use cdc_pipeline.Json.{Value, bool, int, num, str, arr, obj, nil, ◌▹◌, end, ◌⦂◌⨾◌}
use cdc_pipeline.Json.Print.{dumps, dumps_indent}
use cdc_pipeline.Kibana.{SavedObject}
use cdc_pipeline.Dashboard.Parts.{no_search}

abbrev pub fig2_spec : Value
fig2_spec = obj (
    "$schema"
    ⦂ str "https://vega.github.io/schema/vega-lite/v5.json" ⨾ "description"
    ⦂ str "Figure 2: API Latency Percentile Spectrum" ⨾ "width"
    ⦂ str "container" ⨾ "height"
    ⦂ str "container" ⨾ "padding"
    ⦂ obj ("top" ⦂ num 15 ⨾ "left" ⦂ num 15 ⨾ "right" ⦂ num 15 ⨾ "bottom" ⦂ num 15 ⨾ end) ⨾
      "autosize"
    ⦂ obj ("type" ⦂ str "fit" ⨾ "contains" ⦂ str "padding" ⨾ end) ⨾ "data"
    ⦂ obj (
        "url"
        ⦂ obj (
            "%context%"
            ⦂ bool true ⨾ "%timefield%"
            ⦂ str "@timestamp" ⨾ "index"
            ⦂ str "cdc-api-logs-*" ⨾ "body"
            ⦂ obj (
                "size"
                ⦂ num 0 ⨾ "aggs"
                ⦂ obj (
                    "lat_pct"
                    ⦂ obj (
                        "percentiles"
                        ⦂ obj (
                            "field"
                            ⦂ str "latency_ms" ⨾ "percents"
                            ⦂ arr (num 50 ▹ num 90 ▹ num 95 ▹ num 99 ▹ nil) ⨾ "keyed"
                            ⦂ bool false ⨾ end) ⨾
                          end) ⨾
                      end) ⨾
                  end) ⨾
              end) ⨾
          "format"
        ⦂ obj ("property" ⦂ str "aggregations.lat_pct.values" ⨾ end) ⨾ end) ⨾
      "transform"
    ⦂ arr (
        obj (
          "calculate"
          ⦂ str
              "datum.key == 50 ? 'P50 (Median)' : datum.key == 90 ? 'P90' : datum.key == 95 ? 'P95 (Tail)' : 'P99 (Max SLA)'" ⨾
            "as"
          ⦂ str "percentile_label" ⨾ end)
        ▹ nil) ⨾
      "layer"
    ⦂ arr (
        obj (
          "mark"
          ⦂ obj ("type" ⦂ str "bar" ⨾ "cornerRadiusEnd" ⦂ num 6 ⨾ "size" ⦂ num 45 ⨾ end) ⨾
            "encoding"
          ⦂ obj (
              "x"
              ⦂ obj (
                  "field"
                  ⦂ str "percentile_label" ⨾ "type"
                  ⦂ str "nominal" ⨾ "sort"
                  ⦂ arr (
                      str "P50 (Median)"
                      ▹ str "P90"
                      ▹ str "P95 (Tail)"
                      ▹ str "P99 (Max SLA)"
                      ▹ nil) ⨾
                    "title"
                  ⦂ str "SLA Percentile Tier" ⨾ "axis"
                  ⦂ obj (
                      "labelAngle"
                      ⦂ num 0 ⨾ "labelFontSize"
                      ⦂ num 12 ⨾ "titleFontSize"
                      ⦂ num 12 ⨾ end) ⨾
                    end) ⨾
                "y"
              ⦂ obj (
                  "field"
                  ⦂ str "value" ⨾ "type"
                  ⦂ str "quantitative" ⨾ "title"
                  ⦂ str "API Latency (ms)" ⨾ "axis"
                  ⦂ obj (
                      "grid"
                      ⦂ bool true ⨾ "gridColor"
                      ⦂ str "#e5e5e5" ⨾ "titleFontSize"
                      ⦂ num 12 ⨾ end) ⨾
                    end) ⨾
                "color"
              ⦂ obj (
                  "field"
                  ⦂ str "percentile_label" ⨾ "type"
                  ⦂ str "nominal" ⨾ "scale"
                  ⦂ obj (
                      "domain"
                      ⦂ arr (
                          str "P50 (Median)"
                          ▹ str "P90"
                          ▹ str "P95 (Tail)"
                          ▹ str "P99 (Max SLA)"
                          ▹ nil) ⨾
                        "range"
                      ⦂ arr (str "#28a745" ▹ str "#ffc107" ▹ str "#fd7e14" ▹ str "#dc3545" ▹ nil) ⨾
                        end) ⨾
                    "legend"
                  ⦂ obj ("title" ⦂ str "Percentile Tier" ⨾ end) ⨾ end) ⨾
                "tooltip"
              ⦂ arr (
                  obj (
                    "field"
                    ⦂ str "percentile_label" ⨾ "type"
                    ⦂ str "nominal" ⨾ "title"
                    ⦂ str "Tier" ⨾ end)
                  ▹ obj (
                      "field"
                      ⦂ str "value" ⨾ "type"
                      ⦂ str "quantitative" ⨾ "format"
                      ⦂ str ".2f" ⨾ "title"
                      ⦂ str "Latency (ms)" ⨾ end)
                  ▹ nil) ⨾
                end) ⨾
            end)
        ▹ obj (
            "mark"
            ⦂ obj (
                "type"
                ⦂ str "text" ⨾ "dy"
                ⦂ int (negsuc 9) ⨾ "fontSize"
                ⦂ num 12 ⨾ "fontWeight"
                ⦂ str "bold" ⨾ end) ⨾
              "encoding"
            ⦂ obj (
                "x"
                ⦂ obj (
                    "field"
                    ⦂ str "percentile_label" ⨾ "type"
                    ⦂ str "nominal" ⨾ "sort"
                    ⦂ arr (
                        str "P50 (Median)"
                        ▹ str "P90"
                        ▹ str "P95 (Tail)"
                        ▹ str "P99 (Max SLA)"
                        ▹ nil) ⨾
                      end) ⨾
                  "y"
                ⦂ obj ("field" ⦂ str "value" ⨾ "type" ⦂ str "quantitative" ⨾ end) ⨾ "text"
                ⦂ obj (
                    "field"
                    ⦂ str "value" ⨾ "type"
                    ⦂ str "quantitative" ⨾ "format"
                    ⦂ str ".1f" ⨾ end) ⨾
                  end) ⨾
              end)
        ▹ nil) ⨾
      end)

abbrev pub figure2_percentiles : SavedObject
figure2_percentiles = record {
  obj_type = "visualization";
  obj_id = "vis-figure2-percentiles";
  attributes = obj (
      "title"
      ⦂ str "Figure 2: API Latency Percentile Spectrum" ⨾ "visState"
      ⦂ str (
          dumps (
            obj (
              "title"
              ⦂ str "Figure 2: API Latency Percentile Spectrum" ⨾ "type"
              ⦂ str "vega" ⨾ "params"
              ⦂ obj ("spec" ⦂ str (dumps_indent fig2_spec) ⨾ end) ⨾ end))) ⨾
        "uiStateJSON"
      ⦂ str "{}" ⨾ "kibanaSavedObjectMeta"
      ⦂ obj ("searchSourceJSON" ⦂ str (dumps no_search) ⨾ end) ⨾ end);
  references = none;
}
