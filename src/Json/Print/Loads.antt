-- ===== src/Json/Print/Loads.antt =====
-- `json.loads` of what `json.dumps` prints: the fuel is enough.
use text.Mathlib.TextLemmas.{nil-append, cons-append, append-nil}
use cdc_pipeline.Base.{◌+◌, ◌*◌, ◌≤◌, String, ◌<>◌, ◌≡◌, refl, sym, ap, ◌∙◌, true, some, arith}
use cdc_pipeline.Json.{
  Value, null, bool, int, tenths, str, arr, obj, Items, nil, ◌▹◌, Fields, end, ◌⦂◌⨾◌,
}
use cdc_pipeline.Json.Parse.{value, len, loads, all_read}
use cdc_pipeline.Json.Print.{dumps, dumps_items, dumps_fields, quote, scalar as printed}
use cdc_pipeline.Json.Print.Values.{is_scalar, printed-Opens}
use cdc_pipeline.Json.Print.Arrays.{cost, cost_items, cost_fields}
use cdc_pipeline.Json.Print.RoundTrip.{value-dumps}

len-append : (s t : String) → len (s <> t) ≡ len s + len t
len-append String.[] t = ap len (nil-append t) ∙ omega arith
len-append (String.◌∷◌ c s) t = ap len (cons-append c s t) ∙ omega (arith, len-append s t)

len-printed : (v : Value) → is_scalar v ≡ true → 1 ≤ len (printed v)
len-printed v s = let (c, t, e, _) = printed-Opens v s in rw e (omega arith)

mutual
  unfolding cost dumps

  cost-le : (v : Value) → cost v + 1 ≤ 3 * len (dumps v)
  cost-le null = omega arith
  cost-le (bool b) = omega (arith, len-printed (bool b) refl)
  cost-le (int n) = omega (arith, len-printed (int n) refl)
  cost-le (tenths n) = omega (arith, len-printed (tenths n) refl)
  cost-le (str s) = omega (arith, len-printed (str s) refl)
  cost-le (arr vs) = omega (
    arith,
    len-append "[" (dumps_items "" vs <> "]"),
    len-append (dumps_items "" vs) "]",
    cost_items-le "" vs,
  )
  cost-le (obj fs) = omega (
    arith,
    len-append "{" (dumps_fields "" fs <> "}"),
    len-append (dumps_fields "" fs) "}",
    cost_fields-le "" fs,
  )

  cost_items-le : (sep : String) (vs : Items) → cost_items vs ≤ 3 * len (dumps_items sep vs)
  cost_items-le sep nil = omega arith
  cost_items-le sep (v ▹ vs) = omega (
    arith,
    len-append sep (dumps v <> dumps_items ", " vs),
    len-append (dumps v) (dumps_items ", " vs),
    cost-le v,
    cost_items-le ", " vs,
  )

  cost_fields-le : (sep : String) (fs : Fields) → cost_fields fs ≤ 3 * len (dumps_fields sep fs)
  cost_fields-le sep end = omega arith
  cost_fields-le sep (k ⦂ v ⨾ fs) = omega (
    arith,
    len-append sep (quote k <> (": " <> (dumps v <> dumps_fields ", " fs))),
    len-append (quote k) (": " <> (dumps v <> dumps_fields ", " fs)),
    len-append ": " (dumps v <> dumps_fields ", " fs),
    len-append (dumps v) (dumps_fields ", " fs),
    cost-le v,
    cost_fields-le ", " fs,
  )

pub loads-dumps : (v : Value) → loads (dumps v) ≡ some v
unfolding loads
loads-dumps v =
    ap (λ t. all_read (value (3 * len (dumps v) + 1) t)) (sym (append-nil (dumps v)))
    ∙ ap all_read (value-dumps v (3 * len (dumps v) + 1) "" (omega (arith, cost-le v)) refl)
