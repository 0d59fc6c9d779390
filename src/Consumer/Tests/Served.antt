-- ===== src/Consumer/Tests/Served.antt =====
-- The Redis updater and the order service of api/src, at two messages of one order.
use cdc_pipeline.Base.{
  ℕ, ◌≡◌, refl, inl, inr, true, none, some, [], ◌∷◌, ◌++◌, arith, str_eq, if◌then◌else◌,
}
use cdc_pipeline.Base.Int.{pos}
use cdc_pipeline.Base.Text.{show}
use cdc_pipeline.Json.{num, str, obj, Fields, end, ◌⦂◌⨾◌}
use cdc_pipeline.Json.Members.{set_field}
use cdc_pipeline.Json.Print.{dumps}
use cdc_pipeline.Consumer.Lsn.{wrap64}
use cdc_pipeline.Consumer.Effects.{answered}
use cdc_pipeline.Consumer.Updater.{write_of, script_of}
use cdc_pipeline.Consumer.Updater.Reliable.{scripts}
use cdc_pipeline.Consumer.Tests.{lua, lua-IsLua, json, S, shipped, shipped_fit, started, no_letters}
use cdc_pipeline.Api.Action.{Service}
use cdc_pipeline.Api.Library.{Library, Postgres}
use cdc_pipeline.Api.Cache.{replies}
use cdc_pipeline.Api.Server.{respond, get_order}
use cdc_pipeline.Api.Cached.{keys_after, run-get_order}

abbrev shipped_fields : Fields
shipped_fields = "id" ⦂ str "1" ⨾ "status" ⦂ str "SHIPPED" ⨾ end

-- A library that reads this order, and a database that is not asked.
abbrev reader : Library
reader = record {
  Double = ℕ;
  double_of = λ v. none;
  value_of = num;
  show = show;
  parse =
      λ text. if str_eq text (dumps (obj shipped_fields)) then some (obj shipped_fields) else none;
  dump = dumps;
  parse_error = λ text. "parse error";
  type_error = λ v k. "type error";
}

abbrev silent : Postgres ℕ
silent = record {
  State = ℕ;
  execute = λ sql s. (answered [], s);
  execute_params = λ sql args s. (answered 0, s);
}

abbrev service : Service ℕ
service = record { database = 0; connected = true; logs = [] }

two_scripts : scripts json lua (shipped 1 ∷ shipped 2 ∷ []) ≡ (
    (write_of json lua "1" (pos 11) (some (obj shipped_fields)) ∷ [])
    ++ write_of json lua "1" (pos 12) (some (obj shipped_fields)) ∷ [])
unfolding scripts script_of wrap64
two_scripts = refl

reads_back : reader.parse (dumps (obj shipped_fields)) ≡ some (obj shipped_fields)
unfolding dumps
reads_back = refl

run-get_order_example :
    ((get_order reader silent
        (replies (keys_after json lua S (shipped 1 ∷ shipped 2 ∷ []) (started 24)))
        "1"
        service).0
      ≡ respond 200 (dumps (obj (set_field "source" (str "redis") shipped_fields))))
    × ((get_order reader silent
          (replies (keys_after json lua S (shipped 1 ∷ shipped 2 ∷ []) (started 24)))
          "1"
          service).1.database
        ≡ 0)
run-get_order_example =
    run-get_order json lua lua-IsLua S reader silent (shipped 1 ∷ shipped 2 ∷ []) (started 24)
      (write_of json lua "1" (pos 11) (some (obj shipped_fields)) ∷ []) [] "1" (pos 12)
      shipped_fields service (omega arith) (omega arith)
      ((refl, shipped_fit.0), ((refl, shipped_fit.1), tt)) (omega arith) no_letters two_scripts
      (inl refl) (inr (refl, omega arith, omega arith, omega arith), tt) tt reads_back refl
