-- ===== src/Soak.antt =====
-- scripts/check_soak_status.py: the requests of the last intervals, from the logs in Elasticsearch. Any
-- JSON may come back; a count that is a float or a bool, and a key that is no text, are not printed as
-- Python would, and end the run here.
pub mod Report
mod Tests
use cdc_pipeline.Base.{
  ℕ, suc, ◌+◌, ◌-◌, ◌/◌, ◌%◌, String, ◌<>◌, Bool, true, false, Option, none, some, List, [], ◌∷◌,
  length, drop, if◌then◌else◌,
}
use cdc_pipeline.Base.Int.{ℤ, pos, negsuc}
use cdc_pipeline.Base.Text.{show, show_ℤ}
use cdc_pipeline.Json.{
  Value, null, bool, int, num, tenths, str, arr, obj, Fields, end, ◌⦂◌⨾◌, find_field, elements,
  fields_size,
}
use cdc_pipeline.Json.Print.{dumps}
use cdc_pipeline.Json.Parse.{loads, len}
use cdc_pipeline.Exec.{Exn, key_error, type_error, value_error, Exec, pure, raise, ◌>>=◌, ◌>>◌}
use cdc_pipeline.Http.{Request, Response, Server, World, print, urlopen}

unfoldable pub search_request : String → Value → Request
search_request index query = record {
  method = "POST";
  url = "http://localhost:9200/" <> (index <> "/_search");
  headers = ("Content-Type", "application/json") ∷ [];
  body = dumps query;
}

abbrev pub query : Value
query = obj (
    "size"
    ⦂ num 0 ⨾ "aggs"
    ⦂ obj (
        "rate_per_10s"
        ⦂ obj (
            "date_histogram"
            ⦂ obj ("field" ⦂ str "@timestamp" ⨾ "fixed_interval" ⦂ str "10s" ⨾ end) ⨾ end) ⨾
          end) ⨾
      end)

-- `count / 10.0` to one decimal.
abbrev pub rate : ℤ → String
rate (pos n) = show (n / 10) <> ("." <> show (n % 10))
rate (negsuc n) = "-" <> (show ((n + 1) / 10) <> ("." <> show ((n + 1) % 10)))

abbrev pub line : String → ℤ → String
line key count =
    "  " <> (key <> (": " <> (show_ℤ count <> (" requests (" <> (rate count <> " req/sec)")))))

-- `buckets[-8:]`
abbrev pub last_eight : {A : Type 0} → List A → List A
last_eight xs = drop (length xs - 8) xs

-- `v[k]` with a text `k`.
module _ {S : Type 0} where
  abbrev pub present : String → Option Value → Exec (World S) Value
  present k none = raise (key_error k)
  present k (some v) = pure v

  abbrev pub get_item : String → Value → Exec (World S) Value
  get_item k (obj fs) = present k (find_field k fs)
  get_item k v = raise type_error

  abbrev decoded : Option Value → Exec (World S) Value
  decoded none = raise value_error
  decoded (some v) = pure v

  -- The count is divided before the key is looked up.
  abbrev count_of : Value → Exec (World S) ℤ
  count_of (int n) = pure n
  count_of v = raise type_error

  abbrev key_of : Value → Exec (World S) String
  key_of (str s) = pure s
  key_of v = raise type_error

  -- The body of the loop.
  report : Value → Exec (World S) (Unit {0})
  report b = do
    found ← get_item "doc_count" b
    count ← count_of found
    key ← get_item "key_as_string" b
    text ← key_of key
    print (line text count)

  reports : List Value → Exec (World S) (Unit {0})
  unfolding report
  reports [] = pure tt
  reports (b ∷ bs) = report b >> reports bs

  heading : ℕ → Exec (World S) (Unit {0})
  heading n = print ("Total time buckets: " <> show n) >> print "Recent 10s intervals:"

  -- `len(buckets)`, the two lines, and the loop, for what has a length.
  unfoldable pub show_buckets : Value → Exec (World S) (Unit {0})
  unfolding reports heading
  show_buckets (arr vs) = heading (length (elements vs)) >> reports (last_eight (elements vs))
  show_buckets (obj fs) = heading (fields_size fs) >> raise type_error
  show_buckets (str String.[]) = heading 0
  show_buckets (str (String.◌∷◌ c s)) = heading (suc (len s)) >> raise type_error
  show_buckets v = raise type_error

module _ (V : Server) where
  unfoldable pub query_es : String → Value → Exec (World V.State) Value
  unfolding search_request
  query_es index q = do resp ← urlopen V (search_request index q); decoded (loads resp.text)

  unfoldable pub main : Exec (World V.State) (Unit {0})
  unfolding show_buckets query_es
  main = do
    res ← query_es "cdc-api-logs-*" query
    aggs ← get_item "aggregations" res
    rates ← get_item "rate_per_10s" aggs
    buckets ← get_item "buckets" rates
    show_buckets buckets
