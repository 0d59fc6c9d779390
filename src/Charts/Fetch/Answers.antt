-- ===== src/Charts/Fetch/Answers.antt =====
-- The first chart's data, from the three answers of Elasticsearch.
use cdc_pipeline.Base.{
  ℕ, String, ◌≡◌, refl, ap, ◌∙◌, true, some, List, [], ◌∷◌, ◌++◌, Option-cases, inl, inr,
}
use mathlib.Core.List.{append_assoc}
use cdc_pipeline.Base.Int.{pos}
use cdc_pipeline.Json.{Value, arr, obj, Items, elements, field?}
use cdc_pipeline.Json.Parse.{loads}
use cdc_pipeline.Exec.{ok}
use cdc_pipeline.Http.{Request, reply, Server, World, is_success, urlopen, print}
use cdc_pipeline.Soak.{search_request, query_es}
use cdc_pipeline.Soak.Report.{Interval, AreBuckets, IsBucket, buckets_of, get_item_lem}
use cdc_pipeline.Charts.{Bucket, timeline}
use cdc_pipeline.Charts.Fetch.{
  throughput_query, first_line, read_member, read_members, read_interval, read_intervals, found_in,
  intervals_of, rates_of, rates, fetch_throughput,
}

abbrev pub intervals : List Bucket → List Interval
intervals [] = []
intervals (b ∷ bs) = (b.key_as_string, pos b.doc_count) ∷ intervals bs

-- The server answers a request with these buckets, whatever else its answer holds.
pub record Answers (V : Server) (req : Request) (s t : V.State) (bs : List Bucket) : Type 0 where
  pub status : ℕ
  pub text : String
  pub res : Value
  pub vs : Items
  pub answers : V.respond req s ≡ (reply status text, t)
  pub fine : is_success status ≡ true
  pub parses : loads text ≡ some res
  pub found : buckets_of res ≡ some (arr vs)
  pub are : AreBuckets (elements vs) (intervals bs)

module _ {S : Type 0} where
  read_member_lem :
      (v : Value) (b : Bucket) (w : World S)
      → IsBucket v (b.key_as_string, pos b.doc_count)
      → (read_member v w ≡ (ok b, w)) × (read_interval v w ≡ (ok b, w))
  unfolding read_member read_interval field?
  read_member_lem (obj fs) b w (there, named) = (rw named (rw there refl), rw there (rw named refl))
  read_member_lem _ b w h = elim h [ ]

  read_members_lem :
      (vs : List Value) (bs : List Bucket) (w : World S)
      → AreBuckets vs (intervals bs)
      → (read_members vs w ≡ (ok bs, w)) × (read_intervals vs w ≡ (ok bs, w))
  unfolding read_members read_intervals
  read_members_lem [] [] w h = (refl, refl)
  read_members_lem [] (b ∷ bs) w h = elim h [ ]
  read_members_lem (v ∷ vs) [] w h = elim h [ ]
  read_members_lem (v ∷ vs) (b ∷ bs) w h =
      let (member, interval) = read_member_lem v b w h.0 in
      let (members, intervals) = read_members_lem vs bs w h.1 in
      (rw (member, read_member) (rw members refl), rw (interval, read_interval) (rw intervals refl))

  found_in_lem :
      (res : Value) (vs : Items) (w : World S)
      → buckets_of res ≡ some (arr vs)
      → found_in res w ≡ (ok (arr vs), w)
  unfolding found_in
  found_in_lem res vs w h = elim (Option-cases (field? "aggregations" res)) [
    | inl missing ↦ cc (rw missing at h)
    | inr (aggs, e1) ↦ elim (Option-cases (field? "rate_per_10s" aggs)) [
      | inl missing ↦ cc (rw missing at (rw e1 at h))
      | inr (found, e2) ↦ rw (get_item_lem "aggregations" res aggs w e1) (
          rw (get_item_lem "rate_per_10s" aggs found w e2)
            (get_item_lem "buckets" found (arr vs) w (rw e2 at (rw e1 at h))))
    ]
  ]

  rates_of_lem :
      (res : Value) (vs : Items) (bs : List Bucket) (w : World S)
      → buckets_of res ≡ some (arr vs)
      → AreBuckets (elements vs) (intervals bs)
      → rates_of res w ≡ (ok bs, w)
  unfolding rates_of
  rates_of_lem res vs bs w h are =
      rw (found_in_lem res vs w h, found_in) (read_members_lem (elements vs) bs w are).0

module _ (V : Server) where
  query_lem :
      (index event : String) (t : V.State) (bs : List Bucket) (w : World V.State)
      (a : Answers V (search_request index (throughput_query event)) w.server t bs)
      → query_es V index (throughput_query event) w ≡ (
        ok a.res,
        record {
          server = t;
          out = w.out;
          sent = w.sent ++ search_request index (throughput_query event) ∷ [];
        },
      )
  unfolding query_es urlopen
  query_lem index event t bs w a = rw a.answers (rw a.fine (rw a.parses refl))

  rates_lem :
      (index event : String) (t : V.State) (bs : List Bucket) (w : World V.State)
      → Answers V (search_request index (throughput_query event)) w.server t bs
      → rates V index event w ≡ (
        ok bs,
        record {
          server = t;
          out = w.out;
          sent = w.sent ++ search_request index (throughput_query event) ∷ [];
        },
      )
  unfolding rates
  rates_lem index event t bs w a = rw (query_lem index event t bs w a) (
      rates_of_lem a.res a.vs bs
        (record {
          server = t;
          out = w.out;
          sent = w.sent ++ search_request index (throughput_query event) ∷ [];
        })
        a.found a.are)

abbrev pub api_search : Request
api_search = search_request "cdc-api-logs-*" (throughput_query "request_sent")

abbrev pub redis_search : Request
redis_search = search_request "cdc-consumer-logs-*" (throughput_query "redis_updated")

abbrev pub es_search : Request
es_search = search_request "cdc-consumer-logs-*" (throughput_query "es_indexed")

module _ (V : Server) where
  pub fetch_throughput-timeline :
      (w : World V.State) (s t u : V.State) (api redis es : List Bucket)
      → Answers V api_search w.server s api
      → Answers V redis_search s t redis
      → Answers V es_search t u es
      → fetch_throughput V w ≡ (
        ok (timeline redis es api),
        record {
          server = u;
          out = w.out ++ first_line ∷ [];
          sent = w.sent ++ api_search ∷ redis_search ∷ es_search ∷ [];
        },
      )
  unfolding fetch_throughput intervals_of print
  fetch_throughput-timeline w s t u api redis es a b c =
      let out : List String = w.out ++ first_line ∷ [] in
      let w1 : World V.State = record w { out = out } in
      let w2 : World V.State = record { server = s; out = out; sent = w.sent ++ api_search ∷ [] } in
      let w3 : World V.State = record {
        server = t;
        out = out;
        sent = (w.sent ++ api_search ∷ []) ++ redis_search ∷ [];
      } in
      let w4 : World V.State = record {
        server = u;
        out = out;
        sent = ((w.sent ++ api_search ∷ []) ++ redis_search ∷ []) ++ es_search ∷ [];
      } in
      rw (query_lem V "cdc-api-logs-*" "request_sent" s api w1 a) (
        rw (found_in_lem a.res a.vs w2 a.found, found_in)
          (rw (rates_lem V "cdc-consumer-logs-*" "redis_updated" t redis w2 b, rates)
            (rw (rates_lem V "cdc-consumer-logs-*" "es_indexed" u es w3 c, rates)
              (rw ((read_members_lem (elements a.vs) api w4 a.are).1) (
                ap
                  (λ (r : List Request).
                    (ok (timeline redis es api), record { server = u; out = out; sent = r }))
                  (append_assoc (w.sent ++ api_search ∷ []) (redis_search ∷ []) (es_search ∷ [])
                    ∙ append_assoc w.sent (api_search ∷ []) (redis_search ∷ es_search ∷ [])))))))
