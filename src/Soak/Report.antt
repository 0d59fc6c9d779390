-- ===== src/Soak/Report.antt =====
-- What a run of scripts/check_soak_status.py prints.
use cdc_pipeline.Base.{
  ℕ, zero, suc, ◌-◌, String, ◌<>◌, ◌≡◌, refl, sym, ap, ◌∙◌, true, Option, none, some, List, [], ◌∷◌,
  ◌++◌, length, drop, Option-cases, inl, inr,
}
use mathlib.Core.List.{append_assoc, append-nil}
use cdc_pipeline.Base.Int.{ℤ}
use cdc_pipeline.Base.Text.{show}
use cdc_pipeline.Json.{Value, int, str, arr, obj, Items, elements, field?}
use cdc_pipeline.Json.Parse.{loads}
use cdc_pipeline.Exec.{ok, ◌>>=◌}
use cdc_pipeline.Http.{reply, Server, World, is_success, urlopen, Request, print}
use cdc_pipeline.Soak.{
  search_request, query, line, last_eight, show_buckets, main, get_item, report, reports, query_es,
}

-- An interval: its text and its count.
abbrev pub Interval : Type 0
Interval = String × ℤ

-- A bucket with this interval, whatever else it has.
abbrev pub IsBucket : Value → Interval → Type 0
IsBucket (obj fs) (key, count) =
    (field? "doc_count" (obj fs) ≡ some (int count))
    × (field? "key_as_string" (obj fs) ≡ some (str key))
IsBucket v i = ⊥

abbrev pub AreBuckets : List Value → List Interval → Type 0
AreBuckets [] [] = Unit
AreBuckets (b ∷ bs) (i ∷ is) = IsBucket b i × AreBuckets bs is
AreBuckets _ _ = ⊥

abbrev pub lines : List Interval → List String
lines [] = []
lines ((key, count) ∷ is) = line key count ∷ lines is

length-AreBuckets :
    (bs : List Value) (is : List Interval) → AreBuckets bs is → length bs ≡ length is
length-AreBuckets [] [] h = refl
length-AreBuckets [] (i ∷ is) h = elim h [ ]
length-AreBuckets (b ∷ bs) [] h = elim h [ ]
length-AreBuckets (b ∷ bs) (i ∷ is) h = ap suc (length-AreBuckets bs is h.1)

drop-AreBuckets :
    (n : ℕ) (bs : List Value) (is : List Interval)
    → AreBuckets bs is
    → AreBuckets (drop n bs) (drop n is)
drop-AreBuckets zero bs is h = h
drop-AreBuckets (suc n) [] [] h = tt
drop-AreBuckets (suc n) [] (i ∷ is) h = elim h [ ]
drop-AreBuckets (suc n) (b ∷ bs) [] h = elim h [ ]
drop-AreBuckets (suc n) (b ∷ bs) (i ∷ is) h = drop-AreBuckets n bs is h.1

abbrev written : {S : Type 0} → List String → World S → World S
written ls w = record w { out = w.out ++ ls }

module _ {S : Type 0} where
  report_lem :
      (b : Value) (i : Interval) (w : World S)
      → IsBucket b i
      → report b w ≡ (ok tt, written (line i.0 i.1 ∷ []) w)
  unfolding report field? print
  report_lem (obj fs) (key, count) w (there, named) = rw there (rw named refl)
  report_lem _ (key, count) w h = elim h [ ]

  reports-AreBuckets :
      (bs : List Value) (is : List Interval) (w : World S)
      → AreBuckets bs is
      → reports bs w ≡ (ok tt, written (lines is) w)
  unfolding reports
  reports-AreBuckets [] [] w h = ap (λ o. (ok tt, record w { out = o })) (sym (append-nil w.out))
  reports-AreBuckets [] (i ∷ is) w h = elim h [ ]
  reports-AreBuckets (b ∷ bs) [] w h = elim h [ ]
  reports-AreBuckets (b ∷ bs) (i ∷ is) w h = rw (report_lem b i w h.0) (
      reports-AreBuckets bs is (written (line i.0 i.1 ∷ []) w) h.1
      ∙ ap (λ o. (ok tt, record w { out = o })) (append_assoc w.out (line i.0 i.1 ∷ []) (lines is)))

  show_buckets-AreBuckets :
      (vs : Items) (is : List Interval) (w : World S)
      → AreBuckets (elements vs) is
      → show_buckets (arr vs) w ≡ (
        ok tt,
        written
            (("Total time buckets: " <> show (length is))
              ∷ "Recent 10s intervals:"
              ∷ lines (last_eight is))
            w,
      )
  unfolding show_buckets print
  show_buckets-AreBuckets vs is w h =
      let total : ℕ → String = λ n. "Total time buckets: " <> show n in
      let n : ℕ = length (elements vs) in
      let w' : World S = written ("Recent 10s intervals:" ∷ []) (written (total n ∷ []) w) in
      reports-AreBuckets (last_eight (elements vs)) (drop (n - 8) is) w'
        (drop-AreBuckets (n - 8) (elements vs) is h)
      ∙ ap (λ (o : List String). (ok tt, record w { out = o }))
          (append_assoc (w.out ++ total n ∷ []) ("Recent 10s intervals:" ∷ [])
              (lines (drop (n - 8) is))
            ∙ append_assoc w.out (total n ∷ []) ("Recent 10s intervals:" ∷ lines (drop (n - 8) is)))
      ∙ ap
          (λ (m : ℕ).
            (ok tt, written (total m ∷ "Recent 10s intervals:" ∷ lines (drop (m - 8) is)) w))
          (length-AreBuckets (elements vs) is h)

-- The list of the buckets in an answer.
abbrev and_then : (Value → Option Value) → Option Value → Option Value
and_then f none = none
and_then f (some v) = f v

abbrev pub buckets_of : Value → Option Value
buckets_of res =
    and_then (field? "buckets") (and_then (field? "rate_per_10s") (field? "aggregations" res))

module _ {S : Type 0} where
  pub get_item_lem :
      (k : String) (v x : Value) (w : World S) → field? k v ≡ some x → get_item k v w ≡ (ok x, w)
  unfolding field?
  get_item_lem k (obj fs) x w h = rw h refl
  get_item_lem k _ x w h = cc

  path_lem :
      (res found : Value) (w : World S)
      → buckets_of res ≡ some found
      → (get_item "aggregations" res >>= λ aggs.
            get_item "rate_per_10s" aggs >>= λ rates. get_item "buckets" rates >>= show_buckets)
          w
        ≡ show_buckets found w
  path_lem res found w h = elim (Option-cases (field? "aggregations" res)) [
    | inl missing ↦ cc (rw missing at h)
    | inr (aggs, e1) ↦ elim (Option-cases (field? "rate_per_10s" aggs)) [
      | inl missing ↦ cc (rw missing at (rw e1 at h))
      | inr (rates, e2) ↦ rw (get_item_lem "aggregations" res aggs w e1) (
          rw (get_item_lem "rate_per_10s" aggs rates w e2)
            (rw (get_item_lem "buckets" rates found w (rw e2 at (rw e1 at h))) refl))
    ]
  ]

abbrev pub search : Request
search = search_request "cdc-api-logs-*" query

module _ (V : Server) where
  query_es_lem :
      (status : ℕ) (text : String) (s : V.State) (res : Value) (w : World V.State)
      → V.respond search w.server ≡ (reply status text, s)
      → is_success status ≡ true
      → loads text ≡ some res
      → query_es V "cdc-api-logs-*" query w
        ≡ (ok res, record { server = s; out = w.out; sent = w.sent ++ search ∷ [] })
  unfolding query_es urlopen
  query_es_lem status text s res w answers fine parses = rw answers (rw fine (rw parses refl))

  pub main-reports :
      (status : ℕ) (text : String) (s : V.State) (res : Value) (vs : Items) (is : List Interval)
      (w : World V.State)
      → V.respond search w.server ≡ (reply status text, s)
      → is_success status ≡ true
      → loads text ≡ some res
      → buckets_of res ≡ some (arr vs)
      → AreBuckets (elements vs) is
      → main V w ≡ (
        ok tt,
        record {
          server = s;
          out =
              w.out
              ++ ("Total time buckets: " <> show (length is))
                ∷ "Recent 10s intervals:"
                ∷ lines (last_eight is);
          sent = w.sent ++ search ∷ [];
        },
      )
  unfolding main
  main-reports status text s res vs is w answers fine parses found are =
      rw (query_es_lem status text s res w answers fine parses, query_es)
        (path_lem res (arr vs) (record { server = s; out = w.out; sent = w.sent ++ search ∷ [] })
            found
          ∙ show_buckets-AreBuckets vs is
              (record { server = s; out = w.out; sent = w.sent ++ search ∷ [] }) are)
