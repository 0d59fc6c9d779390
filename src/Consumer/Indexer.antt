-- ===== src/Consumer/Indexer.antt =====
-- `ESIndexer::ProcessRecord` of consumers/src/es_indexer.cpp.
pub mod Reliable
mod Tests
use cdc_pipeline.Base.{ℕ, String, ◌<>◌, Bool, true, false, List, [], ◌∷◌, ◌++◌, ◌==◌, if◌then◌else◌}
use cdc_pipeline.Base.Text.{show}
use cdc_pipeline.Json.{Value}
use cdc_pipeline.Http.{is_success}
use cdc_pipeline.Consumer.Change.{Nlohmann, Change, upsert, remove, skip_no_id, ignore, change}
use cdc_pipeline.Consumer.Effects.{
  Result, done, throws, Log, es_indexed, es_deleted, es_indexer_skip_no_id,
}

-- `cpr::Response`: the status, which is 0 where no answer came in time, the error's message, the text.
pub record Response : Type 0 where
  pub status_code : ℕ
  pub error : String
  pub text : String

-- Elasticsearch, which is not part of the repository: any state, and what PUT and DELETE do.
pub record Elastic : Type 1 where
  pub State : Type 0
  pub put : String → String → State → Response × State
  pub delete : String → State → Response × State

pub record Index (S : Type 0) : Type 0 where
  pub elastic : S
  pub log : List Log

module _ {S : Type 0} where
  abbrev pub write_log : Log → Index S → Index S
  write_log l w = record w { log = w.log ++ l ∷ [] }

  -- What follows the PUT.
  pub report_put : String → Response × Index S → Result × Index S
  report_put id (r, w) =
      if is_success r.status_code then (done, write_log (es_indexed id r.status_code) w) else (
        throws (
            "Elasticsearch indexing failed: status "
            <> (show r.status_code <> (", error: " <> (r.error <> (", response: " <> r.text))))),
        w,
      )

  -- What follows the DELETE: 404 is no error.
  pub report_delete : String → Response × Index S → Result × Index S
  report_delete id (r, w) =
      if is_success r.status_code
      then (done, write_log (es_deleted id r.status_code) w)
      else if r.status_code == 404
      then (done, w)
      else (
        throws (
            "Elasticsearch delete failed: status "
            <> (show r.status_code <> (", error: " <> r.error))),
        w,
      )

module _ (J : Nlohmann) (E : Elastic) (es_url : String) where
  abbrev pub doc_url : String → String
  doc_url id = es_url <> ("/orders/_doc/" <> id)

  abbrev pub put : String → Value → Index E.State → Response × Index E.State
  put id data_ w =
      let (r, s) = E.put (doc_url id) (J.dump data_) w.elastic in (r, record w { elastic = s })

  abbrev pub delete : String → Index E.State → Response × Index E.State
  delete id w = let (r, s) = E.delete (doc_url id) w.elastic in (r, record w { elastic = s })

  pub perform : Change → Index E.State → Result × Index E.State
  unfolding report_put report_delete
  perform (upsert id data_) w = report_put id (put id data_ w)
  perform (remove id) w = report_delete id (delete id w)
  perform skip_no_id w = (done, write_log es_indexer_skip_no_id w)
  perform ignore w = (done, w)

  -- The first argument is the place of what varies between attempts; here all of it is in the state of
  -- Elasticsearch.
  unfoldable pub process_record : Unit {0} → Value → String → Index E.State → Result × Index E.State
  unfolding perform change
  process_record _ record_ key w = perform (change J record_ key) w
