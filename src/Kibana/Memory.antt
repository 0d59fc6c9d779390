-- ===== src/Kibana/Memory.antt =====
-- A Kibana in memory that serves a number of requests and then fails.
use cdc_pipeline.Base.{
  ℕ, zero, suc, String, ◌≡◌, ◌≢◌, true, false, Option, none, some, [], arith, str_eq, str_eq_iff,
  if◌then◌else◌,
}
use cdc_pipeline.Http.{Request, Reply, reply, is_success, Server, World}
use cdc_pipeline.Kibana.{object_request}
use cdc_pipeline.Kibana.Deploy.{IsKibana}

pub record Memory : Type 0 where
  pub left : ℕ
  pub saved : String → Option String

unfoldable pub serve : Request → ℕ → Memory → Reply × Memory
serve q zero m = (reply 503 "unavailable", m)
serve q (suc n) m = (
  reply 200 "{}",
  record { left = n; saved = λ j. if str_eq q.url j then some q.body else m.saved j },
)

abbrev pub memory : Server
memory = record { State = Memory; respond = λ q m. serve q m.left m }

module _ (q : Request) (n : ℕ) (m : Memory) where
  pub serve_saved :
      (status : ℕ) (text : String)
      → (serve q n m).0 ≡ reply status text
      → is_success status ≡ true
      → (serve q n m).1.saved q.url ≡ some q.body
  unfolding serve
  serve_saved status text a h = ground (arith, str_eq_iff q.url q.url)

  pub serve_refused :
      (status : ℕ) (text : String)
      → (serve q n m).0 ≡ reply status text
      → is_success status ≡ false
      → (serve q n m).1.saved q.url ≡ m.saved q.url
  unfolding serve
  serve_refused status text a h = ground arith

  pub serve_others : (j : String) → q.url ≢ j → (serve q n m).1.saved j ≡ m.saved j
  unfolding serve
  serve_others j ne = ground (arith, str_eq_iff q.url j)

abbrev pub memory-IsKibana : IsKibana memory
memory-IsKibana = record {
  stored = λ m. m.saved;
  saved = λ o m. serve_saved (object_request o) m.left m;
  refused = λ o m. serve_refused (object_request o) m.left m;
  others = λ o m. serve_others (object_request o) m.left m;
}

abbrev pub fresh : ℕ → World Memory
fresh n = record { server = record { left = n; saved = λ j. none }; out = []; sent = [] }
