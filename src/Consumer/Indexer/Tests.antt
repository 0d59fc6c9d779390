-- ===== src/Consumer/Indexer/Tests.antt =====
-- The indexer over an Elasticsearch that loses its first answers.
use cdc_pipeline.Base.{ℕ, zero, suc, String, ◌≡◌, refl, inl, none, some, List, [], ◌∷◌, arith}
use cdc_pipeline.Json.{str, obj, end, ◌⦂◌⨾◌}
use cdc_pipeline.Json.Print.{dumps}
use cdc_pipeline.Consumer.Change.{Nlohmann}
use cdc_pipeline.Consumer.Redis.{Keys, update}
use cdc_pipeline.Consumer.Loop.{Settings, settings, Consumer, accepts, handle, run}
use cdc_pipeline.Consumer.Loop.Refines.{effects}
use cdc_pipeline.Consumer.Inbox.{Message, polls}
use cdc_pipeline.Consumer.Indexer.{Response, Elastic, Index, process_record}
use cdc_pipeline.Consumer.Indexer.Reliable.{IsElastic, effect, documents, run_indexes}

record Store : Type 0 where
  losses : ℕ
  docs : Keys

abbrev lost : Response
lost = record { status_code = 0; error = "timed out"; text = "" }

abbrev fine : Response
fine = record { status_code = 200; error = ""; text = "{}" }

-- The request is carried out, and the answer is lost or comes.
abbrev carry_out : Keys → Store → Response × Store
carry_out docs s = elim s.losses [
  | zero ↦ (fine, record { losses = zero; docs = docs })
  | suc n ↦ (lost, record { losses = n; docs = docs })
]

abbrev elastic : Elastic
elastic = record {
  State = Store;
  put = λ url body s. carry_out (update s.docs url (some body)) s;
  delete = λ url s. carry_out (update s.docs url none) s;
}

carry_out-docs : (docs : Keys) (s : Store) → (carry_out docs s).1.docs ≡ docs
carry_out-docs docs s = ground arith

abbrev elastic-IsElastic : IsElastic elastic
elastic-IsElastic = record {
  documents = λ s. s.docs;
  put_ok = λ url body s h. carry_out-docs (update s.docs url (some body)) s;
  put_failed = λ url body s. inl (carry_out-docs (update s.docs url (some body)) s);
  delete_ok = λ url s h. carry_out-docs (update s.docs url none) s;
  delete_failed = λ url s. inl (carry_out-docs (update s.docs url none) s);
}

abbrev json : Nlohmann
json = record { dump = dumps; value_error = λ v k. "" }

abbrev order : ℕ → String → Message (Unit {0})
order offset status = record {
  offset = offset;
  raw = "";
  key = "1";
  document = some (obj ("after" ⦂ obj ("status" ⦂ str status ⨾ end) ⨾ end));
  links = λ n. tt;
  producer = accepts;
}

abbrev orders : List (Message (Unit {0}))
orders = order 1 "PLACED" ∷ order 2 "SHIPPED" ∷ []

abbrev S : Settings
S = settings "ESIndexer" "dbserver1.public.orders"

abbrev started : Consumer (Index Store)
started = record {
  sink = record { elastic = record { losses = 2; docs = λ k. none }; log = [] };
  reads = 24;
  committed = [];
  letters = [];
  slept = [];
  events = [];
  crashed = none;
}

abbrev after_run : Consumer (Index Store)
after_run = run S (polls (process_record json elastic "http://es:9200") orders) started

no_letters : after_run.letters ≡ []
unfolding run handle process_record
no_letters = refl

run_indexes_example :
    documents json elastic "http://es:9200" elastic-IsElastic after_run.sink
    ≡ effects (effect json elastic "http://es:9200" elastic-IsElastic) orders (λ k. none)
run_indexes_example =
    run_indexes json elastic "http://es:9200" elastic-IsElastic S orders started (refl, (refl, tt))
      (omega arith) no_letters
