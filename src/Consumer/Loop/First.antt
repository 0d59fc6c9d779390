-- ===== src/Consumer/Loop/First.antt =====
-- A message whose first attempt succeeds.
use mathlib.Core.Path.{subst}
use cdc_pipeline.Base.{suc, ◌-◌, ◌<◌, ◌≡◌, refl, ap, ◌∙◌, true, some, arith}
use cdc_pipeline.Json.{Value}
use cdc_pipeline.Consumer.Effects.{Result, done, throws}
use cdc_pipeline.Consumer.Loop.{
  Settings, Delivery, Consumer, is_running, record_processed, retry, settle, handle_document,
  handle, commit_sync,
}
use cdc_pipeline.Consumer.Loop.Attempts.{retry_done, tried}

module _ {W : Type 0} (S : Settings) (m : Delivery W) (c : Consumer W) where
  settle_done :
      (document : Value) (r : Result × Consumer W)
      → r.0 ≡ done
      → settle S m document r ≡ commit_sync m r.1
  unfolding settle
  settle_done document (done, d) h = refl
  settle_done document (throws why, d) h = cc

  -- The consumer after the commit.
  abbrev pub committed : Consumer W
  committed = commit_sync m (tried (record_processed m.offset) (m.attempt 1 c.sink).1 c)

  handle_document_first :
      (document : Value)
      → (m.attempt 1 c.sink).0 ≡ done
      → 0 < S.max_retries
      → 0 < c.reads
      → handle_document S m (some document) c ≡ committed
  unfolding handle_document
  handle_document_first document ok tries reads =
      let n : suc (S.max_retries - 1) ≡ S.max_retries = omega arith in
      let running : is_running c ≡ true = ground arith in
      let e =
        subst
          (λ t.
            retry S m t 1 S.initial_backoff_ms "" c
            ≡ (done, tried (record_processed m.offset) (m.attempt 1 c.sink).1 c))
          n (retry_done S m 1 S.initial_backoff_ms "" c (S.max_retries - 1) running ok) in
      settle_done document (retry S m S.max_retries 1 S.initial_backoff_ms "" c) (ap (λ r. r.0) e)
      ∙ ap (λ r. commit_sync m r.1) e

  pub handle_first :
      (document : Value)
      → m.document ≡ some document
      → (m.attempt 1 c.sink).0 ≡ done
      → 0 < S.max_retries
      → 0 < c.reads
      → handle S m c ≡ committed
  unfolding handle
  handle_first document there ok tries reads =
      ap (λ d. handle_document S m d c) there ∙ handle_document_first document ok tries reads
