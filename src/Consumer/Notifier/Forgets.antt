-- ===== src/Consumer/Notifier/Forgets.antt =====
-- A reply that is lost after the idempotency key was set.
use cdc_pipeline.Base.{String, ◌≡◌, refl, true, none, [], ◌∷◌, ◌++◌, str_eq_refl}
use cdc_pipeline.Consumer.Change.{Nlohmann}
use cdc_pipeline.Consumer.Redis.{update}
use cdc_pipeline.Consumer.Effects.{
  done, has_thrown, email_notification_skipped_duplicate, up, silent, Sink, command,
}
use cdc_pipeline.Consumer.Notifier.{idempotency_key, set_nx, dispatch, notify}

module _ (J : Nlohmann) (id status : String) where
  -- Redis runs the `SET NX` of a fresh key and its reply is lost: the attempt throws, the next one takes
  -- the key for a mail that was sent, returns, and no mail was sent.
  pub notify_forgets :
      (customer : String) (w : Sink)
      → w.keys (idempotency_key id status) ≡ none
      → (let (r, w1) = notify J (silent true) customer id status w in
          let (r2, w2) = notify J up customer id status w1 in
          (has_thrown r ≡ true)
          × (r2 ≡ done)
          × (w2.log ≡ w.log ++ email_notification_skipped_duplicate id status ∷ []))
  unfolding notify dispatch command set_nx update
  notify_forgets customer w fresh =
      rw (fresh, set_nx)
        (
          refl,
          rw (str_eq_refl (idempotency_key id status)) refl,
          rw (str_eq_refl (idempotency_key id status)) refl,
        )
