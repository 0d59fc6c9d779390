-- ===== src/Consumer/Loop/Loss.antt =====
-- What happens where the dead letter producer takes no letter.
use cdc_pipeline.Base.{
  ◌*◌, ◌<◌, String, ◌≡◌, refl, ◌∙◌, Option, none, some, [], ◌∷◌, ◌++◌, Bool-cases, inl, inr,
}
use cdc_pipeline.Json.{Value, null}
use cdc_pipeline.Consumer.Effects.{Result, done, throws}
use cdc_pipeline.Consumer.Loop.{
  Settings, Delivery, Consumer, Producer, missing, ill_formed, refuses, accepts, commit_routed,
  is_running, read, note, retry, settle, handle_document, handle, route, route_to_dlq,
  unparseable_payload_routing_dlq, retries_exhausted_routing_dlq,
}
use cdc_pipeline.Consumer.Loop.Progress.{Prints, retry-Used, handle_commits}

-- The producer does not exist, or refuses a letter that can be printed.
abbrev pub TakesNone : Producer → Type 0
TakesNone missing = Unit {0}
TakesNone (refuses why) = Unit {0}
TakesNone p = ⊥

TakesNone-Prints : (p : Producer) → TakesNone p → Prints p
TakesNone-Prints missing h = tt
TakesNone-Prints (refuses why) h = tt
TakesNone-Prints (ill_formed why) h = elim h [ ]
TakesNone-Prints accepts h = elim h [ ]

module _ {W : Type 0} (S : Settings) (m : Delivery W) (no_letter : TakesNone m.producer) where
  route-letters :
      (p : Producer) (error : String) (payload : Value) (c : Consumer W)
      → TakesNone p
      → (commit_routed S m (route S p m error payload c)).letters ≡ c.letters
  unfolding route
  route-letters missing error payload c h = refl
  route-letters (refuses why) error payload c h = refl
  route-letters (ill_formed why) error payload c h = elim h [ ]
  route-letters accepts error payload c h = elim h [ ]

  route_to_dlq-letters :
      (error : String) (payload : Value) (c : Consumer W)
      → (commit_routed S m (route_to_dlq S m error payload c)).letters ≡ c.letters
  unfolding route_to_dlq
  route_to_dlq-letters error payload c = route-letters m.producer error payload c no_letter

  settle-letters :
      (document : Value) (r : Result × Consumer W) → (settle S m document r).letters ≡ r.1.letters
  unfolding settle
  settle-letters document (done, c) = refl
  settle-letters document (throws last, c) = elim (Bool-cases (is_running c)) [
    | inl running ↦ rw running (
        route_to_dlq-letters last document
          (note (retries_exhausted_routing_dlq m.offset last) (read c)))
    | inr halted ↦ rw halted refl
  ]

  handle_document-letters :
      (document : Option Value) (c : Consumer W)
      → (handle_document S m document c).letters ≡ c.letters
  unfolding handle_document
  handle_document-letters none c =
      route_to_dlq-letters "Payload deserialization failed" null
        (note (unparseable_payload_routing_dlq m.offset) c)
  handle_document-letters (some document) c =
      let used = retry-Used S m S.max_retries 1 S.initial_backoff_ms "" c in
      settle-letters document (retry S m S.max_retries 1 S.initial_backoff_ms "" c) ∙ used.letters

  -- Where the dead letter producer is missing, or refuses a letter that can be printed, the offset of a message is committed and no
  -- letter is written, whatever its attempts do: also where it cannot be read, or every attempt throws.
  pub handle_loses :
      (c : Consumer W)
      → S.max_retries * 2 < c.reads
      → ((handle S m c).committed ≡ c.committed ++ m.offset ∷ [])
        × ((handle S m c).letters ≡ c.letters)
  unfolding handle
  handle_loses c h = (
    (handle_commits S m c (TakesNone-Prints m.producer no_letter) h).0,
    handle_document-letters m.document c,
  )
