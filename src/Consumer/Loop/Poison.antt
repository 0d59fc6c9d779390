-- ===== src/Consumer/Loop/Poison.antt =====
-- A message that cannot be read, and whose dead letter cannot be printed.
use mathlib.Core.Path.{subst}
use cdc_pipeline.Base.{
  ◌*◌, ◌≤◌, String, ◌≡◌, refl, sym, ap, ◌∙◌, true, none, some, List, ◌∷◌, ◌++◌, length, All, arith,
}
use cdc_pipeline.Consumer.Loop.{
  Settings, Delivery, Consumer, ill_formed, is_running, read, handle_document, handle, route,
  route_to_dlq, Poll, message, receive, rounds, run,
}
use cdc_pipeline.Consumer.Loop.Progress.{offsets, reads_per_round, PollPrints, rounds_go_on}

module _ {W : Type 0} (S : Settings) (m : Delivery W) (why : String) where
  -- The exception has left `Run()`, and the offset was not committed.
  abbrev Crashed : Consumer W → Consumer W → Type 0
  Crashed c d = (d.crashed ≡ some why) × (d.committed ≡ c.committed) × (d.letters ≡ c.letters)

  handle_document-Crashed :
      (c : Consumer W) → m.producer ≡ ill_formed why → Crashed c (handle_document S m none c)
  unfolding handle_document route_to_dlq route
  handle_document-Crashed c bad = rw bad (refl, refl, refl)

  handle-Crashed :
      (c : Consumer W) → m.document ≡ none → m.producer ≡ ill_formed why → Crashed c (handle S m c)
  unfolding handle
  handle-Crashed c unread bad =
      subst (λ d. Crashed c (handle_document S m d c)) (sym unread) (handle_document-Crashed c bad)

  rounds-Crashed :
      (qs : List (Poll W)) (c : Consumer W)
      → m.document ≡ none
      → m.producer ≡ ill_formed why
      → is_running c ≡ true
      → Crashed c (rounds S (message m ∷ qs) c)
  unfolding rounds receive
  rounds-Crashed qs c unread bad running =
      let (thrown, kept, letters) = handle-Crashed (read c) unread bad in
      rw (running, rounds) (rw thrown (thrown, kept, letters))

  -- Such a message ends `Run()`: the offsets of the messages before it are committed, its own and those
  -- of the messages behind it are not. A consumer that is started anew and meets it again ends again.
  pub run_crashes :
      (ps qs : List (Poll W)) (c : Consumer W)
      → All PollPrints ps
      → m.document ≡ none
      → m.producer ≡ ill_formed why
      → length (message m ∷ ps) * reads_per_round S ≤ c.reads
      → ((run S (ps ++ message m ∷ qs) c).crashed ≡ some why)
        × ((run S (ps ++ message m ∷ qs) c).committed ≡ c.committed ++ offsets ps)
  unfolding run
  run_crashes ps qs c prints unread bad h =
      let (d, same, commits, left, quiet) =
        rounds_go_on S ps (message m ∷ qs) (record c { crashed = none }) refl prints
          (omega arith) in
      let running : is_running d ≡ true = ground (arith, left) in
      let (thrown, kept, letters) = rounds-Crashed qs d unread bad running in
      (
        ap (λ (e : Consumer W). e.crashed) same ∙ thrown,
        ap (λ (e : Consumer W). e.committed) same ∙ (kept ∙ commits),
      )
