-- ===== src/Kibana/Deploy.antt =====
-- Calls of `create_saved_object` one after another, and what they leave behind.
use mathlib.Core.List.{append_assoc, append-nil}
use cdc_pipeline.Base.{
  ℕ, zero, suc, ◌<◌, String, ◌≡◌, refl, ◌∙◌, sym, ◌≢◌, ◌⊎◌, inl, inr, Bool, true, false, not, ◌&&◌,
  Option, some, List, [], ◌∷◌, ◌++◌, arith, str_eq, str_eq_iff, All, all, length, &&-true,
}
use cdc_pipeline.Exec.{Exn, http_error, Outcome, ok, raised, Exec, continue, ◌>>◌}
use cdc_pipeline.Http.{Request, reply, Server, World, is_success}
use cdc_pipeline.Kibana.{SavedObject, object_request, create_saved_object}

abbrev pub url_of : SavedObject → String
url_of o = (object_request o).url

abbrev pub body_of : SavedObject → String
body_of o = (object_request o).body

-- What the script relies on of Kibana's saved objects API: a POST with `overwrite=true` that is
-- answered by success has stored its body under its URL, one answered by an error has stored
-- nothing, and none touches an object with another URL.
pub record IsKibana (V : Server) : Type 0 where
  pub stored : V.State → String → Option String
  pub saved :
      (o : SavedObject) (s : V.State) (status : ℕ) (text : String)
      → (V.respond (object_request o) s).0 ≡ reply status text
      → is_success status ≡ true
      → stored (V.respond (object_request o) s).1 (url_of o) ≡ some (body_of o)
  pub refused :
      (o : SavedObject) (s : V.State) (status : ℕ) (text : String)
      → (V.respond (object_request o) s).0 ≡ reply status text
      → is_success status ≡ false
      → stored (V.respond (object_request o) s).1 (url_of o) ≡ stored s (url_of o)
  pub others :
      (o : SavedObject) (s : V.State) (j : String)
      → url_of o ≢ j
      → stored (V.respond (object_request o) s).1 j ≡ stored s j

-- The requests for the first `n` objects.
abbrev pub requests : ℕ → List SavedObject → List Request
requests zero os = []
requests (suc n) [] = []
requests (suc n) (o ∷ os) = object_request o ∷ requests n os

-- No two objects have one URL.
abbrev pub Distinct : List SavedObject → Type 0
Distinct [] = Unit
Distinct (o ∷ os) = All (λ p. url_of p ≢ url_of o) os × Distinct os

abbrev pub differ : String → List SavedObject → Bool
differ j = all (λ p. not (str_eq (url_of p) j))

abbrev pub distinct : List SavedObject → Bool
distinct [] = true
distinct (o ∷ os) = differ (url_of o) os && distinct os

pub differ_sound :
    (j : String) (os : List SavedObject) → differ j os ≡ true → All (λ p. url_of p ≢ j) os
differ_sound j [] h = tt
differ_sound j (o ∷ os) h =
    let (a, b) = &&-true (not (str_eq (url_of o) j)) (differ j os) h in
    (ground (arith, str_eq_iff (url_of o) j), differ_sound j os b)

pub distinct_sound : (os : List SavedObject) → distinct os ≡ true → Distinct os
distinct_sound [] h = tt
distinct_sound (o ∷ os) h =
    let (a, b) = &&-true (differ (url_of o) os) (distinct os) h in
    (differ_sound (url_of o) os a, distinct_sound os b)

module _ (V : Server) where
  -- The calls, and then `k`.
  abbrev pub deploy :
      List SavedObject → Exec (World V.State) (Unit {0}) → Exec (World V.State) (Unit {0})
  deploy [] k = k
  deploy (o ∷ os) k = create_saved_object V o >> deploy os k

  -- A call makes its one request, whatever the answer.
  pub sent-create_saved_object :
      (o : SavedObject) (w : World V.State)
      → (create_saved_object V o w).1.sent ≡ w.sent ++ object_request o ∷ []
  unfolding create_saved_object
  sent-create_saved_object o w = ground arith

  pub server-create_saved_object :
      (o : SavedObject) (w : World V.State)
      → (create_saved_object V o w).1.server ≡ (V.respond (object_request o) w.server).1
  unfolding create_saved_object
  server-create_saved_object o w = ground arith

  pub create_saved_object_ok :
      (o : SavedObject) (w : World V.State)
      → (create_saved_object V o w).0 ≡ ok tt
      → (status : ℕ) × (text : String) × ((V.respond (object_request o) w.server).0
          ≡ reply status text)
        × (is_success status ≡ true)
  unfolding create_saved_object
  create_saved_object_ok o w h = ground arith

  pub create_saved_object_http_error :
      (o : SavedObject) (w : World V.State) (status : ℕ) (text : String)
      → (create_saved_object V o w).0 ≡ raised (http_error status text)
      → ((V.respond (object_request o) w.server).0 ≡ reply status text)
        × (is_success status ≡ false)
  unfolding create_saved_object
  create_saved_object_http_error o w status text h = ground arith

  -- Either all calls return and `k` runs, or the first that raises was the last to be made.
  abbrev pub Stops : List SavedObject → Exec (World V.State) (Unit {0}) → World V.State → Type 0
  Stops os k w =
      ((n : ℕ) × (e : Exn) × (w' : World V.State) × (n < length os)
        × (deploy os k w ≡ (raised e, w'))
        × (w'.sent ≡ w.sent ++ requests (suc n) os))
      ⊎ ((w' : World V.State) × (deploy os k w ≡ k w')
          × (w'.sent ≡ w.sent ++ requests (length os) os))

  deploy_step :
      (o : SavedObject) (os : List SavedObject) (k : Exec (World V.State) (Unit {0}))
      (w : World V.State) (r : Outcome (Unit {0}) × World V.State)
      → create_saved_object V o w ≡ r
      → r.1.sent ≡ w.sent ++ object_request o ∷ []
      → Stops os k r.1
      → Stops (o ∷ os) k w
  deploy_step o os k w (raised e, w') c s rest = inl (0, e, w', omega arith, rw c refl, s)
  deploy_step o os k w (ok tt, w') c s (inl (n, e, w'', lt, run, sent)) =
      inl (suc n, e, w'', omega arith, rw c run, sent ∙ rw (s, append_assoc) refl)
  deploy_step o os k w (ok tt, w') c s (inr (w'', run, sent)) =
      inr (w'', rw c run, sent ∙ rw (s, append_assoc) refl)

  pub deploy-Stops :
      (os : List SavedObject) (k : Exec (World V.State) (Unit {0})) (w : World V.State)
      → Stops os k w
  deploy-Stops [] k w = inr (w, refl, sym (append-nil w.sent))
  deploy-Stops (o ∷ os) k w =
      deploy_step o os k w (create_saved_object V o w) refl (sent-create_saved_object o w)
        (deploy-Stops os k (create_saved_object V o w).1)

module _ (V : Server) (K : IsKibana V) (k : Exec (World V.State) (Unit {0})) where
  -- An object whose URL no call has is as it was when `k` runs, or when a call raises.
  pub deploy_rule :
      (j : String) (m : Option String) (Q : Outcome (Unit {0}) × World V.State → Type 0)
      → ((w : World V.State) → K.stored w.server j ≡ m → Q (k w))
      → ((e : Exn) (w : World V.State) → K.stored w.server j ≡ m → Q (raised e, w))
      → (os : List SavedObject) → All (λ o. url_of o ≢ j) os
      → (w : World V.State) → K.stored w.server j ≡ m
      → Q (deploy V os k w)
  deploy_rule j m Q last stop [] ne w h = last w h
  deploy_rule j m Q last stop (o ∷ os) ne w h =
      after (create_saved_object V o w)
        (rw server-create_saved_object (K.others o w.server j ne.0 ∙ h))
        (deploy_rule j m Q last stop os ne.1)
    where
      after :
          (r : Outcome (Unit {0}) × World V.State)
          → K.stored r.1.server j ≡ m
          → ((w : World V.State) → K.stored w.server j ≡ m → Q (deploy V os k w))
          → Q (continue (λ _. deploy V os k) r)
      after (ok tt, w') h' ih = ih w' h'
      after (raised e, w') h' ih = stop e w' h'
