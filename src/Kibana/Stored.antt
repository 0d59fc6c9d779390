-- ===== src/Kibana/Stored.antt =====
-- What a run of calls has stored when it returns, and what it leaves alone when it raises.
use cdc_pipeline.Base.{ℕ, String, ◌≡◌, refl, ◌≢◌, sym, ap, ◌∙◌, some, List, [], ◌∷◌, All}
use cdc_pipeline.Exec.{http_error, Outcome, ok, raised, Exec, continue}
use cdc_pipeline.Http.{Server, World}
use cdc_pipeline.Kibana.{SavedObject, create_saved_object}
use cdc_pipeline.Kibana.Deploy.{
  IsKibana, url_of, body_of, Distinct, deploy, deploy_rule, create_saved_object_ok,
  create_saved_object_http_error, server-create_saved_object,
}

module _ (V : Server) (K : IsKibana V) where
  abbrev pub Holds : V.State → SavedObject → Type 0
  Holds s o = K.stored s (url_of o) ≡ some (body_of o)

  module _ (k : Exec (World V.State) (Unit {0}))
      (quiet : (w : World V.State) → (k w).1.server ≡ w.server) where
    stored-deploy_ne :
        (j : String) (os : List SavedObject)
        → All (λ o. url_of o ≢ j) os
        → (w : World V.State) → K.stored (deploy V os k w).1.server j ≡ K.stored w.server j
    stored-deploy_ne j os ne w =
        deploy_rule V K k j (K.stored w.server j) (λ r. K.stored r.1.server j ≡ K.stored w.server j)
          (λ v h. rw (quiet v) h) (λ e v h. h) os ne w refl

    -- What the call for `o` stored is there after the calls that follow.
    Holds-deploy :
        (o : SavedObject) (os : List SavedObject) (w : World V.State)
        → All (λ p. url_of p ≢ url_of o) os
        → (create_saved_object V o w).0 ≡ ok tt
        → Holds (deploy V os k (create_saved_object V o w).1).1.server o
    Holds-deploy o os w ne c =
        let (status, text, answered, success) = create_saved_object_ok V o w c in
        rw (stored-deploy_ne (url_of o) os ne, server-create_saved_object)
          (K.saved o w.server status text answered success)

    -- Calls that all return have stored every object, if no two have one URL.
    pub deploy-Holds :
        (os : List SavedObject)
        → Distinct os
        → (w : World V.State) → (deploy V os k w).0 ≡ ok tt
        → All (Holds (deploy V os k w).1.server) os
    deploy-Holds [] d w h = tt
    deploy-Holds (o ∷ os) d w h =
        after (create_saved_object V o w) h (Holds-deploy o os w d.0)
          (deploy-Holds os d.1 (create_saved_object V o w).1)
      where
        after :
            (r : Outcome (Unit {0}) × World V.State)
            → (continue (λ _. deploy V os k) r).0 ≡ ok tt
            → (r.0 ≡ ok tt → Holds (deploy V os k r.1).1.server o)
            → ((deploy V os k r.1).0 ≡ ok tt → All (Holds (deploy V os k r.1).1.server) os)
            → All (Holds (continue (λ _. deploy V os k) r).1.server) (o ∷ os)
        after (ok tt, w') h' first rest = (first refl, rest h')
        after (raised e, w') h' first rest = cc

  -- A run that an HTTP error ends has not changed the object of its last call.
  pub deploy_refused :
      (os : List SavedObject) (last : SavedObject) (k : Exec (World V.State) (Unit {0}))
      → ((w : World V.State) → (k w).0 ≡ ok tt)
      → All (λ o. url_of o ≢ url_of last) os
      → (w : World V.State) (status : ℕ) (text : String)
      → (deploy V os (deploy V (last ∷ []) k) w).0 ≡ raised (http_error status text)
      → K.stored (deploy V os (deploy V (last ∷ []) k) w).1.server (url_of last)
        ≡ K.stored w.server (url_of last)
  deploy_refused os last k returns ne w status text =
      deploy_rule V K (deploy V (last ∷ []) k) (url_of last) (K.stored w.server (url_of last))
        (λ r.
          r.0 ≡ raised (http_error status text)
          → K.stored r.1.server (url_of last) ≡ K.stored w.server (url_of last))
        (λ v h. after v h (create_saved_object V last v) refl) (λ e v h _. h) os ne w refl
    where
      after :
          (v : World V.State)
          → K.stored v.server (url_of last) ≡ K.stored w.server (url_of last)
          → (r : Outcome (Unit {0}) × World V.State) → create_saved_object V last v ≡ r
          → (continue (λ _. k) r).0 ≡ raised (http_error status text)
          → K.stored (continue (λ _. k) r).1.server (url_of last) ≡ K.stored w.server (url_of last)
      after v h (ok tt, v') c e = cc (returns v')
      after v h (raised x, v') c e =
          let (answered, failure) =
            create_saved_object_http_error V last v status text (ap (λ r. r.0) c ∙ e) in
          rw
            (
              ap (λ (r : Outcome (Unit {0}) × World V.State). r.1.server) (sym c),
              server-create_saved_object,
            )
            (K.refused last v.server status text answered failure ∙ h)
