-- ===== src/Views/Runs.antt =====
-- Runs of scripts/setup_kibana.py.
use mathlib.Core.List.{append_assoc, append-nil}
use cdc_pipeline.Base.{
  ℕ, suc, ◌<◌, String, ◌≡◌, refl, sym, ◌∙◌, ◌⊎◌, inl, inr, List, [], ◌∷◌, ◌++◌, map, arith, length,
  length-append, take, ◌+◌, Bool-cases,
}
use cdc_pipeline.Exec.{url_error, Outcome, ok, raised, continue, rescue}
use cdc_pipeline.Http.{Reply, reply, unreachable, Server, World, print, is_success, classify}
use cdc_pipeline.Views.{
  View, view_request, is_present, created_line, handle, create_data_view, create_all, heading,
  views, main,
}

-- What a call does once the server has answered.
answered : {S : Type 0} → View → Reply → World S → Outcome (Unit {0}) × World S
unfolding print
answered v r w =
    rescue (handle v) (continue (λ resp. print (created_line v resp.status)) (classify r w))

-- A call is over, or could not reach the server.
abbrev CallEnds : {S : Type 0} → World S → Outcome (Unit {0}) × World S → Type 0
CallEnds w r =
    (r.1.sent ≡ w.sent)
    × (((r.0 ≡ ok tt) × (length r.1.out ≡ length w.out + 1))
        ⊎ ((why : String) × (r.0 ≡ raised (url_error why))))

answered-CallEnds : {S : Type 0} (v : View) (r : Reply) (w : World S) → CallEnds w (answered v r w)
unfolding answered
answered-CallEnds v (unreachable why) w = (refl, inr (why, refl))
answered-CallEnds v (reply code text) w = elim (Bool-cases (is_success code)) [
  | inl good ↦ rw good (refl, inl (refl, length-append w.out _))
  | inr bad ↦ rw bad (elim (Bool-cases (is_present code text)) [
    | inl here ↦ rw here (refl, inl (refl, length-append w.out _))
    | inr other ↦ rw other (refl, inl (refl, length-append w.out _))
  ])
]

module _ (V : Server) where
  create_data_view_lem :
      (v : View) (w : World V.State)
      → create_data_view V v w
        ≡ answered v (V.respond (view_request v) w.server).0 (record w {
          server = (V.respond (view_request v) w.server).1;
          sent = w.sent ++ view_request v ∷ [];
        })
  unfolding create_data_view answered
  create_data_view_lem v w = refl

  -- The calls for the views end by themselves, or by the call that could not reach the server.
  abbrev pub Ends : List View → World V.State → Outcome (Unit {0}) × World V.State → Type 0
  Ends vs w r =
      ((r.0 ≡ ok tt)
        × (r.1.sent ≡ w.sent ++ map view_request vs)
        × (length r.1.out ≡ length w.out + length vs))
      ⊎ ((n : ℕ) × (why : String) × (n < length vs)
          × (r.0 ≡ raised (url_error why))
          × (r.1.sent ≡ w.sent ++ map view_request (take (suc n) vs)))

  Ends-cons :
      (v : View) (vs : List View) (w : World V.State) (r : Outcome (Unit {0}) × World V.State)
      → r.1.sent ≡ w.sent ++ view_request v ∷ []
      → ((r.0 ≡ ok tt) × (length r.1.out ≡ length w.out + 1))
        ⊎ ((why : String) × (r.0 ≡ raised (url_error why)))
      → Ends vs r.1 (create_all V vs r.1)
      → Ends (v ∷ vs) w (continue (λ _. create_all V vs) r)
  Ends-cons v vs w (raised e, w') s (inl (c, len)) rest = cc
  Ends-cons v vs w (raised e, w') s (inr (why, c)) rest = inr (0, why, omega arith, c, s)
  Ends-cons v vs w (ok tt, w') s (inr (why, c)) rest = cc
  Ends-cons v vs w (ok tt, w') s (inl (c, len)) (inl (done, sent, lines)) =
      inl (done, sent ∙ rw (s, append_assoc) refl, omega arith)
  Ends-cons v vs w (ok tt, w') s (inl (c, len)) (inr (n, why, lt, e, sent)) =
      inr (suc n, why, omega arith, e, sent ∙ rw (s, append_assoc) refl)

  create_all-Ends : (vs : List View) (w : World V.State) → Ends vs w (create_all V vs w)
  unfolding create_all
  create_all-Ends [] w = inl (refl, sym (append-nil w.sent), omega arith)
  create_all-Ends (v ∷ vs) w =
      let (sent, ends) = rw (← create_data_view_lem) at (
        answered-CallEnds v (V.respond (view_request v) w.server).0 (record w {
          server = (V.respond (view_request v) w.server).1;
          sent = w.sent ++ view_request v ∷ [];
        })) in
      Ends-cons v vs w (create_data_view V v w) sent ends
        (create_all-Ends vs (create_data_view V v w).1)

module _ (V : Server) (w : World V.State) where
  abbrev headed : World V.State
  headed = record w { out = w.out ++ heading ∷ [] }

  -- Whatever statuses the server answers with, 409 or 500, the run goes on: it returns after the four
  -- requests, with a line for each below the heading, unless the server could not be reached; then
  -- the request that found no server was the last.
  pub main-Ends : Ends V views headed (main V w)
  unfolding main
  main-Ends = create_all-Ends V views headed
