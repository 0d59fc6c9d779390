-- ===== src/Kibana/Decoded.antt =====
-- What a Kibana that parses the bodies gets from `create_saved_object`.
use cdc_pipeline.Base.{◌≡◌, refl, Option, none, some, [], ◌∷◌, ◌++◌, arith}
use cdc_pipeline.Json.{Value, arr, Items, nil, ◌▹◌, field?}
use cdc_pipeline.Json.Parse.{loads}
use cdc_pipeline.Json.Print.Loads.{loads-dumps}
use cdc_pipeline.Http.{Request, Server, World, urlopen, print}
use cdc_pipeline.Kibana.{SavedObject, payload, object_request, create_saved_object}

-- The references of a body: none where the list is empty or missing.
abbrev references_of : Option Items → Option Value
references_of none = none
references_of (some nil) = none
references_of (some (r ▹ rs)) = some (arr (r ▹ rs))

-- One request more, whose body is a text of an object with the attributes and the references.
abbrev pub Sends : {S : Type 0} → SavedObject → World S → World S → Type 0
Sends o w w' =
    (r : Request) × (body : Value) × (w'.sent ≡ w.sent ++ r ∷ [])
    × (loads r.body ≡ some body)
    × (field? "attributes" body ≡ some o.attributes)
    × (field? "references" body ≡ references_of o.references)

payload_attributes : (a : Value) (rs : Option Items) → field? "attributes" (payload a rs) ≡ some a
unfolding payload field?
payload_attributes a none = refl
payload_attributes a (some nil) = refl
payload_attributes a (some (r ▹ rs)) = refl

payload_references :
    (a : Value) (rs : Option Items) → field? "references" (payload a rs) ≡ references_of rs
unfolding payload field?
payload_references a none = refl
payload_references a (some nil) = refl
payload_references a (some (r ▹ rs)) = refl

module _ (V : Server) where
  sent_lem :
      (o : SavedObject) (w : World V.State)
      → (create_saved_object V o w).1.sent ≡ w.sent ++ object_request o ∷ []
  unfolding create_saved_object urlopen print
  sent_lem o w = ground arith

  -- Whatever the server answers.
  pub create_saved_object-Sends :
      (o : SavedObject) (w : World V.State) → Sends o w (create_saved_object V o w).1
  unfolding object_request
  create_saved_object-Sends o w = (
    object_request o,
    payload o.attributes o.references,
    sent_lem o w,
    loads-dumps (payload o.attributes o.references),
    payload_attributes o.attributes o.references,
    payload_references o.attributes o.references,
  )
