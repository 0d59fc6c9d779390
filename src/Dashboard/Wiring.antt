-- ===== src/Dashboard/Wiring.antt =====
-- Which object a panel shows: its `panelRefName` is the name of a reference, which has the object's
-- type and id.
use cdc_pipeline.Base.{
  String, ◌≡◌, refl, Bool, Option, none, some, List, [], ◌∷◌, map, str_eq, if◌then◌else◌,
}
use cdc_pipeline.Json.{Value, str, field?, elements}
use cdc_pipeline.Kibana.{object_url, object_request}
use cdc_pipeline.Kibana.Deploy.{url_of}
use cdc_pipeline.Dashboard.Panels.{panels}
use cdc_pipeline.Dashboard.References.{references}
use cdc_pipeline.Dashboard.Main.{visualizations}

abbrev pub text? : Option Value → Option String
text? (some (str s)) = some s
text? _ = none

abbrev url? : Option String → Option String → Option String
url? (some t) (some i) = some (object_url t i)
url? _ _ = none

abbrev is_named : String → Option String → Bool
is_named n (some m) = str_eq m n
is_named n none = Bool.false

-- The URL of the first reference with the name.
unfoldable pub resolve : String → List Value → Option String
resolve n [] = none
resolve n (r ∷ rs) =
    if is_named n (text? (field? "name" r))
    then url? (text? (field? "type" r)) (text? (field? "id" r))
    else resolve n rs

unfoldable pub panel_target : Value → Option String
panel_target p = elim (text? (field? "panelRefName" p)) [
  | some n ↦ resolve n (elements references)
  | none ↦ none
]

-- The panels, in their order, show the visualizations, in the order in which they are created.
pub targets : map panel_target (elements panels) ≡ map (λ o. some (url_of o)) visualizations
unfolding panel_target resolve field? elements object_request object_url
targets = refl
