-- ===== src/Routing/Cards.antt =====
-- The cards of the dashboard that count log lines of one event, and where those lines go.
use cdc_pipeline.Base.{
  String, ◌≡◌, refl, ap, Option, none, some, str_eq, str_eq_refl, Bool-cases, inl, inr,
}
use cdc_pipeline.Json.{Value, str, Items, ◌▹◌, Fields, end, ◌⦂◌⨾◌, find_field, field?}
use cdc_pipeline.Kibana.{SavedObject}
use cdc_pipeline.Dashboard.Wiring.{text?}
use cdc_pipeline.Routing.{flatten, classify, append_field, added, log_type_of, index_for, index_of}

-- The index that a visualization searches: the id of its reference.
abbrev pub first_id : Option Items → Option String
first_id (some (r ▹ rs)) = text? (field? "id" r)
first_id _ = none

unfoldable pub card_index : SavedObject → Option String
unfolding field?
card_index o = first_id o.references

find_field-append_field :
    (k : String) (v : Value) (event : Fields)
    → find_field k event ≡ none
    → find_field k (append_field k v event) ≡ some v
unfolding find_field append_field
find_field-append_field k v end h = rw (str_eq_refl k) refl
find_field-append_field k v (j ⦂ w ⨾ rest) h = elim (Bool-cases (str_eq j k)) [
  | inl e ↦ cc (rw e at h)
  | inr e ↦ rw e (find_field-append_field k v rest (rw e at h))
]

-- A line without a `log_type` of its own goes where its event sends it.
pub index_of_lem :
    (event : Fields)
    → find_field "log_type" (flatten event) ≡ none
    → index_of event ≡ index_for (some (str (log_type_of (find_field "event" (flatten event)))))
unfolding index_of classify added
index_of_lem event h = rw h (
    ap index_for (
      find_field-append_field "log_type" (str (log_type_of (find_field "event" (flatten event))))
        (flatten event) h))
