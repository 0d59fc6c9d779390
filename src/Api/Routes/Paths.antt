-- ===== src/Api/Routes/Paths.antt =====
-- The paths that the load generator requests, and the handlers that they reach.
use text.Mathlib.TextLemmas.{append_assoc, nil-append, cons-append}
use Prim.Native.Char.{code}
use cdc_pipeline.Base.{
  String, ◌<>◌, ◌≡◌, refl, ap, ◌∙◌, Bool, true, false, not, ◌&&◌, some, arith, ◌==◌,
}
use cdc_pipeline.Api.Routes.{
  status_of, segment, strip_prefix, path_prefix, suffix_route, member_route, route,
}

-- A text that is one segment of a path.
abbrev pub is_segment : String → Bool
is_segment String.[] = true
is_segment (String.◌∷◌ c s) = not (code c == 47) && is_segment s

strip_prefix-append : (p s : String) → strip_prefix p (p <> s) ≡ some s
unfolding strip_prefix
strip_prefix-append String.[] s = ap some (nil-append s)
strip_prefix-append (String.◌∷◌ c p) s =
    rw (cons-append c p s) (ground (arith, strip_prefix-append p s))

segment-append : (id : String) → is_segment id ≡ true → segment (id <> "/status") ≡ (id, "/status")
unfolding segment
segment-append String.[] h = rw (nil-append "/status") refl
segment-append (String.◌∷◌ c id) h =
    rw (cons-append c id "/status") (ground (arith, segment-append id))

-- An identifier that a path can hold.
abbrev pub is_id : String → Bool
is_id String.[] = false
is_id (String.◌∷◌ c s) = not (code c == 47) && is_segment s

member_route-status : (id : String) → is_id id ≡ true → member_route (id, "/status") ≡ status_of id
unfolding member_route
member_route-status String.[] h = cc
member_route-status (String.◌∷◌ c s) h = refl

is_id-segment : (id : String) → is_id id ≡ true → is_segment id ≡ true
is_id-segment String.[] h = refl
is_id-segment (String.◌∷◌ c s) h = h

suffix_route-status :
    (id : String) → is_id id ≡ true → suffix_route ("/" <> (id <> "/status")) ≡ status_of id
unfolding suffix_route
suffix_route-status id h = rw (cons-append "/" "" (id <> "/status")) (
    rw (nil-append (id <> "/status"))
      (rw (segment-append id (is_id-segment id h)) (member_route-status id h)))

pub route-status :
    (id : String) → is_id id ≡ true → route ("/api/v1/orders/" <> (id <> "/status")) ≡ status_of id
unfolding route
route-status id h =
    ap route (append_assoc path_prefix "/" (id <> "/status"))
    ∙ rw (strip_prefix-append path_prefix ("/" <> (id <> "/status")), route)
        (suffix_route-status id h)
