-- ===== src/Http.antt =====
-- `urllib.request` against a server that the repository does not contain, and `print`.
use cdc_pipeline.Base.{ℕ, String, Bool, ◌&&◌, List, [], ◌∷◌, ◌++◌, ltb, leb, if◌then◌else◌}
use cdc_pipeline.Exec.{http_error, url_error, Outcome, ok, raised, Exec}

-- `method` is "POST" also where a script leaves it out and gives a body.
pub record Request : Type 0 where
  pub method : String
  pub url : String
  pub headers : List (String × String)
  pub body : String

-- A status and a body, after the redirects that urllib follows; or no connection, and why.
pub data Reply : Type 0 where
  reply : ℕ → String → Reply
  unreachable : String → Reply

-- Elasticsearch or Kibana: a parameter of the scripts.
pub record Server : Type 1 where
  pub State : Type 0
  pub respond : Request → State → Reply × State

-- What a script changes: the server, the lines on its standard output, and, for the statements, the
-- requests that it has made.
pub record World (S : Type 0) : Type 0 where
  pub server : S
  pub out : List String
  pub sent : List Request

abbrev pub is_success : ℕ → Bool
is_success status = leb 200 status && ltb status 300

abbrev pub Response : Type 0
Response = record { status : ℕ; text : String }

module _ {S : Type 0} where
  -- `print(line)`
  unfoldable pub print : String → Exec (World S) (Unit {0})
  print line w = (ok tt, record w { out = w.out ++ line ∷ [] })

  -- urllib raises `HTTPError` for any status outside 200..299.
  abbrev pub classify : Reply → World S → Outcome Response × World S
  classify (unreachable why) w = (raised (url_error why), w)
  classify (reply status text) w =
      if is_success status
      then (ok (record { status = status; text = text }), w)
      else (raised (http_error status text), w)

-- `urllib.request.urlopen(req)`
unfoldable pub urlopen : (V : Server) → Request → Exec (World V.State) Response
urlopen V req w =
    let (r, s) = V.respond req w.server in
    classify r (record w { server = s; sent = w.sent ++ req ∷ [] })
