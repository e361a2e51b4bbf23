-- ===== src/Client/Exchange.antt =====
-- do, DoJSON and DoRaw of pipedrive/client.go. The world is the clock, the cache, the requests sent
-- so far and the waits of the client's limiters. The upstream, how long a limiter waits, the bolt
-- file, SHA-256 and JSON are services.
use mathlib.Core.List.{List, ◌∷◌}
use Prim.Native.String.{◌++◌}
use mcp_pipedrive.Client.{Client, Request}
use mcp_pipedrive.Config.{AuthMode}
use mcp_pipedrive.Cache.Bucket.{Bolt}
use mcp_pipedrive.Client.Limiter.{Rate, Wait, wait_all}
use mcp_pipedrive.Prelude.{Bool, Option, String, if◌then◌else◌, leb, none, some, ℕ, ◌+◌}
use mcp_pipedrive.Query.{set}
use mcp_pipedrive.Result.{Error, Result, api, err, ok, ◌>>=◌}
use mcp_pipedrive.Value.{Value, null}

pub record World (Db : Type 0) : Type 0 where
  pub now : ℕ
  pub cache : Option Db
  pub sent : List Request
  pub waits : List Wait

pub record Response : Type 0 where
  pub status_code : ℕ
  pub status : String
  pub body : String
  pub content_type : String

-- `send` is http.Client.Do at a time and after some requests: how long it takes, and its outcome.
-- `decode_json` reads the value that a body begins with, as a json.Decoder does, `unmarshal` is
-- json.Unmarshal, and `show_value` is what %v prints.
pub record Services (Db : Type 0) : Type 0 where
  pub bolt : Bolt Db
  pub send : ℕ → List Request → Request → ℕ × Result Response
  pub wait : Rate → List Wait → ℕ → ℕ × Option Error
  pub url_error : String → String → Option Error
  pub sha256_hex : String → String
  pub marshal : Value → String
  pub decode_json : String → Result Value
  pub unmarshal : String → Option Value
  pub show_value : Value → String

authorize : Client → Request → Request
authorize c req = elim c.auth_mode [
  | AuthMode.oauth ↦ record req {
    headers = set "Authorization" ("Bearer " ++ c.oauth_token) req.headers;
  }
  | _ ↦ req
]

module _ {Db : Type 0} (services : Services Db) where
  -- do, behind the wait for the limiters: its time and its error
  unfoldable pub deliver :
      Client → Request → World Db → ℕ → Option Error → World Db × Result Response
  unfolding authorize
  deliver c req w woken (some e) = (record w { now = woken }, err e)
  deliver c req w woken none =
      let authorized = authorize c req in
      let (elapsed, outcome) = services.send woken w.sent authorized in
      (record w { now = woken + elapsed; sent = authorized ∷ w.sent }, outcome)

  -- do
  unfoldable pub do_request : Client → Request → World Db → World Db × Result Response
  unfolding deliver wait_all
  do_request c req w =
      let ((woken, waits), failure) = wait_all services.wait c.limiter w.waits w.now in
      deliver c req (record w { waits = waits }) woken failure

  abbrev api_error : Response → Error
  api_error r = api (record { status_code = r.status_code; status = r.status; body = r.body })

  -- what DoJSON makes of a response; without `out` nothing is decoded
  unfoldable pub read_json : Bool → Response → Result Value
  read_json out r =
      if leb 300 r.status_code
      then err (api_error r)
      else if out
      then services.decode_json r.body
      else ok null

  -- DoJSON
  unfoldable pub do_json : Client → Request → Bool → World Db → World Db × Result Value
  unfolding do_request read_json
  do_json c req out w = let (w', r) = do_request c req w in (w', r >>= read_json out)

  -- DoRaw, whose body is read without failure
  unfoldable pub do_raw : Client → Request → World Db → World Db × Result (String × String)
  unfolding do_request
  do_raw c req w =
      let (w', r) = do_request c req w in
      (
        w',
        r >>= λ resp.
            if leb 300 resp.status_code
            then err (api_error resp)
            else ok (resp.body, resp.content_type),
      )
