-- ===== src/Server/Guards.antt =====
-- Requests that are refused: what they answer, and that they change nothing.
use whet.Base.{◌≡◌, ◌≢◌, [], ◌++◌, arith, Bytes, codes, Option, bytes_eq_iff}
use whet.Http.{Request, blank, http_error}
use whet.Server.State.{WhetServer, World}
use whet.Server.Select.{authorize}
use whet.Server.Handler.{Webrtc, cors, post, whet_handler}

-- A request that is to be refused.
pub record IsIntruder (s : WhetServer) (r : Request) : Type 0 where
  pub posts : r.method ≡ codes "POST"
  pub guarded : s.bearer_token ≢ []
  pub wrong : r.authorization ≢ codes "Bearer " ++ s.bearer_token

-- A POST whose Authorization header is not the bearer token that is set is answered 401, whatever its
-- path and body, and changes nothing.
pub intruder_refused :
    (api : Webrtc) (parse_uuid : Bytes → Option Bytes) (uuid : Bytes) (r : Request) (w : World)
    → IsIntruder w.server r
    → whet_handler api parse_uuid uuid r w ≡ (http_error (codes "Unauthorized") 401 (cors blank), w)
unfolding whet_handler post authorize
intruder_refused api parse_uuid uuid r w h = ground (
  arith,
  h.guarded,
  h.wrong,
  bytes_eq_iff r.method (codes "POST"),
  bytes_eq_iff w.server.bearer_token [],
  bytes_eq_iff r.authorization (codes "Bearer " ++ w.server.bearer_token),
)
