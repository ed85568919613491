-- ===== src/Server/Health.antt =====
-- pkg/serverapi.go: `healthHandler`. The body's JSON is that of `json.NewEncoder`, whose map keys are
-- sorted; `now` is the Unix time.
use whet.Base.{ℕ, ◌++◌, Bytes, codes, bytes_eq, if◌then◌else◌}
use whet.Decimal.{itoa_ℕ}
use whet.Http.{Request, Response, blank, set_header, http_error}

abbrev health_json : ℕ → Bytes
health_json now = codes "{\"status\":\"ok\",\"timestamp\":" ++ (itoa_ℕ now ++ codes "}\n")

unfoldable pub health_handler : ℕ → Request → Response
unfolding set_header http_error
health_handler now r =
    if bytes_eq r.method (codes "OPTIONS")
    then set_header (codes "Access-Control-Allow-Headers") (codes "Content-Type, Authorization") (
        set_header (codes "Access-Control-Allow-Methods") (codes "GET, OPTIONS")
          (set_header (codes "Access-Control-Allow-Origin") (codes "*") blank))
    else if bytes_eq r.method (codes "GET")
    then record (set_header (codes "Content-Type") (codes "application/json")
        (set_header (codes "Access-Control-Allow-Origin") (codes "*") blank)) {
          body = health_json now;
        }
    else http_error (codes "Method not allowed") 405 blank
