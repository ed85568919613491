-- ===== src/Http.antt =====
-- What the handlers use of Go's `net/http`: a request's fields, and a response writer as the record
-- of what was set and written. The header keys that the program sets are canonical already.
use whet.Base.{ℕ, [], ◌∷◌, ◌++◌, Option, Bytes, codes}
use whet.Base.Assoc.{Assoc, insert, delete}

pub record Request : Type 0 where
  pub method : Bytes
  pub path : Bytes
  pub proto : Bytes
  pub host : Bytes
  pub authorization : Bytes
  -- What `io.ReadAll(r.Body)` returns, with `none` for an error.
  pub content : Option Bytes

pub record Response : Type 0 where
  pub status : ℕ
  pub header : Assoc Bytes
  pub body : Bytes

-- A writer before anything is written: the status is 200 unless the handler sends another.
abbrev pub blank : Response
blank = record { status = 200; header = []; body = [] }

-- `w.Header().Set(key, value)`.
unfoldable pub set_header : Bytes → Bytes → Response → Response
unfolding insert
set_header key value w = record w { header = insert key value w.header }

-- `http.Error(w, message, status)`.
unfoldable pub http_error : Bytes → ℕ → Response → Response
unfolding set_header
http_error message status w =
    record (set_header (codes "X-Content-Type-Options") (codes "nosniff") (
      set_header (codes "Content-Type") (codes "text/plain; charset=utf-8")
        (record w { header = delete (codes "Content-Length") w.header }))) {
          status = status;
          body = w.body ++ (message ++ b'\n' ∷ []);
        }
