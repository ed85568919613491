-- ===== src/Server/Serving.antt =====
-- pkg/server.go: `StartWithListener`, `StartWithAddress` and `Close`. HTTP servers and net listeners are
-- numbers. A server that is closed closes the net listeners that it serves; the package's `http.Serve`
-- makes a server of its own. A start is looked at once its goroutine has called `Serve`.
pub mod Stopping
mod Tests
use whet.Base.{
  ℕ, suc, ◌+◌, Bool, false, ◌&&◌, ◌||◌, List, [], ◌∷◌, Option, none, some, Bytes, ◌==◌,
  if◌then◌else◌,
}
use whet.Server.Listeners.{WhetListener, Done, fine, panicked, close_listener}

pub record Service : Type 0 where
  -- `ws.Http`, `none` for nil.
  pub http : Option ℕ
  pub addr : Bytes
  -- `ws.Listeners`, in the order of the iteration.
  pub listeners : List WhetListener
  -- How many HTTP servers were made; the next one is this number.
  pub servers : ℕ
  -- Which server serves which net listener.
  pub serves : List (ℕ × ℕ)
  -- The net listeners that are open.
  pub accepting : List ℕ

-- A blocking call that serves does not return.
pub data Started : Type 0 where
  still_serving returns_nil returns_error : Started

unfoldable pub is_in : ℕ → List ℕ → Bool
is_in l [] = false
is_in l (m ∷ ms) = l == m || is_in l ms

unfoldable pub tracks : ℕ → ℕ → List (ℕ × ℕ) → Bool
tracks h l [] = false
tracks h l ((h', l') ∷ more) = h == h' && l == l' || tracks h l more

-- `ws.Http = &http.Server{...}`.
abbrev pub make_http : Service → Service
make_http s = record s { http = some s.servers; servers = suc s.servers }

-- `Serve` of a server on a net listener.
abbrev pub serve_on : ℕ → ℕ → Service → Service
serve_on h l s = record s { serves = (h, l) ∷ s.serves }

-- `http.Serve(listener, ws.Mux)`.
abbrev pub serve_alone : ℕ → Service → Service
serve_alone l s = serve_on s.servers l (record s { servers = suc s.servers })

abbrev pub started : Bool → Started
started block = if block then still_serving else returns_nil

-- `StartWithListener`; a net listener that is closed already is an error.
unfoldable pub start_with_listener : ℕ → Bytes → Bool → Service → Started × Service
start_with_listener l addr block s =
    let made = make_http (record s { addr = addr }) in
    if is_in l s.accepting
    then (started block, if block then serve_on s.servers l made else serve_alone l made)
    else (returns_error, made)

-- `StartWithAddress`; the first argument is the net listener that `ListenAndServe` opens, if it can.
unfoldable pub start_with_address : Option ℕ → Bytes → Bool → Service → Started × Service
start_with_address none addr block s = (returns_error, make_http (record s { addr = addr }))
start_with_address (some l) addr block s =
    let made = make_http (record s { addr = addr; accepting = l ∷ s.accepting }) in
    (started block, serve_on s.servers l made)

-- The net listeners that are left when a server closes its own.
unfoldable pub close_tracked : ℕ → List (ℕ × ℕ) → List ℕ → List ℕ
close_tracked h serves [] = []
close_tracked h serves (l ∷ ls) =
    let rest = close_tracked h serves ls in if tracks h l serves then rest else l ∷ rest

after_close :
    Done
    → ℕ
    → WhetListener
    → List WhetListener
    → Done × ℕ × List WhetListener
    → Done × ℕ × List WhetListener
after_close fine n l ls rest = (rest.0, n + rest.1, l ∷ rest.2)
after_close panicked n l ls rest = (panicked, n, l ∷ ls)

-- The loop over the listeners; a panic ends it. The number says how many handlers' goroutines, blocked in
-- a send, panic because their channel is closed under them; any of them ends the process.
unfoldable pub close_all : List WhetListener → Done × ℕ × List WhetListener
unfolding after_close
close_all [] = (fine, 0, [])
close_all (l ∷ ls) =
    let rest = close_all ls in
    let closed = close_listener l in after_close closed.0 closed.1 closed.2 ls rest

-- `ws.Http.Close()` panics if `ws.Http` is nil.
close_http : Option ℕ → ℕ → Service → Done × ℕ × Service
unfolding close_tracked
close_http none n s = (panicked, n, s)
close_http (some h) n s = (fine, n, record s { accepting = close_tracked h s.serves s.accepting })

then_close : Done → ℕ → List WhetListener → Service → Done × ℕ × Service
unfolding close_http
then_close fine n ls s = close_http s.http n (record s { listeners = ls })
then_close panicked n ls s = (panicked, n, record s { listeners = ls })

-- `Close`, with the number of the goroutines that panic meanwhile.
unfoldable pub close_server : Service → Done × ℕ × Service
unfolding then_close close_all
close_server s = let closed = close_all s.listeners in then_close closed.0 closed.1 closed.2 s
