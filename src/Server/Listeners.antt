-- ===== src/Server/Listeners.antt =====
-- pkg/server.go: `AddListener`, and `WhetListener` with its channel of connections. The channel has no
-- buffer: a send blocks until a receive takes it, and panics if the channel is closed or gets closed.
use whet.Base.{
  ℕ, Bool, true, false, ◌&&◌, ◌||◌, not, List, [], ◌∷◌, ◌++◌, Option, none, some, Bytes, bytes_eq,
  if◌then◌else◌, length, ltb, ◌==◌,
}
use whet.Base.Assoc.{insert}
use whet.Base.Int.{pos}
use whet.Strings.{has_prefix}
use whet.PortSpec.{listener, ForwardTargetPort}
use whet.Server.State.{WhetServer}
use whet.Server.Select.{whet_path}
use whet.Server.Routes.{Mux, is_registered}

pub record WhetListener : Type 0 where
  pub isopen : Bool
  -- The channel: whether it is closed, and the connections whose senders are blocked.
  pub is_closed : Bool
  pub senders : List ℕ

abbrev pub new_listener : WhetListener
new_listener = record { isopen = true; is_closed = false; senders = [] }

pub data Accepted : Type 0 where
  connection : ℕ → Accepted
  listener_closed : Accepted
  waits : Accepted

take_sender : List ℕ → WhetListener → Accepted × WhetListener
take_sender [] l = if l.is_closed then (listener_closed, l) else (waits, l)
take_sender (c ∷ cs) l = (connection c, record l { senders = cs })

-- `Accept`.
unfoldable pub accept : WhetListener → Accepted × WhetListener
unfolding take_sender
accept l = take_sender l.senders l

pub data Done : Type 0 where
  fine panicked : Done

-- `Close`. Closing a closed channel panics in the caller; the number says how many blocked senders
-- panic because the channel is closed under them.
unfoldable pub close_listener : WhetListener → Done × ℕ × WhetListener
close_listener l =
    if l.isopen
    then (if l.is_closed
        then (panicked, 0, l)
        else (fine, length l.senders, record { isopen = false; is_closed = true; senders = [] }))
    else (fine, 0, l)

-- `wl.ConnsChan <- conn`, as the handler does it for a new data channel.
unfoldable pub offer : ℕ → WhetListener → Done × WhetListener
offer c l =
    if l.is_closed then (panicked, l) else (fine, record l { senders = l.senders ++ c ∷ [] })

-- The last byte is a slash.
abbrev ends_in_slash : Bytes → Bool
ends_in_slash [] = false
ends_in_slash (c ∷ []) = c == b'/'
ends_in_slash (c ∷ d ∷ s) = ends_in_slash (d ∷ s)

-- A pattern that ends in a slash matches the paths below it; any other matches itself.
abbrev pub pattern_matches : Bytes → Bytes → Bool
pattern_matches pattern path =
    bytes_eq pattern path || ends_in_slash pattern && has_prefix pattern path

-- The longer of two patterns.
abbrev pub longer : Bytes → Bytes → Bytes
longer p q = if ltb (length q) (length p) then p else q

-- The longest pattern that matches the path, empty if there is none.
unfoldable pub best_pattern : Mux → Bytes → Bytes
best_pattern [] path = []
best_pattern ((p, r) ∷ mux) path =
    let best = best_pattern mux path in if pattern_matches p path then longer p best else best

-- The pattern that `mux.Handler` returns for a request of a clean path: the best one, but for a path
-- that is redirected to itself with a slash.
unfoldable pub handler_pattern : Mux → Bytes → Bytes
handler_pattern mux path =
    let best = best_pattern mux path in
    if not (bytes_eq best path) && is_registered (path ++ b'/' ∷ []) mux
    then path ++ b'/' ∷ []
    else best

-- The target that stands for a listener.
abbrev pub listener_target : Bytes → ForwardTargetPort
listener_target id = record {
  target_name = id;
  host = [];
  start_port = pos 0;
  port_count = pos 0;
  forward_target_type = listener;
}

-- `AddListener` for an ID of letters, digits and underscores, whose clean path is the ID behind a
-- slash. The listener object goes to a new place, `place`; `none` is the error.
unfoldable pub add_listener : Mux → Bytes → ℕ → WhetServer → Option WhetServer
add_listener mux id place s =
    if bytes_eq (handler_pattern mux (b'/' ∷ id)) (whet_path ++ id)
    then none
    else some (record s {
      targets = insert id (listener_target id) s.targets;
      listeners = insert id place s.listeners;
    })
