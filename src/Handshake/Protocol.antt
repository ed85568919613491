-- ===== src/Handshake/Protocol.antt =====
-- Both sides of the detached handshake together, over two ordered channels, with the server's dial of
-- the target beside it: pkg/handshake.go, and `OnOpen` in pkg/server.go. If the dial fails the server
-- writes "SERVER_ERROR" to the same channel and closes the peer.
use whet.Base.{
  Bool, true, false, codes, ◌≤◌, List, ◌≡◌, [], ◌++◌, Bytes, ◌∷◌, if◌then◌else◌, bytes_eq, arith,
  ◌≢◌, ℕ, ◌+◌, refl,
}
use whet.Handshake.{ready_message, is_ready_message}

-- About to send its signal; waiting for the peer's; past the handshake; failed.
pub data Stage : Type 0 where
  starting waiting ready refused : Stage

-- The target is being dialled; it is dialled; it could not be, and the client is told so.
pub data Dial : Type 0 where
  dialling dialled undialled : Dial

abbrev pub server_error : Bytes
server_error = codes "SERVER_ERROR"

pub record Session : Type 0 where
  pub server : Stage
  pub client : Stage
  pub to_client : List Bytes
  pub to_server : List Bytes
  pub dial : Dial

-- `performServerHandshake` sends and then waits, `performClientHandshake` waits and then sends.
abbrev pub opening : Session
opening = record {
  server = starting;
  client = waiting;
  to_client = [];
  to_server = [];
  dial = dialling;
}

-- The peer is closed: a side that is in its handshake fails at its read or its write.
abbrev pub cut : Stage → Stage
cut ready = ready
cut _ = refused

abbrev pub is_over : Stage → Bool
is_over ready = true
is_over refused = true
is_over _ = false

-- The steps of both sides; one that is past its handshake sends and receives data, the server from when
-- the target is dialled.
pub data Step (s : Session) : Session → Type 0 where
  server_signals :
      s.server ≡ starting
      → Step s (record s { server = waiting; to_client = s.to_client ++ ready_message ∷ [] })
  client_reads :
      (m : Bytes) (rest : List Bytes)
      → s.client ≡ waiting
      → s.to_client ≡ m ∷ rest
      → Step s
          (record s { client = if is_ready_message m then starting else refused; to_client = rest })
  client_signals :
      s.client ≡ starting
      → Step s (record s { client = ready; to_server = s.to_server ++ ready_message ∷ [] })
  server_reads :
      (m : Bytes) (rest : List Bytes)
      → s.server ≡ waiting
      → s.to_server ≡ m ∷ rest
      → Step s
          (record s { server = if is_ready_message m then ready else refused; to_server = rest })
  server_sends :
      (m : Bytes)
      → s.server ≡ ready
      → s.dial ≡ dialled
      → Step s (record s { to_client = s.to_client ++ m ∷ [] })
  client_sends :
      (m : Bytes) → s.client ≡ ready → Step s (record s { to_server = s.to_server ++ m ∷ [] })
  server_receives :
      (m : Bytes) (rest : List Bytes)
      → s.server ≡ ready
      → s.to_server ≡ m ∷ rest
      → Step s (record s { to_server = rest })
  client_receives :
      (m : Bytes) (rest : List Bytes)
      → s.client ≡ ready
      → s.to_client ≡ m ∷ rest
      → Step s (record s { to_client = rest })
  dials : s.dial ≡ dialling → Step s (record s { dial = dialled })
  gives_up :
      s.dial ≡ dialling
      → Step s (record s { dial = undialled; to_client = s.to_client ++ server_error ∷ [] })
  server_cut : s.dial ≡ undialled → Step s (record s { server = cut s.server })
  client_cut : s.dial ≡ undialled → Step s (record s { client = cut s.client })

pub data Reach (s : Session) : Session → Type 0 where
  here : Reach s s
  next : {t u : Session} → Reach s t → Step t u → Reach s u

-- What the channels hold in each pair of stages; the other pairs do not occur.
abbrev Fits : Stage → Stage → List Bytes → List Bytes → Type 0
Fits starting waiting tc ts = (tc ≡ []) × (ts ≡ [])
Fits waiting waiting tc ts = (tc ≡ ready_message ∷ []) × (ts ≡ [])
Fits waiting starting tc ts = (tc ≡ []) × (ts ≡ [])
Fits waiting ready tc ts = (tc ≡ []) × ((rest : List Bytes) × (ts ≡ ready_message ∷ rest))
Fits ready ready tc ts = Unit
Fits _ _ tc ts = ⊥

abbrev pub is_undialled : Dial → Bool
is_undialled undialled = true
is_undialled _ = false

IsJoint : Session → Type 0
IsJoint s = is_undialled s.dial ≡ false → Fits s.server s.client s.to_client s.to_server

Step-IsJoint : {s t : Session} → Step s t → IsJoint s → IsJoint t
unfolding IsJoint bytes_eq
Step-IsJoint (server_signals e) b = ground arith
Step-IsJoint (client_reads m rest e f) b = ground arith
Step-IsJoint (client_signals e) b = ground arith
Step-IsJoint (server_reads m rest e f) b = ground arith
Step-IsJoint (server_sends m e d) b = ground arith
Step-IsJoint (client_sends m e) b = ground arith
Step-IsJoint (server_receives m rest e f) b = ground arith
Step-IsJoint (client_receives m rest e f) b = ground arith
Step-IsJoint (dials e) b = ground (arith, e)
Step-IsJoint (gives_up e) b = ground (arith, e)
Step-IsJoint (server_cut e) b = ground (arith, e)
Step-IsJoint (client_cut e) b = ground (arith, e)

Reach-IsJoint : {s t : Session} → IsJoint s → Reach s t → IsJoint t
Reach-IsJoint b here = b
Reach-IsJoint b (next r st) = Step-IsJoint st (Reach-IsJoint b r)

opening-IsJoint : IsJoint opening
unfolding IsJoint
opening-IsJoint e = (refl, refl)

undialled_iff : (d : Dial) → d ≢ undialled → is_undialled d ≡ false
undialled_iff dialling h = refl
undialled_iff dialled h = refl
undialled_iff undialled h = absurd (h refl)

-- However the steps interleave, data of a side that is past its handshake included, neither handshake
-- has failed in a session in which the dial of the target has not.
pub never_refused :
    (s : Session)
    → Reach opening s
    → s.dial ≢ undialled
    → (s.server ≢ refused) × (s.client ≢ refused)
unfolding IsJoint
never_refused s r d =
    let b = Reach-IsJoint opening-IsJoint r (undialled_iff s.dial d) in
    (λ e. ground (arith, b), λ e. ground (arith, b))

-- The handshake steps that each side has still to make.
abbrev pub left_server : Stage → ℕ
left_server starting = 2
left_server waiting = 1
left_server _ = 0

abbrev pub left_client : Stage → ℕ
left_client waiting = 2
left_client starting = 1
left_client _ = 0

abbrev pub remaining : Session → ℕ
remaining s = left_server s.server + left_client s.client

abbrev pub Advances : Session → Type 0
Advances s = (t : Session) × Step s t × (remaining t + 1 ≤ remaining s)
